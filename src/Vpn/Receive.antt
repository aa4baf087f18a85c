-- ===== src/Vpn/Receive.antt =====
-- vpn/com_lib/net_lib: what `run_epoll` of sh_socket_server.cpp, sh_socket_server_accept.cpp and
-- sh_socket_client.cpp does with a socket that can be read, over the buffer of sh_socket_define.h. The
-- results of `recv` are a parameter; `buff` has the `m_buff_len` received bytes at the start of `m_buff`.
use linux.Common.{
  ℕ, ◌-◌, min, take, drop, Option, some, List, [], ◌∷◌, ◌++◌, ltb, if◌then◌else◌, length, ◌>>=◌,
}

-- `m_capacity`
abbrev pub capacity : ℕ
capacity = 8192

-- What `recv` does: EAGAIN or EWOULDBLOCK, another error, or up to `n` of the bytes to come. It gives none
-- where the other side has closed the connection, or there is no room.
pub data Recv : Type 0 where
  again failure : Recv
  ready : (n : ℕ) → Recv

-- `on_recv_data` of a handler with a state of its own that leaves the buffer as it is: the number that it
-- returns. `none` is a call that does not return.
abbrev pub Handler : Type 0 → Type 0
Handler S = S → List ℕ → Option (ℕ × S)

-- A socket: open with its received bytes, or closed with `on_disconnected` or with `on_a_disconnected`.
pub data Socket : Type 0 where
  open_socket : (buff : List ℕ) → Socket
  disconnected aborted : Socket

-- The received bytes behind `on_recv_data`, which returned `use_len`: `memmove` brings the bytes from that
-- index on to the start, and `m_buff_len` becomes smaller by as many.
unfoldable pub keep : (use_len : ℕ) → (buff : List ℕ) → List ℕ
keep use_len buff =
    if ltb use_len (length buff) then (if ltb 0 use_len then drop use_len buff else buff) else []

module _ {S : Type 0} (handler : Handler S) where
  -- The branch behind `recv`, with the bytes that it gave.
  unfoldable pub take_bytes : (got buff : List ℕ) → S → Option (Socket × S)
  take_bytes [] buff s = some (disconnected, s)
  take_bytes (c ∷ cs) buff s = do
    (use_len, s') ← handler s (buff ++ (c ∷ cs))
    some (open_socket (keep use_len (buff ++ (c ∷ cs))), s')

  -- The branch for EPOLLIN, with the bytes that are still to come.
  unfoldable pub receive : Recv → (coming buff : List ℕ) → S → Option (Socket × List ℕ × S)
  receive again coming buff s = some (open_socket buff, coming, s)
  receive failure coming buff s = some (aborted, coming, s)
  receive (ready n) coming buff s = do
    let len = min n (capacity - length buff)
    (k, s') ← take_bytes (take len coming) buff s
    some (k, drop len coming, s')

  -- One event after the other, as long as the socket is open.
  unfoldable pub receive_all :
      List Recv → Socket → (coming : List ℕ) → S → Option (Socket × List ℕ × S)
  receive_all [] k coming s = some (k, coming, s)
  receive_all (r ∷ rs) (open_socket buff) coming s = do
    (k, coming', s') ← receive r coming buff s
    receive_all rs k coming' s'
  receive_all (r ∷ rs) disconnected coming s = some (disconnected, coming, s)
  receive_all (r ∷ rs) aborted coming s = some (aborted, coming, s)
