-- ===== src/Vpn/Channels.antt =====
-- vpn/server/data_channel_server.cpp, `date_socket_accept`: the sockets that a channel accepts on its two
-- addresses, and how it joins them in pairs. A socket is a number; it comes from `get_clinet_info` with no
-- other end, and `accept` of the two addresses may come in any order.
pub mod Mates
pub mod Pairs
pub mod Accepted
use linux.Common.{
  ℕ, suc, Bool, true, false, Option, none, some, List, [], ◌∷◌, ◌++◌, ◌==◌, if◌then◌else◌,
}

-- `m_free_socket` and `m_busy_socket` of a `server_socket_info`
pub record Listening : Type 0 where
  pub free : List ℕ
  pub busy : List ℕ

-- What the sockets of a channel share: `m_ptr` of each, and those given to `add_eool`, in order.
pub record Sockets : Type 0 where
  pub m_ptr : ℕ → Option ℕ
  pub watched : List ℕ

-- A channel: its address outside, of `m_type` 1, and inside, its sockets, and the calls of
-- `send_create_channel_msg`.
pub record ChannelServer : Type 0 where
  pub outer : Listening
  pub inner : Listening
  pub sockets : Sockets
  pub asked : ℕ

-- `m_ptr = p` of the socket `info`.
unfoldable pub put : (ℕ → Option ℕ) → (info p : ℕ) → ℕ → Option ℕ
put m_ptr info p x = if x == info then some p else m_ptr x

-- The part behind the message, for the address of `own` with that of `remote` as its `m_p_removte`, and
-- the free sockets of `remote`.
unfoldable pub join :
    (is_out : Bool)
    → (info : ℕ) → (own remote : Listening) → Sockets
    → List ℕ
    → Listening × Listening × Sockets
join is_out info own remote s [] = (record own { free = own.free ++ (info ∷ []) }, remote, s)
join is_out info own remote s (re_info ∷ rest) = (
  record own { busy = own.busy ++ (info ∷ []) },
  record { free = rest; busy = remote.busy ++ (re_info ∷ []) },
  record {
    m_ptr = put (put s.m_ptr info re_info) re_info info;
    watched = s.watched ++ (if is_out then re_info ∷ info ∷ [] else info ∷ re_info ∷ []);
  },
)

-- `date_socket_accept`
unfoldable pub date_socket_accept : ChannelServer → (is_out : Bool) → (info : ℕ) → ChannelServer
date_socket_accept c true info =
    let r = join true info c.outer c.inner c.sockets c.inner.free in
    record { outer = r.0; inner = r.1; sockets = r.2; asked = suc c.asked }
date_socket_accept c false info =
    let r = join false info c.inner c.outer c.sockets c.outer.free in
    record { outer = r.1; inner = r.0; sockets = r.2; asked = c.asked }

-- The sockets that `run_accept` accepts, each with whether it is from outside.
unfoldable pub accept_all : ChannelServer → List (Bool × ℕ) → ChannelServer
accept_all c [] = c
accept_all c (a ∷ accepts) = accept_all (date_socket_accept c a.0 a.1) accepts

-- What `create_channel_server` has made.
abbrev pub new_channel : ChannelServer
new_channel = record {
  outer = record { free = []; busy = [] };
  inner = record { free = []; busy = [] };
  sockets = record { m_ptr = λ x. none; watched = [] };
  asked = 0;
}
