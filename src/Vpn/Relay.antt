-- ===== src/Vpn/Relay.antt =====
-- vpn/server/data_channel_server.cpp, `on_recv_data`: the bytes of one connection of a channel go to the
-- other one.
use linux.Common.{
  ℕ, min, Bool, true, Option, none, some, List, [], ◌∷◌, ◌++◌, ltb, if◌then◌else◌, length, take,
}
use linux.Vpn.Receive.{Handler}

-- What the connections do: whether the other connection is there, what `send` will return, `none` for -1
-- and a number that is cut to the bytes to send, the bytes sent so far, and whether the connection's own
-- end was asked for.
pub record Channel : Type 0 where
  pub remote : Bool
  pub sends : List (Option ℕ)
  pub sent : List ℕ
  pub closing : Bool

-- What the next call of `send` with `buff` returns, where `none` is -1.
abbrev pub accepted : List (Option ℕ) → List ℕ → Option ℕ
accepted [] buff = none
accepted (none ∷ sends) buff = none
accepted (some n ∷ sends) buff = some (min n (length buff))

abbrev pub later : List (Option ℕ) → List (Option ℕ)
later [] = []
later (o ∷ sends) = sends

-- The branch with a connection to send to: `buff` goes to `send`, which takes `len` bytes. What the call
-- returns, and the channel.
unfoldable pub forward : Channel → (buff : List ℕ) → Option ℕ → ℕ × Channel
forward c buff none = (length buff, record c { sends = later c.sends })
forward c buff (some len) =
    if ltb 0 len
    then (len, record c { sends = later c.sends; sent = c.sent ++ take len buff })
    else (length buff, record c { sends = later c.sends })

-- `on_recv_data`
unfoldable pub relay : Handler Channel
relay c buff =
    if c.remote
    then some (forward c buff (accepted c.sends buff))
    else some (length buff, record c { closing = true })
