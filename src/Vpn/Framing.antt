-- ===== src/Vpn/Framing.antt =====
-- `on_recv_data` of vpn/server/business_server.cpp and of vpn/client/vnp_client.cpp: taking the messages
-- from the bytes that a socket has received. `buff` has the bytes from the pointer of that name on, up
-- to the last one received.
pub mod Whole
pub mod Replies
pub mod ClientReplies
use linux.Common.{
  ℕ, zero, suc, ◌+◌, Bool, ◌&&◌, Option, none, some, List, [], ◌∷◌, ◌++◌, ltb, ◌==◌, if◌then◌else◌,
  length, take, drop,
}
use linux.Vpn.Message.{
  head_size, register_size, channel_size, register_type, channel_type, int_bytes, body_len, type_of,
}

-- What a message makes of the bytes, and the messages sent; `none` is an access behind the received
-- bytes.
abbrev pub Deal : Type 0
Deal = List ℕ → Option (List ℕ × List (List ℕ))

-- `deal_data` of the server, with the client id that `on_connected` gave the connection:
-- `deal_client_register` stores the id in the message and sends it back.
unfoldable pub server_deal : (client_id : ℕ) → Deal
server_deal client_id buff =
    let buff' = take 4 buff ++ (int_bytes client_id ++ drop 8 buff) in
    if type_of buff == register_type
    then (if ltb (length buff) register_size
        then none
        else some (buff', take register_size buff' ∷ []))
    else some (buff, [])

-- `deal_data` of the client: `wait_create_tcp_channel` connects to both addresses and sends the message
-- back with the flag. Whether the bytes of an address and of a port can be connected to is a parameter.
unfoldable pub client_deal : (server local : List ℕ → List ℕ → Bool) → Deal
client_deal server local buff =
    let server_ip = drop 4 buff in
    let server_port = drop 32 server_ip in
    let client_ip = drop 4 server_port in
    let client_port = drop 32 client_ip in
    let connected =
      server (take 32 server_ip) (take 4 server_port)
      && local (take 32 client_ip) (take 4 client_port) in
    let buff' = take 76 buff ++ (int_bytes (if connected then 1 else 0) ++ drop 80 buff) in
    if type_of buff == channel_type
    then (if ltb (length buff) channel_size
        then none
        else some (buff', take channel_size buff' ∷ []))
    else some (buff, [])

-- What the loop does: it still runs when its fuel ends, it accesses bytes behind the received ones, or
-- it returns the bytes dealt with, with those left and what it has sent.
pub data Received : Type 0 where
  running outside : Received
  returned : (deal_len : ℕ) → (buff : List ℕ) → (sent : List (List ℕ)) → Received

-- `need_len`
abbrev pub need_len : List ℕ → ℕ
need_len buff = body_len buff + head_size

-- The loop of `on_recv_data`.
unfoldable pub deal_loop :
    Deal → (fuel : ℕ) → (buff : List ℕ) → (deal_len : ℕ) → (sent : List (List ℕ)) → Received
deal_loop deal zero buff deal_len sent = running
deal_loop deal (suc fuel) buff deal_len sent =
    let again = deal_loop deal fuel buff deal_len sent in
    let dealt : Received = elim (deal buff) [
      | none ↦ outside
      | some (buff', out) ↦
          deal_loop deal fuel (drop (need_len buff) buff') (deal_len + need_len buff) (sent ++ out)
    ] in
    if ltb (length buff) head_size
    then returned deal_len buff sent
    else if ltb (length buff) (need_len buff)
    then again
    else dealt

-- `on_recv_data` of the server and of the client
unfoldable pub server_recv : (client_id fuel : ℕ) → List ℕ → Received
server_recv client_id fuel buff = deal_loop (server_deal client_id) fuel buff 0 []

unfoldable pub client_recv :
    (server local : List ℕ → List ℕ → Bool) → (fuel : ℕ) → List ℕ → Received
client_recv server local fuel buff = deal_loop (client_deal server local) fuel buff 0 []
