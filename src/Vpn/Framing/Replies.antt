-- ===== src/Vpn/Framing/Replies.antt =====
-- What the server answers.
use linux.Common.{
  ℕ, ◌≤◌, ◌<◌, ◌≡◌, refl, ap, ◌∙◌, true, false, some, List, [], ◌∷◌, ◌++◌, ltb, ◌==◌, length, take,
  drop, arith, map, length-append, append_eq_take,
}
use linux.Vpn.Message.{
  int_bytes, type_of, Message, heartbeat, client_register, creace_tcp_channel, encode, IsMessage,
}
use linux.Vpn.Framing.{server_deal, returned, server_recv}
use linux.Vpn.Framing.Whole.{stream, AreMessages, replies_to, deal_loop-stream}

-- The server gives a client that registers its id.
abbrev pub server_changed : (client_id : ℕ) → Message → Message
server_changed client_id (client_register id mac name) = client_register client_id mac name
server_changed client_id heartbeat = heartbeat
server_changed client_id (creace_tcp_channel server_ip server_port client_ip client_port flag) =
    creace_tcp_channel server_ip server_port client_ip client_port flag

abbrev pub server_replies : (client_id : ℕ) → Message → List Message
server_replies client_id (client_register id mac name) = client_register client_id mac name ∷ []
server_replies client_id heartbeat = []
server_replies client_id (creace_tcp_channel server_ip server_port client_ip client_port flag) = []

-- The bytes with the connection's id stored.
abbrev with_id : ℕ → List ℕ → List ℕ
with_id client_id buff = take 4 buff ++ (int_bytes client_id ++ drop 8 buff)

server_deal-register :
    (client_id : ℕ) (buff : List ℕ)
    → type_of buff ≡ b'r'
    → 40 ≤ length buff
    → server_deal client_id buff
      ≡ some (with_id client_id buff, take 40 (with_id client_id buff) ∷ [])
unfolding server_deal
server_deal-register client_id buff e l =
    let enough : ltb (length buff) 40 ≡ false = ground (arith, l) in
    let is : (type_of buff == b'r') ≡ true = ground (arith, e) in rw (is, enough) refl

pub server_deals :
    (client_id : ℕ) (m : Message) (rest : List ℕ)
    → IsMessage m
    → server_deal client_id (encode m ++ rest)
      ≡ some (encode (server_changed client_id m) ++ rest, map encode (server_replies client_id m))
unfolding server_deal encode
server_deals client_id heartbeat rest v = refl
server_deals client_id (creace_tcp_channel server_ip server_port client_ip client_port flag) rest
      v =
    refl
server_deals client_id (client_register id mac name) rest v =
    let old = encode (client_register id mac name) in
    let new = encode (client_register client_id mac name) in
    let l : length (mac ++ name) ≡ 32 = omega (arith, length-append mac name, v.0, v.1) in
    server_deal-register client_id (old ++ rest) refl
      (omega (arith, length-append (mac ++ name) rest, l))
    ∙ ap (λ b. some (new ++ rest, b ∷ [])) (append_eq_take 40 new rest (omega (arith, l)))

pub server_same :
    (client_id : ℕ) (m : Message)
    → IsMessage m
    → length (encode (server_changed client_id m)) ≡ length (encode m)
unfolding encode
server_same client_id heartbeat v = refl
server_same client_id (creace_tcp_channel server_ip server_port client_ip client_port flag) v = refl
server_same client_id (client_register id mac name) v = refl

-- Where the received bytes are whole messages and fewer than 4 bytes behind them: after a round for
-- each message and one more, `on_recv_data` of the server returns the messages' length; the bytes
-- behind them are left; and it has sent, for each registration in order, that message with the
-- connection's id.
pub server_recv-stream :
    (client_id : ℕ) (ms : List Message) (rest : List ℕ) (fuel : ℕ)
    → AreMessages ms
    → length rest < 4
    → length ms < fuel
    → server_recv client_id fuel (stream ms ++ rest)
      ≡ returned (length (stream ms)) rest (replies_to (server_replies client_id) ms)
unfolding server_recv
server_recv-stream client_id ms rest fuel v s f =
    deal_loop-stream (server_deal client_id) (server_changed client_id) (server_replies client_id)
      (server_deals client_id) (server_same client_id) ms fuel rest 0 [] v s f
    ∙ ap (λ k. returned k rest (replies_to (server_replies client_id) ms)) (omega arith)
