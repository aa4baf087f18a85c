-- ===== src/Vpn/Framing/ClientReplies.antt =====
-- What the client answers.
use linux.Common.{
  ℕ, ◌≤◌, ◌<◌, ◌≡◌, refl, ap, ap₂, sym, ◌∙◌, Bool, true, false, ◌&&◌, some, List, [], ◌∷◌, ◌++◌,
  ltb, ◌==◌, if◌then◌else◌, length, take, drop, arith, map, append_assoc, length-append,
  append_eq_take, append_eq_drop,
}
use linux.Vpn.Message.{
  int_bytes, type_of, Message, heartbeat, client_register, creace_tcp_channel, encode, IsMessage,
  channel_bytes,
}
use linux.Vpn.Framing.{
  server_deal, client_deal, running, returned, need_len, server_recv, client_recv,
}
use linux.Vpn.Framing.Whole.{stream, AreMessages, replies_to, deal_loop-stream, deal_loop-partial}
use linux.Vpn.Framing.Replies.{server_changed, server_replies, server_deals, server_same}

module _ (server local : List ℕ → List ℕ → Bool) where
  -- Whether the client can connect to both addresses.
  abbrev pub connected : List ℕ → ℕ → List ℕ → ℕ → ℕ
  connected server_ip server_port client_ip client_port =
      if server server_ip (int_bytes server_port) && local client_ip (int_bytes client_port)
      then 1
      else 0

  abbrev pub client_changed : Message → Message
  client_changed heartbeat = heartbeat
  client_changed (client_register id mac name) = client_register id mac name
  client_changed (creace_tcp_channel server_ip server_port client_ip client_port flag) =
      creace_tcp_channel server_ip server_port client_ip client_port
        (connected server_ip server_port client_ip client_port)

  abbrev pub client_replies : Message → List Message
  client_replies heartbeat = []
  client_replies (client_register id mac name) = []
  client_replies (creace_tcp_channel server_ip server_port client_ip client_port flag) =
      creace_tcp_channel server_ip server_port client_ip client_port
        (connected server_ip server_port client_ip client_port)
      ∷ []

  -- The parts that the client reads of a channel message behind its head, and the bytes with the flag
  -- stored.
  abbrev asked : List ℕ → ℕ
  asked server_ip =
      let server_port = drop 32 server_ip in
      let client_ip = drop 4 server_port in
      let client_port = drop 32 client_ip in
      if server (take 32 server_ip) (take 4 server_port)
        && local (take 32 client_ip) (take 4 client_port)
      then 1
      else 0

  abbrev with_flag : List ℕ → List ℕ
  with_flag buff = take 76 buff ++ (int_bytes (asked (drop 4 buff)) ++ drop 80 buff)

  client_deal-channel :
      (buff : List ℕ)
      → type_of buff ≡ b't'
      → 80 ≤ length buff
      → client_deal server local buff ≡ some (with_flag buff, take 80 (with_flag buff) ∷ [])
  unfolding client_deal
  client_deal-channel buff e l =
      let enough : ltb (length buff) 80 ≡ false = ground (arith, l) in
      let is : (type_of buff == b't') ≡ true = ground (arith, e) in rw (is, enough) refl

  asked-connected :
      (server_ip : List ℕ) (server_port : ℕ) (client_ip : List ℕ) (client_port : ℕ) (rest : List ℕ)
      → length server_ip ≡ 32
      → length client_ip ≡ 32
      → asked
          (server_ip ++ (int_bytes server_port ++ (client_ip ++ (int_bytes client_port ++ rest))))
        ≡ connected server_ip server_port client_ip client_port
  asked-connected server_ip server_port client_ip client_port rest ls lc =
      let behind = client_ip ++ (int_bytes client_port ++ rest) in
      let ports = int_bytes server_port ++ behind in
      rw
        (
          append_eq_take 32 server_ip ports ls,
          append_eq_drop 32 server_ip ports ls,
          append_eq_take 32 client_ip (int_bytes client_port ++ rest) lc,
          append_eq_drop 32 client_ip (int_bytes client_port ++ rest) lc,
        )
        refl

  client_deals :
      (m : Message) (rest : List ℕ)
      → IsMessage m
      → client_deal server local (encode m ++ rest)
        ≡ some (encode (client_changed m) ++ rest, map encode (client_replies m))
  unfolding client_deal encode
  client_deals heartbeat rest v = refl
  client_deals (client_register id mac name) rest v = refl
  client_deals (creace_tcp_channel server_ip server_port client_ip client_port flag) rest v =
      let front = channel_bytes server_ip server_port client_ip client_port in
      let old = encode (creace_tcp_channel server_ip server_port client_ip client_port flag) in
      let new = encode (
        creace_tcp_channel server_ip server_port client_ip client_port
          (connected server_ip server_port client_ip client_port)) in
      let body = client_ip ++ int_bytes client_port in
      let l : length front ≡ 76 = omega (
        arith,
        v.0,
        v.1,
        length-append server_ip (int_bytes server_port ++ body),
        length-append client_ip (int_bytes client_port),
      ) in
      let lo : length old ≡ 80 = omega (arith, l, length-append front (int_bytes flag)) in
      let ln : length new ≡ 80 = omega (
        arith,
        l,
        length-append front (int_bytes (connected server_ip server_port client_ip client_port)),
      ) in
      let flat : drop 4 (old ++ rest)
          ≡ server_ip
            ++ (int_bytes server_port
                ++ (client_ip ++ (int_bytes client_port ++ (int_bytes flag ++ rest)))) =
        ap (λ b. b ++ rest)
          (append_assoc server_ip (int_bytes server_port ++ body) (int_bytes flag))
        ∙ append_assoc server_ip ((int_bytes server_port ++ body) ++ int_bytes flag) rest
        ∙ ap (λ b. server_ip ++ (int_bytes server_port ++ (b ++ rest)))
            (append_assoc client_ip (int_bytes client_port) (int_bytes flag))
        ∙ ap (λ b. server_ip ++ (int_bytes server_port ++ b))
            (append_assoc client_ip (int_bytes client_port ++ int_bytes flag) rest) in
      let read : asked (drop 4 (old ++ rest))
          ≡ connected server_ip server_port client_ip client_port =
        ap asked flat
        ∙ asked-connected server_ip server_port client_ip client_port (int_bytes flag ++ rest) v.0
            v.1 in
      let kept : take 76 (old ++ rest) ≡ front =
        ap (λ b. take 76 b) (append_assoc front (int_bytes flag) rest)
        ∙ append_eq_take 76 front (int_bytes flag ++ rest) l in
      let stored : with_flag (old ++ rest) ≡ new ++ rest =
        ap₂ (λ b c. b ++ c) kept
          (ap₂ (λ k b. int_bytes k ++ b) read (append_eq_drop 80 old rest lo))
        ∙ sym (
            append_assoc front (int_bytes (connected server_ip server_port client_ip client_port))
              rest) in
      client_deal-channel (old ++ rest) refl (omega (arith, lo, length-append old rest))
      ∙ ap (λ b. some (b, take 80 b ∷ [])) stored
      ∙ ap (λ b. some (new ++ rest, b ∷ [])) (append_eq_take 80 new rest ln)

  client_same : (m : Message) → IsMessage m → length (encode (client_changed m)) ≡ length (encode m)
  unfolding encode
  client_same heartbeat v = refl
  client_same (client_register id mac name) v = refl
  client_same (creace_tcp_channel server_ip server_port client_ip client_port flag) v =
      let front = channel_bytes server_ip server_port client_ip client_port in
      length-append front (int_bytes (connected server_ip server_port client_ip client_port))
      ∙ sym (length-append front (int_bytes flag))

  -- Where the received bytes are whole messages and fewer than 4 bytes behind them: after a round for
  -- each message and one more, `on_recv_data` of the client returns the messages' length; the bytes
  -- behind them are left; and it has sent, for each request of a channel in order, that message with a
  -- flag that tells whether both addresses could be connected to.
  pub client_recv-stream :
      (ms : List Message) (rest : List ℕ) (fuel : ℕ)
      → AreMessages ms
      → length rest < 4
      → length ms < fuel
      → client_recv server local fuel (stream ms ++ rest)
        ≡ returned (length (stream ms)) rest (replies_to client_replies ms)
  unfolding client_recv
  client_recv-stream ms rest fuel v s f =
      deal_loop-stream (client_deal server local) client_changed client_replies client_deals
        client_same ms fuel rest 0 [] v s f
      ∙ ap (λ k. returned k rest (replies_to client_replies ms)) (omega arith)

  -- Where whole messages are followed by a head and not all of the body that it announces, the loops of
  -- the server and of the client never end: they still run after any number of rounds.
  pub recv-part_of_message :
      (client_id : ℕ) (ms : List Message) (rest : List ℕ) (fuel : ℕ)
      → AreMessages ms
      → 4 ≤ length rest
      → length rest < need_len rest
      → (server_recv client_id fuel (stream ms ++ rest) ≡ running)
        × (client_recv server local fuel (stream ms ++ rest) ≡ running)
  unfolding server_recv client_recv
  recv-part_of_message client_id ms rest fuel v h p = (
    deal_loop-partial (server_deal client_id) (server_changed client_id) (server_replies client_id)
        (server_deals client_id) (server_same client_id) ms fuel rest 0 [] v h p,
    deal_loop-partial (client_deal server local) client_changed client_replies client_deals
        client_same ms fuel rest 0 [] v h p,
  )
