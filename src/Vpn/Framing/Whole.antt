-- ===== src/Vpn/Framing/Whole.antt =====
-- The loop on whole messages, and on bytes that a part of a message ends.
use linux.Common.{
  ℕ, zero, suc, ◌+◌, ◌≤◌, ◌<◌, ◌≡◌, refl, ap, ap₂, sym, ◌∙◌, true, false, some, List, [], ◌∷◌, ◌++◌,
  ltb, length, arith, map, append_assoc, append-nil, length-append, append_eq_drop,
}
use linux.Vpn.Message.{
  int_bytes, Message, heartbeat, client_register, creace_tcp_channel, encode, IsMessage,
  channel_bytes,
}
use linux.Vpn.Framing.{Deal, running, returned, need_len, deal_loop}

-- A message on the stream: its length is what its head says.
encode-need_len :
    (m : Message) (rest : List ℕ) → IsMessage m → need_len (encode m ++ rest) ≡ length (encode m)
unfolding encode
encode-need_len heartbeat rest v = refl
encode-need_len (client_register client_id mac name) rest v =
    omega (arith, length-append mac name, v.0, v.1)
encode-need_len (creace_tcp_channel server_ip server_port client_ip client_port flag) rest v =
    let ports = client_ip ++ int_bytes client_port in
    omega (
      arith,
      v.0,
      v.1,
      length-append (channel_bytes server_ip server_port client_ip client_port) (int_bytes flag),
      length-append server_ip (int_bytes server_port ++ ports),
      length-append client_ip (int_bytes client_port),
    )

-- The bytes of several messages.
abbrev pub stream : List Message → List ℕ
stream [] = []
stream (m ∷ ms) = encode m ++ stream ms

abbrev pub AreMessages : List Message → Type 0
AreMessages [] = Unit
AreMessages (m ∷ ms) = IsMessage m × AreMessages ms

-- What is sent for several messages.
abbrev pub replies_to : (Message → List Message) → List Message → List (List ℕ)
replies_to replies [] = []
replies_to replies (m ∷ ms) = map encode (replies m) ++ replies_to replies ms

head-le : (m : Message) → IsMessage m → 4 ≤ length (encode m)
unfolding encode
head-le heartbeat v = omega arith
head-le (client_register client_id mac name) v = omega arith
head-le (creace_tcp_channel server_ip server_port client_ip client_port flag) v = omega arith

module _ (deal : Deal) (changed : Message → Message) (replies : Message → List Message)
    (deals : (m : Message) (rest : List ℕ)
      → IsMessage m
      → deal (encode m ++ rest) ≡ some (encode (changed m) ++ rest, map encode (replies m)))
    (same : (m : Message) → IsMessage m → length (encode (changed m)) ≡ length (encode m)) where
  deal_round :
      (fuel : ℕ) (m : Message) (rest : List ℕ) (n : ℕ) (sent : List (List ℕ))
      → IsMessage m
      → deal_loop deal (suc fuel) (encode m ++ rest) n sent
        ≡ deal_loop deal fuel rest (n + length (encode m)) (sent ++ map encode (replies m))
  unfolding deal_loop
  deal_round fuel m rest n sent v =
      let l = length-append (encode m) rest in
      let enough : ltb (length (encode m ++ rest)) 4 ≡ false = ground (arith, l, head-le m v) in
      let need = encode-need_len m rest v in
      let whole : ltb (length (encode m ++ rest)) (need_len (encode m ++ rest)) ≡ false =
        ground (arith, l, need) in
      let left = append_eq_drop (length (encode m)) (encode (changed m)) rest (same m v) in
      rw (enough, whole, deals m rest v, need, left) refl

  out_of_fuel :
      (buff : List ℕ) (n : ℕ) (sent : List (List ℕ)) → deal_loop deal zero buff n sent ≡ running
  unfolding deal_loop
  out_of_fuel buff n sent = refl

  -- Fewer than `head_size` bytes end the loop.
  deal_loop-short :
      (fuel : ℕ) (rest : List ℕ) (n : ℕ) (sent : List (List ℕ))
      → length rest < 4
      → deal_loop deal (suc fuel) rest n sent ≡ returned n rest sent
  unfolding deal_loop
  deal_loop-short fuel rest n sent s =
      let short : ltb (length rest) 4 ≡ true = ground (arith, s) in rw short refl

  -- With a head and a part of the body, a round does nothing.
  deal_loop-part :
      (fuel : ℕ) (rest : List ℕ) (n : ℕ) (sent : List (List ℕ))
      → 4 ≤ length rest
      → length rest < need_len rest
      → deal_loop deal fuel rest n sent ≡ running
  unfolding deal_loop
  deal_loop-part zero rest n sent h p = refl
  deal_loop-part (suc fuel) rest n sent h p =
      let head : ltb (length rest) 4 ≡ false = ground (arith, h) in
      let part : ltb (length rest) (need_len rest) ≡ true = ground (arith, p) in
      rw (head, part) (deal_loop-part fuel rest n sent h p)

  pub deal_loop-stream :
      (ms : List Message) (fuel : ℕ) (rest : List ℕ) (n : ℕ) (sent : List (List ℕ))
      → AreMessages ms
      → length rest < 4
      → length ms < fuel
      → deal_loop deal fuel (stream ms ++ rest) n sent
        ≡ returned (n + length (stream ms)) rest (sent ++ replies_to replies ms)
  deal_loop-stream ms zero rest n sent v s f = absurd (omega (arith, f))
  deal_loop-stream [] (suc fuel) rest n sent v s f =
      deal_loop-short fuel rest n sent s
      ∙ ap₂ (λ k out. returned k rest out) (omega arith) (sym (append-nil sent))
  deal_loop-stream (m ∷ ms) (suc fuel) rest n sent v s f =
      ap (λ b. deal_loop deal (suc fuel) b n sent) (append_assoc (encode m) (stream ms) rest)
      ∙ deal_round fuel m (stream ms ++ rest) n sent v.0
      ∙ deal_loop-stream ms fuel rest (n + length (encode m)) (sent ++ map encode (replies m)) v.1 s
          (omega (arith, f))
      ∙ ap₂ (λ k out. returned k rest out) (omega (arith, length-append (encode m) (stream ms)))
          (append_assoc sent (map encode (replies m)) (replies_to replies ms))

  pub deal_loop-partial :
      (ms : List Message) (fuel : ℕ) (rest : List ℕ) (n : ℕ) (sent : List (List ℕ))
      → AreMessages ms
      → 4 ≤ length rest
      → length rest < need_len rest
      → deal_loop deal fuel (stream ms ++ rest) n sent ≡ running
  deal_loop-partial [] fuel rest n sent v h p = deal_loop-part fuel rest n sent h p
  deal_loop-partial (m ∷ ms) zero rest n sent v h p = out_of_fuel (stream (m ∷ ms) ++ rest) n sent
  deal_loop-partial (m ∷ ms) (suc fuel) rest n sent v h p =
      ap (λ b. deal_loop deal (suc fuel) b n sent) (append_assoc (encode m) (stream ms) rest)
      ∙ deal_round fuel m (stream ms ++ rest) n sent v.0
      ∙ deal_loop-partial ms fuel rest (n + length (encode m)) (sent ++ map encode (replies m)) v.1
          h p
