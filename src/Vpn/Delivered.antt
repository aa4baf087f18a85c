-- ===== src/Vpn/Delivered.antt =====
-- The bytes of a connection are taken once and in order.
use linux.Common.{
  ℕ, zero, suc, ◌≤◌, ◌<◌, ◌≡◌, refl, ap, sym, ◌∙◌, subst₂, ◌-◌, >>=_assoc, min, Bool, true, Option,
  none, some, List, [], ◌∷◌, ◌++◌, ltb, length, take, drop, ◌>>=◌, arith, append_assoc,
  length-append, Bool-cases, inl, inr, ◌⊎◌,
}
use linux.Vpn.Receive.{
  Recv, again, failure, ready, capacity, take_bytes, Socket, open_socket, disconnected, aborted,
  keep, receive, receive_all,
}
use linux.Vpn.Relay.{Channel, forward, relay}

-- Each call of `send` takes a byte or more.
abbrev pub AllTake : List (Option ℕ) → Type 0
AllTake [] = Unit
AllTake (none ∷ os) = ⊥
AllTake (some n ∷ os) = (0 < n) × AllTake os

take-drop : (n : ℕ) (xs : List ℕ) → take n xs ++ drop n xs ≡ xs
take-drop zero xs = refl
take-drop (suc n) [] = refl
take-drop (suc n) (x ∷ xs) = ap (λ ys. x ∷ ys) (take-drop n xs)

drop_all : (n : ℕ) (xs : List ℕ) → length xs ≤ n → drop n xs ≡ []
drop_all zero [] le = refl
drop_all zero (x ∷ xs) le = absurd (omega (arith, le))
drop_all (suc n) [] le = refl
drop_all (suc n) (x ∷ xs) le = drop_all n xs (omega (arith, le))

keep-drop : (n : ℕ) (xs : List ℕ) → keep n xs ≡ drop n xs
unfolding keep
keep-drop zero xs = elim (Bool-cases (ltb 0 (length xs))) [
  | inl e ↦ rw e refl
  | inr e ↦ rw e (sym (drop_all 0 xs (ground (arith, e))))
]
keep-drop (suc n) xs =
    let some_used : ltb 0 (suc n) ≡ true = ground arith in
    elim (Bool-cases (ltb (suc n) (length xs))) [
      | inl e ↦ rw (e, some_used) refl
      | inr e ↦ rw e (sym (drop_all (suc n) xs (ground (arith, e))))
    ]

-- A connection with another one to send to.
abbrev pub connection : List (Option ℕ) → List ℕ → Bool → Channel
connection sends sent closing = record {
  remote = true;
  sends = sends;
  sent = sent;
  closing = closing;
}

-- A round where `recv` gives some bytes and `send` takes some.
relay_round :
    (n : ℕ) (sends : List (Option ℕ)) (sent buff : List ℕ) (closing : Bool) (c : ℕ) (cs : List ℕ)
    → 0 < n
    → let xs = buff ++ (c ∷ cs) in
      let len = min n (length xs) in
      take_bytes relay (c ∷ cs) buff (connection (some n ∷ sends) sent closing)
      ≡ some (open_socket (drop len xs), connection sends (sent ++ take len xs) closing)
unfolding take_bytes relay forward
relay_round n sends sent buff closing c cs p =
    let xs = buff ++ (c ∷ cs) in
    let some_left : ltb 0 (min n (length xs)) ≡ true =
      ground (arith, p, length-append buff (c ∷ cs)) in
    rw some_left (
      ap (λ b. some (open_socket b, connection sends (sent ++ take (min n (length xs)) xs) closing))
        (keep-drop (min n (length xs)) xs))

-- What comes of some events: what was sent, what was kept and what is still to come are the bytes there
-- were; and what was kept is in the buffer, unless the socket was closed.
pub record Delivered (sent came : List ℕ) (out : Option (Socket × List ℕ × Channel)) : Type 0 where
  pub socket : Socket
  pub coming : List ℕ
  pub channel : Channel
  pub kept : List ℕ
  pub returns : out ≡ some (socket, coming, channel)
  pub conserved : channel.sent ++ (kept ++ coming) ≡ sent ++ came
  pub buffered : (socket ≡ open_socket kept) ⊎ ((socket ≡ disconnected) ⊎ (socket ≡ aborted))

-- A socket that is closed stays so.
closed-Delivered :
    (k : Socket) (rs : List Recv) (sent kept coming : List ℕ) (c : Channel)
    → (k ≡ disconnected) ⊎ (k ≡ aborted)
    → c.sent ≡ sent
    → Delivered sent (kept ++ coming) (receive_all relay rs k coming c)
unfolding receive_all
closed-Delivered (open_socket b) rs sent kept coming c (inl e) s = absurd (cc)
closed-Delivered (open_socket b) rs sent kept coming c (inr e) s = absurd (cc)
closed-Delivered disconnected [] sent kept coming c e s = record {
  socket = disconnected;
  coming = coming;
  channel = c;
  kept = kept;
  returns = refl;
  conserved = ap (λ b. b ++ (kept ++ coming)) s;
  buffered = inr e;
}
closed-Delivered disconnected (r ∷ rs) sent kept coming c e s = record {
  socket = disconnected;
  coming = coming;
  channel = c;
  kept = kept;
  returns = refl;
  conserved = ap (λ b. b ++ (kept ++ coming)) s;
  buffered = inr e;
}
closed-Delivered aborted [] sent kept coming c e s = record {
  socket = aborted;
  coming = coming;
  channel = c;
  kept = kept;
  returns = refl;
  conserved = ap (λ b. b ++ (kept ++ coming)) s;
  buffered = inr e;
}
closed-Delivered aborted (r ∷ rs) sent kept coming c e s = record {
  socket = aborted;
  coming = coming;
  channel = c;
  kept = kept;
  returns = refl;
  conserved = ap (λ b. b ++ (kept ++ coming)) s;
  buffered = inr e;
}

-- Behind `recv`, where the theorem holds for the events that follow.
got-Delivered :
    (rs : List Recv) (got : List ℕ) (sends : List (Option ℕ)) (sent buff coming : List ℕ)
    (closing : Bool)
    → ((sends' : List (Option ℕ)) (sent' buff' : List ℕ)
        → AllTake sends'
        → length rs ≤ length sends'
        → Delivered sent'
            (buff' ++ coming)
            (receive_all relay rs (open_socket buff') coming (connection sends' sent' closing)))
    → AllTake sends
    → length rs < length sends
    → Delivered sent (buff ++ (got ++ coming)) (
        take_bytes relay got buff (connection sends sent closing) >>= λ r.
        receive_all relay rs r.0 coming r.1)
unfolding take_bytes
got-Delivered rs [] sends sent buff coming closing ih t le =
    closed-Delivered disconnected rs sent buff coming (connection sends sent closing) (inl refl)
      refl
got-Delivered rs (c ∷ cs) [] sent buff coming closing ih t le = absurd (omega (arith, le))
got-Delivered rs (c ∷ cs) (none ∷ sends) sent buff coming closing ih t le = absurd t
got-Delivered rs (c ∷ cs) (some n ∷ sends) sent buff coming closing ih t le =
    let xs = buff ++ (c ∷ cs) in
    let len = min n (length xs) in
    let d = ih sends (sent ++ take len xs) (drop len xs) t.1 (omega (arith, le)) in
    record {
      socket = d.socket;
      coming = d.coming;
      channel = d.channel;
      kept = d.kept;
      returns =
          ap (λ r. r >>= λ p. receive_all relay rs p.0 coming p.1)
            (relay_round n sends sent buff closing c cs t.0)
          ∙ d.returns;
      conserved =
          d.conserved
          ∙ append_assoc sent (take len xs) (drop len xs ++ coming)
          ∙ ap (λ b. sent ++ b)
              (sym (append_assoc (take len xs) (drop len xs) coming)
                ∙ ap (λ b. b ++ coming) (take-drop len xs)
                ∙ append_assoc buff (c ∷ cs) coming);
      buffered = d.buffered;
    }

-- With a connection to send to, and a `send` that takes a byte or more at each of the events: whatever
-- `recv` does at the events of a socket, `on_recv_data` of the data channel returns at each of them, and
-- what it has sent, then what the buffer keeps, then what is still to come, are the bytes that came, in
-- order; if the connection has ended, those kept are lost.
pub relay-Delivered :
    (rs : List Recv) (sends : List (Option ℕ)) (sent buff coming : List ℕ) (closing : Bool)
    → AllTake sends
    → length rs ≤ length sends
    → Delivered sent
        (buff ++ coming)
        (receive_all relay rs (open_socket buff) coming (connection sends sent closing))
unfolding receive_all receive
relay-Delivered [] sends sent buff coming closing t le = record {
  socket = open_socket buff;
  coming = coming;
  channel = connection sends sent closing;
  kept = buff;
  returns = refl;
  conserved = refl;
  buffered = inl refl;
}
relay-Delivered (again ∷ rs) sends sent buff coming closing t le =
    relay-Delivered rs sends sent buff coming closing t (omega (arith, le))
relay-Delivered (failure ∷ rs) sends sent buff coming closing t le =
    closed-Delivered aborted rs sent buff coming (connection sends sent closing) (inr refl) refl
relay-Delivered (ready n ∷ rs) sends sent buff coming closing t le =
    let len = min n (capacity - length buff) in
    let c = connection sends sent closing in
    let d =
      got-Delivered rs (take len coming) sends sent buff (drop len coming) closing
        (λ sends' sent' buff'. relay-Delivered rs sends' sent' buff' (drop len coming) closing) t
        (omega (arith, le)) in
    subst₂ (λ came out. Delivered sent came out) (ap (λ b. buff ++ b) (take-drop len coming))
      (sym (
        >>=_assoc (take_bytes relay (take len coming) buff c)
          (λ r. some (r.0, drop len coming, r.1)) (λ q. receive_all relay rs q.0 q.1 q.2)))
      d
