-- ===== src/Pcap/Written.antt =====
-- What `ip_str` does to the array.
use linux.Common.{
  ℕ, zero, suc, ◌+◌, ◌-◌, ◌/◌, ◌%◌, ◌^◌, ◌≤◌, ◌<◌, ◌≡◌, refl, ap, ap₂, sym, ◌∙◌, subst, Bool, true,
  false, Option, none, some, List, [], ◌∷◌, ◌++◌, ltb, ◌==◌, ◌>>=◌, if◌then◌else◌, length, set,
  drop, arith, append_assoc, append-nil, length-append, Bool-cases, inl, inr,
}
use linux.Pcap.{u32_bytes, write_all, octet, ip_loop, ip_text}

set-end :
    (done : List ℕ) (x c : ℕ) (free : List ℕ)
    → set (done ++ (x ∷ free)) (length done) c ≡ done ++ (c ∷ free)
set-end [] x c free = refl
set-end (d ∷ done) x c free = ap (λ xs. d ∷ xs) (set-end done x c free)

drop_nil : (n : ℕ) → drop {A = ℕ} n [] ≡ []
drop_nil zero = refl
drop_nil (suc n) = refl

drop-drop : (m n : ℕ) (xs : List ℕ) → drop n (drop m xs) ≡ drop (m + n) xs
drop-drop zero n xs = ap (λ k. drop k xs) (omega arith)
drop-drop (suc m) n [] = drop_nil n ∙ sym (drop_nil (suc m + n))
drop-drop (suc m) n (x ∷ xs) =
    drop-drop m n xs ∙ ap (λ k. drop k (x ∷ xs)) {x = suc (m + n)} {y = suc m + n} (omega arith)

write_all-step :
    (str : List ℕ) (n c : ℕ) (cs : List ℕ)
    → n < length str
    → write_all str n (c ∷ cs) ≡ write_all (set str n c) (suc n) cs
unfolding write_all
write_all-step str n c cs h =
    let inside : ltb n (length str) ≡ true = ground (arith, h) in rw inside refl

-- Characters that are written behind those there.
write_all-end :
    (cs done free : List ℕ)
    → length cs ≤ length free
    → write_all (done ++ free) (length done) cs
      ≡ some ((done ++ cs) ++ drop (length cs) free, length done + length cs)
unfolding write_all
write_all-end [] done free h =
    ap₂ (λ a n. some (a, n)) (ap (λ b. b ++ free) (sym (append-nil done))) (omega arith)
write_all-end (c ∷ cs) done [] h = absurd (omega (arith, h))
write_all-end (c ∷ cs) done (x ∷ free) h =
    write_all-step (done ++ (x ∷ free)) (length done) c cs
      (omega (arith, length-append done (x ∷ free)))
    ∙ ap₂ (λ a n. write_all a n cs) (set-end done x c free ∙ sym (append_assoc done (c ∷ []) free))
        (omega (arith, length-append done (c ∷ [])))
    ∙ write_all-end cs (done ++ (c ∷ [])) free (omega (arith, h))
    ∙ ap₂ (λ a n. some (a ++ drop (length cs) free, n)) (append_assoc done (c ∷ []) cs)
        (omega (arith, length-append done (c ∷ [])))

-- The numbers of an address, with a dot behind each, and with dots between them.
abbrev pub dots_behind : List ℕ → List ℕ
dots_behind [] = []
dots_behind (b ∷ addr) = (octet b ++ (b'.' ∷ [])) ++ dots_behind addr

abbrev pub dotted : ℕ → List ℕ → List ℕ
dotted b [] = octet b
dotted b (c ∷ addr) = (octet b ++ (b'.' ∷ [])) ++ dotted c addr

dots-dotted : (b : ℕ) (addr : List ℕ) → dots_behind (b ∷ addr) ≡ dotted b addr ++ (b'.' ∷ [])
dots-dotted b [] = append-nil (octet b ++ (b'.' ∷ []))
dots-dotted b (c ∷ addr) =
    ap (λ t. (octet b ++ (b'.' ∷ [])) ++ t) (dots-dotted c addr)
    ∙ sym (append_assoc (octet b ++ (b'.' ∷ [])) (dotted c addr) (b'.' ∷ []))

ip_loop-end :
    (addr done free : List ℕ)
    → length (dots_behind addr) ≤ length free
    → ip_loop addr (done ++ free) (length done)
      ≡ some (
        (done ++ dots_behind addr) ++ drop (length (dots_behind addr)) free,
        length done + length (dots_behind addr),
      )
unfolding ip_loop
ip_loop-end [] done free h =
    ap₂ (λ a n. some (a, n)) (ap (λ b. b ++ free) (sym (append-nil done))) (omega arith)
ip_loop-end (b ∷ addr) done free h =
    let o = octet b ++ (b'.' ∷ []) in
    let rest = dots_behind addr in
    let l = length-append o rest in
    ap (λ r. r >>= λ p. ip_loop addr p.0 p.1) (write_all-end o done free (omega (arith, h, l)))
    ∙ ap (λ n. ip_loop addr ((done ++ o) ++ drop (length o) free) n) (sym (length-append done o))
    ∙ ip_loop-end addr (done ++ o) (drop (length o) free)
        (omega (arith, h, l, linux.Common.length-drop (length o) free))
    ∙ ap₂ (λ a n. some (a, n))
        (ap₂ (λ a c. a ++ c) (append_assoc done o rest)
          (drop-drop (length o) (length rest) free ∙ ap (λ k. drop k free) (sym l)))
        (omega (arith, l, length-append done o))

-- The part behind the test: the text, then a NUL, then what was there.
pub ip_text-written :
    (ip : ℕ) (b : ℕ) (addr str : List ℕ)
    → u32_bytes ip ≡ b ∷ addr
    → length (dotted b addr) < length str
    → ip_text ip str
      ≡ some (
        (dotted b addr ++ (0 ∷ [])) ++ drop (suc (length (dotted b addr))) str,
        length (dotted b addr),
      )
unfolding ip_text
ip_text-written ip b addr str e h =
    let t = dotted b addr in
    let n = length t in
    let l : length (dots_behind (b ∷ addr)) ≡ suc n =
      omega (arith, ap length (dots-dotted b addr), length-append t (b'.' ∷ [])) in
    let rest = drop (suc n) str in
    let looped : ip_loop (u32_bytes ip) str 0 ≡ some (t ++ (b'.' ∷ rest), suc n) =
      ap (λ a. ip_loop a str 0) e
      ∙ ip_loop-end (b ∷ addr) [] str (omega (arith, h, l))
      ∙ ap₂ (λ a k. some (a, k)) (ap₂ (λ a k. a ++ drop k str) (dots-dotted b addr) l)
          (omega (arith, l))
      ∙ ap (λ a. some (a, suc n)) (append_assoc t (b'.' ∷ []) rest) in
    ap (λ r. r >>= λ p. write_all p.0 (p.1 - 1) (0 ∷ []) >>= λ q. some (q.0, p.1 - 1)) looped
    ∙ ap (λ k. write_all (t ++ (b'.' ∷ rest)) k (0 ∷ []) >>= λ q. some (q.0, k)) {x = suc n - 1}
        {y = n} (omega arith)
    ∙ ap (λ r. r >>= λ q. some (q.0, n)) (write_all-end (0 ∷ []) t (b'.' ∷ rest) (omega arith))
