-- ===== src/Split/Words.antt =====
-- `sh_strsplit` finds the fields that are not empty.
use linux.Common.{
  ℕ, zero, suc, ◌+◌, ◌≤◌, ◌<◌, ◌≡◌, refl, ap, ap₂, ◌∙◌, sym, subst, Bool, true, false, ◌&&◌, ◌≢◌,
  List, [], ◌∷◌, ◌++◌, some, length, get_elem?, set, drop, leb, ◌==◌, if◌then◌else◌, arith,
  append-nil, Bool-cases, inl, inr,
}
use linux.Split.Scan.{break, next, sh_round, sh_loop, sh_strsplit}
use linux.Split.Fields.{
  fields, keep_nonempty, IsText, get_elem?-append, set-append, drop-append, snoc-append,
  length-snoc, Split,
}
use linux.Split.Marks.{
  marked, starts, byte_after, tokens_after, length-marked, length-tokens_after, marked_cons,
  starts_cons, length-starts_words, tokens_true,
}

module _ (delim : ℕ) where
  -- A round that goes on, and one that leaves the loop.
  round_next :
      (max left i c : ℕ) (string toks string' toks' : List ℕ) (ts ts' : Bool)
      → get_elem? string i ≡ some c
      → sh_round max delim i c string toks ts ≡ next string' toks' ts'
      → sh_loop max delim (suc left) i string toks ts
        ≡ sh_loop max delim left (i + 1) string' toks' ts'
  unfolding sh_loop
  round_next max left i c string toks string' toks' ts ts' g e = ground (arith, g, e)

  round_break :
      (max left i c : ℕ) (string toks : List ℕ) (ts : Bool)
      → get_elem? string i ≡ some c
      → sh_round max delim i c string toks ts ≡ break
      → sh_loop max delim (suc left) i string toks ts ≡ some (string, toks)
  unfolding sh_loop
  round_break max left i c string toks ts g e = ground (arith, g, e)

  round_nul :
      (max i : ℕ) (string toks : List ℕ) (ts : Bool) → sh_round max delim i 0 string toks ts ≡ break
  unfolding sh_round
  round_nul max i string toks ts = refl

  round_text :
      (max c : ℕ) (pre xs toks : List ℕ) (ts : Bool)
      → c ≢ 0
      → length toks < max
      → sh_round max delim (length pre) c (pre ++ (c ∷ xs)) toks ts
        ≡ next
            (pre ++ (byte_after delim ts c ∷ xs))
            (tokens_after delim ts (length pre) c toks)
            (c == delim)
  unfolding sh_round
  round_text max c pre xs toks ts t room =
      let nz : (c == 0) ≡ false = ground (arith, t) in
      let more : leb max (length toks) ≡ false = ground (arith, room) in
      rw nz (rw more (by_tokstart ts))
    where
      by_tokstart :
          (ts : Bool)
          → (if ts && c == delim
              then next (pre ++ (c ∷ xs)) toks ts
              else if c == delim
              then next
                  (set (pre ++ (c ∷ xs)) (length pre) 0)
                  (if ts then toks ++ (length pre ∷ []) else toks)
                  true
              else next (pre ++ (c ∷ xs)) (if ts then toks ++ (length pre ∷ []) else toks) false)
            ≡ next
                (pre ++ (byte_after delim ts c ∷ xs))
                (tokens_after delim ts (length pre) c toks)
                (c == delim)
      by_tokstart true = elim (Bool-cases (c == delim)) [ inl e ↦ rw e refl | inr e ↦ rw e refl ]
      by_tokstart false = elim (Bool-cases (c == delim)) [
        | inl e ↦ rw e (ap (λ m. next m toks true) (set-append pre xs c 0))
        | inr e ↦ rw e refl
      ]

  -- The loop over a text, from the byte behind `pre` on, with room for all tokens that are left.
  loop-marked :
      (cs pre rest toks : List ℕ) (ts : Bool) (left max i : ℕ)
      → i ≡ length pre
      → IsText cs
      → length cs ≤ left
      → length toks + length (starts delim ts i cs) < max
      → sh_loop max delim left i (pre ++ (cs ++ (0 ∷ rest))) toks ts
        ≡ some (pre ++ (marked delim ts cs ++ (0 ∷ rest)), toks ++ starts delim ts i cs)
  unfolding sh_loop
  loop-marked [] pre rest toks ts zero max i at t le room =
      ap (λ x. some (pre ++ (0 ∷ rest), x)) (sym (append-nil toks))
  loop-marked [] pre rest toks ts (suc left) max i at t le room =
      let nul =
        subst (λ k. get_elem? (pre ++ (0 ∷ rest)) k ≡ some 0) (sym at)
          (get_elem?-append pre rest 0) in
      round_break max left i 0 (pre ++ (0 ∷ rest)) toks ts nul
        (round_nul max i (pre ++ (0 ∷ rest)) toks ts)
      ∙ ap (λ x. some (pre ++ (0 ∷ rest), x)) (sym (append-nil toks))
  loop-marked (c ∷ cs) pre rest toks ts zero max i at t le room = absurd (omega arith)
  loop-marked (c ∷ cs) pre rest toks ts (suc left) max i at t le room =
      let c' = byte_after delim ts c in
      let toks' = tokens_after delim ts i c toks in
      let pre' = pre ++ (c' ∷ []) in
      let xs = cs ++ (0 ∷ rest) in
      let ys = marked delim (c == delim) cs ++ (0 ∷ rest) in
      let here =
        subst (λ k. get_elem? (pre ++ (c ∷ xs)) k ≡ some c) (sym at) (get_elem?-append pre xs c) in
      let this =
        subst
          (λ k.
            sh_round max delim k c (pre ++ (c ∷ xs)) toks ts
            ≡ next (pre ++ (c' ∷ xs)) (tokens_after delim ts k c toks) (c == delim))
          (sym at) (round_text max c pre xs toks ts t.0 (omega arith)) in
      let later =
        loop-marked cs pre' rest toks' (c == delim) left max (i + 1)
          (omega (arith, length-snoc pre c')) t.1 (omega arith)
          (omega (arith, length-tokens_after delim i c cs toks ts)) in
      round_next max left i c (pre ++ (c ∷ xs)) toks (pre ++ (c' ∷ xs)) toks' ts (c == delim) here
        this
      ∙ ap (λ m. sh_loop max delim left (i + 1) m toks' (c == delim)) (sym (snoc-append pre xs c'))
      ∙ later
      ∙ ap₂ (λ m k. some (m, k))
          (snoc-append pre ys c'
            ∙ ap (λ zs. pre ++ (zs ++ (0 ∷ rest))) (sym (marked_cons delim c cs ts)))
          (starts_cons delim i c cs toks ts)

-- On a text that a NUL ends, for at least the text's length and room for more tokens than it has
-- fields that are not empty, `sh_strsplit` stays inside the text and its NUL, leaves what is behind
-- the text as it is, and returns one token for each such field, in order: read as C strings, the
-- tokens are exactly the fields of the text that are not empty.
pub sh_strsplit-Split :
    (text rest : List ℕ) (delim stringlen maxtokens : ℕ)
    → IsText text
    → length text ≤ stringlen
    → length (keep_nonempty (fields delim text)) < maxtokens
    → Split text rest
        (keep_nonempty (fields delim text))
        (sh_strsplit (text ++ (0 ∷ rest)) stringlen maxtokens delim)
unfolding sh_strsplit
sh_strsplit-Split text rest delim stringlen maxtokens t le room = record {
  memory = marked delim true text ++ (0 ∷ rest);
  tokens = starts delim true 0 text;
  returns =
      loop-marked delim text [] rest [] true stringlen maxtokens 0 refl t le
        (omega (arith, length-starts_words delim text rest t));
  points = tokens_true delim [] text rest t;
  behind =
      ap (λ n. drop n (marked delim true text ++ (0 ∷ rest))) (sym (length-marked delim text true))
      ∙ drop-append (marked delim true text) (0 ∷ rest);
}
