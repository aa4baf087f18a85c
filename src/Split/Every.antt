-- ===== src/Split/Every.antt =====
-- `rte_strsplit` finds every field, but an empty one behind the last delimiter.
use linux.Common.{
  ℕ, zero, suc, ◌+◌, ◌≤◌, ◌<◌, ◌≡◌, refl, ap, ap₂, ◌∙◌, sym, subst, Bool, true, false, ◌≢◌, List,
  [], ◌∷◌, ◌++◌, some, length, get_elem?, drop, leb, ◌==◌, if◌then◌else◌, arith, append-nil,
  Bool-cases, inl, inr,
}
use linux.Split.Scan.{break, next, rte_round, rte_loop, rte_strsplit}
use linux.Split.Fields.{
  first_field, later_fields, fields, drop_empty_last, token_strings, c_string, IsText,
  get_elem?-append, set-append, drop-append, snoc-append, length-snoc, length-map, Split,
}

module _ (delim : ℕ) where
  -- What the loop writes over a text, and the tokens it finds from index `i` on.
  abbrev cut_byte : ℕ → ℕ
  cut_byte c = if c == delim then 0 else c

  abbrev cut : List ℕ → List ℕ
  cut [] = []
  cut (c ∷ cs) = cut_byte c ∷ cut cs

  abbrev begins : Bool → ℕ → List ℕ → List ℕ
  begins ts i [] = []
  begins true i (c ∷ cs) = i ∷ begins (c == delim) (i + 1) cs
  begins false i (c ∷ cs) = begins (c == delim) (i + 1) cs

  -- The fields that are still to come.
  abbrev to_come : Bool → List ℕ → List (List ℕ)
  to_come true cs = drop_empty_last (fields delim cs)
  to_come false cs = drop_empty_last (later_fields delim cs)

  c_string-cut :
      (cs rest : List ℕ) → IsText cs → c_string (cut cs ++ (0 ∷ rest)) ≡ first_field delim cs
  c_string-cut [] rest t = refl
  c_string-cut (c ∷ cs) rest t = elim (Bool-cases (c == delim)) [
    | inl e ↦ rw e refl
    | inr e ↦
        let nz : (c == 0) ≡ false = ground (arith, t.0) in
        rw e (rw nz (ap (λ xs. c ∷ xs) (c_string-cut cs rest t.1)))
  ]

  drop_empty_last-cons :
      (c : ℕ) (cs : List ℕ) (fs : List (List ℕ))
      → drop_empty_last ((c ∷ cs) ∷ fs) ≡ (c ∷ cs) ∷ drop_empty_last fs
  drop_empty_last-cons c cs [] = refl
  drop_empty_last-cons c cs (f ∷ fs) = refl

  to_come-true :
      (c : ℕ) (cs : List ℕ)
      → to_come true (c ∷ cs) ≡ first_field delim (c ∷ cs) ∷ to_come (c == delim) cs
  to_come-true c cs = elim (Bool-cases (c == delim)) [
    | inl e ↦ rw e refl
    | inr e ↦ rw e (drop_empty_last-cons c (first_field delim cs) (later_fields delim cs))
  ]

  to_come-false : (c : ℕ) (cs : List ℕ) → to_come false (c ∷ cs) ≡ to_come (c == delim) cs
  to_come-false c cs = elim (Bool-cases (c == delim)) [ inl e ↦ rw e refl | inr e ↦ rw e refl ]

  -- The tokens behind the byte `c`, with that byte as the last one before them.
  shift :
      (ts : Bool) (pre xs : List ℕ) (c : ℕ) (cs : List ℕ)
      → token_strings (pre ++ (c ∷ xs)) (begins ts (length pre + 1) cs)
        ≡ token_strings ((pre ++ (c ∷ [])) ++ xs) (begins ts (length (pre ++ (c ∷ []))) cs)
  shift ts pre xs c cs =
      ap₂ (λ memory i. token_strings memory (begins ts i cs)) (sym (snoc-append pre xs c))
        (sym (length-snoc pre c))

  token_strings-begins :
      (cs pre rest : List ℕ) (ts : Bool)
      → IsText cs
      → token_strings (pre ++ (cut cs ++ (0 ∷ rest))) (begins ts (length pre) cs) ≡ to_come ts cs
  token_strings-begins [] pre rest true t = refl
  token_strings-begins [] pre rest false t = refl
  token_strings-begins (c ∷ cs) pre rest true t =
      ap₂ (λ x xs. x ∷ xs)
        (ap c_string (drop-append pre (cut (c ∷ cs) ++ (0 ∷ rest))) ∙ c_string-cut (c ∷ cs) rest t)
        (shift (c == delim) pre (cut cs ++ (0 ∷ rest)) (cut_byte c) cs
          ∙ token_strings-begins cs (pre ++ (cut_byte c ∷ [])) rest (c == delim) t.1)
      ∙ sym (to_come-true c cs)
  token_strings-begins (c ∷ cs) pre rest false t =
      shift (c == delim) pre (cut cs ++ (0 ∷ rest)) (cut_byte c) cs
      ∙ token_strings-begins cs (pre ++ (cut_byte c ∷ [])) rest (c == delim) t.1
      ∙ sym (to_come-false c cs)

  length-cut : (cs : List ℕ) → length (cut cs) ≡ length cs
  length-cut [] = refl
  length-cut (c ∷ cs) = ap suc (length-cut cs)

  length-begins :
      (cs rest : List ℕ) → IsText cs → length (begins true 0 cs) ≡ length (to_come true cs)
  length-begins cs rest t =
      sym (length-map (λ o. c_string (drop o (cut cs ++ (0 ∷ rest)))) (begins true 0 cs))
      ∙ ap length (token_strings-begins cs [] rest true t)

  -- The tokens after a round at index `i`.
  abbrev tokens_after : Bool → ℕ → List ℕ → List ℕ
  tokens_after ts i toks = if ts then toks ++ (i ∷ []) else toks

  length-tokens_after :
      (i c : ℕ) (cs toks : List ℕ) (ts : Bool)
      → length (tokens_after ts i toks) + length (begins (c == delim) (i + 1) cs)
        ≡ length toks + length (begins ts i (c ∷ cs))
  length-tokens_after i c cs toks true = omega (arith, length-snoc toks i)
  length-tokens_after i c cs toks false = refl

  tokens_after-begins :
      (i c : ℕ) (cs toks : List ℕ) (ts : Bool)
      → tokens_after ts i toks ++ begins (c == delim) (i + 1) cs ≡ toks ++ begins ts i (c ∷ cs)
  tokens_after-begins i c cs toks true = snoc-append toks (begins (c == delim) (i + 1) cs) i
  tokens_after-begins i c cs toks false = refl

  -- A round that goes on, and one that leaves the loop.
  pub round_next :
      (max left i c : ℕ) (string toks string' toks' : List ℕ) (ts ts' : Bool)
      → get_elem? string i ≡ some c
      → rte_round max delim i c string toks ts ≡ next string' toks' ts'
      → rte_loop max delim (suc left) i string toks ts
        ≡ rte_loop max delim left (i + 1) string' toks' ts'
  unfolding rte_loop
  round_next max left i c string toks string' toks' ts ts' g e = ground (arith, g, e)

  pub round_break :
      (max left i c : ℕ) (string toks : List ℕ) (ts : Bool)
      → get_elem? string i ≡ some c
      → rte_round max delim i c string toks ts ≡ break
      → rte_loop max delim (suc left) i string toks ts ≡ some (string, toks)
  unfolding rte_loop
  round_break max left i c string toks ts g e = ground (arith, g, e)

  round_nul :
      (max i : ℕ) (string toks : List ℕ) (ts : Bool)
      → rte_round max delim i 0 string toks ts ≡ break
  unfolding rte_round
  round_nul max i string toks ts = refl

  round_text :
      (max c : ℕ) (pre xs toks : List ℕ) (ts : Bool)
      → c ≢ 0
      → length toks < max
      → rte_round max delim (length pre) c (pre ++ (c ∷ xs)) toks ts
        ≡ next (pre ++ (cut_byte c ∷ xs)) (tokens_after ts (length pre) toks) (c == delim)
  unfolding rte_round
  round_text max c pre xs toks ts t room =
      let nz : (c == 0) ≡ false = ground (arith, t) in
      let more : leb max (length toks) ≡ false = ground (arith, room) in
      elim (Bool-cases (c == delim)) [
        | inl e ↦
            rw (nz, more, e)
              (ap (λ m. next m (tokens_after ts (length pre) toks) true) (set-append pre xs c 0))
        | inr e ↦ rw (nz, more, e) refl
      ]

  -- The loop over a text, from the byte behind `pre` on, with room for all tokens that are left.
  loop-cut :
      (cs pre rest toks : List ℕ) (ts : Bool) (left max i : ℕ)
      → i ≡ length pre
      → IsText cs
      → length cs ≤ left
      → length toks + length (begins ts i cs) < max
      → rte_loop max delim left i (pre ++ (cs ++ (0 ∷ rest))) toks ts
        ≡ some (pre ++ (cut cs ++ (0 ∷ rest)), toks ++ begins ts i cs)
  unfolding rte_loop
  loop-cut [] pre rest toks ts zero max i at t le room =
      ap (λ x. some (pre ++ (0 ∷ rest), x)) (sym (append-nil toks))
  loop-cut [] pre rest toks ts (suc left) max i at t le room =
      let nul =
        subst (λ k. get_elem? (pre ++ (0 ∷ rest)) k ≡ some 0) (sym at)
          (get_elem?-append pre rest 0) in
      round_break max left i 0 (pre ++ (0 ∷ rest)) toks ts nul
        (round_nul max i (pre ++ (0 ∷ rest)) toks ts)
      ∙ ap (λ x. some (pre ++ (0 ∷ rest), x)) (sym (append-nil toks))
  loop-cut (c ∷ cs) pre rest toks ts zero max i at t le room = absurd (omega arith)
  loop-cut (c ∷ cs) pre rest toks ts (suc left) max i at t le room =
      let c' = cut_byte c in
      let toks' = tokens_after ts i toks in
      let xs = cs ++ (0 ∷ rest) in
      let ys = cut cs ++ (0 ∷ rest) in
      let here =
        subst (λ k. get_elem? (pre ++ (c ∷ xs)) k ≡ some c) (sym at) (get_elem?-append pre xs c) in
      let this =
        subst
          (λ k.
            rte_round max delim k c (pre ++ (c ∷ xs)) toks ts
            ≡ next (pre ++ (c' ∷ xs)) (tokens_after ts k toks) (c == delim))
          (sym at)
          (round_text max c pre xs toks ts t.0
            (omega (arith, length-tokens_after i c cs toks ts, room))) in
      let later =
        loop-cut cs (pre ++ (c' ∷ [])) rest toks' (c == delim) left max (i + 1)
          (omega (arith, length-snoc pre c')) t.1 (omega arith)
          (omega (arith, length-tokens_after i c cs toks ts)) in
      round_next max left i c (pre ++ (c ∷ xs)) toks (pre ++ (c' ∷ xs)) toks' ts (c == delim) here
        this
      ∙ ap (λ m. rte_loop max delim left (i + 1) m toks' (c == delim)) (sym (snoc-append pre xs c'))
      ∙ later
      ∙ ap₂ (λ m k. some (m, k)) (snoc-append pre ys c') (tokens_after-begins i c cs toks ts)

-- On a text that a NUL ends, for at least the text's length and room for more tokens than the text
-- has fields, `rte_strsplit` stays inside the text and its NUL, leaves what is behind the text as it
-- is, and returns one token for each field, in order, the empty ones too, but not for an empty field
-- behind the last delimiter: read as C strings, the tokens are exactly those fields.
pub rte_strsplit-Split :
    (text rest : List ℕ) (delim stringlen maxtokens : ℕ)
    → IsText text
    → length text ≤ stringlen
    → length (drop_empty_last (fields delim text)) < maxtokens
    → Split text rest
        (drop_empty_last (fields delim text))
        (rte_strsplit (text ++ (0 ∷ rest)) stringlen maxtokens delim)
unfolding rte_strsplit
rte_strsplit-Split text rest delim stringlen maxtokens t le room = record {
  memory = cut delim text ++ (0 ∷ rest);
  tokens = begins delim true 0 text;
  returns =
      loop-cut delim text [] rest [] true stringlen maxtokens 0 refl t le
        (omega (arith, length-begins delim text rest t));
  points = token_strings-begins delim text [] rest true t;
  behind =
      ap (λ n. drop n (cut delim text ++ (0 ∷ rest))) (sym (length-cut delim text))
      ∙ drop-append (cut delim text) (0 ∷ rest);
}
