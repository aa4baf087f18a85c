-- ===== src/Split/Marks.antt =====
-- What the loop of `sh_strsplit` writes over a text, and the tokens it finds, without the loop.
use linux.Common.{
  ℕ, suc, ◌+◌, ◌≡◌, refl, ap, ap₂, ◌∙◌, sym, Bool, true, false, List, [], ◌∷◌, ◌++◌, length, drop,
  ◌==◌, if◌then◌else◌, arith, Bool-cases, inl, inr,
}
use linux.Split.Fields.{
  first_field, later_fields, fields, keep_nonempty, c_string, token_strings, IsText, drop-append,
  snoc-append, length-snoc, length-map,
}

module _ (delim : ℕ) where
  -- What the loop writes over a text, and the tokens it finds from index `i` on.
  abbrev pub marked : Bool → List ℕ → List ℕ
  marked ts [] = []
  marked true (c ∷ cs) = c ∷ (if c == delim then marked true cs else marked false cs)
  marked false (c ∷ cs) = if c == delim then 0 ∷ marked true cs else c ∷ marked false cs

  abbrev pub starts : Bool → ℕ → List ℕ → List ℕ
  starts ts i [] = []
  starts true i (c ∷ cs) =
      if c == delim then starts true (i + 1) cs else i ∷ starts false (i + 1) cs
  starts false i (c ∷ cs) = if c == delim then starts true (i + 1) cs else starts false (i + 1) cs

  first_field-c_string :
      (cs rest : List ℕ)
      → IsText cs
      → c_string (marked false cs ++ (0 ∷ rest)) ≡ first_field delim cs
  first_field-c_string [] rest t = refl
  first_field-c_string (c ∷ cs) rest t = elim (Bool-cases (c == delim)) [
    | inl e ↦ rw e refl
    | inr e ↦
        let nz : (c == 0) ≡ false = ground (arith, t.0) in
        rw e (rw nz (ap (λ xs. c ∷ xs) (first_field-c_string cs rest t.1)))
  ]

  here :
      (c : ℕ) (cs rest : List ℕ)
      → IsText (c ∷ cs)
      → c_string (c ∷ (marked false cs ++ (0 ∷ rest))) ≡ c ∷ first_field delim cs
  here c cs rest t =
      let nz : (c == 0) ≡ false = ground (arith, t.0) in
      rw nz (ap (λ xs. c ∷ xs) (first_field-c_string cs rest t.1))

  -- The tokens behind the byte `c`, with that byte as the last one before them.
  shift :
      (ts : Bool) (pre xs : List ℕ) (c : ℕ) (cs : List ℕ)
      → token_strings (pre ++ (c ∷ xs)) (starts ts (length pre + 1) cs)
        ≡ token_strings ((pre ++ (c ∷ [])) ++ xs) (starts ts (length (pre ++ (c ∷ []))) cs)
  shift ts pre xs c cs =
      ap₂ (λ memory i. token_strings memory (starts ts i cs)) (sym (snoc-append pre xs c))
        (sym (length-snoc pre c))

  mutual
    pub tokens_true :
        (pre cs rest : List ℕ)
        → IsText cs
        → token_strings (pre ++ (marked true cs ++ (0 ∷ rest))) (starts true (length pre) cs)
          ≡ keep_nonempty (fields delim cs)
    tokens_true pre [] rest t = refl
    tokens_true pre (c ∷ cs) rest t = elim (Bool-cases (c == delim)) [
      | inl e ↦ rw e (
          shift true pre (marked true cs ++ (0 ∷ rest)) c cs
          ∙ tokens_true (pre ++ (c ∷ [])) cs rest t.1)
      | inr e ↦ rw e (
          ap₂ (λ x xs. x ∷ xs)
            (ap c_string (drop-append pre (c ∷ (marked false cs ++ (0 ∷ rest)))) ∙ here c cs rest t)
            (shift false pre (marked false cs ++ (0 ∷ rest)) c cs
              ∙ tokens_false (pre ++ (c ∷ [])) cs rest t.1))
    ]

    tokens_false :
        (pre cs rest : List ℕ)
        → IsText cs
        → token_strings (pre ++ (marked false cs ++ (0 ∷ rest))) (starts false (length pre) cs)
          ≡ keep_nonempty (later_fields delim cs)
    tokens_false pre [] rest t = refl
    tokens_false pre (c ∷ cs) rest t = elim (Bool-cases (c == delim)) [
      | inl e ↦ rw e (
          shift true pre (marked true cs ++ (0 ∷ rest)) 0 cs
          ∙ tokens_true (pre ++ (0 ∷ [])) cs rest t.1)
      | inr e ↦ rw e (
          shift false pre (marked false cs ++ (0 ∷ rest)) c cs
          ∙ tokens_false (pre ++ (c ∷ [])) cs rest t.1)
    ]

  pub length-marked : (cs : List ℕ) (ts : Bool) → length (marked ts cs) ≡ length cs
  length-marked [] ts = refl
  length-marked (c ∷ cs) true = elim (Bool-cases (c == delim)) [
    | inl e ↦ rw e (ap suc (length-marked cs true))
    | inr e ↦ rw e (ap suc (length-marked cs false))
  ]
  length-marked (c ∷ cs) false = elim (Bool-cases (c == delim)) [
    | inl e ↦ rw e (ap suc (length-marked cs true))
    | inr e ↦ rw e (ap suc (length-marked cs false))
  ]

  -- The memory and the tokens that a round leaves, at a byte of a text.
  abbrev pub byte_after : Bool → ℕ → ℕ
  byte_after true c = c
  byte_after false c = if c == delim then 0 else c

  abbrev pub tokens_after : Bool → ℕ → ℕ → List ℕ → List ℕ
  tokens_after true i c toks = if c == delim then toks else toks ++ (i ∷ [])
  tokens_after false i c toks = toks

  pub length-tokens_after :
      (i c : ℕ) (cs toks : List ℕ) (ts : Bool)
      → length (tokens_after ts i c toks) + length (starts (c == delim) (i + 1) cs)
        ≡ length toks + length (starts ts i (c ∷ cs))
  length-tokens_after i c cs toks true = elim (Bool-cases (c == delim)) [
    | inl e ↦ rw e refl
    | inr e ↦ rw e (omega (arith, length-snoc toks i))
  ]
  length-tokens_after i c cs toks false = elim (Bool-cases (c == delim)) [
    | inl e ↦ rw e refl
    | inr e ↦ rw e refl
  ]

  pub marked_cons :
      (c : ℕ) (cs : List ℕ) (ts : Bool)
      → marked ts (c ∷ cs) ≡ byte_after ts c ∷ marked (c == delim) cs
  marked_cons c cs true = elim (Bool-cases (c == delim)) [ inl e ↦ rw e refl | inr e ↦ rw e refl ]
  marked_cons c cs false = elim (Bool-cases (c == delim)) [ inl e ↦ rw e refl | inr e ↦ rw e refl ]

  pub starts_cons :
      (i c : ℕ) (cs toks : List ℕ) (ts : Bool)
      → tokens_after ts i c toks ++ starts (c == delim) (i + 1) cs ≡ toks ++ starts ts i (c ∷ cs)
  starts_cons i c cs toks true = elim (Bool-cases (c == delim)) [
    | inl e ↦ rw e refl
    | inr e ↦ rw e (snoc-append toks (starts false (i + 1) cs) i)
  ]
  starts_cons i c cs toks false = elim (Bool-cases (c == delim)) [
    | inl e ↦ rw e refl
    | inr e ↦ rw e refl
  ]

  pub length-starts_words :
      (cs rest : List ℕ)
      → IsText cs
      → length (starts true 0 cs) ≡ length (keep_nonempty (fields delim cs))
  length-starts_words cs rest t =
      sym (length-map (λ o. c_string (drop o (marked true cs ++ (0 ∷ rest)))) (starts true 0 cs))
      ∙ ap length (tokens_true [] cs rest t)
