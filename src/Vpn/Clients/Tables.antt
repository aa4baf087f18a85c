-- ===== src/Vpn/Clients/Tables.antt =====
-- What the changes of a map do to its entries.
use linux.Common.{
  ℕ, ◌≡◌, refl, ap, sym, ◌∙◌, subst, true, false, none, some, List, [], ◌∷◌, ◌==◌, arith,
  Bool-cases, inl, inr, ◌⊎◌,
}
use linux.Vpn.Clients.{find, insert, erase, change}

pub key_cases : (i k : ℕ) → (i ≡ k) ⊎ (¬ (i ≡ k))
key_cases i k = elim (Bool-cases (i == k)) [
  | inl e ↦ inl (ground (arith, e))
  | inr e ↦ inr (λ h. ground (arith, e, h))
]

module _ {A : Type 0} where
  -- A property of all keys with their values.
  abbrev pub AllEntries : (ℕ → A → Type 0) → List (ℕ × A) → Type 0
  AllEntries P [] = Unit
  AllEntries P (e ∷ es) = P e.0 e.1 × AllEntries P es

  pub find-head : (e : ℕ × A) (es : List (ℕ × A)) (k : ℕ) → e.0 ≡ k → find (e ∷ es) k ≡ some e.1
  unfolding find
  find-head e es k h = let same : (e.0 == k) ≡ true = ground (arith, h) in rw same refl

  pub find-tail :
      (e : ℕ × A) (es : List (ℕ × A)) (k : ℕ) → ¬ (e.0 ≡ k) → find (e ∷ es) k ≡ find es k
  unfolding find
  find-tail e es k h = let other : (e.0 == k) ≡ false = ground (arith, h) in rw other refl

  find_nil : (k : ℕ) (v : A) → ¬ (find [] k ≡ some v)
  unfolding find
  find_nil k v f = cc

  insert-head :
      (e : ℕ × A) (es : List (ℕ × A)) (k : ℕ) (v : A) → e.0 ≡ k → insert (e ∷ es) k v ≡ e ∷ es
  unfolding insert
  insert-head e es k v h = let same : (e.0 == k) ≡ true = ground (arith, h) in rw same refl

  insert-tail :
      (e : ℕ × A) (es : List (ℕ × A)) (k : ℕ) (v : A)
      → ¬ (e.0 ≡ k)
      → insert (e ∷ es) k v ≡ e ∷ insert es k v
  unfolding insert
  insert-tail e es k v h = let other : (e.0 == k) ≡ false = ground (arith, h) in rw other refl

  change-head :
      (e : ℕ × A) (es : List (ℕ × A)) (k : ℕ) (v : A) → e.0 ≡ k → change (e ∷ es) k v ≡ (k, v) ∷ es
  unfolding change
  change-head e es k v h = let same : (e.0 == k) ≡ true = ground (arith, h) in rw same refl

  change-tail :
      (e : ℕ × A) (es : List (ℕ × A)) (k : ℕ) (v : A)
      → ¬ (e.0 ≡ k)
      → change (e ∷ es) k v ≡ e ∷ change es k v
  unfolding change
  change-tail e es k v h = let other : (e.0 == k) ≡ false = ground (arith, h) in rw other refl

  pub find-AllEntries :
      (P : ℕ → A → Type 0) (es : List (ℕ × A)) (k : ℕ) (v : A)
      → AllEntries P es
      → find es k ≡ some v
      → P k v
  find-AllEntries P [] k v a f = absurd (find_nil k v f)
  find-AllEntries P (e ∷ es) k v a f = elim (key_cases e.0 k) [
    | inl h ↦
        let is : some e.1 ≡ some v = sym (find-head e es k h) ∙ f in
        subst (λ w. P k w) (cc) (subst (λ i. P i e.1) h a.0)
    | inr h ↦ find-AllEntries P es k v a.1 (sym (find-tail e es k h) ∙ f)
  ]

  pub insert-AllEntries :
      (P : ℕ → A → Type 0) (es : List (ℕ × A)) (k : ℕ) (v : A)
      → AllEntries P es
      → P k v
      → AllEntries P (insert es k v)
  unfolding insert
  insert-AllEntries P [] k v a p = (p, tt)
  insert-AllEntries P (e ∷ es) k v a p = elim (key_cases e.0 k) [
    | inl h ↦ subst (λ m. AllEntries P m) (sym (insert-head e es k v h)) a
    | inr h ↦
        subst (λ m. AllEntries P m) (sym (insert-tail e es k v h))
          (a.0, insert-AllEntries P es k v a.1 p)
  ]

  pub change-AllEntries :
      (P : ℕ → A → Type 0) (es : List (ℕ × A)) (k : ℕ) (v : A)
      → AllEntries P es
      → P k v
      → AllEntries P (change es k v)
  unfolding change
  change-AllEntries P [] k v a p = tt
  change-AllEntries P (e ∷ es) k v a p = elim (key_cases e.0 k) [
    | inl h ↦ subst (λ m. AllEntries P m) (sym (change-head e es k v h)) (p, a.1)
    | inr h ↦
        subst (λ m. AllEntries P m) (sym (change-tail e es k v h))
          (a.0, change-AllEntries P es k v a.1 p)
  ]

  pub erase-AllEntries :
      (P : ℕ → A → Type 0) (es : List (ℕ × A)) (k : ℕ) → AllEntries P es → AllEntries P (erase es k)
  unfolding erase
  erase-AllEntries P [] k a = tt
  erase-AllEntries P (e ∷ es) k a = elim (Bool-cases (e.0 == k)) [
    | inl h ↦ rw h a.1
    | inr h ↦ rw h (a.0, erase-AllEntries P es k a.1)
  ]

  pub find-insert :
      (es : List (ℕ × A)) (k : ℕ) (v : A) → find es k ≡ none → find (insert es k v) k ≡ some v
  unfolding insert
  find-insert [] k v f = find-head (k, v) [] k refl
  find-insert (e ∷ es) k v f = elim (key_cases e.0 k) [
    | inl h ↦ let is = sym (find-head e es k h) ∙ f in absurd (cc)
    | inr h ↦
        ap (λ m. find m k) (insert-tail e es k v h)
        ∙ find-tail e (insert es k v) k h
        ∙ find-insert es k v (sym (find-tail e es k h) ∙ f)
  ]

  -- An entry that is there stays.
  pub find-insert_kept :
      (es : List (ℕ × A)) (k : ℕ) (v : A) (j : ℕ) (w : A)
      → find es j ≡ some w
      → find (insert es k v) j ≡ some w
  find-insert_kept [] k v j w f = absurd (find_nil j w f)
  find-insert_kept (e ∷ es) k v j w f = elim (key_cases e.0 k) [
    | inl h ↦ ap (λ m. find m j) (insert-head e es k v h) ∙ f
    | inr h ↦ ap (λ m. find m j) (insert-tail e es k v h) ∙ (elim (key_cases e.0 j) [
      | inl i ↦ find-head e (insert es k v) j i ∙ sym (find-head e es j i) ∙ f
      | inr i ↦
          find-tail e (insert es k v) j i
          ∙ find-insert_kept es k v j w (sym (find-tail e es j i) ∙ f)
    ])
  ]

  pub find-change :
      (es : List (ℕ × A)) (k : ℕ) (v w : A) → find es k ≡ some w → find (change es k v) k ≡ some v
  find-change [] k v w f = absurd (find_nil k w f)
  find-change (e ∷ es) k v w f = elim (key_cases e.0 k) [
    | inl h ↦ ap (λ m. find m k) (change-head e es k v h) ∙ find-head (k, v) es k refl
    | inr h ↦
        ap (λ m. find m k) (change-tail e es k v h)
        ∙ find-tail e (change es k v) k h
        ∙ find-change es k v w (sym (find-tail e es k h) ∙ f)
  ]

  pub find-change_other :
      (es : List (ℕ × A)) (k : ℕ) (v : A) (j : ℕ) → ¬ (k ≡ j) → find (change es k v) j ≡ find es j
  unfolding change
  find-change_other [] k v j d = refl
  find-change_other (e ∷ es) k v j d = elim (key_cases e.0 k) [
    | inl h ↦
        ap (λ m. find m j) (change-head e es k v h)
        ∙ find-tail (k, v) es j d
        ∙ sym (find-tail e es j (λ i. d (sym h ∙ i)))
    | inr h ↦ ap (λ m. find m j) (change-tail e es k v h) ∙ (elim (key_cases e.0 j) [
      | inl i ↦ find-head e (change es k v) j i ∙ sym (find-head e es j i)
      | inr i ↦
          find-tail e (change es k v) j i ∙ find-change_other es k v j d ∙ sym (find-tail e es j i)
    ])
  ]
