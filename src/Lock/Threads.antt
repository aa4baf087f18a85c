-- ===== src/Lock/Threads.antt =====
-- The threads of a program as a list of what each one does, and the number of those in a section.
use linux.Common.{
  ℕ, zero, suc, ◌+◌, ◌≤◌, ◌≡◌, refl, List, [], ◌∷◌, some, arith, length, get_elem?, set, replicate,
  some_inj, ap,
}

module _ {A : Type 0} (weight : A → ℕ) where
  -- The sum of the threads' weights; a weight is 1 in the section and 0 outside.
  unfoldable pub total : List A → ℕ
  total [] = 0
  total (t ∷ ts) = weight t + total ts

  -- One thread moves.
  pub total-set :
      (ts : List A) (i : ℕ) (t t' : A)
      → get_elem? ts i ≡ some t
      → total (set ts i t') + weight t ≡ total ts + weight t'
  unfolding total
  total-set [] i t t' h = cc
  total-set (x ∷ xs) zero t t' h = omega (arith, ap weight (some_inj h))
  total-set (x ∷ xs) (suc i) t t' h = omega (arith, total-set xs i t t' h)

  pub total-replicate : (n : ℕ) (t : A) → weight t ≡ 0 → total (replicate n t) ≡ 0
  unfolding total
  total-replicate zero t h = refl
  total-replicate (suc n) t h = omega (arith, total-replicate n t h)

  -- A thread in the section counts.
  pub weight-le-total :
      (ts : List A) (i : ℕ) (t : A) → get_elem? ts i ≡ some t → weight t ≤ total ts
  unfolding total
  weight-le-total [] i t h = cc
  weight-le-total (x ∷ xs) zero t h = omega (arith, ap weight (some_inj h))
  weight-le-total (x ∷ xs) (suc i) t h = omega (arith, weight-le-total xs i t h)

  pub total-le-length : (ts : List A) → ((t : A) → weight t ≤ 1) → total ts ≤ length ts
  unfolding total
  total-le-length [] h = omega arith
  total-le-length (t ∷ ts) h = omega (arith, h t, total-le-length ts h)
