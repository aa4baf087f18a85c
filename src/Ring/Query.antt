-- ===== src/Ring/Query.antt =====
-- The queries of a quiescent ring, against its queue.
use linux.Common.{
  ◌+◌, ◌≤◌, ◌≡◌, refl, ap, ◌∙◌, ◌↔◌, List, [], ◌∷◌, arith, length, bit_and, sub32, true, le→not_ltb,
  ==_iff,
}
use native.Mathlib.Nat.{mod-eq_of_lt}
use linux.Ring.State.{Ring}
use linux.Ring.Api.{count, free_count, full, empty}
use linux.Ring.Valid.{IsValid, used, contents, length-contents, masked, size_bounds}

nil_of_length {ℓ} : {A : Type ℓ} (xs : List A) → length xs ≡ 0 → xs ≡ []
nil_of_length [] h = refl
nil_of_length (x ∷ xs) h = absurd (omega arith)

module _ {r : Ring} (v : IsValid r) where
  used_le : used r ≤ r.capacity
  used_le = omega (arith, v)

  masked_used : bit_and (used r) r.mask ≡ used r
  masked_used = masked v (used r) ∙ mod-eq_of_lt (omega (arith, v, used_le, size_bounds v))

  count-used : count r ≡ used r
  unfolding count
  count-used = rw masked_used (rw (le→not_ltb r.capacity (used r) used_le))

  -- On a quiescent ring, `rte_ring_count` is the number of stored objects and
  -- `rte_ring_free_count` what the capacity leaves; `rte_ring_full` holds exactly when the capacity
  -- is used up, and `rte_ring_empty` exactly when nothing is stored.
  pub queries-contents :
      (count r ≡ length (contents r))
      × (free_count r + length (contents r) ≡ r.capacity)
      × ((full r ≡ true) ↔ (length (contents r) ≡ r.capacity))
      × ((empty r ≡ true) ↔ (contents r ≡ []))
  unfolding full empty
  queries-contents =
      let n = length-contents r in
      let free : sub32 r.capacity (count r) + length (contents r) ≡ r.capacity =
        omega (arith, n, count-used, used_le, v, size_bounds v) in
      (
        rw n count-used,
        free,
        ((λ h. let e = (==_iff _ 0).0 h in omega arith), (λ h. (==_iff _ 0).1 (omega arith))),
        (
          (λ h. let e = (==_iff _ 0).0 h in nil_of_length (contents r) (omega (arith, count-used))),
          (λ h. let e = ap length h in (==_iff _ 0).1 (omega (arith, count-used))),
        ),
      )
