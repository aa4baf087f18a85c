-- ===== src/Ring/Valid.antt =====
-- The ring between calls: its invariant, and the queue that it stands for.
use linux.Common.{
  ℕ, ◌+◌, ◌-◌, ◌%◌, ◌^◌, ◌≤◌, ◌<◌, ◌≡◌, sym, ◌∙◌, List, arith, length, bit_and, bit_and_low,
  mod_word-mod_pow, pow-le_pow, u32_mod, sub32,
}
use native.Mathlib.Nat.{one-le-pow, mod-add-mod, mod-eq_of_lt, mod-eq-sub-mod, mod-lt}
use native.Mathlib.Decide.{dec_lt}
use linux.Ring.State.{Ring}
use linux.Ring.Filled.{around}
use linux.Ring.Window.{entries, length-entries}

-- A quiescent ring: its size is a power of two that the table holds, the indices are words, no
-- claim is open, and no more than `capacity` entries are in use.
pub record IsValid (r : Ring) : Type 0 where
  pub order : ℕ
  pub order_small : order ≤ 30
  pub size_pow : r.size ≡ 2 ^ order
  pub mask_size : r.mask ≡ r.size - 1
  pub capacity_size : r.capacity ≡ r.size - 1
  pub storage : r.size ≤ length r.table
  pub prod_word : r.prod.head < 2 ^ 32
  pub cons_word : r.cons.head < 2 ^ 32
  pub prod_quiet : r.prod.tail ≡ r.prod.head
  pub cons_quiet : r.cons.tail ≡ r.cons.head
  pub used_le : sub32 r.prod.head r.cons.head ≤ r.capacity

-- The number of stored objects, across the wrap of the 32-bit indices.
abbrev pub used : Ring → ℕ
used r = sub32 r.prod.tail r.cons.tail

-- The stored objects, oldest first.
abbrev pub contents : Ring → List ℕ
contents r = entries r.size r.table (bit_and r.cons.tail r.mask) (used r)

pub length-contents : (r : Ring) → length (contents r) ≡ used r
length-contents r = length-entries r.size r.table (bit_and r.cons.tail r.mask) (used r)

-- A remainder, moved on by less than the modulus.
mod-around : (m a n : ℕ) → n < m → (a + n) % m ≡ around m (a % m + n)
mod-around m a n h =
    let a_in : a % m < m = mod-lt a {m = m} (omega arith) in
    let e : (a + n) % m ≡ (a % m + n) % m = sym (mod-add-mod a m n) in
    elim (dec_lt (a % m + n) m) [
      | yes p ↦ ground (arith, e, mod-eq_of_lt p)
      | no p ↦ ground (
        arith,
        e,
        mod-eq-sub-mod {n = a % m + n} {m = m} (omega arith),
        mod-eq_of_lt {n = a % m + n - m} {m = m} (omega arith),
      )
    ]

module _ {r : Ring} (v : IsValid r) where
  open v use {order, size_pow, mask_size}

  pub size_bounds : (1 ≤ r.size) × (r.size ≤ 2 ^ 30)
  size_bounds =
      omega (arith, v, one-le-pow order 2 (omega arith), pow-le_pow order 30 v.order_small)

  -- Masking an index is the remainder by the size.
  pub masked : (x : ℕ) → bit_and x r.mask ≡ x % r.size
  masked x = rw (mask_size, size_pow) (bit_and_low order x)

  pub masked-lt : (x : ℕ) → bit_and x r.mask < r.size
  masked-lt x = rw masked (mod-lt x {m = r.size} (omega (arith, size_bounds)))

  -- An index moved on by fewer entries than the size, wrap included.
  pub masked_later :
      (x n : ℕ)
      → n < r.size
      → bit_and ((x + n) % u32_mod) r.mask ≡ around r.size (bit_and x r.mask + n)
  masked_later x n h =
      rw (masked, masked)
        (rw size_pow (mod_word-mod_pow order (x + n) (omega (arith, v.order_small)))
          ∙ mod-around r.size x n h)
