-- ===== src/Ring/Create.antt =====
-- Sizing and creating a ring.
use linux.Common.{
  ℕ, ◌+◌, ◌-◌, ◌*◌, ◌/◌, ◌%◌, ◌^◌, ◌≤◌, ◌<◌, ◌≡◌, refl, ◌≢◌, ◌↔◌, ◌⊎◌, inl, inr, true, Option, none,
  some, List, [], ◌∷◌, arith, length, sub32, ltb, le→not_ltb, not_ltb→le, ◌==◌, ==_iff, >>=-eq-some,
  some_inj, Bool-cases, suc, subst, bit_and_high, power_of_mask, mask_of_power, pow-le_pow,
  bit_and_low,
}
use native.Mathlib.Nat.{one-le-pow}
use native.Mathlib.Decide.{dec_le}
use linux.Ring.State.{
  Behavior, fixed, variable, Ring, is_power_of_2, cache_align, get_memsize, init, create,
  header_size, ring_sz_mask,
}
use linux.Ring.Table.{enqueue_ptrs, copy_one}
use linux.Ring.Head.{claimed, move_prod_head, update_tail}
use linux.Ring.Calls.{Done, do_enqueue}
use linux.Ring.Window.{entries}
use linux.Ring.Valid.{IsValid, contents}

-- `count` is a power of two that RTE_RING_SZ_MASK allows.
abbrev pub IsRingSize : ℕ → Type 0
IsRingSize count = (k : ℕ) × (k ≤ 30) × (count ≡ 2 ^ k)

cache_align_lem :
    (n : ℕ) → n < 2 ^ 40 → (n ≤ cache_align n) × (cache_align n < n + 64) × (cache_align n % 64 ≡ 0)
unfolding cache_align
cache_align_lem n h = omega (
  arith,
  bit_and_high 6 ((n + 63) % 2 ^ 64) (2 ^ 58 - 1),
  bit_and_low 58 ((n + 63) % 2 ^ 64 / 64),
)

is_power_of_2_lem :
    (n : ℕ) → 0 < n → n < 2 ^ 32 → (is_power_of_2 n ≡ true) ↔ ((k : ℕ) × (n ≡ 2 ^ k))
unfolding is_power_of_2
is_power_of_2_lem n p h =
    let e : sub32 n 1 ≡ n - 1 = omega arith in
    rw e (
      (λ t. power_of_mask n p ((==_iff _ 0).0 t)),
      (λ (k, q). (==_iff _ 0).1 (rw q (mask_of_power k))),
    )

order_le : (k : ℕ) → 2 ^ k < 2 ^ 31 → k ≤ 30
order_le k h = elim (dec_le k 30) [
  | yes p ↦ p
  | no p ↦ absurd (omega (arith, pow-le_pow 31 k (omega arith)))
]

get_memsize_accepts :
    (count : ℕ) → IsRingSize count → get_memsize count ≡ cache_align (header_size + count * 8)
unfolding get_memsize
get_memsize_accepts count (k, small, e) =
    let le = pow-le_pow k 30 small in
    let pos = one-le-pow k 2 (omega arith) in
    let t = (is_power_of_2_lem count (omega arith) (omega arith)).1 (k, e) in
    rw (t, le→not_ltb ring_sz_mask count (omega arith)) refl

get_memsize_rejects :
    (count : ℕ) → 0 < count → count < 2 ^ 32 → get_memsize count ≢ 0 → IsRingSize count
unfolding get_memsize
get_memsize_rejects count p h ne = elim (Bool-cases (is_power_of_2 count)) [
  | inl t ↦ elim (Bool-cases (ltb ring_sz_mask count)) [
    | inl big ↦ absurd (ne (rw (t, big) refl))
    | inr fits ↦
        let (k, e) = (is_power_of_2_lem count p h).0 t in
        let le = not_ltb→le ring_sz_mask count fits in (k, order_le k (omega arith), e)
  ]
  | inr f ↦ absurd (ne (rw f refl))
]

-- For a power of two up to 2 ^ 30, `rte_ring_get_memsize` is the first multiple of 64 that the
-- header and `count` pointers fit in.
pub get_memsize_size :
    (count : ℕ)
    → IsRingSize count
    → (header_size + count * 8 ≤ get_memsize count)
      × (get_memsize count < header_size + count * 8 + 64)
      × (get_memsize count % 64 ≡ 0)
get_memsize_size count (k, small, e) =
    let le = pow-le_pow k 30 small in
    rw (get_memsize_accepts count (k, small, e))
      (cache_align_lem (header_size + count * 8) (omega arith))

-- For a positive 32-bit `count`: at the powers of two up to 2 ^ 30, `rte_ring_get_memsize` is the first
-- multiple of 64 that the header and `count` pointers fit in; at all others it is 0, and not the -EINVAL
-- that rte_ring.h promises for a count that is not a power of two.
pub get_memsize_cases :
    (count : ℕ)
    → 0 < count
    → count < 2 ^ 32
    → (IsRingSize count
        × ((header_size + count * 8 ≤ get_memsize count)
            × (get_memsize count < header_size + count * 8 + 64)
            × (get_memsize count % 64 ≡ 0)))
      ⊎ ((¬ IsRingSize count) × (get_memsize count ≡ 0))
get_memsize_cases count p h = elim (Bool-cases (get_memsize count == 0)) [
  | inl e ↦
      let zero_size : get_memsize count ≡ 0 = (==_iff _ 0).0 e in
      inr ((λ s. let a = get_memsize_size count s in omega (arith, a.0, zero_size)), zero_size)
  | inr e ↦
      let s = get_memsize_rejects count p h (λ z. ground (arith, e, z)) in
      inl (s, get_memsize_size count s)
]

-- What C promises of `malloc`: a block holds the bytes that were asked for.
abbrev pub HoldsRequest : (ℕ → Option (List ℕ)) → Type 0
HoldsRequest malloc =
    (bytes : ℕ) (words : List ℕ)
    → malloc bytes ≡ some words
    → bytes ≤ header_size + 8 * length words

create_inversion :
    (malloc : ℕ → Option (List ℕ)) (count flags : ℕ) {r : Ring}
    → create malloc count flags ≡ some r
    → (words : List ℕ) × (get_memsize count ≢ 0)
      × (malloc (get_memsize count) ≡ some words)
      × (init words count flags ≡ r)
unfolding create
create_inversion malloc count flags e = elim (Bool-cases (get_memsize count == 0)) [
  | inl z ↦ let e' = rw z at e in cc
  | inr nz ↦
      let e' = rw nz at e in
      let (words, got, same) =
        >>=-eq-some (malloc (get_memsize count)) (λ memory. some (init memory count flags)) e' in
      (words, ground arith, got, some_inj same)
]

-- Given a `malloc` that keeps its promise, what `rte_ring_create` returns for a positive 32-bit
-- `count` is a quiescent and empty ring for `count - 1` objects.
pub create-IsValid :
    (malloc : ℕ → Option (List ℕ)) (count flags : ℕ) {r : Ring}
    → HoldsRequest malloc
    → 0 < count
    → count < 2 ^ 32
    → create malloc count flags ≡ some r
    → IsValid r × (contents r ≡ []) × (r.capacity ≡ count - 1)
unfolding init entries
create-IsValid malloc count flags {r} holds p h e =
    let (words, ne, got, same) = create_inversion malloc count flags e in
    let (k, small, pow) = get_memsize_rejects count p h ne in
    let size = get_memsize_size count (k, small, pow) in
    let fits = holds (get_memsize count) words got in
    let minus : sub32 count 1 ≡ count - 1 = omega arith in
    subst (λ r. IsValid r × (contents r ≡ []) × (r.capacity ≡ count - 1)) same
      (
        record {
          order = k;
          order_small = small;
          size_pow = pow;
          mask_size = minus;
          capacity_size = minus;
          storage = omega arith;
          prod_word = omega arith;
          cons_word = omega arith;
          prod_quiet = refl;
          cons_quiet = refl;
          used_le = omega arith;
        },
        refl,
        minus,
      )

-- The ring that `rte_ring_create` makes for `count` 0 in a block of just the bytes asked for.
abbrev empty_table : ℕ → Ring
empty_table flags = init [] 0 flags

create_zero :
    (malloc : ℕ → Option (List ℕ)) (flags : ℕ)
    → malloc header_size ≡ some []
    → create malloc 0 flags ≡ some (empty_table flags)
unfolding create get_memsize is_power_of_2 cache_align
create_zero malloc flags got = rw got

empty_table_claim :
    (flags fuel single : ℕ) (b : Behavior)
    → move_prod_head (suc fuel) (empty_table flags) single 1 b
      ≡ some (
        claimed 1 0 1 (2 ^ 32 - 1),
        record (empty_table flags) { prod = record (empty_table flags).prod { head = 1 } },
      )
unfolding init move_prod_head
empty_table_claim flags fuel single fixed = elim (Bool-cases (single == 0)) [
  | inl e ↦ rw e
  | inr e ↦ rw e
]
empty_table_claim flags fuel single variable = elim (Bool-cases (single == 0)) [
  | inl e ↦ rw e
  | inr e ↦ rw e
]

-- The same ring, where `memory` stands behind its header.
abbrev with_memory : ℕ → List ℕ → Ring
with_memory flags memory = record (empty_table flags) { table = memory }

one_word_claim :
    (flags fuel single word : ℕ) (b : Behavior)
    → move_prod_head (suc fuel) (with_memory flags (word ∷ [])) single 1 b
      ≡ some (
        claimed 1 0 1 (2 ^ 32 - 1),
        record (with_memory flags (word ∷ [])) {
          prod = record (empty_table flags).prod { head = 1 };
        },
      )
unfolding init move_prod_head
one_word_claim flags fuel single word fixed = elim (Bool-cases (single == 0)) [
  | inl e ↦ rw e
  | inr e ↦ rw e
]
one_word_claim flags fuel single word variable = elim (Bool-cases (single == 0)) [
  | inl e ↦ rw e
  | inr e ↦ rw e
]

one_word_tail :
    (flags single : ℕ)
    → update_tail (record (empty_table flags).prod { head = 1 }) 0 1 single
      ≡ some (record (empty_table flags).prod { head = 1; tail = 1 })
unfolding init update_tail
one_word_tail flags single = elim (Bool-cases (single == 0)) [ inl e ↦ rw e | inr e ↦ rw e ]

one_word_enqueued :
    (flags fuel obj word single : ℕ) (b : Behavior)
    → do_enqueue (suc fuel) (with_memory flags (word ∷ [])) (obj ∷ []) 1 b single
      ≡ some (record {
        count = 1;
        left = 2 ^ 32 - 2;
        objs = obj ∷ [];
        ring = record (with_memory flags (obj ∷ [])) {
          prod = record (empty_table flags).prod { head = 1; tail = 1 };
        };
      })
unfolding init do_enqueue enqueue_ptrs copy_one
one_word_enqueued flags fuel obj word single b =
    rw (one_word_claim flags fuel single word b, one_word_tail flags single) refl

-- POWEROF2 lets `count` 0 through: where `malloc` returns just the bytes asked for, the ring has no
-- table, and a capacity of 2 ^ 32 - 1. The first enqueue of an object on it, by any version of the call,
-- then goes outside the ring's memory and has no result. Where one word more stands behind that memory,
-- the same call does return, and has stored the object in that word.
pub create_zero_overflows :
    (malloc : ℕ → Option (List ℕ)) (flags fuel obj word single : ℕ) (b : Behavior)
    → malloc header_size ≡ some []
    → (r : Ring) × (create malloc 0 flags ≡ some r)
      × (r.capacity ≡ 2 ^ 32 - 1)
      × (r.table ≡ [])
      × (do_enqueue (suc fuel) r (obj ∷ []) 1 b single ≡ none)
      × ((done : Done) × (do_enqueue
              (suc fuel)
              (record r { table = word ∷ [] })
              (obj ∷ [])
              1
              b
              single
            ≡ some done)
          × (done.count ≡ 1)
          × (done.ring.table ≡ obj ∷ []))
unfolding init do_enqueue enqueue_ptrs copy_one
create_zero_overflows malloc flags fuel obj word single b got = (
  empty_table flags,
  create_zero malloc flags got,
  refl,
  refl,
  rw (empty_table_claim flags fuel single b) refl,
  (_, one_word_enqueued flags fuel obj word single b, refl, refl),
)
