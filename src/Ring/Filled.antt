-- ===== src/Ring/Filled.antt =====
-- ENQUEUE_PTRS and DEQUEUE_PTRS on both branches: entry `i` stands at the table's index
-- `around size (idx + i)`.
use linux.Common.{
  ℕ, ◌+◌, ◌-◌, ◌^◌, ◌≤◌, ◌<◌, ◌≡◌, ◌≢◌, inl, inr, ap, ◌∙◌, Option, some, List, arith, ◌>>=◌, length,
  get_or, ltb, lt→ltb, le→not_ltb, if◌then◌else◌, bit_and, add32,
}
use native.Mathlib.Nat.{zero-add}
use native.Mathlib.Decide.{dec_lt}
use linux.Ring.State.{Ring}
use linux.Ring.Table.{enqueue_ptrs, dequeue_ptrs}
use linux.Ring.Copied.{Copied, copy-Copied, unrolled_then_rest-Copied}

-- The place of index `x` in a table of `size` entries, at most once round.
abbrev pub around : ℕ → ℕ → ℕ
around size x = if ltb x size then x else x - size

-- `out` is `table` with the first `n` of `objs` written from `idx` on, round the end.
pub record Filled (size idx n : ℕ) (objs table : List ℕ) (out : Option (List ℕ)) : Type 0 where
  pub result : List ℕ
  pub returns : out ≡ some result
  pub same_length : length result ≡ length table
  pub inside : (i : ℕ) → i < n → get_or result (around size (idx + i)) 0 ≡ get_or objs i 0
  pub outside :
      (j : ℕ) → ((i : ℕ) → i < n → j ≢ around size (idx + i)) → get_or result j 0 ≡ get_or table j 0

-- `out` is `objs` with the `n` entries of `table` from `idx` on written at its start.
pub record Drained (size idx n : ℕ) (objs table : List ℕ) (out : Option (List ℕ)) : Type 0 where
  pub result : List ℕ
  pub returns : out ≡ some result
  pub same_length : length result ≡ length objs
  pub inside : (i : ℕ) → i < n → get_or result i 0 ≡ get_or table (around size (idx + i)) 0
  pub outside : (i : ℕ) → n ≤ i → get_or result i 0 ≡ get_or objs i 0

module _ (r : Ring) (head n : ℕ) (objs : List ℕ) where
  abbrev idx : ℕ
  idx = bit_and head r.mask

  -- What the macros rely on: an index in the table, and arrays that hold what is copied.
  pub record Fits : Type 0 where
    pub index : idx < r.size
    pub small : r.size ≤ 2 ^ 31
    pub claim : n ≤ r.size
    pub table : r.size ≤ length r.table
    pub array : n ≤ length objs

around_below : (size x : ℕ) → x < size → around size x ≡ x
around_below size x h = rw (lt→ltb x size h)

around_above : (size x : ℕ) → size ≤ x → around size x ≡ x - size
around_above size x h = rw (le→not_ltb x size h)

module _ (size idx n : ℕ) (objs table : List ℕ) where
  straight-Filled :
      {out : Option (List ℕ)}
      → idx + n < size
      → Copied n idx 0 table objs out
      → Filled size idx n objs table out
  straight-Filled h c = record {
    result = c.result;
    returns = c.returns;
    same_length = c.same_length;
    inside = λ i p. rw (around_below size (idx + i) (omega arith)) (rw zero-add at (c.inside i p));
    outside = λ j p. c.outside j (elim (dec_lt j idx) [
      | yes q ↦ inl q
      | no q ↦ elim (dec_lt j (idx + n)) [
        | yes t ↦ absurd (
            p (j - idx) (omega arith)
              (rw (around_below size (idx + (j - idx)) (omega arith)) (omega arith)))
        | no t ↦ inr (omega arith)
      ]
    ]);
  }

  round-Filled :
      (m : ℕ) (next : List ℕ → Option (List ℕ)) {out : Option (List ℕ)}
      → idx + m ≡ size
      → m ≤ n
      → n ≤ size
      → Copied m idx 0 table objs out
      → ((mid : List ℕ) → length mid ≡ length table → Copied (n - m) 0 m mid objs (next mid))
      → Filled size idx n objs table (out >>= next)
  round-Filled m next e h₁ h₂ a b = record {
    result = c.result;
    returns = ap (λ o. o >>= next) a.returns ∙ c.returns;
    same_length = c.same_length ∙ a.same_length;
    inside = λ i p. elim (dec_lt i m) [
      | yes q ↦
          rw (around_below size (idx + i) (omega arith))
            (c.outside (idx + i) (inr (omega arith)) ∙ rw zero-add at (a.inside i q))
      | no q ↦
          let e₁ : idx + i - size ≡ 0 + (i - m) = omega arith in
          let e₂ : m + (i - m) ≡ i = omega arith in
          rw (around_above size (idx + i) (omega arith), e₁)
            (c.inside (i - m) (omega arith) ∙ ap (λ k. get_or objs k 0) e₂)
    ];
    outside = λ j p. elim (dec_lt j (n - m)) [
      | yes q ↦ absurd (
          p (m + j) (omega arith)
            (rw (around_above size (idx + (m + j)) (omega arith)) (omega arith)))
      | no q ↦
          c.outside j (inr (omega arith))
          ∙ a.outside j (elim (dec_lt j idx) [
            | yes t ↦ inl t
            | no t ↦ elim (dec_lt j size) [
              | yes u ↦ absurd (
                  p (j - idx) (omega arith)
                    (rw (around_below size (idx + (j - idx)) (omega arith)) (omega arith)))
              | no u ↦ inr (omega arith)
            ]
          ])
    ];
  }
    where
      c : Copied (n - m) 0 m a.result objs (next a.result)
      c = b a.result a.same_length

  straight-Drained :
      {out : Option (List ℕ)}
      → idx + n < size
      → Copied n 0 idx objs table out
      → Drained size idx n objs table out
  straight-Drained h c = record {
    result = c.result;
    returns = c.returns;
    same_length = c.same_length;
    inside = λ i p. rw (around_below size (idx + i) (omega arith)) (rw zero-add at (c.inside i p));
    outside = λ i p. c.outside i (inr (omega arith));
  }

  round-Drained :
      (m : ℕ) (next : List ℕ → Option (List ℕ)) {out : Option (List ℕ)}
      → idx + m ≡ size
      → m ≤ n
      → Copied m 0 idx objs table out
      → ((mid : List ℕ) → length mid ≡ length objs → Copied (n - m) m 0 mid table (next mid))
      → Drained size idx n objs table (out >>= next)
  round-Drained m next e h a b = record {
    result = c.result;
    returns = ap (λ o. o >>= next) a.returns ∙ c.returns;
    same_length = c.same_length ∙ a.same_length;
    inside = λ i p. elim (dec_lt i m) [
      | yes q ↦
          rw (around_below size (idx + i) (omega arith))
            (c.outside i (inl q) ∙ rw zero-add at (a.inside i q))
      | no q ↦
          let e₁ : idx + i - size ≡ 0 + (i - m) = omega arith in
          let e₂ : i ≡ m + (i - m) = omega arith in
          rw (around_above size (idx + i) (omega arith), e₁)
            (ap (λ k. get_or c.result k 0) e₂ ∙ c.inside (i - m) (omega arith))
    ];
    outside = λ i p. c.outside i (inr (omega arith)) ∙ a.outside i (inr (omega arith));
  }
    where
      c : Copied (n - m) m 0 a.result table (next a.result)
      c = b a.result a.same_length

module _ {r : Ring} {head n : ℕ} {objs : List ℕ} (f : Fits r head n objs) where
  -- ENQUEUE_PTRS stays inside both arrays, and writes exactly the claimed entries.
  pub enqueue_ptrs-Filled :
      Filled r.size (idx r head n objs) n objs r.table (enqueue_ptrs r head objs n)
  unfolding enqueue_ptrs
  enqueue_ptrs-Filled =
      let i = idx r head n objs in
      elim (dec_lt (i + n) r.size) [
        | yes h ↦ rw (lt→ltb (add32 i n) r.size (omega (arith, f))) (
            straight-Filled r.size i n objs r.table h (
              unrolled_then_rest-Copied n i _ 0 _ r.table (omega (arith, f)) (omega (arith, f))
                (omega arith)))
        | no h ↦ rw (le→not_ltb (add32 i n) r.size (omega (arith, f))) (
            round-Filled r.size i n objs r.table (r.size - i) _ (omega (arith, f))
              (omega (arith, f)) f.claim (copy-Copied (r.size - i) i 0 r.table (omega (arith, f)))
              λ mid e. copy-Copied (n - (r.size - i)) 0 (r.size - i) mid (omega (arith, f)))
      ]

  -- DEQUEUE_PTRS stays inside both arrays, and reads exactly the claimed entries, in order.
  pub dequeue_ptrs-Drained :
      Drained r.size (idx r head n objs) n objs r.table (dequeue_ptrs r head objs n)
  unfolding dequeue_ptrs
  dequeue_ptrs-Drained =
      let i = idx r head n objs in
      elim (dec_lt (i + n) r.size) [
        | yes h ↦ rw (lt→ltb (add32 i n) r.size (omega (arith, f))) (
            straight-Drained r.size i n objs r.table h (
              unrolled_then_rest-Copied n 0 _ i _ objs (omega (arith, f)) (omega (arith, f))
                (omega arith)))
        | no h ↦ rw (le→not_ltb (add32 i n) r.size (omega (arith, f))) (
            round-Drained r.size i n objs r.table (r.size - i) _ (omega (arith, f))
              (omega (arith, f)) (copy-Copied (r.size - i) 0 i objs (omega (arith, f)))
              λ mid e. copy-Copied (n - (r.size - i)) (r.size - i) 0 mid (omega (arith, f)))
      ]
