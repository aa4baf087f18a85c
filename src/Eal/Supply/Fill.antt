-- ===== src/Eal/Supply/Fill.antt =====
-- The loop of `calc_num_pages_per_socket` over the page sizes, for one node.
use linux.Common.{
  ℕ, ◌+◌, ◌-◌, ◌*◌, ◌/◌, ◌%◌, ◌≤◌, ◌<◌, ◌≡◌, refl, ◌≢◌, ap, ap₂, ◌⊎◌, min, false, some, List, [],
  ◌∷◌, ltb, ◌==◌, ==_iff, Bool-cases, inl, inr, arith, u32_mod, get_or-set_self,
}
use native.Mathlib.Nat.{div-add-mod, mod-lt}
use linux.Eal.Supply.{
  HugepageInfo, Tally, pages_on, remaining_mem, spend, fill_sizes, u64_mod, mul64,
}
use linux.Eal.Supply.Amounts.{
  memory_on, IsFresh, IsKept-refl, IsFilled, remaining_mem-memory_on, IsFresh-empty, with_pages,
  IsKept-with_pages,
}

-- What the loop takes of one size of `z` bytes, with `a` pages there, for `r` bytes.
taken : (r z a n : ℕ) → 0 < z → n ≡ min (r / z) a → (z * n ≤ r) × (n ≤ a) × (z * n ≤ z * a)
taken r z a n pos e =
    let low : z * n ≤ z * (r / z) = (let l : n ≤ r / z = omega (arith, e) in grind (arith, l)) in
    let l : n ≤ a = omega (arith, e) in (omega (arith, div-add-mod r z, low), l, grind (arith, l))

taken_fewer :
    (r z a n : ℕ)
    → 0 < z
    → n ≡ min (r / z) a
    → n ≢ a
    → (r < z * (n + 1)) × (n + 1 ≤ a) × (z * (n + 1) ≤ z * a)
taken_fewer r z a n pos e ne =
    let same : n ≡ r / z = omega (arith, e, ne) in
    let l : n + 1 ≤ a = omega (arith, e, ne) in
    (omega (arith, div-add-mod r z, mod-lt r pos, ap (λ k. z * k) same), l, grind (arith, l))

module _ (socket : ℕ) (h u : HugepageInfo) (hs us : List HugepageInfo)
    (fresh : IsFresh socket (h ∷ hs) (u ∷ us)) where
  abbrev z : ℕ
  z = h.hugepage_sz

  with_pages-pages_on : (n : ℕ) → pages_on socket (with_pages socket n h u) ≡ n
  with_pages-pages_on n = get_or-set_self u.num_pages socket n 0 fresh.2

  -- The last page that the node needs is of this size.
  IsFilled-last :
      (n : ℕ) (t t' : Tally)
      → n ≤ pages_on socket h
      → t'.memory ≡ 0
      → t'.total_mem + t.memory ≡ t.total_mem
      → t.memory ≤ z * n
      → t'.total_num_pages ≡ (t.total_num_pages + n) % u32_mod
      → IsFilled socket (h ∷ hs) (u ∷ us) t (with_pages socket n h u ∷ us) t'
  IsFilled-last n t t' le done total enough count =
      let e = IsFresh-empty socket hs us fresh.4 in
      let p = with_pages-pages_on n in
      let more : z * n ≤ z * pages_on socket h = grind (arith, le) in
      let size : u.hugepage_sz * pages_on socket (with_pages socket n h u) ≡ z * n =
        ap₂ ◌*◌ fresh.0 p in
      record {
        left = omega (arith, done, enough, more);
        spent = omega (arith, done, total);
        within = (omega (arith, le, p), e.0);
        met = omega (arith, enough, size);
        counted = omega (arith, count, p, e.2);
        others = λ s ne. IsKept-with_pages socket n s h u us us ne (IsKept-refl s us);
      }

  -- The loop goes on with the next size.
  IsFilled-more :
      (n : ℕ) (t t1 t' : Tally) (us' : List HugepageInfo)
      → n ≤ pages_on socket h
      → z * n ≤ t.memory
      → t.memory ≤ t.total_mem
      → t1.memory ≡ t.memory - z * n
      → t1.total_mem ≡ t.total_mem - z * n
      → t1.total_num_pages ≡ (t.total_num_pages + n) % u32_mod
      → (n ≡ pages_on socket h) ⊎ (t1.memory ≤ memory_on socket hs)
      → IsFilled socket hs us t1 us' t'
      → IsFilled socket (h ∷ hs) (u ∷ us) t (with_pages socket n h u ∷ us') t'
  IsFilled-more n t t1 t' us' le part all memory total count why rest =
      let p = with_pages-pages_on n in
      let more : z * n ≤ z * pages_on socket h = grind (arith, le) in
      let size : u.hugepage_sz * pages_on socket (with_pages socket n h u) ≡ z * n =
        ap₂ ◌*◌ fresh.0 p in
      record {
        left = elim why [
          | inl e ↦ omega (arith, rest.left, memory, ap (λ k. z * k) e)
          | inr few ↦ omega (arith, rest.left, memory, few, more)
        ];
        spent = omega (arith, rest.spent, rest.left, memory, total, part, all);
        within = (omega (arith, le, p), rest.within);
        met = omega (arith, rest.met, memory, size);
        counted = omega (arith, rest.counted, count, p);
        others = λ s ne. IsKept-with_pages socket n s h u us us' ne (rest.others s ne);
      }

  -- The node needs nothing.
  IsFilled-none :
      (t : Tally)
      → t.memory ≡ 0
      → t.total_num_pages < u32_mod
      → IsFilled socket (h ∷ hs) (u ∷ us) t (u ∷ us) t
  IsFilled-none t e few =
      let f = IsFresh-empty socket (h ∷ hs) (u ∷ us) fresh in
      record {
        left = omega (arith, e);
        spent = omega arith;
        within = f.0;
        met = omega (arith, e);
        counted = omega (arith, few, f.2);
        others = λ s ne. IsKept-refl s (u ∷ us);
      }

  cost_exact :
      (n : ℕ) (t : Tally) → z * n ≤ t.memory → t.memory < u64_mod → mul64 n u.hugepage_sz ≡ z * n
  cost_exact n t le lt =
      let e : n * u.hugepage_sz ≡ n * z = ap (λ k. n * k) fresh.0 in omega (arith, e, le, lt)

-- The exact numbers after pages are taken.
spend_exact :
    (n c : ℕ) (t : Tally)
    → c ≤ t.memory
    → t.memory ≤ t.total_mem
    → t.total_mem < u64_mod
    → ((spend n c t).memory ≡ t.memory - c) × ((spend n c t).total_mem ≡ t.total_mem - c)
spend_exact n c t le all lt = (omega arith, omega arith)

-- The loop over the sizes meets the node's amount as far as the node's pages go.
pub fill_sizes-IsFilled :
    (socket : ℕ) (hs us : List HugepageInfo) (t : Tally)
    → IsFresh socket hs us
    → memory_on socket hs < u64_mod
    → t.memory ≤ t.total_mem
    → t.total_mem < u64_mod
    → t.total_num_pages < u32_mod
    → (us' : List HugepageInfo) × (t' : Tally) × (fill_sizes socket hs us t ≡ some (us', t'))
      × IsFilled socket hs us t us' t'
unfolding fill_sizes
fill_sizes-IsFilled socket [] [] t fresh room all lt few = (
  [],
  t,
  refl,
  record {
    left = omega arith;
    spent = omega arith;
    within = tt;
    met = omega arith;
    counted = omega arith;
    others = λ s ne. tt;
  },
)
fill_sizes-IsFilled socket [] (u ∷ us) t fresh room all lt few = absurd fresh
fill_sizes-IsFilled socket (h ∷ hs) [] t fresh room all lt few = absurd fresh
fill_sizes-IsFilled socket (h ∷ hs) (u ∷ us) t fresh room all lt few =
    let z : ℕ = h.hugepage_sz in
    let n : ℕ = min (t.memory / z) (pages_on socket h) in
    let k = taken t.memory z (pages_on socket h) n fresh.1 (refl {a = n}) in
    let c = cost_exact socket h u hs us fresh n t k.0 (omega arith) in
    let t1 : Tally = spend n (mul64 n u.hugepage_sz) t in
    let x = spend_exact n (mul64 n u.hugepage_sz) t (omega (arith, c, k.0)) all lt in
    let x0 : t1.memory ≡ t.memory - z * n = omega (arith, x.0, c) in
    let x1 : t1.total_mem ≡ t.total_mem - z * n = omega (arith, x.1, c) in
    let pos : (z == 0) ≡ false = ground (arith, fresh.1) in
    let (us', t', q, rest) =
      fill_sizes-IsFilled socket hs us t1 fresh.4 (omega (arith, room)) (omega (arith, x0, x1, all))
        (omega (arith, x1, lt)) (omega arith) in
    elim (Bool-cases (t.memory == 0)) [
      | inl e ↦ (
        u ∷ us,
        t,
        rw e refl,
        IsFilled-none socket h u hs us fresh t ((==_iff t.memory 0).0 e) few,
      )
      | inr e ↦ elim (Bool-cases (t1.memory == 0)) [
        | inl e1 ↦
            let done : t1.memory ≡ 0 = (==_iff t1.memory 0).0 e1 in
            (
              with_pages socket n h u ∷ us,
              t1,
              rw (e, pos, e1) refl,
              IsFilled-last socket h u hs us fresh n t t1 k.1 done
                  (omega (arith, x0, x1, done, k.0, all)) (omega (arith, x0, done)) refl,
            )
        | inr e1 ↦ elim (Bool-cases (n == pages_on socket h)) [
          | inl e2 ↦ (
            with_pages socket n h u ∷ us',
            t',
            rw (e, pos, e1, e2, q) refl,
            IsFilled-more socket h u hs us fresh n t t1 t' us' k.1 k.0 all x0 x1 refl
                (inl ((==_iff n (pages_on socket h)).0 e2)) rest,
          )
          | inr e2 ↦ elim (Bool-cases (ltb (remaining_mem socket hs 0) t1.memory)) [
            | inl e3 ↦
                let ne : n ≢ pages_on socket h = ground (arith, e2) in
                let f = taken_fewer t.memory z (pages_on socket h) n fresh.1 (refl {a = n}) ne in
                let x2 =
                  spend_exact 1 (min t1.memory z) t1 (omega arith) (omega (arith, x0, x1, all))
                    (omega (arith, x1, lt)) in
                (
                  with_pages socket (n + 1) h u ∷ us,
                  spend 1 (min t1.memory z) t1,
                  rw (e, pos, e1, e2, e3) refl,
                  IsFilled-last socket h u hs us fresh (n + 1) t (spend 1 (min t1.memory z) t1) f.1
                      (omega (arith, x0, x2.0, f.0)) (omega (arith, x0, x1, x2.1, f.0, k.0, all))
                      (omega (arith, f.0)) (omega arith),
                )
            | inr e3 ↦
                let m = remaining_mem-memory_on socket hs 0 (omega (arith, room)) in
                let enough : t1.memory ≤ memory_on socket hs = ground (arith, e3, m) in
                (
                  with_pages socket n h u ∷ us',
                  t',
                  rw (e, pos, e1, e2, e3, q) refl,
                  IsFilled-more socket h u hs us fresh n t t1 t' us' k.1 k.0 all x0 x1 refl
                      (inr enough) rest,
                )
          ]
        ]
      ]
    ]
