-- ===== src/Pool/Paged/Find.antt =====
-- The loop of `free_mem_pool`, which looks for the page of a pointer.
use linux.Common.{
  ℕ, zero, suc, ◌+◌, ◌-◌, ◌*◌, ◌≤◌, ◌<◌, ◌/◌, ◌%◌, ◌≡◌, refl, inl, inr, Bool, true, false, ◌&&◌,
  Option, none, some, List, [], ◌∷◌, arith, length, ◌∙◌, leb, ltb, ◌==◌, ==_iff, if◌then◌else◌,
  ◌>>=◌, Bool-cases, add32,
}
use native.Mathlib.Nat.{mul-mod_right, div-add-mod}
use native.Mathlib.Decide.{dec_lt}
use linux.Pool.Memory.{Memory, accessible, store, load, load_lem}
use linux.Pool.Paged.{MemPool, end_offset, next_offset, return_block, free_from}
use linux.Pool.Paged.Shape.{
  Page, In, header, first_page, PageChain, header_words, InPage, IsBlock, ArePages, InPage-range,
  IsBlock-Within, Within-outside, header_words-Within, Within-accessible,
}

lt_of_mul_lt : (size i n : ℕ) → size * i < size * n → i < n
lt_of_mul_lt size i n h = elim (dec_lt i n) [
  | yes l ↦ l
  | no g ↦ absurd (let m : size * n ≤ size * i = grind (arith, g) in omega (arith, m, h))
]

aligned-InPage :
    (size : ℕ) (p : Page) (a : ℕ)
    → 8 ≤ size
    → (leb p.base a && ltb a (header size p)) ≡ true
    → ((a - p.base) % size == 0) ≡ true
    → InPage size p a
aligned-InPage size p a wide e e' =
    let r : (p.base ≤ a) × (a < header size p) = (ground (arith, e), ground (arith, e)) in
    let z : (a - p.base) % size ≡ 0 = (==_iff ((a - p.base) % size) 0).0 e' in
    let at : a ≡ p.base + size * ((a - p.base) / size) =
      omega (arith, div-add-mod (a - p.base) size, z, r) in
    (
      (a - p.base) / size,
      lt_of_mul_lt size ((a - p.base) / size) p.count (omega (arith, at, r)),
      at,
    )

-- What is read of a header.
header_loads :
    (size : ℕ) (m : Memory) (p : Page) (ps : List Page)
    → 8 ≤ size
    → ArePages size m.regions (p ∷ ps)
    → PageChain size m.word (p ∷ ps)
    → (load m (header size p) ≡ some p.base)
      × (load m (header size p + end_offset) ≡ some (header size p))
      × (load m (header size p + next_offset) ≡ some (first_page size ps))
header_loads size m p ps wide w c = (
  load_lem m _ (seen _ (inl refl)) ∙ c.0,
  load_lem m _ (seen _ (inr (inl refl))) ∙ c.1,
  load_lem m _ (seen _ (inr (inr (inl refl)))) ∙ c.2,
)
  where
    seen : (a : ℕ) → In a (header_words size (p ∷ ps)) → accessible m.regions a ≡ true
    seen a i =
        Within-accessible size wide m.regions (p ∷ ps) a w
          (header_words-Within size wide (p ∷ ps) a i)

module _ (pool : MemPool) (m : Memory) (wide : 8 ≤ pool.block_size) where
  -- A round of the loop of `free_mem_pool`, at a page.
  free_from-page :
      (p : Page) (ps : List Page) (f ptr : ℕ)
      → ArePages pool.block_size m.regions (p ∷ ps)
      → PageChain pool.block_size m.word (p ∷ ps)
      → free_from (suc f) pool (header pool.block_size p) ptr m ≡ (
          if leb p.base ptr && ltb ptr (header pool.block_size p)
          then return_block pool p.base ptr m
          else free_from f pool (first_page pool.block_size ps) ptr m)
  unfolding free_from
  free_from-page p ps f ptr w c =
      let h = header_loads pool.block_size m p ps wide w c in
      let nz : (header pool.block_size p == 0) ≡ false = ground (arith, w.0) in
      rw (nz, h.0, h.1, h.2) refl

  -- The loop finds the page of a block.
  pub free_from-IsBlock :
      (ps : List Page) (f ptr : ℕ)
      → length ps < f
      → ArePages pool.block_size m.regions ps
      → PageChain pool.block_size m.word ps
      → IsBlock pool.block_size ps ptr
      → (m' : Memory) → store m ptr pool.free_ptr ≡ some m'
      → free_from f pool (first_page pool.block_size ps) ptr m
        ≡ some (record pool { free_count = add32 pool.free_count 1; free_ptr = ptr }, m')
  unfolding return_block
  free_from-IsBlock [] f ptr h w c b m' s = absurd b
  free_from-IsBlock (p ∷ ps) zero ptr h w c b m' s = absurd (omega arith)
  free_from-IsBlock (p ∷ ps) (suc f) ptr h w c (inl (i, lt, e)) m' s =
      let r = InPage-range pool.block_size p ptr (i, lt, e) in
      let here : (leb p.base ptr && ltb ptr (header pool.block_size p)) ≡ true =
        ground (arith, r, wide) in
      let at : ptr - p.base ≡ pool.block_size * i = omega (arith, e) in
      free_from-page p ps f ptr w c ∙ rw (here, at, mul-mod_right pool.block_size i, s) refl
  free_from-IsBlock (p ∷ ps) (suc f) ptr h w c (inr b) m' s =
      let o =
        Within-outside pool.block_size wide p ps ptr w.2
          (IsBlock-Within pool.block_size wide ps ptr b) in
      let other : (leb p.base ptr && ltb ptr (header pool.block_size p)) ≡ false =
        ground (arith, o) in
      free_from-page p ps f ptr w c
      ∙ rw other (free_from-IsBlock ps f ptr (omega arith) w.3 c.3 b m' s)

  -- A pointer that is no block changes nothing.
  pub free_from-other :
      (ps : List Page) (f ptr : ℕ)
      → length ps < f
      → ArePages pool.block_size m.regions ps
      → PageChain pool.block_size m.word ps
      → (IsBlock pool.block_size ps ptr → ⊥)
      → free_from f pool (first_page pool.block_size ps) ptr m ≡ some (pool, m)
  unfolding return_block free_from
  free_from-other [] zero ptr h w c b = absurd (omega arith)
  free_from-other [] (suc f) ptr h w c b = refl
  free_from-other (p ∷ ps) zero ptr h w c b = absurd (omega arith)
  free_from-other (p ∷ ps) (suc f) ptr h w c b =
      elim (Bool-cases (leb p.base ptr && ltb ptr (header pool.block_size p))) [
        | inr e ↦
            free_from-page p ps f ptr w c
            ∙ rw e (free_from-other ps f ptr (omega arith) w.3 c.3 (λ k. b (inr k)))
        | inl e ↦
            free_from-page p ps f ptr w c
            ∙ rw e (elim (Bool-cases ((ptr - p.base) % pool.block_size == 0)) [
              | inr e' ↦ rw e' refl
              | inl e' ↦ absurd (b (inl (aligned-InPage pool.block_size p ptr wide e e')))
            ])
      ]

-- More fuel does not change what the loop returns.
pub free_from_more :
    (f : ℕ) (pool : MemPool) (page ptr : ℕ) (m : Memory) (r : MemPool × Memory)
    → free_from f pool page ptr m ≡ some r
    → free_from (suc f) pool page ptr m ≡ some r
unfolding free_from
free_from_more zero pool page ptr m r h = cc
free_from_more (suc f) pool page ptr m r h =
    go (page == 0) (load m page) (load m (page + end_offset)) (load m (page + next_offset)) h
      (λ next. free_from_more f pool next ptr m r)
  where
    go :
        (t : Bool) (beg? end? next? : Option ℕ)
        → (if t then some (pool, m) else (do
          beg ← beg?
          end ← end?
          let later = (do next ← next?; free_from f pool next ptr m)
          if leb beg ptr && ltb ptr end then return_block pool beg ptr m else later))
          ≡ some r
        → ((next : ℕ)
            → free_from f pool next ptr m ≡ some r
            → free_from (suc f) pool next ptr m ≡ some r)
        → (if t then some (pool, m) else (do
          beg ← beg?
          end ← end?
          let later = (do next ← next?; free_from (suc f) pool next ptr m)
          if leb beg ptr && ltb ptr end then return_block pool beg ptr m else later))
          ≡ some r
    go true b e n h ih = h
    go false none e n h ih = cc
    go false (some b) none n h ih = cc
    go false (some b) (some e) n h ih = elim (Bool-cases (leb b ptr && ltb ptr e)) [
      | inl q ↦ rw q (rw q at h)
      | inr q ↦ rw q (later n (rw q at h) ih)
    ]
      where
        later :
            (n : Option ℕ)
            → (n >>= λ next. free_from f pool next ptr m) ≡ some r
            → ((next : ℕ)
                → free_from f pool next ptr m ≡ some r
                → free_from (suc f) pool next ptr m ≡ some r)
            → (n >>= λ next. free_from (suc f) pool next ptr m) ≡ some r
        later none h ih = cc
        later (some n) h ih = ih n h
