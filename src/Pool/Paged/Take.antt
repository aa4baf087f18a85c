-- ===== src/Pool/Paged/Take.antt =====
-- `malloc_mem_pool` for a client of the paged pool.
use linux.Common.{
  ℕ, ◌+◌, ◌-◌, ◌*◌, ◌≤◌, ◌<◌, ◌≡◌, refl, ◌≢◌, ◌⊎◌, inl, inr, false, some, List, [], ◌∷◌, arith, ◌∙◌,
  sym, subst, ◌==◌, sub32,
}
use native.Mathlib.Decide.{ℕ_discrete, dec_lt}
use linux.Pool.Memory.{Region, Memory, KeepsApart}
use linux.Pool.Paged.{MemPool, malloc_mem_pool, page_header_size, int_limit}
use linux.Pool.Paged.Shape.{
  DisjointFrom, Page, In, AllBlocks, IsBlock, In-IsBlock, first_block, IsBlock-outside,
  IsBlock-nonzero,
}
use linux.Pool.Paged.Fill.{last_block, blocks, blocks-below, blocks-from, length-blocks}
use linux.Pool.Paged.Calls.{take_block-IsValid}
use linux.Pool.Paged.Create.{page_ptr}
use linux.Pool.Paged.Grow.{malloc_mem_pool-grows, malloc_mem_pool-null}
use linux.Pool.Paged.Use.{State, Holds, AllBlocks-more}

abbrev pub SomeHolds : (size increment : ℕ) → State → Type 0
SomeHolds size increment s =
    (pages : List Page) × (frees : List ℕ) × Holds size increment s pages frees

-- What `malloc_mem_pool` returns, and what holds then.
abbrev pub after_take : State → ℕ × MemPool × Memory → List ℕ → State
after_take s r held = record { pool = r.1; memory = r.2; held = held }

abbrev pub Outcome : (size increment : ℕ) → State → ℕ × MemPool × Memory → Type 0
Outcome size increment s r =
    ((r.0 ≢ 0) × SomeHolds size increment (after_take s r (r.0 ∷ s.held)))
    ⊎ ((r.0 ≡ 0) × SomeHolds size increment (after_take s r s.held))

module _ (malloc : List Region → ℕ → ℕ) (keeps : KeepsApart malloc) (size increment : ℕ)
    (fits : (int_limit ≤ increment) ⊎ (size * increment + page_header_size < int_limit)) where
  -- A free block is handed out.
  take-free :
      (s : State) (pages : List Page) (b : ℕ) (bs : List ℕ)
      → Holds size increment s pages (b ∷ bs)
      → (r : ℕ × MemPool × Memory) × (malloc_mem_pool malloc s.pool s.memory ≡ some r)
        × Outcome size increment s r
  unfolding malloc_mem_pool
  take-free s pages b bs h =
      let t = take_block-IsValid s.pool s.memory pages b bs h.valid in
      let nz : b ≢ 0 =
        IsBlock-nonzero s.pool.block_size h.valid.wide s.memory.regions pages b h.valid.are_pages
          h.valid.in_pages.0 in
      let some_free : (s.pool.free_ptr == 0) ≡ false = ground (arith, h.valid.first_block_at, nz) in
      (
        (
          b,
          record s.pool { free_count = sub32 s.pool.free_count 1; free_ptr = first_block bs },
          s.memory,
        ),
        rw some_free t.0,
        inl (
          nz,
          (
            pages,
            bs,
            record {
              valid = t.1;
              held_blocks = (h.valid.in_pages.0, h.held_blocks);
              held_distinct = (λ i. h.not_free b i (inl refl), h.held_distinct);
              not_free = λ a i f. elim i [
                | inl e ↦ h.valid.distinct.0 (subst (λ x. In x bs) e f)
                | inr i' ↦ h.not_free a i' (inr f)
              ];
              counted = omega (arith, h.counted);
              sized = h.sized;
              increments = h.increments;
            },
          ),
        ),
      )

  -- Without a free block the pool grows, if it can.
  take-grown :
      (s : State) (pages : List Page) (h : Holds size increment s pages [])
      → 0 < s.pool.auto_increment
      → s.pool.block_size * s.pool.auto_increment + page_header_size < int_limit
      → page_ptr malloc s.memory s.pool.block_size s.pool.auto_increment ≢ 0
      → (r : ℕ × MemPool × Memory) × (malloc_mem_pool malloc s.pool s.memory ≡ some r)
        × Outcome size increment s r
  take-grown s pages h more fit ne =
      let bs = s.pool.block_size in
      let n = s.pool.auto_increment in
      let p = page_ptr malloc s.memory bs n in
      let page : Page = record { base = p; count = n } in
      let frees = blocks bs (p + bs) (n - 1) in
      let (pool', m', e, v, es, ei) =
        malloc_mem_pool-grows malloc keeps s.memory s.pool pages h.valid more fit ne in
      let apart = subst (λ z. DisjointFrom z page pages) es v.are_pages.2 in
      let far = λ (a : ℕ) (i : In a s.held).
        IsBlock-outside bs h.valid.wide page pages a apart
          (In-IsBlock bs pages s.held a i h.held_blocks) in
      let wide = h.valid.wide in
      (
        (p, pool', m'),
        e,
        inl (
          ne,
          (
            page ∷ pages,
            frees,
            record {
              valid = v;
              held_blocks = (
                subst (λ z. IsBlock z (page ∷ pages) p) (sym es) (inl (0, more, omega arith)),
                subst (λ z. AllBlocks z (page ∷ pages) s.held) (sym es)
                    (AllBlocks-more bs page pages s.held h.held_blocks),
              );
              held_distinct = (λ i. absurd (omega (arith, wide, far p i)), h.held_distinct);
              not_free = λ a i f. elim i [
                | inl q ↦ absurd (omega (arith, wide, q, blocks-from bs (p + bs) (n - 1) a f))
                | inr j ↦ absurd (
                    omega (
                      arith,
                      wide,
                      far a j,
                      blocks-from bs (p + bs) (n - 1) a f,
                      blocks-below bs (p + bs) (n - 1) a f,
                      last_block bs n more,
                    ))
              ];
              counted = omega (arith, h.counted, length-blocks bs (p + bs) (n - 1));
              sized = es ∙ h.sized;
              increments = ei ∙ h.increments;
            },
          ),
        ),
      )

  -- `malloc_mem_pool` returns, with one of the two outcomes.
  pub take-Outcome :
      (s : State) (pages : List Page) (frees : List ℕ)
      → Holds size increment s pages frees
      → (r : ℕ × MemPool × Memory) × (malloc_mem_pool malloc s.pool s.memory ≡ some r)
        × Outcome size increment s r
  take-Outcome s pages (b ∷ bs) h = take-free s pages b bs h
  take-Outcome s pages [] h = elim (dec_lt 0 s.pool.auto_increment) [
    | no n ↦ refuse (inl (omega (arith, n)))
    | yes more ↦ elim fits' [
      | inl big ↦ refuse (inr (inl big))
      | inr fit ↦
          elim (ℕ_discrete (page_ptr malloc s.memory s.pool.block_size s.pool.auto_increment) 0) [
            | yes e ↦ refuse (inr (inr (fit, e)))
            | no ne ↦ take-grown s pages h more fit ne
          ]
    ]
  ]
    where
      fits' :
          (int_limit ≤ s.pool.auto_increment)
          ⊎ (s.pool.block_size * s.pool.auto_increment + page_header_size < int_limit)
      fits' =
          subst
            (λ z.
              (int_limit ≤ s.pool.auto_increment)
              ⊎ (z * s.pool.auto_increment + page_header_size < int_limit))
            (sym h.sized)
            (subst (λ z. (int_limit ≤ z) ⊎ (size * z + page_header_size < int_limit))
              (sym h.increments) fits)

      refuse :
          (s.pool.auto_increment ≡ 0)
            ⊎ (int_limit ≤ s.pool.auto_increment)
            ⊎ ((s.pool.block_size * s.pool.auto_increment + page_header_size < int_limit)
                × (page_ptr malloc s.memory s.pool.block_size s.pool.auto_increment ≡ 0))
          → (r : ℕ × MemPool × Memory) × (malloc_mem_pool malloc s.pool s.memory ≡ some r)
            × Outcome size increment s r
      refuse c = (
        (0, s.pool, s.memory),
        malloc_mem_pool-null malloc keeps s.memory s.pool pages h.valid c,
        inr (refl, (pages, [], same)),
      )
        where
          same :
              Holds size increment
                (record { pool = s.pool; memory = s.memory; held = s.held })
                pages
                []
          same = h
