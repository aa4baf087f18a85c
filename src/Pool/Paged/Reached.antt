-- ===== src/Pool/Paged/Reached.antt =====
-- What the client of a new paged pool can rely on, whatever it does.
use linux.Common.{
  ℕ, suc, ◌+◌, ◌*◌, ◌≤◌, ◌<◌, ◌≡◌, refl, ◌⊎◌, inl, inr, Bool, true, some, List, [], ◌∷◌, arith,
  length, ◌∙◌, sym, subst, some_inj, add32,
}
use native.Mathlib.Decide.{ℕ_discrete}
use linux.Pool.Memory.{Region, Memory, KeepsApart}
use linux.Pool.Paged.{
  MemPool, malloc_mem_pool, free_mem_pool, create_mem_pool, page_header_size, int_limit,
}
use linux.Pool.Paged.Shape.{
  Page, In, Distinct, AllBlocks, BlocksApart, ArePages, IsBlock-apart, In-IsBlock,
}
use linux.Pool.Paged.Fill.{length-blocks}
use linux.Pool.Paged.Calls.{free_mem_pool-IsBlock}
use linux.Pool.Paged.Create.{page_ptr, create_mem_pool-IsValid, create_mem_pool-null}
use linux.Pool.Paged.Use.{State, Reach, Holds}
use linux.Pool.Paged.Exclusive.{Reach-Holds}
use linux.Pool.Paged.Take.{take-Outcome}

abbrev ApartFrom : ℕ → ℕ → List ℕ → Type 0
ApartFrom size b [] = Unit
ApartFrom size b (x ∷ xs) = BlocksApart size b x × ApartFrom size b xs

-- No two of the blocks overlap.
abbrev pub PairwiseApart : ℕ → List ℕ → Type 0
PairwiseApart size [] = Unit
PairwiseApart size (b ∷ bs) = ApartFrom size b bs × PairwiseApart size bs

-- `free_mem_pool` of each of the blocks returns, for some fuel.
abbrev pub AllReturn : State → List ℕ → Type 0
AllReturn s [] = Unit
AllReturn s (b ∷ bs) =
    ((fuel : ℕ) × (r : MemPool × Memory) × (free_mem_pool fuel s.pool b s.memory ≡ some r))
    × AllReturn s bs

pub record IsSafe (malloc : List Region → ℕ → ℕ) (size : ℕ) (s : State) : Type 0 where
  pub apart : PairwiseApart size s.held
  pub none_lost : s.pool.block_total ≡ add32 (length s.held) s.pool.free_count
  pub takes : (r : ℕ × MemPool × Memory) × (malloc_mem_pool malloc s.pool s.memory ≡ some r)
  pub returns : AllReturn s s.held

ApartFrom-blocks :
    (size : ℕ) (rs : List Region) (ps : List Page) (b : ℕ) (xs : List ℕ)
    → 8 ≤ size
    → ArePages size rs ps
    → AllBlocks size ps (b ∷ xs)
    → ((In b xs) → ⊥)
    → ApartFrom size b xs
ApartFrom-blocks size rs ps b [] wide w h d = tt
ApartFrom-blocks size rs ps b (x ∷ xs) wide w h d = (
  IsBlock-apart size wide rs ps b x w h.0 h.1.0 (λ e. d (inl e)),
  ApartFrom-blocks size rs ps b xs wide w (h.0, h.1.1) (λ i. d (inr i)),
)

PairwiseApart-blocks :
    (size : ℕ) (rs : List Region) (ps : List Page) (xs : List ℕ)
    → 8 ≤ size
    → ArePages size rs ps
    → AllBlocks size ps xs
    → Distinct xs
    → PairwiseApart size xs
PairwiseApart-blocks size rs ps [] wide w h d = tt
PairwiseApart-blocks size rs ps (x ∷ xs) wide w h d = (
  ApartFrom-blocks size rs ps x xs wide w h d.0,
  PairwiseApart-blocks size rs ps xs wide w h.1 d.1,
)

AllReturn-held :
    (size increment : ℕ) (s : State) (pages : List Page) (frees : List ℕ)
    → Holds size increment s pages frees
    → (bs : List ℕ) → ((b : ℕ) → In b bs → In b s.held)
    → AllReturn s bs
AllReturn-held size increment s pages frees h [] sub = tt
AllReturn-held size increment s pages frees h (b ∷ bs) sub =
    let i = sub b (inl refl) in
    let t =
      free_mem_pool-IsBlock s.pool s.memory pages frees (suc (length pages)) b h.valid (omega arith)
        (In-IsBlock s.pool.block_size pages s.held b i h.held_blocks) (h.not_free b i) in
    (
      (suc (length pages), _, t.0),
      AllReturn-held size increment s pages frees h bs (λ c j. sub c (inr j)),
    )

module _ (malloc : List Region → ℕ → ℕ) (keeps : KeepsApart malloc) (size count increment : ℕ)
    (fits : (int_limit ≤ increment) ⊎ (size * increment + page_header_size < int_limit)) where
  Holds-IsSafe :
      (s : State) (pages : List Page) (frees : List ℕ)
      → Holds size increment s pages frees
      → IsSafe malloc size s
  Holds-IsSafe s pages frees h = record {
    apart =
        subst (λ z. PairwiseApart z s.held) h.sized
          (PairwiseApart-blocks s.pool.block_size s.memory.regions pages s.held h.valid.wide
            h.valid.are_pages h.held_blocks h.held_distinct);
    none_lost = omega (arith, h.counted, h.valid.free_counted, h.valid.all_counted);
    takes =
        (let (r, e, o) = take-Outcome malloc keeps size increment fits s pages frees h in (r, e));
    returns = AllReturn-held size increment s pages frees h s.held (λ b i. i);
  }

  -- Let `create_mem_pool` have made a pool of blocks of at least 8 bytes, over a `malloc` that keeps its
  -- promise, with sizes of pages that an `int` holds (or an `auto_increment` below 0). Whatever blocks
  -- the client then takes, writes and returns, and in whatever order: no two blocks that it holds
  -- overlap; `block_total` is the number of held and free blocks, as a 32-bit number; the next
  -- `malloc_mem_pool` returns, without an access outside the pool, and so does `free_mem_pool` of each
  -- block that is held.
  pub create-Reach-IsSafe :
      (old pool : MemPool) (m m' : Memory) (t : State)
      → 8 ≤ size
      → 0 < count
      → size * count + page_header_size < int_limit
      → create_mem_pool malloc old size count increment m ≡ some (true, pool, m')
      → Reach malloc (record { pool = pool; memory = m'; held = [] }) t
      → IsSafe malloc size t
  create-Reach-IsSafe old pool m m' t wide some_blocks small e reach =
      elim (ℕ_discrete (page_ptr malloc m size count) 0) [
        | yes z ↦ absurd (
            cc (
              create_mem_pool-null malloc keeps m old size count increment wide some_blocks small z,
              e,
            ))
        | no ne ↦
            let (pool0, m0, e0, v, es, ei) =
              create_mem_pool-IsValid malloc keeps m old size count increment wide some_blocks small
                ne in
            let same : ◌≡◌ {A = Bool × MemPool × Memory} (true, pool0, m0) (true, pool, m') =
              some_inj (sym e0 ∙ e) in
            let start =
              subst
                (λ (q : Bool × MemPool × Memory).
                  (frees : List ℕ) × Holds size increment
                    (record { pool = q.1; memory = q.2; held = [] })
                    (record { base = page_ptr malloc m size count; count = count } ∷ []) frees)
                same
                (
                  _,
                  record {
                    valid = v;
                    held_blocks = tt;
                    held_distinct = tt;
                    not_free = λ a i f. i;
                    counted =
                        omega (arith, length-blocks size (page_ptr malloc m size count) count);
                    sized = es;
                    increments = ei;
                  },
                ) in
            let (pages, frees, h) =
              Reach-Holds malloc keeps size increment fits (_, start.0, start.1) reach in
            Holds-IsSafe t pages frees h
      ]
