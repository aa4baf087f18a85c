-- ===== src/Pool/Paged/Exclusive.antt =====
-- No block of the paged pool is handed out twice.
use linux.Common.{
  ℕ, suc, ◌+◌, ◌*◌, ◌≤◌, ◌<◌, ◌≡◌, ◌⊎◌, inl, inr, Option, some, List, ◌∷◌, arith, length, ap, ◌∙◌,
  sym, subst, some_inj,
}
use linux.Pool.Memory.{Region, Memory, KeepsApart}
use linux.Pool.Paged.{MemPool, free_mem_pool, page_header_size, int_limit}
use linux.Pool.Paged.Shape.{
  Page, In, OutOf, FreeChain-agree, PageChain-agree, In-IsBlock, IsBlock-apart,
  IsBlock-header-apart,
}
use linux.Pool.Paged.Calls.{free_mem_pool-IsBlock, free_mem_pool_more, more_fuel, more_fuel-eq}
use linux.Pool.Paged.Use.{
  State, Step, taken, refused, written, returned, Reach, here, next, Holds, remove, In-remove,
  remove-Distinct, remove-AllBlocks, In-remove_self, length-remove,
}
use linux.Pool.Paged.Take.{SomeHolds, after_take, take-Outcome}

module _ (malloc : List Region → ℕ → ℕ) (keeps : KeepsApart malloc) (size increment : ℕ)
    (fits : (int_limit ≤ increment) ⊎ (size * increment + page_header_size < int_limit)) where
  -- A held block comes back.
  give-Holds :
      (s : State) (pages : List Page) (frees : List ℕ) (b fuel : ℕ) (r : MemPool × Memory)
      → Holds size increment s pages frees
      → In b s.held
      → free_mem_pool fuel s.pool b s.memory ≡ some r
      → SomeHolds size increment (record { pool = r.0; memory = r.1; held = remove b s.held })
  give-Holds s pages frees b fuel r h i e =
      let d = suc (length pages) in
      let e' = free_mem_pool_more d fuel s.pool b s.memory r e in
      let t =
        free_mem_pool-IsBlock s.pool s.memory pages frees (more_fuel d fuel) b h.valid
          (omega (arith, more_fuel-eq d fuel))
          (In-IsBlock s.pool.block_size pages s.held b i h.held_blocks) (h.not_free b i) in
      subst
        (λ q.
          SomeHolds size increment (record { pool = q.0; memory = q.1; held = remove b s.held }))
        (some_inj (sym t.0 ∙ e'))
        (
          pages,
          b ∷ frees,
          record {
            valid = t.1;
            held_blocks = remove-AllBlocks s.pool.block_size b pages s.held h.held_blocks;
            held_distinct = remove-Distinct b s.held h.held_distinct;
            not_free = λ a j f. elim f [
              | inl q ↦
                  In-remove_self b s.held h.held_distinct (subst (λ x. In x (remove b s.held)) q j)
              | inr f' ↦ h.not_free a (In-remove a b s.held j) f'
            ];
            counted = omega (arith, h.counted, length-remove b s.held i);
            sized = h.sized;
            increments = h.increments;
          },
        )

  -- Writes into held blocks do not reach the pool's lists.
  write-Holds :
      (s : State) (pages : List Page) (frees : List ℕ) (word : ℕ → Option ℕ)
      → Holds size increment s pages frees
      → ((a : ℕ) → ((b : ℕ) → In b s.held → OutOf s.pool.block_size b a) → word a ≡ s.memory.word a)
      → Holds size increment
          (record {
            pool = s.pool;
            memory = record { regions = s.memory.regions; word = word };
            held = s.held;
          })
          pages
          frees
  write-Holds s pages frees word h same =
      let bs = s.pool.block_size in
      let v = h.valid in
      let block = λ (b : ℕ) (i : In b s.held). In-IsBlock bs pages s.held b i h.held_blocks in
      record {
        valid = record {
          wide = v.wide;
          first_page_at = v.first_page_at;
          first_block_at = v.first_block_at;
          free_counted = v.free_counted;
          all_counted = v.all_counted;
          are_pages = v.are_pages;
          page_chain =
              PageChain-agree bs s.memory.word word pages
                (λ a i. same a (λ b j. omega (
                  arith,
                  IsBlock-header-apart bs v.wide s.memory.regions pages b a v.are_pages (block b j)
                      i,
                )))
                v.page_chain;
          free_chain =
              FreeChain-agree s.memory.word word frees
                (λ a i. same a (λ b j. omega (
                  arith,
                  v.wide,
                  IsBlock-apart bs v.wide s.memory.regions pages a b v.are_pages
                      (In-IsBlock bs pages frees a i v.in_pages) (block b j)
                      (λ e. h.not_free b j (subst (λ x. In x frees) e i)),
                )))
                v.free_chain;
          in_pages = v.in_pages;
          distinct = v.distinct;
        };
        held_blocks = h.held_blocks;
        held_distinct = h.held_distinct;
        not_free = h.not_free;
        counted = h.counted;
        sized = h.sized;
        increments = h.increments;
      }

  Step-Holds :
      {s t : State} → Step malloc s t → SomeHolds size increment s → SomeHolds size increment t
  Step-Holds (taken s r e nz) (pages, frees, h) =
      let (r', e', o) = take-Outcome malloc keeps size increment fits s pages frees h in
      elim o [
        | inl (_, x) ↦
            subst (λ q. SomeHolds size increment (after_take s q (q.0 ∷ s.held)))
              (some_inj (sym e' ∙ e)) x
        | inr (z, x) ↦ absurd (nz (ap (λ q. q.0) (sym (some_inj (sym e' ∙ e))) ∙ z))
      ]
  Step-Holds (refused s r e z) (pages, frees, h) =
      let (r', e', o) = take-Outcome malloc keeps size increment fits s pages frees h in
      elim o [
        | inl (nz, x) ↦ absurd (nz (ap (λ q. q.0) (some_inj (sym e' ∙ e)) ∙ z))
        | inr (_, x) ↦
            subst (λ q. SomeHolds size increment (after_take s q s.held)) (some_inj (sym e' ∙ e)) x
      ]
  Step-Holds (written s word same) (pages, frees, h) =
      (pages, frees, write-Holds s pages frees word h same)
  Step-Holds (returned s b fuel r i e) (pages, frees, h) = give-Holds s pages frees b fuel r h i e

  pub Reach-Holds :
      {s t : State} → SomeHolds size increment s → Reach malloc s t → SomeHolds size increment t
  Reach-Holds h here = h
  Reach-Holds h (next r st) = Step-Holds st (Reach-Holds h r)
