-- ===== src/Pool/Paged/Create.antt =====
-- `create_mem_pool`.
use linux.Common.{
  ℕ, ◌+◌, ◌*◌, ◌≤◌, ◌<◌, ◌≡◌, refl, ◌≢◌, inl, true, false, ◌&&◌, some, List, [], ◌∷◌, arith, ◌==◌,
}
use linux.Pool.Memory.{Region, Memory, KeepsApart, accessible, allocate, load_lem, Has-accessible}
use linux.Pool.Paged.{MemPool, create_mem_pool, page_header_size, int_limit, is_positive}
use linux.Pool.Paged.Shape.{IsValid}
use linux.Pool.Paged.Fill.{
  blocks, page_word, with_page, page_word-header, malloc_mem_page-fills, malloc_mem_page-null,
}
use linux.Pool.Paged.Linked.{linked-IsValid}

-- The memory that `malloc` returns for a page of `count` blocks, or 0.
abbrev pub page_ptr : (List Region → ℕ → ℕ) → Memory → (size count : ℕ) → ℕ
page_ptr malloc m size count = malloc m.regions (size * count + page_header_size)

module _ (malloc : List Region → ℕ → ℕ) (keeps : KeepsApart malloc) (m : Memory) where
  -- What both calls find in the header of a page that `malloc_mem_page` has filled.
  module _ (size count : ℕ) (wide : 8 ≤ size) (some_blocks : 0 < count)
      (ne : page_ptr malloc m size count ≢ 0) where
    abbrev pub filled : Memory
    filled = with_page size count (page_ptr malloc m size count) m

    abbrev pub filled_page : ℕ
    filled_page = page_ptr malloc m size count + size * count

    pub filled_accessible :
        (a : ℕ)
        → page_ptr malloc m size count ≤ a
        → a + 8 ≤ page_ptr malloc m size count + (size * count + page_header_size)
        → accessible filled.regions a ≡ true
    unfolding allocate
    filled_accessible a lo hi =
        let r : Region = record {
          base = page_ptr malloc m size count;
          size = size * count + page_header_size;
        } in
        Has-accessible r (r ∷ m.regions) a (inl refl) lo hi

    pub filled_nonzero : (filled_page == 0) ≡ false
    filled_nonzero = ground (arith, ne)

  pub factor-le : (size count : ℕ) → 8 ≤ size → count ≤ size * count
  factor-le size count wide = let b : 1 * count ≤ size * count = grind arith in omega (arith, b)

  pub factors-positive :
      (size count : ℕ)
      → 8 ≤ size
      → 0 < count
      → size * count + page_header_size < int_limit
      → (is_positive size && is_positive count) ≡ true
  factors-positive size count wide some_blocks fits =
      let a : size * 1 ≤ size * count = grind arith in ground (arith, a, factor-le size count wide)

  -- Given a `malloc` that keeps its promise and returns memory, blocks of at least 8 bytes, and a page
  -- whose size an `int` holds, `create_mem_pool` returns 0 and leaves a valid pool of one page, all of
  -- whose blocks are free, in the order of their addresses.
  pub create_mem_pool-IsValid :
      (old : MemPool) (size count auto_increment : ℕ)
      → 8 ≤ size
      → 0 < count
      → size * count + page_header_size < int_limit
      → page_ptr malloc m size count ≢ 0
      → (pool : MemPool) × (m' : Memory) × (create_mem_pool malloc old size count auto_increment m
          ≡ some (true, pool, m'))
        × IsValid pool m'
            (record { base = page_ptr malloc m size count; count = count } ∷ [])
            (blocks size (page_ptr malloc m size count) count)
        × (pool.block_size ≡ size)
        × (pool.auto_increment ≡ auto_increment)
  unfolding create_mem_pool allocate
  create_mem_pool-IsValid old size count auto_increment wide some_blocks fits ne =
      let ptr = page_ptr malloc m size count in
      let h = page_word-header size m count ptr wide some_blocks in
      let few = factor-le size count wide in
      let page : Memory = record (filled size count wide some_blocks ne) {
        word = page_word size count ptr (filled size count wide some_blocks ne);
      } in
      (
        record {
          block_size = size;
          block_total = count;
          auto_increment = auto_increment;
          free_count = count;
          free_ptr = ptr;
          mm = ptr + size * count;
        },
        page,
        rw
            (
              factors-positive size count wide some_blocks fits,
              malloc_mem_page-fills size malloc m count wide some_blocks fits ne,
              filled_nonzero size count wide some_blocks ne,
              load_lem page (ptr + size * count)
                  (filled_accessible size count wide some_blocks ne _ (omega arith) (omega arith)),
              h.0,
            )
            refl,
        linked-IsValid size count ptr m [] wide some_blocks page.word h.2 (λ a o. refl) _ refl refl
            refl (omega (arith, few)) (omega (arith, few)) (omega (arith, ne)) tt tt tt,
        refl,
        refl,
      )

  -- Where `malloc` returns NULL for the page, `create_mem_pool` returns -1 and leaves the memory.
  pub create_mem_pool-null :
      (old : MemPool) (size count auto_increment : ℕ)
      → 8 ≤ size
      → 0 < count
      → size * count + page_header_size < int_limit
      → page_ptr malloc m size count ≡ 0
      → create_mem_pool malloc old size count auto_increment m
        ≡ some (
          false,
          record old {
            block_size = size;
            block_total = count;
            auto_increment = auto_increment;
            free_count = count;
          },
          m,
        )
  unfolding create_mem_pool
  create_mem_pool-null old size count auto_increment wide some_blocks fits e =
      rw
        (
          factors-positive size count wide some_blocks fits,
          malloc_mem_page-null size malloc m count wide some_blocks fits e,
        )
        refl
