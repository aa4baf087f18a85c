-- ===== src/Pool/Paged/Grow.antt =====
-- `malloc_mem_pool` where no block is free.
use linux.Common.{
  ℕ, suc, ◌+◌, ◌-◌, ◌*◌, ◌≤◌, ◌<◌, ◌≡◌, refl, ◌≢◌, ◌⊎◌, inl, inr, true, some, List, [], ◌∷◌, arith,
  ap, ◌∙◌, sym, subst, ◌==◌, Bool-cases, add32,
}
use linux.Pool.Memory.{
  Region, Memory, KeepsApart, put, allocate, store_lem, load_lem, put_self, put-Apart,
}
use linux.Pool.Paged.{
  MemPool, malloc_mem_pool, grow_and_take, take_block, page_header_size, next_offset, int_limit,
  is_positive,
}
use linux.Pool.Paged.Shape.{Page, IsValid}
use linux.Pool.Paged.Fill.{
  blocks, page_word, with_page, page_word-header, malloc_mem_page-fills, malloc_mem_page-null,
}
use linux.Pool.Paged.Calls.{take_block-IsValid}
use linux.Pool.Paged.Linked.{DisjointFrom-malloc, linked-IsValid}
use linux.Pool.Paged.Create.{page_ptr, filled_accessible, filled_nonzero, factor-le}

module _ (malloc : List Region → ℕ → ℕ) (keeps : KeepsApart malloc) (m : Memory) where
  module _ (pool : MemPool) (pages : List Page) (v : IsValid pool m pages [])
      (some_blocks : 0 < pool.auto_increment)
      (fits : pool.block_size * pool.auto_increment + page_header_size < int_limit)
      (ne : page_ptr malloc m pool.block_size pool.auto_increment ≢ 0) where
    -- The pool and the memory with the new page, before its first block is handed out.
    abbrev new_ptr : ℕ
    new_ptr = page_ptr malloc m pool.block_size pool.auto_increment

    abbrev grown : MemPool
    grown = record pool {
      block_total = add32 pool.block_total pool.auto_increment;
      free_count = add32 pool.free_count pool.auto_increment;
      free_ptr = new_ptr;
      mm = new_ptr + pool.block_size * pool.auto_increment;
    }

    abbrev filled_memory : Memory
    filled_memory = record (with_page pool.block_size pool.auto_increment new_ptr m) {
      word =
          page_word pool.block_size pool.auto_increment new_ptr
            (with_page pool.block_size pool.auto_increment new_ptr m);
    }

    abbrev linked : Memory
    linked = record filled_memory {
      word =
          put filled_memory.word (new_ptr + pool.block_size * pool.auto_increment + next_offset)
            pool.mm;
    }

    grow_and_take-linked : grow_and_take malloc pool m ≡ take_block grown linked
    unfolding grow_and_take
    grow_and_take-linked =
        let size = pool.block_size in
        let count = pool.auto_increment in
        let h = page_word-header size m count new_ptr v.wide some_blocks in
        let positive : is_positive count ≡ true =
          ground (arith, factor-le malloc keeps m size count v.wide) in
        let seen = filled_accessible malloc keeps m size count v.wide some_blocks ne in
        rw
          (
            positive,
            malloc_mem_page-fills size malloc m count v.wide some_blocks fits ne,
            filled_nonzero malloc keeps m size count v.wide some_blocks ne,
            store_lem filled_memory (new_ptr + size * count + next_offset) pool.mm
                (seen _ (omega arith) (omega arith)),
            load_lem linked (new_ptr + size * count) (seen _ (omega arith) (omega arith)),
            put-Apart filled_memory.word (new_ptr + size * count + next_offset) pool.mm
                (new_ptr + size * count) (inr (omega arith)),
            h.0,
          )
          refl

    linked-grown :
        IsValid grown linked
          (record { base = new_ptr; count = pool.auto_increment } ∷ pages)
          (new_ptr ∷ blocks pool.block_size (new_ptr + pool.block_size) (pool.auto_increment - 1))
    unfolding allocate
    linked-grown =
        let size = pool.block_size in
        let count = pool.auto_increment in
        let at = new_ptr + size * count + next_offset in
        let e : suc (count - 1) ≡ count = omega arith in
        subst
          (λ n.
            IsValid grown linked (record { base = new_ptr; count = count } ∷ pages)
              (blocks size new_ptr n))
          (sym e)
          (linked-IsValid size count new_ptr m pages v.wide some_blocks linked.word
            (put_self filled_memory.word at pool.mm ∙ ap some v.first_page_at)
            (λ a o. put-Apart filled_memory.word at pool.mm a o) grown refl refl refl
            (omega (arith, v.free_counted)) (omega (arith, v.all_counted)) (omega (arith, ne))
            v.are_pages v.page_chain
            (DisjointFrom-malloc malloc keeps size (size * count + page_header_size) count m.regions
              pages refl ne v.are_pages))

  -- Given a `malloc` that keeps its promise and returns memory for the new page, and an
  -- `auto_increment` above 0 for which an `int` holds the page's size, `malloc_mem_pool` on a valid
  -- pool with no free block returns the new page's first block, and leaves a valid pool with the new
  -- page before the others and the rest of its blocks free.
  pub malloc_mem_pool-grows :
      (pool : MemPool) (pages : List Page)
      → IsValid pool m pages []
      → 0 < pool.auto_increment
      → pool.block_size * pool.auto_increment + page_header_size < int_limit
      → page_ptr malloc m pool.block_size pool.auto_increment ≢ 0
      → (pool' : MemPool) × (m' : Memory) × (malloc_mem_pool malloc pool m
          ≡ some (page_ptr malloc m pool.block_size pool.auto_increment, pool', m'))
        × IsValid pool' m'
            (record {
              base = page_ptr malloc m pool.block_size pool.auto_increment;
              count = pool.auto_increment;
            }
              ∷ pages)
            (blocks pool.block_size
              (page_ptr malloc m pool.block_size pool.auto_increment + pool.block_size)
              (pool.auto_increment - 1))
        × (pool'.block_size ≡ pool.block_size)
        × (pool'.auto_increment ≡ pool.auto_increment)
  unfolding malloc_mem_pool
  malloc_mem_pool-grows pool pages v some_blocks fits ne =
      let empty : (pool.free_ptr == 0) ≡ true = ground (arith, v.first_block_at) in
      let t =
        take_block-IsValid (grown pool pages v some_blocks fits ne)
          (linked pool pages v some_blocks fits ne)
          (record {
            base = page_ptr malloc m pool.block_size pool.auto_increment;
            count = pool.auto_increment;
          }
            ∷ pages)
          (page_ptr malloc m pool.block_size pool.auto_increment)
          (blocks pool.block_size
            (page_ptr malloc m pool.block_size pool.auto_increment + pool.block_size)
            (pool.auto_increment - 1))
          (linked-grown pool pages v some_blocks fits ne) in
      (
        _,
        _,
        rw empty (grow_and_take-linked pool pages v some_blocks fits ne ∙ t.0),
        t.1,
        refl,
        refl,
      )

  -- Where a valid pool has no free block and cannot grow, because `auto_increment` is not above 0 or
  -- `malloc` returns NULL, `malloc_mem_pool` returns NULL and changes nothing.
  pub malloc_mem_pool-null :
      (pool : MemPool) (pages : List Page)
      → IsValid pool m pages []
      → (pool.auto_increment ≡ 0)
        ⊎ (int_limit ≤ pool.auto_increment)
        ⊎ ((pool.block_size * pool.auto_increment + page_header_size < int_limit)
            × (page_ptr malloc m pool.block_size pool.auto_increment ≡ 0))
      → malloc_mem_pool malloc pool m ≡ some (0, pool, m)
  unfolding malloc_mem_pool grow_and_take
  malloc_mem_pool-null pool pages v c =
      let empty : (pool.free_ptr == 0) ≡ true = ground (arith, v.first_block_at) in
      elim (Bool-cases (is_positive pool.auto_increment)) [
        | inr e ↦ rw (empty, e) refl
        | inl e ↦
            let more : 0 < pool.auto_increment = ground (arith, e) in
            let t : (pool.block_size * pool.auto_increment + page_header_size < int_limit)
                × (page_ptr malloc m pool.block_size pool.auto_increment ≡ 0) =
              ground (arith, c, e) in
            rw
              (
                empty,
                e,
                malloc_mem_page-null pool.block_size malloc m pool.auto_increment v.wide more t.0
                    t.1,
              )
              refl
      ]
