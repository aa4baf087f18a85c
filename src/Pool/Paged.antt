-- ===== src/Pool/Paged.antt =====
-- vpn/com_lib/mem_lib/mem_pool.h: a pool of blocks of one size that grows by pages. The free blocks
-- form a list through their first 8 bytes. A pool is not NULL here. An `int` is its 32-bit pattern;
-- `none` is an access outside the allocated memory or of bytes that hold no pointer, an overflow of
-- `block_size * block_count`, or fuel that ran out. `malloc` is the C library's.
pub mod Shape
pub mod Fill
pub mod Linked
pub mod Create
pub mod Grow
pub mod Find
pub mod Take
pub mod Calls
pub mod Use
pub mod Exclusive
pub mod Reached
use linux.Common.{
  ℕ, zero, suc, ◌+◌, ◌-◌, ◌*◌, ◌%◌, ◌^◌, Bool, true, false, ◌&&◌, not, Option, none, some, List,
  leb, ltb, ◌==◌, if◌then◌else◌, ◌>>=◌, add32, sub32, u32_mod,
}
use linux.Pool.Memory.{Region, Memory, store, load, allocate, free}

-- `mem_pool_t`
pub record MemPool : Type 0 where
  pub block_size : ℕ
  pub block_total : ℕ
  pub auto_increment : ℕ
  pub free_count : ℕ
  pub free_ptr : ℕ
  pub mm : ℕ

-- `mem_page_t` stands behind the page's blocks: `beg`, `end` and `next`.
abbrev pub page_header_size : ℕ
page_header_size = 24

abbrev pub end_offset : ℕ
end_offset = 8

abbrev pub next_offset : ℕ
next_offset = 16

abbrev pub int_limit : ℕ
int_limit = 2 ^ 31

-- Whether an `int` is above 0.
abbrev pub is_positive : ℕ → Bool
is_positive x = ltb 0 x && ltb x int_limit

-- The `size_t` that an `int` is converted to.
abbrev pub size_of_int : ℕ → ℕ
size_of_int x = if ltb x int_limit then x else x + (2 ^ 64 - u32_mod)

-- The loop of `malloc_mem_page`, with `left` links to store from `ptr` on: where it ends.
unfoldable pub link_blocks : (block_size left ptr : ℕ) → Memory → Option (ℕ × Memory)
link_blocks block_size zero ptr m = some (ptr, m)
link_blocks block_size (suc left) ptr m = do
  m' ← store m ptr (ptr + block_size)
  link_blocks block_size left (ptr + block_size) m'

-- That loop and the rest of `malloc_mem_page`.
unfoldable pub link_page : (page block_size left ptr : ℕ) → Memory → Option (ℕ × Memory)
link_page page block_size left ptr m = do
  (ptr1, m) ← link_blocks block_size left ptr m
  m ← store m ptr1 0
  some (page, m)

-- What `malloc_mem_page` writes to the memory at `ptr`.
unfoldable pub fill_page : (block_size block_count ptr : ℕ) → Memory → Option (ℕ × Memory)
fill_page block_size block_count ptr m = do
  let page = ptr + block_size * block_count
  m ← store m page ptr
  m ← store m (page + end_offset) page
  m ← store m (page + next_offset) 0
  link_page page block_size (block_count - 1) ptr m

-- The end of `malloc_mem_pool`: the first free block leaves the list.
unfoldable pub take_block : MemPool → Memory → Option (ℕ × MemPool × Memory)
take_block pool m = do
  next ← load m pool.free_ptr
  some (pool.free_ptr, record pool { free_count = sub32 pool.free_count 1; free_ptr = next }, m)

module _ (malloc : List Region → ℕ → ℕ) where
  -- `malloc_mem_page`: the page, or 0 for NULL.
  unfoldable pub malloc_mem_page : (block_size block_count : ℕ) → Memory → Option (ℕ × Memory)
  malloc_mem_page block_size block_count m =
      let size = size_of_int ((block_size * block_count + page_header_size) % u32_mod) in
      let ptr = malloc m.regions size in
      if leb int_limit (block_size * block_count)
      then none
      else if ptr == 0
      then some (0, m)
      else fill_page block_size block_count ptr (allocate m ptr size)

  -- `create_mem_pool`, with `true` for 0 and `false` for -1. `pool` is what the struct held before.
  unfoldable pub create_mem_pool :
      (pool : MemPool) (block_size block_count auto_increment : ℕ)
      → Memory
      → Option (Bool × MemPool × Memory)
  create_mem_pool pool block_size block_count auto_increment m =
      if not (is_positive block_size && is_positive block_count) then some (false, pool, m) else (do
        let sized = record pool {
          block_size = block_size;
          block_total = block_count;
          auto_increment = auto_increment;
          free_count = block_count;
        }
        (page, m) ← malloc_mem_page block_size block_count m
        if page == 0
            then some (false, sized, m)
            else (do beg ← load m page; some (true, record sized { mm = page; free_ptr = beg }, m)))

  -- The branch of `malloc_mem_pool` where no block is free.
  unfoldable pub grow_and_take : MemPool → Memory → Option (ℕ × MemPool × Memory)
  grow_and_take pool m = if not (is_positive pool.auto_increment) then some (0, pool, m) else (do
    (page, m) ← malloc_mem_page pool.block_size pool.auto_increment m
    if page == 0 then some (0, pool, m) else (do
      m ← store m (page + next_offset) pool.mm
      beg ← load m page
      take_block
          (record pool {
            block_total = add32 pool.block_total pool.auto_increment;
            free_count = add32 pool.free_count pool.auto_increment;
            free_ptr = beg;
            mm = page;
          })
          m))

  -- `malloc_mem_pool`: the block, or 0 for NULL.
  unfoldable pub malloc_mem_pool : MemPool → Memory → Option (ℕ × MemPool × Memory)
  malloc_mem_pool pool m = if pool.free_ptr == 0 then grow_and_take pool m else take_block pool m

-- What `free_mem_pool` does once it has found the page that starts at `beg`. A page is smaller than 2 ^ 31,
-- so that the `int` `offset` is the difference.
unfoldable pub return_block : MemPool → (beg ptr : ℕ) → Memory → Option (MemPool × Memory)
return_block pool beg ptr m =
    if (ptr - beg) % pool.block_size == 0
    then (do
      m ← store m ptr pool.free_ptr
      some (record pool { free_count = add32 pool.free_count 1; free_ptr = ptr }, m))
    else some (pool, m)

-- The loop of `free_mem_pool`, from `page` on.
unfoldable pub free_from :
    (fuel : ℕ) → MemPool → (page ptr : ℕ) → Memory → Option (MemPool × Memory)
free_from zero pool page ptr m = none
free_from (suc fuel) pool page ptr m =
    let here = (do
      beg ← load m page
      end ← load m (page + end_offset)
      let later = (do next ← load m (page + next_offset); free_from fuel pool next ptr m)
      if leb beg ptr && ltb ptr end then return_block pool beg ptr m else later) in
    if page == 0 then some (pool, m) else here

-- `free_mem_pool`
unfoldable pub free_mem_pool : (fuel : ℕ) → MemPool → (ptr : ℕ) → Memory → Option (MemPool × Memory)
free_mem_pool fuel pool ptr m =
    if ptr == 0 then some (pool, m) else free_from fuel pool pool.mm ptr m

-- The loop of `destroy_mem_pool`.
unfoldable pub free_pages : (fuel page : ℕ) → Memory → Option Memory
free_pages zero page m = none
free_pages (suc fuel) page m =
    let here = (do
      next ← load m (page + next_offset)
      beg ← load m page
      m ← free m beg
      free_pages fuel next m) in
    if page == 0 then some m else here

-- `destroy_mem_pool`
unfoldable pub destroy_mem_pool : (fuel : ℕ) → MemPool → Memory → Option (MemPool × Memory)
destroy_mem_pool fuel pool m = do
  m ← free_pages fuel pool.mm m
  some (record pool { block_size = 0; auto_increment = 0; free_count = 0; free_ptr = 0; mm = 0 }, m)
