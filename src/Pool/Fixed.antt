-- ===== src/Pool/Fixed.antt =====
-- pools/mem_pool/mm_pool.h: a pool of a fixed number of blocks, whose free blocks form a list through
-- their first 8 bytes. A pool is not NULL here, and an `int` argument is not below 0. `none` is an
-- access outside the allocated memory or of bytes that hold no pointer, or an overflow of a product
-- of two `int`s. `malloc` is the C library's.
pub mod Faults
mod Tests
use linux.Common.{
  ℕ, zero, suc, ◌+◌, ◌-◌, ◌*◌, ◌^◌, Bool, true, false, ◌||◌, Option, none, some, List, leb, ltb,
  ◌==◌, if◌then◌else◌, ◌>>=◌,
}
use linux.Pool.Memory.{Region, Memory, store, load, allocate, free}

-- `mem_pools_t`
pub record MemPools : Type 0 where
  pub m_block_size : ℕ
  pub m_free_count : ℕ
  pub m_block_count : ℕ
  pub m_free_ptr : ℕ
  pub m_mem : ℕ

-- A product of two `int`s.
abbrev pub int_product : ℕ → ℕ → Option ℕ
int_product a b = if leb (2 ^ 31) (a * b) then none else some (a * b)

-- The loop of `mem_create`, with `left` links to store from `ptr` on: where it ends.
unfoldable pub link_each : (block_size left ptr : ℕ) → Memory → Option (ℕ × Memory)
link_each block_size zero ptr m = some (ptr, m)
link_each block_size (suc left) ptr m = do
  m' ← store m ptr (ptr + block_size)
  link_each block_size left (ptr + block_size) m'

-- That loop and the store behind it.
unfoldable pub fill_blocks : (block_count block_size mem : ℕ) → Memory → Option Memory
fill_blocks block_count block_size mem m = do
  (ptr, m) ← link_each block_size block_count mem m
  store m ptr 0

-- `mem_create` on a pool, which returns 0.
unfoldable pub mem_create :
    (List Region → ℕ → ℕ) → (block_count block_size : ℕ) → Memory → Option (MemPools × Memory)
mem_create malloc block_count block_size m = do
  size ← int_product block_count block_size
  let mem = malloc m.regions size
  m ← fill_blocks block_count block_size mem (if mem == 0 then m else allocate m mem size)
  some (
    record {
      m_block_size = block_size;
      m_free_count = block_count;
      m_block_count = block_count;
      m_free_ptr = mem;
      m_mem = mem;
    },
    m,
  )

-- `mem_destory`, which leaves the struct as it is.
unfoldable pub mem_destroy : MemPools → Memory → Option Memory
mem_destroy mem m = if mem.m_mem == 0 then some m else free m mem.m_mem

-- `mem_alloc`: the block, or 0 for NULL.
unfoldable pub mem_alloc : MemPools → Memory → Option (ℕ × MemPools × Memory)
mem_alloc mem m = if mem.m_free_count == 0 then some (0, mem, m) else (do
  next ← load m mem.m_free_ptr
  some (mem.m_free_ptr, record mem { m_free_count = mem.m_free_count - 1; m_free_ptr = next }, m))

-- `mem_free`
unfoldable pub mem_free : MemPools → (ptr : ℕ) → Memory → Option (MemPools × Memory)
mem_free mem ptr m = if ltb ptr mem.m_mem then some (mem, m) else (do
  size ← int_product mem.m_free_count mem.m_block_size
  if leb (mem.m_mem + size) ptr then some (mem, m) else (do
    m ← store m ptr mem.m_free_ptr
    some (record mem { m_free_count = mem.m_free_count + 1; m_free_ptr = ptr }, m)))
