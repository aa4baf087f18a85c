-- ===== src/Pool/Fixed/Tests.antt =====
-- Runs and instances of the code of mm_pool.h.
use linux.Common.{arith, some, ℕ, ◌≡◌, refl, false, none, some, List, [], ◌∷◌, if◌then◌else◌, ◌==◌}
use linux.Pool.Memory.{allocate, Region, Memory, store, load, put, accessible}
use linux.Pool.Fixed.{MemPools, link_each, mem_create, mem_alloc}
use linux.Pool.Fixed.Faults.{mem_create_overruns, run_calls, run_calls_exhausted, alloc, give}

-- A `malloc` that returns address 16.
abbrev at_16 : List Region → ℕ → ℕ
at_16 rs n = 16

abbrev empty_memory : Memory
empty_memory = record { regions = []; word = λ a. none }

nothing_at : accessible [] 40 ≡ false
unfolding accessible
nothing_at = refl

mem_create_overruns_example :
    (m' : Memory) × (link_each 8 3 16 (allocate empty_memory 16 24) ≡ some (40, m'))
    × (accessible m'.regions 40 ≡ false)
    × (store m' 40 0 ≡ none)
    × (mem_create at_16 3 8 empty_memory ≡ none)
mem_create_overruns_example =
    mem_create_overruns at_16 3 8 empty_memory (omega arith) (omega arith) (λ e. omega (arith, e))
      nothing_at

-- A pool of three blocks, of which two are free.
abbrev three : MemPools
three = record {
  m_block_size = 8;
  m_free_count = 2;
  m_block_count = 3;
  m_free_ptr = 24;
  m_mem = 16;
}

abbrev three_memory : Memory
three_memory = record {
  regions = record { base = 16; size = 24 } ∷ [];
  word = λ a. if a == 24 then some 32 else if a == 32 then some 40 else none;
}

alloc_run :
    mem_alloc three three_memory
    ≡ some (24, record three { m_free_count = 1; m_free_ptr = 32 }, three_memory)
unfolding mem_alloc load accessible
alloc_run = refl

third_store :
    store three_memory 32 24 ≡ some (record three_memory { word = put three_memory.word 32 24 })
unfolding store accessible
third_store = refl

abbrev exhausted : MemPools
exhausted = record {
  m_block_size = 8;
  m_free_count = 0;
  m_block_count = 3;
  m_free_ptr = 40;
  m_mem = 16;
}

run_calls_exhausted_example :
    run_calls (give 16 ∷ alloc ∷ give 24 ∷ alloc ∷ []) exhausted three_memory
    ≡ some (0 ∷ 0 ∷ [], exhausted, three_memory)
run_calls_exhausted_example =
    run_calls_exhausted (give 16 ∷ alloc ∷ give 24 ∷ alloc ∷ []) exhausted three_memory refl
