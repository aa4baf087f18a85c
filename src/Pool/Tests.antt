-- ===== src/Pool/Tests.antt =====
-- Runs and instances of the pools' code.
use linux.Common.{
  ℕ, ◌+◌, ◌≤◌, ◌≡◌, refl, inl, inr, true, Option, none, some, List, [], ◌∷◌, arith, ap, ◌==◌,
  if◌then◌else◌, add32,
}
use linux.Pool.Memory.{Region, Memory, Has, KeepsApart, store, load, put, accessible, allocate}
use linux.Pool.Paged.{
  MemPool, malloc_mem_pool, free_mem_pool, create_mem_pool, take_block, malloc_mem_page, fill_page,
  link_page, link_blocks,
}
use linux.Pool.Paged.Shape.{Page, IsBlock, IsValid}
use linux.Pool.Paged.Fill.{blocks}
use linux.Pool.Paged.Calls.{free_mem_pool-IsBlock, free_mem_pool-other, free_mem_pool_twice}
use linux.Pool.Paged.Create.{create_mem_pool-IsValid}
use linux.Pool.Paged.Grow.{malloc_mem_pool-grows}
use linux.Pool.Paged.Use.{Reach, here, next, taken}
use linux.Pool.Paged.Reached.{IsSafe, create-Reach-IsSafe}

-- A `malloc` that never uses memory again.
abbrev ends : List Region → ℕ
ends [] = 0
ends (r ∷ rs) = r.base + r.size + ends rs

abbrev bump : List Region → ℕ → ℕ
bump rs n = 16 + ends rs

ends_bound : (r : Region) (rs : List Region) → Has r rs → r.base + r.size ≤ ends rs
ends_bound r [] h = absurd h
ends_bound r (x ∷ xs) (inl e) =
    omega (arith, ap (λ (q : Region). q.base) e, ap (λ (q : Region). q.size) e)
ends_bound r (x ∷ xs) (inr h) = omega (arith, ends_bound r xs h)

bump-KeepsApart : KeepsApart bump
bump-KeepsApart = record { fresh = λ rs n r ne h. inl (omega (arith, ends_bound r rs h)) }

abbrev no_memory : Memory
no_memory = record { regions = []; word = λ a. none }

abbrev unset : MemPool
unset = record {
  block_size = 7;
  block_total = 7;
  auto_increment = 7;
  free_count = 7;
  free_ptr = 7;
  mm = 7;
}

-- A pool of one page with one free block of 16 bytes, and its memory.
abbrev one_page : MemPool
one_page = record {
  block_size = 16;
  block_total = 1;
  auto_increment = 1;
  free_count = 1;
  free_ptr = 16;
  mm = 32;
}

abbrev header_of_one : ℕ → Option ℕ
header_of_one a =
    if a == 32 then some 16 else if a == 40 then some 32 else if a == 48 then some 0 else none

abbrev one_free : Memory
one_free = record {
  regions = record { base = 16; size = 40 } ∷ [];
  word = λ a. if a == 16 then some 0 else header_of_one a;
}

abbrev the_page : Page
the_page = record { base = 16; count = 1 }

one_page-IsValid : IsValid one_page one_free (the_page ∷ []) (16 ∷ [])
one_page-IsValid = record {
  wide = omega arith;
  first_page_at = refl;
  first_block_at = refl;
  free_counted = refl;
  all_counted = refl;
  are_pages = (omega arith, inl refl, tt, tt);
  page_chain = (refl, refl, refl, tt);
  free_chain = (refl, tt);
  in_pages = (inl (0, omega arith, refl), tt);
  distinct = (λ i. i, tt);
}

-- The same page with its block handed out.
abbrev used_up : MemPool
used_up = record {
  block_size = 16;
  block_total = 1;
  auto_increment = 1;
  free_count = 0;
  free_ptr = 0;
  mm = 32;
}

used_up-IsValid : IsValid used_up one_free (the_page ∷ []) []
used_up-IsValid = record {
  wide = omega arith;
  first_page_at = refl;
  first_block_at = refl;
  free_counted = refl;
  all_counted = refl;
  are_pages = (omega arith, inl refl, tt, tt);
  page_chain = (refl, refl, refl, tt);
  free_chain = tt;
  in_pages = tt;
  distinct = tt;
}

-- The pool after its first block is handed out, and after it grows.
take_run : malloc_mem_pool bump one_page one_free ≡ some (16, used_up, one_free)
unfolding malloc_mem_pool take_block load accessible
take_run = refl

created_run :
    (m : Memory) × (create_mem_pool bump unset 16 1 1 no_memory ≡ some (true, one_page, m))
unfolding create_mem_pool malloc_mem_page fill_page link_page link_blocks store load accessible put
    allocate
created_run = (_, refl)

create_mem_pool-IsValid_example :
    (pool : MemPool) × (m' : Memory) × (create_mem_pool bump unset 16 2 1 no_memory
      ≡ some (true, pool, m'))
    × IsValid pool m' (record { base = 16; count = 2 } ∷ []) (blocks 16 16 2)
    × (pool.block_size ≡ 16)
    × (pool.auto_increment ≡ 1)
create_mem_pool-IsValid_example =
    create_mem_pool-IsValid bump bump-KeepsApart no_memory unset 16 2 1 (omega arith) (omega arith)
      (omega arith) (omega arith)

malloc_mem_pool-grows_example :
    (pool' : MemPool) × (m' : Memory) × (malloc_mem_pool bump used_up one_free
      ≡ some (72, pool', m'))
    × IsValid pool' m' (record { base = 72; count = 1 } ∷ the_page ∷ []) (blocks 16 88 0)
    × (pool'.block_size ≡ 16)
    × (pool'.auto_increment ≡ 1)
malloc_mem_pool-grows_example =
    malloc_mem_pool-grows bump bump-KeepsApart one_free used_up (the_page ∷ []) used_up-IsValid
      (omega arith) (omega arith) (omega arith)

free_mem_pool-IsBlock_example :
    (free_mem_pool 2 used_up 16 one_free
      ≡ some (
        record used_up { free_count = add32 0 1; free_ptr = 16 },
        record one_free { word = put one_free.word 16 0 },
      ))
    × IsValid
        (record used_up { free_count = add32 0 1; free_ptr = 16 })
        (record one_free { word = put one_free.word 16 0 })
        (the_page ∷ [])
        (16 ∷ [])
free_mem_pool-IsBlock_example =
    free_mem_pool-IsBlock used_up one_free (the_page ∷ []) [] 2 16 used_up-IsValid (omega arith)
      (inl (0, omega arith, refl)) (λ i. i)

eight_inside : IsBlock 16 (the_page ∷ []) 24 → ⊥
eight_inside (inl (i, lt, e)) = absurd (omega (arith, lt, e))
eight_inside (inr b) = b

free_mem_pool-other_example : free_mem_pool 2 used_up 24 one_free ≡ some (used_up, one_free)
free_mem_pool-other_example =
    free_mem_pool-other used_up one_free (the_page ∷ []) [] 2 24 used_up-IsValid (omega arith)
      eight_inside

free_mem_pool_twice_example :
    (pool1 : MemPool) × (m1 : Memory) × (pool2 : MemPool) × (pool3 : MemPool) × (free_mem_pool 2
        one_page 16 one_free
      ≡ some (pool1, m1))
    × (malloc_mem_pool bump pool1 m1 ≡ some (16, pool2, m1))
    × (malloc_mem_pool bump pool2 m1 ≡ some (16, pool3, m1))
free_mem_pool_twice_example =
    free_mem_pool_twice bump one_page one_free (the_page ∷ []) 16 [] 2 one_page-IsValid
      (omega arith)

-- The memory after the pool is created.
abbrev created : Memory
created = created_run.0

-- The client takes the only block.
one_taken :
    Reach bump
      (record { pool = one_page; memory = created; held = [] })
      (record { pool = used_up; memory = created; held = 16 ∷ [] })
unfolding malloc_mem_pool take_block load accessible created_run
one_taken = next here (taken _ (16, used_up, created) refl (omega arith))

create-Reach-IsSafe_example :
    IsSafe bump 16 (record { pool = used_up; memory = created; held = 16 ∷ [] })
create-Reach-IsSafe_example =
    create-Reach-IsSafe bump bump-KeepsApart 16 1 1 (inr (omega arith)) unset one_page no_memory
      created (record { pool = used_up; memory = created; held = 16 ∷ [] }) (omega arith)
      (omega arith) (omega arith) created_run.1 one_taken
