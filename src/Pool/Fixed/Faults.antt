-- ===== src/Pool/Fixed/Faults.antt =====
-- What goes wrong in the pool of mm_pool.h: `mem_create` writes behind its memory, and `mem_free`
-- compares with the end of the free blocks where it means the end of all blocks.
use linux.Common.{
  ◌≢◌, ℕ, zero, suc, ◌+◌, ◌*◌, ◌≤◌, ◌<◌, ◌^◌, ◌≡◌, refl, inl, inr, true, false, Option, none, some,
  List, [], ◌∷◌, arith, ap, ap₂, ◌∙◌, sym, leb, ltb, ◌==◌, if◌then◌else◌, ◌>>=◌, Bool-cases,
  Option-cases, >>=-eq-some, some_inj,
}
use linux.Pool.Memory.{
  Region, Memory, store, allocate, accessible, Has, put, store_lem, Has-accessible,
}
use linux.Pool.Fixed.{
  MemPools, int_product, link_each, fill_blocks, mem_create, mem_alloc, mem_free,
}

store-regions :
    (m : Memory) (p v : ℕ) (m' : Memory) → store m p v ≡ some m' → m'.regions ≡ m.regions
unfolding store
store-regions m p v m' h = elim (Bool-cases (accessible m.regions p)) [
  | inl e ↦ ap (λ (q : Memory). q.regions) (sym (some_inj (rw e at h)))
  | inr e ↦ absurd (let h' = (rw e at h) in cc)
]

-- Where the loop ends, if it ends, and that it allocates nothing.
link_each-end :
    (size left ptr : ℕ) (m : Memory) (r : ℕ × Memory)
    → link_each size left ptr m ≡ some r
    → (r.0 ≡ ptr + size * left) × (r.1.regions ≡ m.regions)
unfolding link_each
link_each-end size zero ptr m r h =
    let e : ◌≡◌ {A = ℕ × Memory} (ptr, m) r = some_inj h in
    (omega (arith, ap (λ (q : ℕ × Memory). q.0) e), ap (λ (q : ℕ × Memory). q.1.regions) (sym e))
link_each-end size (suc left) ptr m r h =
    let (m1, s, rest) =
      >>=-eq-some (store m ptr (ptr + size)) (link_each size left (ptr + size)) h in
    let t = link_each-end size left (ptr + size) m1 r rest in
    (omega (arith, t.0), t.1 ∙ store-regions m ptr (ptr + size) m1 s)

int_product-eq : (a b n : ℕ) → int_product a b ≡ some n → n ≡ a * b
int_product-eq a b n h = ground (arith, h)

-- A store outside the regions.
store-none : (m : Memory) (p v : ℕ) → accessible m.regions p ≡ false → store m p v ≡ none
unfolding store
store-none m p v h = rw h refl

fill_blocks-none :
    (count size mem : ℕ) (m : Memory)
    → accessible m.regions (mem + size * count) ≡ false
    → fill_blocks count size mem m ≡ none
unfolding fill_blocks
fill_blocks-none count size mem m out = elim (Option-cases (link_each size count mem m)) [
  | inl e ↦ rw e refl
  | inr (r, e) ↦
      let t = link_each-end size count mem m r e in
      rw e (store-none r.1 r.0 0 (ap₂ accessible t.1 t.0 ∙ out))
]

-- The 8 bytes behind a new region are not in it.
allocate-accessible_end :
    (m : Memory) (p n : ℕ)
    → accessible m.regions (p + n) ≡ false
    → accessible (allocate m p n).regions (p + n) ≡ false
unfolding accessible allocate
allocate-accessible_end m p n h = ground (arith, h)

-- The loop stays in the region that it starts in, as long as each link fits in a block.
link_each-inside :
    (size left ptr : ℕ) (m : Memory) (r : Region)
    → Has r m.regions
    → r.base ≤ ptr
    → ptr + size * left ≤ r.base + r.size
    → 8 ≤ size
    → (q : ℕ × Memory) × (link_each size left ptr m ≡ some q)
unfolding link_each
link_each-inside size zero ptr m r has lo hi wide = ((ptr, m), refl)
link_each-inside size (suc left) ptr m r has lo hi wide =
    let step : size * suc left ≡ size + size * left = omega arith in
    let inside : ptr + 8 ≤ r.base + r.size = omega (arith, hi, step, wide) in
    let m' = record m { word = put m.word ptr (ptr + size) } in
    let (q, e) =
      link_each-inside size left (ptr + size) m' r has (omega (arith, lo)) (omega (arith, hi, step))
        wide in
    (q, rw (store_lem m ptr (ptr + size) (Has-accessible r m.regions ptr has lo inside)) e)

-- For blocks of at least 8 bytes, a size that an `int` holds, and a `malloc` that returns memory: the loop
-- of `mem_create` returns, and it has stored all its links inside that memory and stands at its end; the
-- 8 bytes there are not allocated, if they do not happen to lie in a region that was allocated before;
-- and so the store that follows, of NULL at that address, is outside all allocated memory.
pub mem_create_overruns :
    (malloc : List Region → ℕ → ℕ) (count size : ℕ) (m : Memory)
    → 8 ≤ size
    → count * size < 2 ^ 31
    → malloc m.regions (count * size) ≢ 0
    → accessible m.regions (malloc m.regions (count * size) + count * size) ≡ false
    → let mem = malloc m.regions (count * size) in
      (m' : Memory) × (link_each size count mem (allocate m mem (count * size))
        ≡ some (mem + count * size, m'))
      × (accessible m'.regions (mem + count * size) ≡ false)
      × (store m' (mem + count * size) 0 ≡ none)
      × (mem_create malloc count size m ≡ none)
unfolding mem_create allocate
mem_create_overruns malloc count size m wide fits got outside =
    let mem = malloc m.regions (count * size) in
    let new : Region = record { base = mem; size = count * size } in
    let a = allocate m mem (count * size) in
    let swap : mem + size * count ≡ mem + count * size = omega arith in
    let ((at, m'), e) =
      link_each-inside size count mem a new (inl refl) (omega arith) (omega (arith, swap)) wide in
    let t = link_each-end size count mem a (at, m') e in
    let free_end : accessible m'.regions (mem + count * size) ≡ false =
      ap (λ rs. accessible rs (mem + count * size)) t.1
      ∙ allocate-accessible_end m mem (count * size) outside in
    let small : leb (2 ^ 31) (count * size) ≡ false = ground (arith, fits) in
    let some_memory : (mem == 0) ≡ false = ground (arith, got) in
    (
      m',
      e ∙ ap (λ k. some (k, m')) (t.0 ∙ swap),
      free_end,
      store-none m' (mem + count * size) 0 free_end,
      rw
          (
            small,
            some_memory,
            fill_blocks-none count size mem a (
                ap (λ k. accessible a.regions k) swap
                ∙ allocate-accessible_end m mem (count * size) outside),
          )
          refl,
    )

-- On a block of the pool, the one with index `i`, with blocks of at least one byte, a size of the free
-- blocks that an `int` holds, and a block that may be stored to, `mem_free` takes the block back exactly
-- where `i` is below the number of blocks that are free; it changes nothing for a block with a higher
-- index, which is lost.
pub mem_free-index :
    (mem : MemPools) (i : ℕ) (m m' : Memory)
    → 0 < mem.m_block_size
    → mem.m_free_count * mem.m_block_size < 2 ^ 31
    → store m (mem.m_mem + mem.m_block_size * i) mem.m_free_ptr ≡ some m'
    → mem_free mem (mem.m_mem + mem.m_block_size * i) m
      ≡ some (
          if ltb i mem.m_free_count
          then (
            record mem {
              m_free_count = mem.m_free_count + 1;
              m_free_ptr = mem.m_mem + mem.m_block_size * i;
            },
            m',
          )
          else (mem, m))
unfolding mem_free
mem_free-index mem i m m' pos fits s =
    let small : leb (2 ^ 31) (mem.m_free_count * mem.m_block_size) ≡ false = ground (arith, fits) in
    let above : ltb (mem.m_mem + mem.m_block_size * i) mem.m_mem ≡ false = ground arith in
    elim (Bool-cases (ltb i mem.m_free_count)) [
      | inl e ↦
          let l : suc i ≤ mem.m_free_count = ground (arith, e) in
          let p : mem.m_block_size * suc i ≤ mem.m_block_size * mem.m_free_count =
            grind (arith, l) in
          let inside : leb (mem.m_mem + mem.m_free_count * mem.m_block_size)
                (mem.m_mem + mem.m_block_size * i)
              ≡ false =
            ground (arith, p, pos) in
          rw (above, small, inside, s, e) refl
      | inr e ↦
          let l : mem.m_free_count ≤ i = ground (arith, e) in
          let p : mem.m_block_size * mem.m_free_count ≤ mem.m_block_size * i = grind (arith, l) in
          let outside : leb (mem.m_mem + mem.m_free_count * mem.m_block_size)
                (mem.m_mem + mem.m_block_size * i)
              ≡ true =
            ground (arith, p) in
          rw (above, small, outside, e) refl
    ]

int_product_zero : (n : ℕ) → int_product 0 n ≡ some 0
int_product_zero n = ground arith

-- What a client may call.
pub data Call : Type 0 where
  alloc : Call
  give : ℕ → Call

-- A sequence of calls: the pool and the memory at the end, and the blocks that were handed out.
abbrev pub run_calls : List Call → MemPools → Memory → Option (List ℕ × MemPools × Memory)
run_calls [] mem m = some ([], mem, m)
run_calls (alloc ∷ cs) mem m =
    mem_alloc mem m >>= λ r. run_calls cs r.1 r.2 >>= λ t. some (r.0 ∷ t.0, t.1, t.2)
run_calls (give ptr ∷ cs) mem m = mem_free mem ptr m >>= λ r. run_calls cs r.0 r.1

abbrev pub nulls : List Call → List ℕ
nulls [] = []
nulls (alloc ∷ cs) = 0 ∷ nulls cs
nulls (give ptr ∷ cs) = nulls cs

-- Once no block is free, none is ever free again: any sequence of calls of `mem_alloc` and `mem_free`,
-- whatever pointers it returns, leaves the pool and the memory as they are, and each `mem_alloc` of it returns NULL.
pub run_calls_exhausted :
    (cs : List Call) (mem : MemPools) (m : Memory)
    → mem.m_free_count ≡ 0
    → run_calls cs mem m ≡ some (nulls cs, mem, m)
unfolding mem_alloc mem_free
run_calls_exhausted [] mem m none_free = refl
run_calls_exhausted (alloc ∷ cs) mem m none_free =
    let t : (mem.m_free_count == 0) ≡ true = ground arith in
    rw (t, run_calls_exhausted cs mem m none_free) refl
run_calls_exhausted (give ptr ∷ cs) mem m none_free = elim (Bool-cases (ltb ptr mem.m_mem)) [
  | inl e ↦ rw e (run_calls_exhausted cs mem m none_free)
  | inr e ↦
      let p : int_product mem.m_free_count mem.m_block_size ≡ some 0 =
        ap (λ n. int_product n mem.m_block_size) none_free ∙ int_product_zero mem.m_block_size in
      let outside : leb (mem.m_mem + 0) ptr ≡ true = ground (arith, e) in
      rw (e, p, outside) (run_calls_exhausted cs mem m none_free)
]
