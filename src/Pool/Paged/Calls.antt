-- ===== src/Pool/Paged/Calls.antt =====
-- `malloc_mem_pool` where a block is free, and `free_mem_pool`.
use linux.Common.{
  ℕ, zero, suc, ◌+◌, ◌<◌, ◌≡◌, refl, inl, inr, false, some, List, ◌∷◌, arith, length, ap, ◌∙◌, sym,
  subst, ◌==◌, Bool-cases, add32, sub32,
}
use linux.Pool.Memory.{Region, Memory, load, put, store_lem, load_lem, put_self, put-Apart}
use linux.Pool.Paged.{MemPool, take_block, malloc_mem_pool, free_from, free_mem_pool}
use linux.Pool.Paged.Shape.{
  Page, In, first_block, FreeChain-agree, PageChain-agree, IsBlock, IsBlock-Within,
  Within-accessible, IsBlock-apart, IsBlock-header-apart, IsBlock-nonzero, In-IsBlock, IsValid,
}
use linux.Pool.Paged.Find.{free_from-IsBlock, free_from-other, free_from_more}

-- A block leaves the list.
pub take_block-IsValid :
    (pool : MemPool) (m : Memory) (pages : List Page) (b : ℕ) (bs : List ℕ)
    → IsValid pool m pages (b ∷ bs)
    → (take_block pool m
        ≡ some
            (b, record pool { free_count = sub32 pool.free_count 1; free_ptr = first_block bs }, m))
      × IsValid
          (record pool { free_count = sub32 pool.free_count 1; free_ptr = first_block bs })
          m
          pages
          bs
unfolding take_block
take_block-IsValid pool m pages b bs v = (
  rw v.first_block_at (
      rw
        (load_lem m b (
          Within-accessible pool.block_size v.wide m.regions pages b v.are_pages
            (IsBlock-Within pool.block_size v.wide pages b v.in_pages.0)))
        (rw v.free_chain.0 refl)),
  record {
    wide = v.wide;
    first_page_at = v.first_page_at;
    first_block_at = refl;
    free_counted = omega (arith, v.free_counted);
    all_counted = v.all_counted;
    are_pages = v.are_pages;
    page_chain = v.page_chain;
    free_chain = v.free_chain.1;
    in_pages = v.in_pages.1;
    distinct = v.distinct.1;
  },
)

-- After the store into a returned block the pool is valid.
returned-IsValid :
    (pool : MemPool) (m : Memory) (pages : List Page) (frees : List ℕ) (ptr : ℕ)
    → IsValid pool m pages frees
    → IsBlock pool.block_size pages ptr
    → ((In ptr frees) → ⊥)
    → IsValid
        (record pool { free_count = add32 pool.free_count 1; free_ptr = ptr })
        (record m { word = put m.word ptr pool.free_ptr })
        pages
        (ptr ∷ frees)
returned-IsValid pool m pages frees ptr v b out = record {
  wide = v.wide;
  first_page_at = v.first_page_at;
  first_block_at = refl;
  free_counted = omega (arith, v.free_counted);
  all_counted = v.all_counted;
  are_pages = v.are_pages;
  page_chain =
      PageChain-agree size m.word (put m.word ptr pool.free_ptr) pages
        (λ a i. put-Apart m.word ptr pool.free_ptr a (
          omega (
            arith,
            v.wide,
            IsBlock-header-apart size v.wide m.regions pages ptr a v.are_pages b i,
          )))
        v.page_chain;
  free_chain = (
    put_self m.word ptr pool.free_ptr ∙ ap some v.first_block_at,
    FreeChain-agree m.word (put m.word ptr pool.free_ptr) frees
        (λ a i. put-Apart m.word ptr pool.free_ptr a (
          omega (
            arith,
            v.wide,
            IsBlock-apart size v.wide m.regions pages ptr a v.are_pages b
                (In-IsBlock size pages frees a i v.in_pages)
                (λ e. out (subst (λ x. In x frees) (sym e) i)),
          )))
        v.free_chain,
  );
  in_pages = (b, v.in_pages);
  distinct = (out, v.distinct);
}
  where
    size : ℕ
    size = pool.block_size

-- Where a valid pool has fewer pages than the fuel, `free_mem_pool` of a block of the pool that is not
-- free returns; it makes that block the next to be handed out, the only word that changes is the
-- block's first, and the pool stays valid.
pub free_mem_pool-IsBlock :
    (pool : MemPool) (m : Memory) (pages : List Page) (frees : List ℕ) (fuel ptr : ℕ)
    → IsValid pool m pages frees
    → length pages < fuel
    → IsBlock pool.block_size pages ptr
    → ((In ptr frees) → ⊥)
    → (free_mem_pool fuel pool ptr m
        ≡ some (
          record pool { free_count = add32 pool.free_count 1; free_ptr = ptr },
          record m { word = put m.word ptr pool.free_ptr },
        ))
      × IsValid
          (record pool { free_count = add32 pool.free_count 1; free_ptr = ptr })
          (record m { word = put m.word ptr pool.free_ptr })
          pages
          (ptr ∷ frees)
unfolding free_mem_pool
free_mem_pool-IsBlock pool m pages frees fuel ptr v h b out =
    let size = pool.block_size in
    let nz : (ptr == 0) ≡ false =
      ground (arith, IsBlock-nonzero size v.wide m.regions pages ptr v.are_pages b) in
    let seen =
      Within-accessible size v.wide m.regions pages ptr v.are_pages
        (IsBlock-Within size v.wide pages ptr b) in
    (
      rw nz (
          ap (λ page. free_from fuel pool page ptr m) v.first_page_at
          ∙ free_from-IsBlock pool m v.wide pages fuel ptr h v.are_pages v.page_chain b _
              (store_lem m ptr pool.free_ptr seen)),
      returned-IsValid pool m pages frees ptr v b out,
    )

-- Where a valid pool has fewer pages than the fuel, `free_mem_pool` of any pointer that is no block of
-- the pool, NULL among them, returns and changes nothing.
pub free_mem_pool-other :
    (pool : MemPool) (m : Memory) (pages : List Page) (frees : List ℕ) (fuel ptr : ℕ)
    → IsValid pool m pages frees
    → length pages < fuel
    → (IsBlock pool.block_size pages ptr → ⊥)
    → free_mem_pool fuel pool ptr m ≡ some (pool, m)
unfolding free_mem_pool
free_mem_pool-other pool m pages frees fuel ptr v h b = elim (Bool-cases (ptr == 0)) [
  | inl e ↦ rw e refl
  | inr e ↦ rw e (
      ap (λ page. free_from fuel pool page ptr m) v.first_page_at
      ∙ free_from-other pool m v.wide pages fuel ptr h v.are_pages v.page_chain b)
]

abbrev pub more_fuel : ℕ → ℕ → ℕ
more_fuel zero f = f
more_fuel (suc d) f = suc (more_fuel d f)

pub more_fuel-eq : (d f : ℕ) → more_fuel d f ≡ d + f
more_fuel-eq zero f = omega arith
more_fuel-eq (suc d) f = omega (arith, more_fuel-eq d f)

free_mem_pool_one_more :
    (f : ℕ) (pool : MemPool) (ptr : ℕ) (m : Memory) (r : MemPool × Memory)
    → free_mem_pool f pool ptr m ≡ some r
    → free_mem_pool (suc f) pool ptr m ≡ some r
unfolding free_mem_pool
free_mem_pool_one_more f pool ptr m r h = elim (Bool-cases (ptr == 0)) [
  | inl e ↦ rw e (rw e at h)
  | inr e ↦ rw e (free_from_more f pool pool.mm ptr m r (rw e at h))
]

pub free_mem_pool_more :
    (d f : ℕ) (pool : MemPool) (ptr : ℕ) (m : Memory) (r : MemPool × Memory)
    → free_mem_pool f pool ptr m ≡ some r
    → free_mem_pool (more_fuel d f) pool ptr m ≡ some r
free_mem_pool_more zero f pool ptr m r h = h
free_mem_pool_more (suc d) f pool ptr m r h =
    free_mem_pool_one_more (more_fuel d f) pool ptr m r (free_mem_pool_more d f pool ptr m r h)

-- Nothing marks a block as free: where, on a valid pool with fewer pages than the fuel, the block that
-- would be handed out next is returned once more, the call succeeds, and the next two calls of
-- `malloc_mem_pool` both hand out that block.
pub free_mem_pool_twice :
    (malloc : List Region → ℕ → ℕ) (pool : MemPool) (m : Memory) (pages : List Page) (b : ℕ)
    (bs : List ℕ) (fuel : ℕ)
    → IsValid pool m pages (b ∷ bs)
    → length pages < fuel
    → (pool1 : MemPool) × (m1 : Memory) × (pool2 : MemPool) × (pool3 : MemPool) × (free_mem_pool
          fuel pool b m
        ≡ some (pool1, m1))
      × (malloc_mem_pool malloc pool1 m1 ≡ some (b, pool2, m1))
      × (malloc_mem_pool malloc pool2 m1 ≡ some (b, pool3, m1))
unfolding free_mem_pool malloc_mem_pool take_block
free_mem_pool_twice malloc pool m pages b bs fuel v le =
    let size = pool.block_size in
    let is_block = v.in_pages.0 in
    let nz : (b == 0) ≡ false =
      ground (arith, IsBlock-nonzero size v.wide m.regions pages b v.are_pages is_block) in
    let seen =
      Within-accessible size v.wide m.regions pages b v.are_pages
        (IsBlock-Within size v.wide pages b is_block) in
    let m1 : Memory = record m { word = put m.word b pool.free_ptr } in
    let points : load m1 b ≡ some b =
      load_lem m1 b seen ∙ put_self m.word b pool.free_ptr ∙ ap some v.first_block_at in
    (
      record pool { free_count = add32 pool.free_count 1; free_ptr = b },
      m1,
      record pool { free_count = sub32 (add32 pool.free_count 1) 1; free_ptr = b },
      record pool { free_count = sub32 (sub32 (add32 pool.free_count 1) 1) 1; free_ptr = b },
      rw nz (
          ap (λ page. free_from fuel pool page b m) v.first_page_at
          ∙ free_from-IsBlock pool m v.wide pages fuel b le v.are_pages v.page_chain is_block m1
              (store_lem m b pool.free_ptr seen)),
      rw (nz, points) refl,
      rw (nz, points) refl,
    )
