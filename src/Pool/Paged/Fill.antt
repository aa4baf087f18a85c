-- ===== src/Pool/Paged/Fill.antt =====
-- What `malloc_mem_page` leaves in the memory of a new page.
use linux.Common.{
  ℕ, zero, suc, ◌+◌, ◌-◌, ◌*◌, ◌≤◌, ◌<◌, ◌%◌, ◌≡◌, refl, ◌≢◌, ◌⊎◌, inl, inr, true, false, Option,
  some, List, [], ◌∷◌, arith, length, ap, ◌∙◌, subst, u32_mod, leb, ◌==◌,
}
use linux.Pool.Memory.{
  Region, Memory, accessible, put, allocate, store_lem, put_self, put-Apart, allocate-word,
  Has-accessible,
}
use linux.Pool.Paged.{
  link_blocks, link_page, fill_page, malloc_mem_page, page_header_size, end_offset, next_offset,
  size_of_int, int_limit,
}
use linux.Pool.Paged.Shape.{Page, In, FreeChain, Distinct, AllBlocks}

size_of_int_small : (n : ℕ) → n < int_limit → size_of_int (n % u32_mod) ≡ n
size_of_int_small n h = ground arith

module _ (size : ℕ) where
  -- The `n` blocks from `base` on.
  abbrev pub blocks : (base n : ℕ) → List ℕ
  blocks base zero = []
  blocks base (suc n) = base ∷ blocks (base + size) n

  pub length-blocks : (base n : ℕ) → length (blocks base n) ≡ n
  length-blocks base zero = refl
  length-blocks base (suc n) = ap suc (length-blocks (base + size) n)

  pub blocks-from : (base n a : ℕ) → In a (blocks base n) → base ≤ a
  blocks-from base zero a h = absurd h
  blocks-from base (suc n) a (inl e) = omega (arith, e)
  blocks-from base (suc n) a (inr h) = omega (arith, blocks-from (base + size) n a h)

  pub blocks-below : (base n a : ℕ) → In a (blocks base n) → a + size ≤ base + size * n
  blocks-below base zero a h = absurd h
  blocks-below base (suc n) a (inl e) = omega (arith, e)
  blocks-below base (suc n) a (inr h) = omega (arith, blocks-below (base + size) n a h)

  pub blocks-Distinct : (base n : ℕ) → 0 < size → Distinct (blocks base n)
  blocks-Distinct base zero h = tt
  blocks-Distinct base (suc n) h = (
    λ i. absurd (omega (arith, blocks-from (base + size) n base i)),
    blocks-Distinct (base + size) n h,
  )

  blocks-AllBlocks_from :
      (p : Page) (ps : List Page) (i n base : ℕ)
      → base ≡ p.base + size * i
      → i + n ≤ p.count
      → AllBlocks size (p ∷ ps) (blocks base n)
  blocks-AllBlocks_from p ps i zero base e h = tt
  blocks-AllBlocks_from p ps i (suc n) base e h = (
    inl (i, omega arith, e),
    blocks-AllBlocks_from p ps (suc i) n (base + size) (omega (arith, e)) (omega arith),
  )

  pub blocks-AllBlocks :
      (p : Page) (ps : List Page) → AllBlocks size (p ∷ ps) (blocks p.base p.count)
  blocks-AllBlocks p ps = blocks-AllBlocks_from p ps 0 p.count p.base (omega arith) (omega arith)

  -- The words after the loop of `malloc_mem_page` and the store behind it, with `k` links.
  abbrev chained : (k ptr : ℕ) → (ℕ → Option ℕ) → ℕ → Option ℕ
  chained zero ptr word = put word ptr 0
  chained (suc k) ptr word = chained k (ptr + size) (put word ptr (ptr + size))

  chained_outside :
      (k ptr a : ℕ) (word : ℕ → Option ℕ)
      → (a + 8 ≤ ptr) ⊎ (ptr + size * k + 8 ≤ a)
      → chained k ptr word a ≡ word a
  chained_outside zero ptr a word h = put-Apart word ptr 0 a (omega (arith, h))
  chained_outside (suc k) ptr a word h =
      chained_outside k (ptr + size) a (put word ptr (ptr + size)) (omega (arith, h))
      ∙ put-Apart word ptr (ptr + size) a (omega (arith, h))

  chained-FreeChain :
      (k ptr : ℕ) (word : ℕ → Option ℕ)
      → 8 ≤ size
      → FreeChain (chained k ptr word) (blocks ptr (suc k))
  chained-FreeChain zero ptr word h = (put_self word ptr 0, tt)
  chained-FreeChain (suc k) ptr word h = (
    chained_outside k (ptr + size) ptr (put word ptr (ptr + size)) (inl (omega arith))
        ∙ put_self word ptr (ptr + size),
    chained-FreeChain k (ptr + size) (put word ptr (ptr + size)) h,
  )

  link_page-chained :
      (page k ptr : ℕ) (m : Memory)
      → ((a : ℕ) → ptr ≤ a → a ≤ ptr + size * k → accessible m.regions a ≡ true)
      → link_page page size k ptr m ≡ some (page, record m { word = chained k ptr m.word })
  unfolding link_page link_blocks
  link_page-chained page zero ptr m h =
      rw (store_lem m ptr 0 (h ptr (omega arith) (omega arith))) refl
  link_page-chained page (suc k) ptr m h =
      rw (store_lem m ptr (ptr + size) (h ptr (omega arith) (omega arith))) (
        link_page-chained page k (ptr + size) (record m { word = put m.word ptr (ptr + size) })
          (λ a lo hi. h a (omega arith) (omega arith)))

  -- The memory with the new page, whose header names no next page yet.
  abbrev pub page_word : (count ptr : ℕ) → Memory → ℕ → Option ℕ
  page_word count ptr m =
      let h = ptr + size * count in
      chained (count - 1) ptr (put (put (put m.word h ptr) (h + end_offset) h) (h + next_offset) 0)

  pub last_block : (count : ℕ) → 0 < count → size * (count - 1) + size ≤ size * count
  last_block zero h = absurd (omega arith)
  last_block (suc n) h = let e : suc n - 1 ≡ n = omega arith in rw e (omega arith)

  -- Memory in the page, which `malloc` returned at `ptr`.
  abbrev pub with_page : (count ptr : ℕ) → Memory → Memory
  with_page count ptr m = allocate m ptr (size * count + page_header_size)

  module _ (malloc : List Region → ℕ → ℕ) (m : Memory) (count : ℕ) (wide : 8 ≤ size)
      (some_blocks : 0 < count) (fits : size * count + page_header_size < int_limit) where
    abbrev ptr_of : ℕ
    ptr_of = malloc m.regions (size * count + page_header_size)

    fill_page-with_page :
        (ptr : ℕ)
        → fill_page size count ptr (with_page count ptr m)
          ≡ some (
            ptr + size * count,
            record (with_page count ptr m) { word = page_word count ptr (with_page count ptr m) },
          )
    unfolding fill_page allocate
    fill_page-with_page ptr =
        let h = ptr + size * count in
        let r : Region = record { base = ptr; size = size * count + page_header_size } in
        let seen = λ (a : ℕ) (lo : ptr ≤ a) (hi : a + 8 ≤ ptr + (size * count + page_header_size)).
          Has-accessible r (r ∷ m.regions) a (inl refl) lo hi in
        let w = (with_page count ptr m).word in
        let last : size * (count - 1) + size ≤ size * count = last_block count some_blocks in
        rw (store_lem (with_page count ptr m) h ptr (seen h (omega arith) (omega arith))) (
          rw
            (store_lem (record { regions = r ∷ m.regions; word = put w h ptr }) (h + end_offset) h
              (seen _ (omega arith) (omega arith)))
            (rw
              (store_lem
                (record { regions = r ∷ m.regions; word = put (put w h ptr) (h + end_offset) h })
                (h + next_offset) 0 (seen _ (omega arith) (omega arith)))
              (link_page-chained h (count - 1) ptr
                (record {
                  regions = r ∷ m.regions;
                  word = put (put (put w h ptr) (h + end_offset) h) (h + next_offset) 0;
                })
                (λ a lo hi. seen a lo (omega (arith, last))))))

    pub malloc_mem_page-null : ptr_of ≡ 0 → malloc_mem_page malloc size count m ≡ some (0, m)
    unfolding malloc_mem_page
    malloc_mem_page-null e =
        let small : leb int_limit (size * count) ≡ false = ground arith in
        rw (small, size_of_int_small (size * count + page_header_size) fits, e) refl

    pub malloc_mem_page-fills :
        ptr_of ≢ 0
        → malloc_mem_page malloc size count m
          ≡ some (
            ptr_of + size * count,
            record (with_page count ptr_of m) {
              word = page_word count ptr_of (with_page count ptr_of m);
            },
          )
    unfolding malloc_mem_page
    malloc_mem_page-fills ne =
        let small : leb int_limit (size * count) ≡ false = ground arith in
        let nz : (ptr_of == 0) ≡ false = ground (arith, ne) in
        rw (small, size_of_int_small (size * count + page_header_size) fits, nz)
          (fill_page-with_page ptr_of)

  -- The words of the new page, and those that are as they were.
  module _ (m : Memory) (count ptr : ℕ) (wide : 8 ≤ size) (some_blocks : 0 < count) where
    abbrev new_word : ℕ → Option ℕ
    new_word = page_word count ptr (with_page count ptr m)

    abbrev new_header : ℕ
    new_header = ptr + size * count

    pub page_word-header :
        (new_word new_header ≡ some ptr)
        × (new_word (new_header + end_offset) ≡ some new_header)
        × (new_word (new_header + next_offset) ≡ some 0)
    page_word-header =
        let w = (with_page count ptr m).word in
        let last = last_block count some_blocks in
        (
          chained_outside (count - 1) ptr new_header _ (inr (omega (arith, last)))
              ∙ put-Apart _ _ _ new_header (inr (omega arith))
              ∙ put-Apart _ _ _ new_header (inr (omega arith))
              ∙ put_self w new_header ptr,
          chained_outside (count - 1) ptr (new_header + end_offset) _ (inr (omega (arith, last)))
              ∙ put-Apart _ _ _ (new_header + end_offset) (inr (omega arith))
              ∙ put_self _ (new_header + end_offset) new_header,
          chained_outside (count - 1) ptr (new_header + next_offset) _ (inr (omega (arith, last)))
              ∙ put_self _ (new_header + next_offset) 0,
        )

    pub page_word_outside :
        (a : ℕ)
        → (a + 8 ≤ ptr) ⊎ (ptr + (size * count + page_header_size) ≤ a)
        → new_word a ≡ m.word a
    page_word_outside a o =
        let last = last_block count some_blocks in
        chained_outside (count - 1) ptr a _ (omega (arith, last, o))
        ∙ put-Apart _ (new_header + next_offset) _ a (omega (arith, o))
        ∙ put-Apart _ (new_header + end_offset) _ a (omega (arith, o))
        ∙ put-Apart _ new_header _ a (omega (arith, o))
        ∙ allocate-word m ptr (size * count + page_header_size) a (omega (arith, o))

    pub page_word-FreeChain : FreeChain new_word (blocks ptr count)
    page_word-FreeChain =
        let e : suc (count - 1) ≡ count = omega arith in
        subst (λ n. FreeChain new_word (blocks ptr n)) e
          (chained-FreeChain (count - 1) ptr
            (put
              (put (put (with_page count ptr m).word new_header ptr) (new_header + end_offset)
                new_header)
              (new_header + next_offset) 0)
            wide)
