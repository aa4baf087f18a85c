-- ===== src/Pool/Paged/Linked.antt =====
-- A new page in front of the pages of a pool.
use linux.Common.{
  ℕ, suc, ◌+◌, ◌-◌, ◌*◌, ◌≤◌, ◌<◌, ◌%◌, ◌≡◌, refl, ◌≢◌, inl, inr, Option, some, List, [], ◌∷◌,
  arith, ◌∙◌, sym, subst, u32_mod,
}
use linux.Pool.Memory.{Region, Memory, Apart, KeepsApart}
use linux.Pool.Paged.{MemPool, page_header_size, end_offset, next_offset}
use linux.Pool.Paged.Shape.{
  Page, first_block, FreeChain, FreeChain-agree, region, first_page, header_words-Within,
  Within-outside, PageChain, PageChain-agree, DisjointFrom, ArePages, AllBlocks, IsValid,
  count_blocks,
}
use linux.Pool.Paged.Fill.{
  blocks, length-blocks, blocks-below, blocks-Distinct, blocks-AllBlocks, page_word, with_page,
  page_word-header, page_word_outside, page_word-FreeChain,
}

module _ (malloc : List Region → ℕ → ℕ) (keeps : KeepsApart malloc) where
  -- A new page overlaps no page that is there.
  pub DisjointFrom-malloc :
      (size n count : ℕ) (rs : List Region) (ps : List Page)
      → n ≡ size * count + page_header_size
      → malloc rs n ≢ 0
      → ArePages size rs ps
      → DisjointFrom size (record { base = malloc rs n; count = count }) ps
  DisjointFrom-malloc size n count rs [] e ne w = tt
  DisjointFrom-malloc size n count rs (p ∷ ps) e ne w = (
    omega (arith, e, keeps.fresh rs n (region size p) ne w.1),
    DisjointFrom-malloc size n count rs ps e ne w.3,
  )

ArePages-more :
    (size : ℕ) (r : Region) (rs : List Region) (ps : List Page)
    → ArePages size rs ps
    → ArePages size (r ∷ rs) ps
ArePages-more size r rs [] w = tt
ArePages-more size r rs (p ∷ ps) w = (w.0, inr w.1, w.2, ArePages-more size r rs ps w.3)

-- The memory of a new page whose header names the first of the other pages.
module _ (size count ptr : ℕ) (m : Memory) (pages : List Page) (wide : 8 ≤ size)
    (some_blocks : 0 < count) (word : ℕ → Option ℕ)
    (links : word (ptr + size * count + next_offset) ≡ some (first_page size pages))
    (same : (a : ℕ)
      → Apart (ptr + size * count + next_offset) a
      → word a ≡ page_word size count ptr (with_page size count ptr m) a) where
  abbrev pub new_page : Page
  new_page = record { base = ptr; count = count }

  linked-PageChain :
      PageChain size m.word pages
      → DisjointFrom size new_page pages
      → PageChain size word (new_page ∷ pages)
  linked-PageChain chain apart =
      let h = page_word-header size m count ptr wide some_blocks in
      (
        same (ptr + size * count) (inr (omega arith)) ∙ h.0,
        same (ptr + size * count + end_offset) (inr (omega arith)) ∙ h.1,
        links,
        PageChain-agree size m.word word pages
            (λ a i.
              let o =
                Within-outside size wide new_page pages a apart
                  (header_words-Within size wide pages a i) in
              same a (omega (arith, o)) ∙ page_word_outside size m count ptr wide some_blocks a o)
            chain,
      )

  linked-FreeChain : FreeChain word (blocks size ptr count)
  linked-FreeChain =
      FreeChain-agree (page_word size count ptr (with_page size count ptr m)) word
        (blocks size ptr count)
        (λ a i. same a (inr (omega (arith, blocks-below size ptr count a i))))
        (page_word-FreeChain size m count ptr wide some_blocks)

  pub linked-IsValid :
      (pool : MemPool)
      → pool.block_size ≡ size
      → pool.mm ≡ ptr + size * count
      → pool.free_ptr ≡ ptr
      → pool.free_count ≡ count % u32_mod
      → pool.block_total ≡ (count + count_blocks pages) % u32_mod
      → 0 < ptr
      → ArePages size m.regions pages
      → PageChain size m.word pages
      → DisjointFrom size new_page pages
      → IsValid pool
          (record { regions = region size new_page ∷ m.regions; word = word })
          (new_page ∷ pages)
          (blocks size ptr count)
  linked-IsValid pool es em ef ec et pos pages_ok chain apart = record {
    wide = subst (λ s. 8 ≤ s) (sym es) wide;
    first_page_at = subst (λ s. pool.mm ≡ first_page s (new_page ∷ pages)) (sym es) em;
    first_block_at = ef ∙ first_block-blocks;
    free_counted = rw (length-blocks size ptr count) ec;
    all_counted = et;
    are_pages =
        subst (λ s. ArePages s (region size new_page ∷ m.regions) (new_page ∷ pages)) (sym es)
          (
            pos,
            inl refl,
            apart,
            ArePages-more size (region size new_page) m.regions pages pages_ok,
          );
    page_chain =
        subst (λ s. PageChain s word (new_page ∷ pages)) (sym es) (linked-PageChain chain apart);
    free_chain = linked-FreeChain;
    in_pages =
        subst (λ s. AllBlocks s (new_page ∷ pages) (blocks size ptr count)) (sym es)
          (blocks-AllBlocks size new_page pages);
    distinct = blocks-Distinct size ptr count (omega arith);
  }
    where
      first_block-blocks : ptr ≡ first_block (blocks size ptr count)
      first_block-blocks = let e : count ≡ suc (count - 1) = omega arith in rw e refl
