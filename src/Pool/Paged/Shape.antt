-- ===== src/Pool/Paged/Shape.antt =====
-- What a pool's memory holds: its pages, each with its blocks and its header behind them, and the
-- list of its free blocks.
use linux.Common.{
  ℕ, suc, ◌+◌, ◌*◌, ◌≤◌, ◌<◌, ◌%◌, ◌≡◌, refl, ◌≢◌, ◌⊎◌, inl, inr, true, Option, some, List, [], ◌∷◌,
  arith, length, ap, ◌∙◌, sym, subst, u32_mod,
}
use linux.Pool.Memory.{Region, Memory, Has, Disjoint, accessible, Has-accessible}
use linux.Pool.Paged.{MemPool, page_header_size, end_offset, next_offset}

pub record Page : Type 0 where
  pub base : ℕ
  pub count : ℕ

abbrev pub In : ℕ → List ℕ → Type 0
In a [] = ⊥
In a (x ∷ xs) = (a ≡ x) ⊎ In a xs

-- The first of a list of free blocks, and 0 if there is none.
abbrev pub first_block : List ℕ → ℕ
first_block [] = 0
first_block (b ∷ bs) = b

-- Each free block holds the address of the next one.
abbrev pub FreeChain : (ℕ → Option ℕ) → List ℕ → Type 0
FreeChain word [] = Unit
FreeChain word (b ∷ bs) = (word b ≡ some (first_block bs)) × FreeChain word bs

abbrev pub Distinct : List ℕ → Type 0
Distinct [] = Unit
Distinct (b ∷ bs) = ((In b bs) → ⊥) × Distinct bs

pub FreeChain-agree :
    (w w' : ℕ → Option ℕ) (bs : List ℕ)
    → ((a : ℕ) → In a bs → w' a ≡ w a)
    → FreeChain w bs
    → FreeChain w' bs
FreeChain-agree w w' [] h c = tt
FreeChain-agree w w' (b ∷ bs) h c =
    (h b (inl refl) ∙ c.0, FreeChain-agree w w' bs (λ a i. h a (inr i)) c.1)

-- The blocks of all pages.
abbrev pub count_blocks : List Page → ℕ
count_blocks [] = 0
count_blocks (p ∷ ps) = p.count + count_blocks ps

lt_cases : (i j : ℕ) → (i < j) ⊎ ((i ≡ j) ⊎ (j < i))
lt_cases i j = grind arith

module _ (size : ℕ) where
  -- A page of blocks of `size` bytes: where its header stands, and the memory it takes.
  abbrev pub header : Page → ℕ
  header p = p.base + size * p.count

  abbrev pub region : Page → Region
  region p = record { base = p.base; size = size * p.count + page_header_size }

  abbrev pub first_page : List Page → ℕ
  first_page [] = 0
  first_page (p ∷ ps) = header p

  -- Each page's header holds its ends and the next page.
  abbrev pub PageChain : (ℕ → Option ℕ) → List Page → Type 0
  PageChain word [] = Unit
  PageChain word (p ∷ ps) =
      (word (header p) ≡ some p.base)
      × (word (header p + end_offset) ≡ some (header p))
      × (word (header p + next_offset) ≡ some (first_page ps))
      × PageChain word ps

  abbrev pub header_words : List Page → List ℕ
  header_words [] = []
  header_words (p ∷ ps) =
      header p ∷ (header p + end_offset) ∷ (header p + next_offset) ∷ header_words ps

  pub PageChain-agree :
      (w w' : ℕ → Option ℕ) (ps : List Page)
      → ((a : ℕ) → In a (header_words ps) → w' a ≡ w a)
      → PageChain w ps
      → PageChain w' ps
  PageChain-agree w w' [] h c = tt
  PageChain-agree w w' (p ∷ ps) h c = (
    h _ (inl refl) ∙ c.0,
    h _ (inr (inl refl)) ∙ c.1,
    h _ (inr (inr (inl refl))) ∙ c.2,
    PageChain-agree w w' ps (λ a i. h a (inr (inr (inr i)))) c.3,
  )

  -- `a` is a block of the page, or of one of the pages.
  abbrev pub InPage : Page → ℕ → Type 0
  InPage p a = (i : ℕ) × (i < p.count) × (a ≡ p.base + size * i)

  abbrev pub IsBlock : List Page → ℕ → Type 0
  IsBlock [] a = ⊥
  IsBlock (p ∷ ps) a = InPage p a ⊎ IsBlock ps a

  -- Two blocks do not overlap, and a word does not overlap a block.
  abbrev pub BlocksApart : ℕ → ℕ → Type 0
  BlocksApart a b = (a + size ≤ b) ⊎ (b + size ≤ a)

  abbrev pub OutOf : ℕ → ℕ → Type 0
  OutOf b a = (a + 8 ≤ b) ⊎ (b + size ≤ a)

  abbrev pub AllBlocks : List Page → List ℕ → Type 0
  AllBlocks ps [] = Unit
  AllBlocks ps (b ∷ bs) = IsBlock ps b × AllBlocks ps bs

  pub In-IsBlock : (ps : List Page) (bs : List ℕ) (a : ℕ) → In a bs → AllBlocks ps bs → IsBlock ps a
  In-IsBlock ps [] a i h = absurd i
  In-IsBlock ps (x ∷ xs) a (inl e) h = subst (λ y. IsBlock ps y) (sym e) h.0
  In-IsBlock ps (x ∷ xs) a (inr i) h = In-IsBlock ps xs a i h.1

  -- A word in the memory of one of the pages.
  abbrev pub Within : List Page → ℕ → Type 0
  Within [] a = ⊥
  Within (p ∷ ps) a =
      ((p.base ≤ a) × (a + 8 ≤ p.base + (size * p.count + page_header_size))) ⊎ Within ps a

  -- The pages are allocated, not at NULL, and do not overlap.
  abbrev pub DisjointFrom : Page → List Page → Type 0
  DisjointFrom p [] = Unit
  DisjointFrom p (q ∷ qs) = Disjoint (region p) (region q) × DisjointFrom p qs

  abbrev pub ArePages : List Region → List Page → Type 0
  ArePages rs [] = Unit
  ArePages rs (p ∷ ps) = (0 < p.base) × Has (region p) rs × DisjointFrom p ps × ArePages rs ps

  -- What a block's index says of its place.
  pub InPage-range :
      (p : Page) (a : ℕ) → InPage p a → (p.base ≤ a) × (a + size ≤ p.base + size * p.count)
  InPage-range p a (i, lt, e) =
      let m : size * suc i ≤ size * p.count = grind arith in (omega (arith, e), omega (arith, e, m))

  module _ (wide : 8 ≤ size) where
    pub IsBlock-Within : (ps : List Page) (a : ℕ) → IsBlock ps a → Within ps a
    IsBlock-Within [] a h = h
    IsBlock-Within (p ∷ ps) a (inl h) = inl (omega (arith, InPage-range p a h))
    IsBlock-Within (p ∷ ps) a (inr h) = inr (IsBlock-Within ps a h)

    pub InPage-apart : (p : Page) (a b : ℕ) → InPage p a → InPage p b → a ≢ b → BlocksApart a b
    InPage-apart p a b (i, lt, e) (j, lt', e') ne = elim (lt_cases i j) [
      | inl h ↦ inl (let m : size * suc i ≤ size * j = grind arith in omega (arith, e, e', m))
      | inr (inl h) ↦ absurd (ne (e ∙ ap (λ k. p.base + size * k) h ∙ sym e'))
      | inr (inr h) ↦ inr (let m : size * suc j ≤ size * i = grind arith in omega (arith, e, e', m))
    ]

    -- Memory of later pages lies outside a page that they do not overlap.
    pub Within-outside :
        (p : Page) (ps : List Page) (a : ℕ)
        → DisjointFrom p ps
        → Within ps a
        → (a + 8 ≤ p.base) ⊎ (p.base + (size * p.count + page_header_size) ≤ a)
    Within-outside p [] a d h = absurd h
    Within-outside p (q ∷ qs) a d (inl h) = omega (arith, d.0, h)
    Within-outside p (q ∷ qs) a d (inr h) = Within-outside p qs a d.1 h

    pub header_words-Within : (ps : List Page) (a : ℕ) → In a (header_words ps) → Within ps a
    header_words-Within [] a h = h
    header_words-Within (p ∷ ps) a (inl e) = inl (omega (arith, e))
    header_words-Within (p ∷ ps) a (inr (inl e)) = inl (omega (arith, e))
    header_words-Within (p ∷ ps) a (inr (inr (inl e))) = inl (omega (arith, e))
    header_words-Within (p ∷ ps) a (inr (inr (inr h))) = inr (header_words-Within ps a h)

    -- So do the blocks of later pages.
    pub IsBlock-outside :
        (p : Page) (ps : List Page) (a : ℕ)
        → DisjointFrom p ps
        → IsBlock ps a
        → (a + size ≤ p.base) ⊎ (p.base + (size * p.count + page_header_size) ≤ a)
    IsBlock-outside p [] a d h = absurd h
    IsBlock-outside p (q ∷ qs) a d (inl h) = omega (arith, d.0, InPage-range q a h)
    IsBlock-outside p (q ∷ qs) a d (inr h) = IsBlock-outside p qs a d.1 h

    -- Two different blocks do not overlap.
    pub IsBlock-apart :
        (rs : List Region) (ps : List Page) (a b : ℕ)
        → ArePages rs ps
        → IsBlock ps a
        → IsBlock ps b
        → a ≢ b
        → BlocksApart a b
    IsBlock-apart rs [] a b w h k ne = absurd h
    IsBlock-apart rs (p ∷ ps) a b w (inl h) (inl k) ne = InPage-apart p a b h k ne
    IsBlock-apart rs (p ∷ ps) a b w (inl h) (inr k) ne =
        omega (arith, InPage-range p a h, IsBlock-outside p ps b w.2 k)
    IsBlock-apart rs (p ∷ ps) a b w (inr h) (inl k) ne =
        omega (arith, InPage-range p b k, IsBlock-outside p ps a w.2 h)
    IsBlock-apart rs (p ∷ ps) a b w (inr h) (inr k) ne = IsBlock-apart rs ps a b w.3 h k ne

    -- A block does not overlap a header.
    pub IsBlock-header-apart :
        (rs : List Region) (ps : List Page) (a b : ℕ)
        → ArePages rs ps
        → IsBlock ps a
        → In b (header_words ps)
        → OutOf a b
    IsBlock-header-apart rs [] a b w h k = absurd h
    IsBlock-header-apart rs (p ∷ ps) a b w (inl h) (inl e) = omega (arith, InPage-range p a h, e)
    IsBlock-header-apart rs (p ∷ ps) a b w (inl h) (inr (inl e)) =
        omega (arith, InPage-range p a h, e)
    IsBlock-header-apart rs (p ∷ ps) a b w (inl h) (inr (inr (inl e))) =
        omega (arith, InPage-range p a h, e)
    IsBlock-header-apart rs (p ∷ ps) a b w (inl h) (inr (inr (inr k))) =
        omega (arith, InPage-range p a h, Within-outside p ps b w.2 (header_words-Within ps b k))
    IsBlock-header-apart rs (p ∷ ps) a b w (inr h) (inl e) =
        omega (arith, e, IsBlock-outside p ps a w.2 h)
    IsBlock-header-apart rs (p ∷ ps) a b w (inr h) (inr (inl e)) =
        omega (arith, e, IsBlock-outside p ps a w.2 h)
    IsBlock-header-apart rs (p ∷ ps) a b w (inr h) (inr (inr (inl e))) =
        omega (arith, e, IsBlock-outside p ps a w.2 h)
    IsBlock-header-apart rs (p ∷ ps) a b w (inr h) (inr (inr (inr k))) =
        IsBlock-header-apart rs ps a b w.3 h k

    pub Within-accessible :
        (rs : List Region) (ps : List Page) (a : ℕ)
        → ArePages rs ps
        → Within ps a
        → accessible rs a ≡ true
    Within-accessible rs [] a w h = absurd h
    Within-accessible rs (p ∷ ps) a w (inl h) = Has-accessible (region p) rs a w.1 h.0 h.1
    Within-accessible rs (p ∷ ps) a w (inr h) = Within-accessible rs ps a w.3 h

    pub IsBlock-nonzero :
        (rs : List Region) (ps : List Page) (a : ℕ) → ArePages rs ps → IsBlock ps a → a ≢ 0
    IsBlock-nonzero rs [] a w h = absurd h
    IsBlock-nonzero rs (p ∷ ps) a w (inl h) = omega (arith, InPage-range p a h, w.0)
    IsBlock-nonzero rs (p ∷ ps) a w (inr h) = IsBlock-nonzero rs ps a w.3 h

-- A pool whose pages are `pages`, and whose free blocks are `frees` in the order in which they will
-- be handed out.
pub record IsValid (pool : MemPool) (m : Memory) (pages : List Page) (frees : List ℕ) : Type 0 where
  pub wide : 8 ≤ pool.block_size
  pub first_page_at : pool.mm ≡ first_page pool.block_size pages
  pub first_block_at : pool.free_ptr ≡ first_block frees
  pub free_counted : pool.free_count ≡ length frees % u32_mod
  pub all_counted : pool.block_total ≡ count_blocks pages % u32_mod
  pub are_pages : ArePages pool.block_size m.regions pages
  pub page_chain : PageChain pool.block_size m.word pages
  pub free_chain : FreeChain m.word frees
  pub in_pages : AllBlocks pool.block_size pages frees
  pub distinct : Distinct frees
