-- ===== src/Eal/Physical/Translate.antt =====
-- Physical addresses keep the place within a page; the tables of huge pages.
use linux.Common.{
  ℕ, zero, suc, ◌+◌, ◌*◌, ◌/◌, ◌%◌, ◌^◌, ◌≤◌, ◌<◌, ◌≡◌, refl, ◌≢◌, ap, ◌∙◌, bit_and, Bool, true,
  false, some, List, [], ◌∷◌, ◌==◌, ==_iff, Bool-cases, inl, inr, ◌⊎◌, arith, length, bit_and_low,
}
use native.Mathlib.Nat.{mod-lt, div-add-mod}
use linux.Eal.Physical.{
  Pagemap, entry, mem_virt2phy, bad_iova, pfn_mask, HugepageFile, find_physaddrs, set_physaddrs,
}

-- The frame number of an entry.
abbrev pub frame_of : ℕ → ℕ
frame_of page = page % 2 ^ 55

pfn_mask-frame_of : (page : ℕ) → bit_and page pfn_mask ≡ frame_of page
pfn_mask-frame_of page = bit_and_low 55 page

-- Where the system gives an entry for the page of `a`, with a frame that is not 0.
pub record IsMapped (map : Pagemap) (a page : ℕ) : Type 0 where
  pub pages : 0 < map.page_size
  pub opened : map.opens ≡ true
  pub sought : map.seeks ((8 * (a / map.page_size)) % 2 ^ 64) ≡ true
  pub given : map.read_at ((8 * (a / map.page_size)) % 2 ^ 64) ≡ entry page
  pub present : 0 < frame_of page
  pub in_range : (frame_of page + 1) * map.page_size ≤ 2 ^ 64

mem_virt2phy-frame :
    (map : Pagemap) (a page : ℕ)
    → IsMapped map a page
    → mem_virt2phy map true a ≡ frame_of page * map.page_size + a % map.page_size
unfolding mem_virt2phy
mem_virt2phy-frame map a page m =
    let frame : (bit_and page pfn_mask == 0) ≡ false =
      ground (arith, pfn_mask-frame_of page, m.present) in
    let low = mod-lt a m.pages in
    let fits : frame_of page * map.page_size + a % map.page_size < 2 ^ 64 =
      omega (arith, m.in_range, low) in
    rw (m.opened, m.sought, m.given, frame, pfn_mask-frame_of page) (omega (arith, fits))

IsMapped-same_page :
    (map : Pagemap) (a b page : ℕ)
    → b / map.page_size ≡ a / map.page_size
    → IsMapped map a page
    → IsMapped map b page
IsMapped-same_page map a b page e m =
    let o : (8 * (b / map.page_size)) % 2 ^ 64 ≡ (8 * (a / map.page_size)) % 2 ^ 64 =
      ap (λ k. (8 * k) % 2 ^ 64) e in
    record {
      pages = m.pages;
      opened = m.opened;
      sought = ap map.seeks o ∙ m.sought;
      given = ap map.read_at o ∙ m.given;
      present = m.present;
      in_range = m.in_range;
    }

-- Where the page of `a` has an entry with a frame below 2 ^ 64 that is not 0, and physical addresses
-- are available: `rte_mem_virt2phy` of `a` lies in that frame, and that of any `b` on the same page is
-- as far from it as `b` is from `a`.
pub mem_virt2phy-same_page :
    (map : Pagemap) (a b page : ℕ)
    → IsMapped map a page
    → b / map.page_size ≡ a / map.page_size
    → (frame_of page * map.page_size ≤ mem_virt2phy map true a)
      × (mem_virt2phy map true a < (frame_of page + 1) * map.page_size)
      × (mem_virt2phy map true b + a ≡ mem_virt2phy map true a + b)
mem_virt2phy-same_page map a b page m e =
    let p = map.page_size in
    let fa = mem_virt2phy-frame map a page m in
    let fb = mem_virt2phy-frame map b page (IsMapped-same_page map a b page e m) in
    let ra = mod-lt a m.pages in
    let da = div-add-mod a p in
    let db = div-add-mod b p in
    let same : p * (b / p) ≡ p * (a / p) = ap (λ k. p * k) e in
    (omega (arith, fa), omega (arith, fa, ra), omega (arith, fa, fb, da, db, same))

-- The first `left` entries of a table, with their physical addresses.
abbrev pub translated : Pagemap → Bool → ℕ → List HugepageFile → List HugepageFile
translated map available zero tbl = tbl
translated map available (suc left) [] = []
translated map available (suc left) (f ∷ fs) =
    record f { physaddr = mem_virt2phy map available f.orig_va } ∷ translated map available left fs

-- None of them has a bad translation.
abbrev pub AllTranslate : Pagemap → Bool → ℕ → List HugepageFile → Type 0
AllTranslate map available zero tbl = Unit
AllTranslate map available (suc left) [] = Unit
AllTranslate map available (suc left) (f ∷ fs) =
    (mem_virt2phy map available f.orig_va ≢ bad_iova) × AllTranslate map available left fs

-- On a table with at least `left` entries `find_physaddrs` returns: 0, with each of the first `left`
-- entries translated and the others as they were, where none of those translations is bad; and -1
-- where one is.
pub find_physaddrs-translated :
    (map : Pagemap) (available : Bool) (left : ℕ) (tbl : List HugepageFile)
    → left ≤ length tbl
    → (AllTranslate map available left tbl
        × (find_physaddrs map available left tbl ≡ some (true, translated map available left tbl)))
      ⊎ ((AllTranslate map available left tbl → ⊥)
          × ((tbl' : List HugepageFile) × (find_physaddrs map available left tbl
                ≡ some (false, tbl'))))
unfolding find_physaddrs
find_physaddrs-translated map available zero tbl le = inl (tt, refl)
find_physaddrs-translated map available (suc left) [] le = absurd (omega arith)
find_physaddrs-translated map available (suc left) (f ∷ fs) le =
    elim (Bool-cases (mem_virt2phy map available f.orig_va == bad_iova)) [
      | inl e ↦ inr (
        λ h. h.0 ((==_iff (mem_virt2phy map available f.orig_va) bad_iova).0 e),
        (f ∷ fs, rw e refl),
      )
      | inr e ↦
          let good : mem_virt2phy map available f.orig_va ≢ bad_iova = ground (arith, e) in
          elim (find_physaddrs-translated map available left fs (omega arith)) [
            | inl (all, q) ↦ inl ((good, all), rw (e, q) refl)
            | inr (bad, (tbl', q)) ↦ inr (
              λ h. bad h.1,
              (record f { physaddr = mem_virt2phy map available f.orig_va } ∷ tbl', rw (e, q) refl),
            )
          ]
    ]

-- The sizes of the first `left` entries.
abbrev pub size_sum : ℕ → List HugepageFile → ℕ
size_sum zero tbl = 0
size_sum (suc left) [] = 0
size_sum (suc left) (f ∷ fs) = f.size + size_sum left fs

-- Each of the first `left` entries starts at or behind `from`, and behind the end of the one before it.
abbrev pub IsLaidOut : ℕ → ℕ → List HugepageFile → Type 0
IsLaidOut zero from tbl = Unit
IsLaidOut (suc left) from [] = ⊥
IsLaidOut (suc left) from (f ∷ fs) = (from ≤ f.physaddr) × IsLaidOut left (f.physaddr + f.size) fs

-- The tables agree but for the physical addresses of the first `left` entries.
abbrev pub SameFiles : ℕ → List HugepageFile → List HugepageFile → Type 0
SameFiles zero tbl tbl' = tbl ≡ tbl'
SameFiles (suc left) [] tbl' = ⊥
SameFiles (suc left) (f ∷ fs) [] = ⊥
SameFiles (suc left) (f ∷ fs) (g ∷ gs) =
    (record f { physaddr = 0 } ≡ record g { physaddr = 0 }) × SameFiles left fs gs

-- On a table with at least `left` entries whose sizes do not go past 2 ^ 64 from `addr` on,
-- `set_physaddrs` gives the first `left` entries addresses from `addr` on, such that no two of them
-- overlap, changes nothing else of the table, and keeps the end of the last one as the next `addr`.
pub set_physaddrs-IsLaidOut :
    (left addr : ℕ) (tbl : List HugepageFile)
    → left ≤ length tbl
    → addr + size_sum left tbl < 2 ^ 64
    → (tbl' : List HugepageFile) × (set_physaddrs left addr tbl
        ≡ some (addr + size_sum left tbl, tbl'))
      × IsLaidOut left addr tbl'
      × SameFiles left tbl tbl'
unfolding set_physaddrs
set_physaddrs-IsLaidOut zero addr tbl le lt = (tbl, ap (λ n. some (n, tbl)) (omega arith), tt, refl)
set_physaddrs-IsLaidOut (suc left) addr [] le lt = absurd (omega arith)
set_physaddrs-IsLaidOut (suc left) addr (f ∷ fs) le lt =
    let e : (addr + f.size) % 2 ^ 64 ≡ addr + f.size = omega arith in
    let (tbl', q, laid, same) =
      set_physaddrs-IsLaidOut left (addr + f.size) fs (omega arith) (omega arith) in
    let q' = ap (λ a. set_physaddrs left a fs) e ∙ q in
    (
      record f { physaddr = addr } ∷ tbl',
      rw q' (ap (λ n. some (n, record f { physaddr = addr } ∷ tbl')) (omega arith)),
      (omega arith, laid),
      (refl, same),
    )
