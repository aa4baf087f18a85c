-- ===== src/Eal/Supply/Amounts.antt =====
-- The pages of a node, and what one round of the loop over the page sizes touches.
use linux.Common.{
  ℕ, ◌+◌, ◌-◌, ◌*◌, ◌%◌, ◌≤◌, ◌<◌, ◌≡◌, refl, ◌≢◌, ◌∙◌, sym, List, [], ◌∷◌, set, length, arith,
  u32_mod, get_or-set_ne, length-set,
}
use linux.Eal.Supply.{HugepageInfo, Tally, pages_on, remaining_mem, u64_mod, mul64, add64}

-- The memory of all pages on a node, and the memory and the number of those taken.
abbrev pub memory_on : ℕ → List HugepageInfo → ℕ
memory_on socket [] = 0
memory_on socket (h ∷ hs) = h.hugepage_sz * pages_on socket h + memory_on socket hs

abbrev pub count_on : ℕ → List HugepageInfo → ℕ
count_on socket [] = 0
count_on socket (h ∷ hs) = pages_on socket h + count_on socket hs

-- `hp_used` has an entry for each size, with that size, and nothing yet on the node.
abbrev pub IsFresh : ℕ → List HugepageInfo → List HugepageInfo → Type 0
IsFresh socket [] [] = Unit
IsFresh socket [] (u ∷ us) = ⊥
IsFresh socket (h ∷ hs) [] = ⊥
IsFresh socket (h ∷ hs) (u ∷ us) =
    (u.hugepage_sz ≡ h.hugepage_sz)
    × (0 < h.hugepage_sz)
    × (socket < length u.num_pages)
    × (pages_on socket u ≡ 0)
    × IsFresh socket hs us

-- No more pages are taken than there are.
abbrev pub IsWithin : ℕ → List HugepageInfo → List HugepageInfo → Type 0
IsWithin socket [] us = Unit
IsWithin socket (h ∷ hs) [] = ⊥
IsWithin socket (h ∷ hs) (u ∷ us) = (pages_on socket u ≤ pages_on socket h) × IsWithin socket hs us

-- The entries for a node are as they were.
abbrev pub IsKept : ℕ → List HugepageInfo → List HugepageInfo → Type 0
IsKept socket [] [] = Unit
IsKept socket [] (v ∷ vs) = ⊥
IsKept socket (u ∷ us) [] = ⊥
IsKept socket (u ∷ us) (v ∷ vs) =
    (v.hugepage_sz ≡ u.hugepage_sz)
    × (length v.num_pages ≡ length u.num_pages)
    × (pages_on socket v ≡ pages_on socket u)
    × IsKept socket us vs

pub IsKept-refl : (socket : ℕ) (us : List HugepageInfo) → IsKept socket us us
IsKept-refl socket [] = tt
IsKept-refl socket (u ∷ us) = (refl, refl, refl, IsKept-refl socket us)

-- What the loop leaves: the node's amount is met as far as its pages go, and the rest is counted.
pub record IsFilled (socket : ℕ) (hs us : List HugepageInfo) (t : Tally) (us' : List HugepageInfo)
    (t' : Tally) : Type 0 where
  pub left : t'.memory ≡ t.memory - memory_on socket hs
  pub spent : t'.total_mem + (t.memory - t'.memory) ≡ t.total_mem
  pub within : IsWithin socket hs us'
  pub met : t.memory ≤ t'.memory + memory_on socket us'
  pub counted : t'.total_num_pages ≡ (t.total_num_pages + count_on socket us') % u32_mod
  pub others : (s : ℕ) → s ≢ socket → IsKept s us us'

pub remaining_mem-memory_on :
    (socket : ℕ) (hs : List HugepageInfo) (acc : ℕ)
    → acc + memory_on socket hs < u64_mod
    → remaining_mem socket hs acc ≡ acc + memory_on socket hs
unfolding remaining_mem
remaining_mem-memory_on socket [] acc lt = omega arith
remaining_mem-memory_on socket (h ∷ hs) acc lt =
    let e : add64 acc (mul64 h.hugepage_sz (pages_on socket h))
        ≡ acc + h.hugepage_sz * pages_on socket h =
      omega arith in
    rw e (
      remaining_mem-memory_on socket hs (acc + h.hugepage_sz * pages_on socket h) (omega arith)
      ∙ omega arith)

-- Nothing is taken yet.
pub IsFresh-empty :
    (socket : ℕ) (hs us : List HugepageInfo)
    → IsFresh socket hs us
    → IsWithin socket hs us × (memory_on socket us ≡ 0) × (count_on socket us ≡ 0)
IsFresh-empty socket [] [] f = (tt, refl, refl)
IsFresh-empty socket [] (u ∷ us) f = absurd f
IsFresh-empty socket (h ∷ hs) [] f = absurd f
IsFresh-empty socket (h ∷ hs) (u ∷ us) f =
    let r = IsFresh-empty socket hs us f.4 in
    ((omega (arith, f.3), r.0), (rw f.3 (omega (arith, r.1))), omega (arith, f.3, r.2))

-- The entry for a size with `n` pages on the node.
abbrev pub with_pages : ℕ → ℕ → HugepageInfo → HugepageInfo → HugepageInfo
with_pages socket n h u = record u { hugedir = h.hugedir; num_pages = set u.num_pages socket n }

pub IsKept-with_pages :
    (socket n s : ℕ) (h u : HugepageInfo) (us vs : List HugepageInfo)
    → s ≢ socket
    → IsKept s us vs
    → IsKept s (u ∷ us) (with_pages socket n h u ∷ vs)
IsKept-with_pages socket n s h u us vs ne k = (
  refl,
  length-set u.num_pages socket n,
  get_or-set_ne u.num_pages socket s n 0 (λ e. ne (sym e)),
  k,
)
