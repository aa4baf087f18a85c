-- ===== src/Eal/Mapping/Taken.antt =====
-- The calculated pages are all taken, each from its node, and marked.
use linux.Common.{
  ℕ, zero, suc, ◌+◌, ◌≡◌, Bool, true, false, ◌||◌, List, [], ◌∷◌, ◌++◌, ◌==◌, if◌then◌else◌,
}
use linux.Eal.Cpu.{max_numa_nodes}
use linux.Eal.Supply.{HugepageInfo, pages_on}
use linux.Eal.Mapping.{SegmentFlags}

-- Whether an address is among some segments.
abbrev pub among : List ℕ → ℕ → Bool
among [] p = false
among (ms ∷ segments) p = p == ms || among segments p

-- What an allocator with the answers `answer` gives for the pages of a size on `left` nodes from `socket`
-- on, each node asked for its number of pages of that size, and for all sizes.
module _ (answer : (num_pages size socket_id : ℕ) → List ℕ) where
  abbrev pub node_segments : HugepageInfo → (left socket : ℕ) → List ℕ
  node_segments h zero socket = []
  node_segments h (suc left) socket =
      (if pages_on socket h == 0 then [] else answer (pages_on socket h) h.hugepage_sz socket)
      ++ node_segments h left (socket + 1)

  abbrev pub all_segments : List HugepageInfo → List ℕ
  all_segments [] = []
  all_segments (h ∷ hs) = node_segments h max_numa_nodes 0 ++ all_segments hs

-- That the loops succeed, and whether they leave the segment at `p` marked.
abbrev Took : Bool × SegmentFlags → List ℕ → SegmentFlags → ℕ → Type 0
Took r segments flags p = (r.0 ≡ true) × (r.1 p ≡ (among segments p || flags p))
