-- ===== src/Eal/Supply/Kept.antt =====
-- What is asked of the nodes and taken from them, and that one node's pages do not touch another's.
use linux.Common.{ℕ, zero, suc, ◌+◌, ◌*◌, ◌≤◌, ◌<◌, ◌≡◌, refl, ap₂, ◌∙◌, List, [], ◌∷◌, arith}
use linux.Eal.Supply.{HugepageInfo, u64_mod}
use linux.Eal.Supply.Amounts.{memory_on, count_on, IsFresh, IsWithin, IsKept, IsFresh-empty}

-- What is asked of the nodes from `socket` on.
abbrev pub need_from : (ℕ → ℕ) → (left socket : ℕ) → ℕ
need_from need zero socket = 0
need_from need (suc left) socket = need socket + need_from need left (socket + 1)

-- The nodes have enough pages, their pages can be added up, and nothing is taken yet.
abbrev pub HasEnough : List HugepageInfo → (ℕ → ℕ) → (left socket : ℕ) → Type 0
HasEnough info need zero socket = Unit
HasEnough info need (suc left) socket =
    (need socket ≤ memory_on socket info) × HasEnough info need left (socket + 1)

abbrev pub HasRoom : List HugepageInfo → (left socket : ℕ) → Type 0
HasRoom info zero socket = Unit
HasRoom info (suc left) socket = (memory_on socket info < u64_mod) × HasRoom info left (socket + 1)

abbrev pub AllFresh : (info used : List HugepageInfo) → (left socket : ℕ) → Type 0
AllFresh info used zero socket = Unit
AllFresh info used (suc left) socket =
    IsFresh socket info used × AllFresh info used left (socket + 1)

-- Each node gives what is asked of it, from pages that it has.
abbrev pub IsSupplied : (info used : List HugepageInfo) → (ℕ → ℕ) → (left socket : ℕ) → Type 0
IsSupplied info used need zero socket = Unit
IsSupplied info used need (suc left) socket =
    IsWithin socket info used
    × (need socket ≤ memory_on socket used)
    × IsSupplied info used need left (socket + 1)

-- The pages taken on the nodes.
abbrev pub pages_from : List HugepageInfo → (left socket : ℕ) → ℕ
pages_from used zero socket = 0
pages_from used (suc left) socket = count_on socket used + pages_from used left (socket + 1)

pub kept_IsFresh :
    (s : ℕ) (hs us vs : List HugepageInfo) → IsKept s us vs → IsFresh s hs us → IsFresh s hs vs
kept_IsFresh s [] [] [] k f = tt
kept_IsFresh s [] [] (v ∷ vs) k f = absurd k
kept_IsFresh s [] (u ∷ us) vs k f = absurd f
kept_IsFresh s (h ∷ hs) [] vs k f = absurd f
kept_IsFresh s (h ∷ hs) (u ∷ us) [] k f = absurd k
kept_IsFresh s (h ∷ hs) (u ∷ us) (v ∷ vs) k f =
    (k.0 ∙ f.0, f.1, omega (arith, k.1, f.2), k.2 ∙ f.3, kept_IsFresh s hs us vs k.3 f.4)

pub kept_IsWithin :
    (s : ℕ) (hs us vs : List HugepageInfo) → IsKept s us vs → IsWithin s hs us → IsWithin s hs vs
kept_IsWithin s [] us vs k w = tt
kept_IsWithin s (h ∷ hs) [] vs k w = absurd w
kept_IsWithin s (h ∷ hs) (u ∷ us) [] k w = absurd k
kept_IsWithin s (h ∷ hs) (u ∷ us) (v ∷ vs) k w =
    (omega (arith, k.2, w.0), kept_IsWithin s hs us vs k.3 w.1)

pub kept_sums :
    (s : ℕ) (us vs : List HugepageInfo)
    → IsKept s us vs
    → (memory_on s vs ≡ memory_on s us) × (count_on s vs ≡ count_on s us)
kept_sums s [] [] k = (refl, refl)
kept_sums s [] (v ∷ vs) k = absurd k
kept_sums s (u ∷ us) [] k = absurd k
kept_sums s (u ∷ us) (v ∷ vs) k =
    let r = kept_sums s us vs k.3 in (ap₂ ◌+◌ (ap₂ ◌*◌ k.0 k.2) r.0, ap₂ ◌+◌ k.2 r.1)

pub IsKept-trans :
    (s : ℕ) (us vs ws : List HugepageInfo) → IsKept s us vs → IsKept s vs ws → IsKept s us ws
IsKept-trans s [] [] ws k l = l
IsKept-trans s [] (v ∷ vs) ws k l = absurd k
IsKept-trans s (u ∷ us) [] ws k l = absurd k
IsKept-trans s (u ∷ us) (v ∷ vs) [] k l = absurd l
IsKept-trans s (u ∷ us) (v ∷ vs) (w ∷ ws) k l =
    (l.0 ∙ k.0, l.1 ∙ k.1, l.2 ∙ k.2, IsKept-trans s us vs ws k.3 l.3)

pub kept_AllFresh :
    (info us vs : List HugepageInfo) (left socket : ℕ)
    → ((s : ℕ) → socket ≤ s → IsKept s us vs)
    → AllFresh info us left socket
    → AllFresh info vs left socket
kept_AllFresh info us vs zero socket k f = tt
kept_AllFresh info us vs (suc left) socket k f = (
  kept_IsFresh socket info us vs (k socket (omega arith)) f.0,
  kept_AllFresh info us vs left (socket + 1) (λ s le. k s (omega arith)) f.1,
)

-- Where nothing is asked, nothing need be taken.
pub nothing-IsSupplied :
    (info used : List HugepageInfo) (need : ℕ → ℕ) (left socket : ℕ)
    → AllFresh info used left socket
    → need_from need left socket ≡ 0
    → IsSupplied info used need left socket × (pages_from used left socket ≡ 0)
nothing-IsSupplied info used need zero socket f e = (tt, refl)
nothing-IsSupplied info used need (suc left) socket f e =
    let g = IsFresh-empty socket info used f.0 in
    let r = nothing-IsSupplied info used need left (socket + 1) f.1 (omega (arith, e)) in
    ((g.0, omega (arith, e), r.0), omega (arith, g.2, r.1))

pub nothing-HasEnough :
    (info : List HugepageInfo) (need : ℕ → ℕ) (left socket : ℕ)
    → need_from need left socket ≡ 0
    → HasEnough info need left socket
nothing-HasEnough info need zero socket e = tt
nothing-HasEnough info need (suc left) socket e =
    (omega (arith, e), nothing-HasEnough info need left (socket + 1) (omega (arith, e)))
