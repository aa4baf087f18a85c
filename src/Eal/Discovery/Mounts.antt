-- ===== src/Eal/Discovery/Mounts.antt =====
-- The search for a mounted directory comes to an end, without a read outside its buffer.
use linux.Common.{
  ℕ, zero, suc, ◌+◌, ◌≤◌, ◌≡◌, refl, ◌≢◌, ◌∙◌, Bool, true, false, ◌||◌, Option, none, some, List,
  [], ◌∷◌, ◌++◌, ◌==◌, leb, length, set, get_or, if◌then◌else◌, arith, Bool-cases, inl, inr, ◌⊎◌,
  length-set, get_elem?-eq-get_or,
}
use linux.Split.Scan.{break, next, rte_round, rte_loop, rte_strsplit}
use linux.Split.Every.{round_next, round_break}
use linux.Eal.Discovery.{
  System, bufsiz, find_default_size, get_default_hp_size, MountScan, stop, found, next_mount,
  copy_dir, examine_mount, find_mount, get_hugepage_dir,
}

rte_round-length :
    (max delim i c : ℕ) (string tokens : List ℕ) (tokstart : Bool)
    → (rte_round max delim i c string tokens tokstart ≡ break)
      ⊎ ((s : List ℕ) × (t : List ℕ) × (b : Bool) × (rte_round max delim i c string tokens tokstart
            ≡ next s t b)
          × (length s ≡ length string))
unfolding rte_round
rte_round-length max delim i c string tokens tokstart =
    let t' : List ℕ = if tokstart then tokens ++ (i ∷ []) else tokens in
    elim (Bool-cases (c == 0 || leb max (length tokens))) [
      | inl e ↦ inl (rw e refl)
      | inr e ↦ elim (Bool-cases (c == delim)) [
        | inl d ↦ inr (set string i 0, t', true, rw (e, d) refl, length-set string i 0)
        | inr d ↦ inr (string, t', false, rw (e, d) refl, refl)
      ]
    ]

-- The loop of `rte_strsplit` reads no byte behind the memory.
rte_loop-returns :
    (max delim left i : ℕ) (string tokens : List ℕ) (tokstart : Bool)
    → i + left ≤ length string
    → (r : List ℕ × List ℕ) × (rte_loop max delim left i string tokens tokstart ≡ some r)
unfolding rte_loop
rte_loop-returns max delim zero i string tokens tokstart room = ((string, tokens), refl)
rte_loop-returns max delim (suc left) i string tokens tokstart room =
    let c = get_or string i 0 in
    let read = get_elem?-eq-get_or string i 0 (omega (arith, room)) in
    elim (rte_round-length max delim i c string tokens tokstart) [
      | inl e ↦ ((string, tokens), round_break delim max left i c string tokens tokstart read e)
      | inr (s, t, b, e, l) ↦
          let rest = rte_loop-returns max delim left (i + 1) s t b (omega (arith, room, l)) in
          (rest.0, round_next delim max left i c string tokens s t tokstart b read e ∙ rest.1)
    ]

-- Each buffer is as long as `char buf[BUFSIZ]`.
abbrev pub AreBuffers : List (List ℕ) → Type 0
AreBuffers [] = Unit
AreBuffers (b ∷ bs) = (bufsiz ≤ length b) × AreBuffers bs

MountScan-cases :
    (s : MountScan) → (s ≡ stop) ⊎ (((dir : List ℕ) × (s ≡ found dir)) ⊎ (s ≡ next_mount))
MountScan-cases stop = inl refl
MountScan-cases (found dir) = inr (inl (dir, refl))
MountScan-cases next_mount = inr (inr refl)

find_mount-returns :
    (hugepage_sz default_size : ℕ) (bufs : List (List ℕ))
    → AreBuffers bufs
    → (r : Option (List ℕ)) × (find_mount hugepage_sz default_size bufs ≡ some r)
unfolding find_mount rte_strsplit
find_mount-returns hugepage_sz default_size [] a = (none, refl)
find_mount-returns hugepage_sz default_size (b ∷ bufs) a =
    let split = rte_loop-returns 4 b' ' bufsiz 0 b [] true a.0 in
    let later = find_mount-returns hugepage_sz default_size bufs a.1 in
    elim (MountScan-cases (examine_mount hugepage_sz default_size split.0.0 split.0.1)) [
      | inl e ↦ (none, ground (arith, split.1, e))
      | inr (inl (dir, e)) ↦ (some dir, ground (arith, split.1, e))
      | inr (inr e) ↦ (later.0, ground (arith, split.1, e, later.1))
    ]

-- /proc/meminfo names a default size, and /proc/mounts can be read.
pub record IsReadable (sys : System) : Type 0 where
  pub lines : List (List ℕ)
  pub has_meminfo : sys.meminfo ≡ some lines
  pub has_default : find_default_size lines ≢ 0
  pub bufs : List (List ℕ)
  pub has_mounts : sys.mounts ≡ some bufs
  pub are_buffers : AreBuffers bufs

get_default_hp_size-returns :
    (sys : System) → IsReadable sys → (size : ℕ) × (get_default_hp_size sys ≡ some size)
unfolding get_default_hp_size
get_default_hp_size-returns sys s =
    let no : (find_default_size s.lines == 0) ≡ false = ground (arith, s.has_default) in
    (find_default_size s.lines, rw (s.has_meminfo, no) refl)

get_hugepage_dir-found :
    (sys : System) (hugepage_sz default_size size : ℕ) (bufs : List (List ℕ)) (r : Option (List ℕ))
    → sys.mounts ≡ some bufs
    → (if default_size == 0 then get_default_hp_size sys else some default_size) ≡ some size
    → find_mount hugepage_sz size bufs ≡ some r
    → get_hugepage_dir sys hugepage_sz default_size ≡ some (copy_dir r, size)
unfolding get_hugepage_dir
get_hugepage_dir-found sys hugepage_sz default_size size bufs r m s f = ground (arith, m, s, f)

pub get_hugepage_dir-returns :
    (sys : System) (hugepage_sz default_size : ℕ)
    → IsReadable sys
    → (dir : Option (List ℕ)) × (size : ℕ) × (get_hugepage_dir sys hugepage_sz default_size
        ≡ some (dir, size))
get_hugepage_dir-returns sys hugepage_sz default_size s =
    let go : (size : ℕ)
        → (if default_size == 0 then get_default_hp_size sys else some default_size) ≡ some size
        → (dir : Option (List ℕ)) × (size : ℕ) × (get_hugepage_dir sys hugepage_sz default_size
            ≡ some (dir, size)) =
      λ size e.
        let dir = find_mount-returns hugepage_sz size s.bufs s.are_buffers in
        (
          copy_dir dir.0,
          size,
          get_hugepage_dir-found sys hugepage_sz default_size size s.bufs dir.0 s.has_mounts e
              dir.1,
        ) in
    let default = get_default_hp_size-returns sys s in
    elim (Bool-cases (default_size == 0)) [
      | inl e ↦ go default.0 (rw e default.1)
      | inr e ↦ go default_size (rw e refl)
    ]
