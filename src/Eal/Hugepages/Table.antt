-- ===== src/Eal/Hugepages/Table.antt =====
-- What `hugepage_info_init` leaves: a table that fits its array, whatever the system holds.
use linux.Common.{
  ℕ, zero, suc, ◌+◌, ◌≤◌, ◌<◌, ◌≡◌, refl, ◌∙◌, Bool, true, false, some, List, [], ◌∷◌, ◌==◌, leb,
  length, set, get_elem?, drop, add32, arith, Bool-cases, Option-cases, inl, inr, length-set,
  get_elem?-eq-get_or,
}
use linux.Eal.Cpu.{EalConfig, socket_count, socket_id_by_idx, max_numa_nodes}
use linux.Eal.Supply.{HugepageInfo}
use linux.Eal.Sizes.{str_to_size}
use linux.Eal.Discovery.{
  System, max_hugepage_sizes, starts_with, dirent_start_text, get_num_hugepages,
  get_num_hugepages_on_node, clear_hugedir,
}
use linux.Eal.Discovery.Mounts.{IsReadable, get_hugepage_dir-returns}
use linux.Eal.Hugepages.{
  Discovered, count_on_nodes, count_pages, Round, leave, go_on, take_size, init_round, init_loop,
}

-- Each entry has a count for every node.
abbrev pub CountAll : List HugepageInfo → Type 0
CountAll [] = Unit
CountAll (h ∷ hs) = (length h.num_pages ≡ max_numa_nodes) × CountAll hs

CountAll-set :
    (info : List HugepageInfo) (i : ℕ) (h : HugepageInfo)
    → CountAll info
    → length h.num_pages ≡ max_numa_nodes
    → CountAll (set info i h)
CountAll-set [] i h a l = tt
CountAll-set (u ∷ us) zero h a l = (l, a.1)
CountAll-set (u ∷ us) (suc i) h a l = (a.0, CountAll-set us i h a.1 l)

CountAll-entry :
    (info : List HugepageInfo) (i : ℕ)
    → CountAll info
    → i < length info
    → (h : HugepageInfo) × (get_elem? info i ≡ some h) × (length h.num_pages ≡ max_numa_nodes)
CountAll-entry [] i a p = absurd (omega (arith, p))
CountAll-entry (u ∷ us) zero a p = (u, refl, a.0)
CountAll-entry (u ∷ us) (suc i) a p = CountAll-entry us i a.1 (omega (arith, p))

-- The nodes of the configuration are indices of `num_pages`.
abbrev pub HasNodes : EalConfig → Type 0
HasNodes cfg =
    (i : ℕ)
    → i < socket_count cfg
    → (s : ℕ) × (socket_id_by_idx cfg i ≡ some s) × (s < max_numa_nodes)

-- What the loop keeps.
pub record IsDiscovered (d : Discovered) : Type 0 where
  pub table : length d.info ≡ max_hugepage_sizes
  pub counts : CountAll d.info
  pub few : d.num_sizes ≤ max_hugepage_sizes

abbrev pub EndsWell : Round → Type 0
EndsWell (leave d) = IsDiscovered d
EndsWell (go_on d) = IsDiscovered d

module _ (sys : System) (cfg : EalConfig) (nodes : HasNodes cfg) where
  count_on_nodes-returns :
      (subdir : List ℕ) (left i : ℕ) (num_pages : List ℕ) (total : ℕ)
      → i + left ≤ socket_count cfg
      → length num_pages ≡ max_numa_nodes
      → (r : List ℕ × ℕ) × (count_on_nodes sys cfg subdir left i num_pages total ≡ some r)
        × (length r.0 ≡ max_numa_nodes)
  unfolding count_on_nodes
  count_on_nodes-returns subdir zero i num_pages total le l = ((num_pages, total), refl, l)
  count_on_nodes-returns subdir (suc left) i num_pages total le l =
      let (s, e, below) = nodes i (omega (arith, le)) in
      let n = get_num_hugepages_on_node sys subdir s in
      let old = get_elem?-eq-get_or num_pages s 0 (omega (arith, below, l)) in
      let rest =
        count_on_nodes-returns subdir left (i + 1) (set num_pages s n) (add32 total n)
          (omega (arith, le)) (length-set num_pages s n ∙ l) in
      (rest.0, rw (e, old) rest.1, rest.2)

  count_pages-returns :
      (subdir : List ℕ) (hpi : HugepageInfo)
      → length hpi.num_pages ≡ max_numa_nodes
      → (h : HugepageInfo) × (count_pages sys cfg subdir hpi ≡ some h)
        × (length h.num_pages ≡ max_numa_nodes)
  unfolding count_pages
  count_pages-returns subdir hpi l =
      let (r, e, lr) =
        count_on_nodes-returns subdir (socket_count cfg) 0 hpi.num_pages 0 (omega arith) l in
      elim (Bool-cases (r.1 == 0)) [
        | inl z ↦ (
          record hpi {
            numa_node_count = socket_count cfg;
            num_pages = set r.0 0 (get_num_hugepages sys subdir);
          },
          rw (e, z) refl,
          length-set r.0 0 (get_num_hugepages sys subdir) ∙ lr,
        )
        | inr z ↦
            (record hpi { numa_node_count = socket_count cfg; num_pages = r.0 }, rw (e, z) refl, lr)
      ]

  -- An entry of the table changes.
  stored-IsDiscovered :
      (d : Discovered) (h : HugepageInfo) (n size : ℕ)
      → IsDiscovered d
      → length h.num_pages ≡ max_numa_nodes
      → n ≤ max_hugepage_sizes
      → IsDiscovered
          (record { info = set d.info d.num_sizes h; num_sizes = n; default_size = size })
  stored-IsDiscovered d h n size v l le = record {
    table = length-set d.info d.num_sizes h ∙ v.table;
    counts = CountAll-set d.info d.num_sizes h v.counts l;
    few = le;
  }

  take_size-returns :
      (subdir hugedir : List ℕ) (hpi : HugepageInfo) (d : Discovered)
      → IsDiscovered d
      → length hpi.num_pages ≡ max_numa_nodes
      → d.num_sizes < max_hugepage_sizes
      → (r : Round) × (take_size sys cfg subdir hugedir hpi d ≡ some r) × EndsWell r
  unfolding take_size
  take_size-returns subdir hugedir hpi d v l lt =
      let locked : HugepageInfo = record hpi {
        hugedir = hugedir;
        lock_descriptor = sys.hugedir_descriptor hugedir;
      } in
      let (h, e, lh) = count_pages-returns subdir locked l in
      let early = stored-IsDiscovered d locked d.num_sizes d.default_size v l v.few in
      let late =
        stored-IsDiscovered d h (d.num_sizes + 1) d.default_size v lh (omega (arith, lt)) in
      elim (Bool-cases (sys.hugedir_locks hugedir)) [
        | inr f ↦ (leave _, rw f refl, early)
        | inl t ↦ elim (Option-cases (clear_hugedir sys hugedir)) [
          | inl c ↦ (leave _, ground (arith, t, c), early)
          | inr (removed, c) ↦ (go_on _, ground (arith, t, c, e), late)
        ]
      ]

module _ (sys : System) (cfg : EalConfig) (nodes : HasNodes cfg) (readable : IsReadable sys) where
  init_round-returns :
      (subdir : List ℕ) (d : Discovered)
      → IsDiscovered d
      → (r : Round) × (init_round sys cfg subdir d ≡ some r) × EndsWell r
  unfolding init_round
  init_round-returns subdir d v = elim (Bool-cases (starts_with dirent_start_text subdir)) [
    | inr other ↦ (go_on d, rw other refl, v)
    | inl named ↦ elim (Bool-cases (leb max_hugepage_sizes d.num_sizes)) [
      | inl full ↦ (leave d, rw (named, full) refl, v)
      | inr more ↦
          let lt : d.num_sizes < max_hugepage_sizes = ground (arith, more) in
          let (old, e, l) =
            CountAll-entry d.info d.num_sizes v.counts (omega (arith, lt, v.table)) in
          let size = str_to_size (drop 10 subdir) in
          let hpi : HugepageInfo = record old { hugepage_sz = size } in
          let (dir, ds, g) = get_hugepage_dir-returns sys size d.default_size readable in
          let d1 : Discovered = record d { info = set d.info d.num_sizes hpi; default_size = ds } in
          let v1 = stored-IsDiscovered sys cfg nodes d hpi d.num_sizes ds v l v.few in
          elim (Option-cases dir) [
            | inl n ↦ (go_on d1, rw (named, more, e, g, n) refl, v1)
            | inr (hugedir, s) ↦
                let t = take_size-returns sys cfg nodes subdir hugedir hpi d1 v1 l lt in
                (t.0, rw (named, more, e, g, s) t.1, t.2)
          ]
    ]
  ]

  pub init_loop-returns :
      (names : List (List ℕ)) (d : Discovered)
      → IsDiscovered d
      → (r : Bool × Discovered) × (init_loop sys cfg names d ≡ some r) × IsDiscovered r.1
  unfolding init_loop
  init_loop-returns [] d v = ((true, d), refl, v)
  init_loop-returns (name ∷ names) d v =
      let (r, e, w) = init_round-returns name d v in
      go (λ d' w'. init_loop-returns names d' w') r e w
    where
      go :
          ((d' : Discovered)
            → IsDiscovered d'
            → (q : Bool × Discovered) × (init_loop sys cfg names d' ≡ some q) × IsDiscovered q.1)
          → (r : Round) → init_round sys cfg name d ≡ some r
          → EndsWell r
          → (q : Bool × Discovered) × (init_loop sys cfg (name ∷ names) d ≡ some q)
            × IsDiscovered q.1
      go later (leave d') e w = ((false, d'), ground (arith, e), w)
      go later (go_on d') e w = let rest = later d' w in (rest.0, ground (arith, e, rest.1), rest.2)
