-- ===== src/Eal/Init.antt =====
-- `eal_cpu_init` as a whole: the nodes that it stores in `numa_nodes`.
use linux.Common.{
  ℕ, zero, suc, ◌+◌, ◌≤◌, ◌<◌, ◌^◌, ◌≡◌, refl, sym, ◌≢◌, ap, ◌∙◌, Bool, true, false, List, [], ◌∷◌,
  Option, some, arith, length, get_or, set, take, get_or_ext, get_or-take, length-take, ◌==◌,
  ==_iff, ◌-◌, ltb, get_elem?, Bool-cases, inl, inr,
}
use linux.Eal.Cpu.{
  Sysfs, EalConfig, Found, cpu_socket_id, detect, collect, cpu_init, socket_count, socket_id_by_idx,
  max_lcore, max_numa_nodes,
}
use linux.Eal.Nodes.{has, AllBelow, IsSorted, Distinct, Collected, collect-Collected}
use linux.Eal.Detect.{shown_below, Seen, detect-Seen, cpu_socket_id-below}

-- What the C library says of `qsort`: the same number of elements, the same elements, in order.
pub record Sorts (qsort : List ℕ → List ℕ) : Type 0 where
  pub length-qsort : (xs : List ℕ) → length (qsort xs) ≡ length xs
  pub has-qsort : (a : ℕ) (xs : List ℕ) → has a (qsort xs) ≡ has a xs
  pub qsort-IsSorted : (xs : List ℕ) → IsSorted (qsort xs)

-- The nodes of `left` cores from `lo` on.
abbrev pub core_nodes : Sysfs → ℕ → ℕ → List ℕ
core_nodes sys lo zero = []
core_nodes sys lo (suc left) = cpu_socket_id sys lo ∷ core_nodes sys (lo + 1) left

shown_below_all :
    (sys : Sysfs) (n : ℕ) → ((i : ℕ) → i < n → sys.cpu_core_id i ≡ true) → shown_below sys n ≡ n
shown_below_all sys zero h = refl
shown_below_all sys (suc n) h =
    rw (h n (omega arith)) (ap suc (shown_below_all sys n λ i p. h i (omega arith)))

shown_below_none :
    (sys : Sysfs) (n k : ℕ)
    → k ≤ n
    → ((i : ℕ) → k ≤ i → i < n → sys.cpu_core_id i ≡ false)
    → shown_below sys n ≡ shown_below sys k
shown_below_none sys zero k le h = let e : k ≡ 0 = omega arith in rw e refl
shown_below_none sys (suc n) k le h = elim (Bool-cases (k == suc n)) [
  | inl e ↦ ap (shown_below sys) (sym ((==_iff k (suc n)).0 e))
  | inr e ↦
      let k≤n : k ≤ n = ground arith in
      rw (h n k≤n (omega arith)) (shown_below_none sys n k k≤n λ i p q. h i p (omega arith))
]

length-core_nodes : (sys : Sysfs) (left lo : ℕ) → length (core_nodes sys lo left) ≡ left
length-core_nodes sys zero lo = refl
length-core_nodes sys (suc left) lo = ap suc (length-core_nodes sys left (lo + 1))

get_or-core_nodes :
    (sys : Sysfs) (left lo i : ℕ)
    → i < left
    → get_or (core_nodes sys lo left) i 0 ≡ cpu_socket_id sys (lo + i)
get_or-core_nodes sys zero lo i p = absurd (omega arith)
get_or-core_nodes sys (suc left) lo zero p = ap (cpu_socket_id sys) (omega arith)
get_or-core_nodes sys (suc left) lo (suc i) p =
    get_or-core_nodes sys left (lo + 1) i (omega arith) ∙ ap (cpu_socket_id sys) (omega arith)

core_nodes-below : (sys : Sysfs) (left lo : ℕ) → AllBelow 8 (core_nodes sys lo left)
core_nodes-below sys zero lo = tt
core_nodes-below sys (suc left) lo =
    (cpu_socket_id-below sys lo, core_nodes-below sys left (lo + 1))

below_of_has : (n a : ℕ) (xs : List ℕ) → AllBelow n xs → has a xs ≡ true → a < n
below_of_has n a [] b h = ground arith
below_of_has n a (x ∷ xs) b h = elim (Bool-cases (a == x)) [
  | inl e ↦ omega (arith, (==_iff a x).0 e, b.0)
  | inr e ↦ below_of_has n a xs b.1 (rw e at h)
]

has_first : (x : ℕ) (xs : List ℕ) → has x (x ∷ xs) ≡ true
has_first x xs = rw ((==_iff x x).1 refl) refl

has_later : (a x : ℕ) (xs : List ℕ) → has a xs ≡ true → has a (x ∷ xs) ≡ true
has_later a x xs h = elim (Bool-cases (a == x)) [ inl e ↦ rw e refl | inr e ↦ rw e h ]

AllBelow-has : (n : ℕ) (xs : List ℕ) → ((a : ℕ) → has a xs ≡ true → a < n) → AllBelow n xs
AllBelow-has n [] h = tt
AllBelow-has n (x ∷ xs) h =
    (h x (has_first x xs), AllBelow-has n xs λ a p. h a (has_later a x xs p))

-- The state in which the first loop of `eal_cpu_init` starts.
abbrev start_of : List ℕ → EalConfig → Found
start_of garbage cfg = record { count = 0; cores = cfg.lcore_config; sockets = garbage }

-- Where the cores that sysfs shows are those below `k`, the sorted part of the local array holds
-- their nodes.
sockets_taken :
    (sys : Sysfs) (k : ℕ) (start f : Found)
    → ((i : ℕ) → i < k → sys.cpu_core_id i ≡ true)
    → k ≤ max_lcore
    → max_lcore ≡ length start.sockets
    → Seen sys max_lcore start f
    → take k f.sockets ≡ core_nodes sys 0 k
sockets_taken sys k start f h p l s =
    get_or_ext 0 (take k f.sockets) (core_nodes sys 0 k)
      (omega (arith, length-take k f.sockets, s.sockets_length, length-core_nodes sys k 0))
      λ i q.
        let i<k : i < k = omega (arith, length-take k f.sockets) in
        let e : i ≡ 0 + i = omega arith in
        get_or-take k f.sockets i 0 i<k
        ∙ s.sockets_seen i (omega arith)
        ∙ rw (h i i<k) (ap (cpu_socket_id sys) e)
        ∙ sym (get_or-core_nodes sys k 0 i i<k)

-- The arrays have their declared lengths.
pub record Declared (garbage : List ℕ) (cfg : EalConfig) : Type 0 where
  pub garbage_length : length garbage ≡ max_lcore
  pub cores_length : length cfg.lcore_config ≡ max_lcore
  pub nodes_length : length cfg.numa_nodes ≡ max_numa_nodes

-- `eal_cpu_init` returned 0 with `count` cores, and what `nodes` says of the nodes it stored.
pub record Initialised (count : ℕ) (sockets : List ℕ) (result : Option (Bool × EalConfig))
    : Type 0 where
  pub cfg : EalConfig
  pub returned : result ≡ some (true, cfg)
  pub counted : cfg.lcore_count ≡ count
  pub node_count_le : socket_count cfg ≤ max_numa_nodes
  pub distinct : Distinct sockets (take (socket_count cfg) cfg.numa_nodes)

Seen_start :
    (sys : Sysfs) (garbage : List ℕ) (cfg : EalConfig)
    → Declared garbage cfg
    → Seen sys max_lcore (start_of garbage cfg) (detect sys max_lcore 0 (start_of garbage cfg))
Seen_start sys garbage cfg d =
    detect-Seen sys 128 (start_of garbage cfg) refl (omega (arith, d.cores_length))
      (omega (arith, d.garbage_length))

-- Sorted nodes of cores are collected.
qsort-Collected :
    (qsort : List ℕ → List ℕ) (xs nodes : List ℕ)
    → Sorts qsort
    → AllBelow 8 xs
    → length nodes ≡ max_numa_nodes
    → Collected (qsort xs) (collect (qsort xs) (2 ^ 32 - 1) 0 nodes)
qsort-Collected qsort xs nodes s b l =
    collect-Collected (qsort xs) nodes l
      (AllBelow-has 8 (qsort xs) λ a h. below_of_has 8 a xs b (sym (s.has-qsort a xs) ∙ h))
      (s.qsort-IsSorted xs)

-- Where `qsort` sorts, the arrays have their declared lengths, and the cores that sysfs shows are
-- those below `k`, for a `k` from 1 to 128, `eal_cpu_init` returns 0 without a store outside
-- `numa_nodes`. It counts `k` cores, and the first `numa_node_count` entries of `numa_nodes`, at
-- most 8, are the nodes of the cores below `k`, strictly increasing.
pub cpu_init-Initialised :
    (qsort : List ℕ → List ℕ) (garbage : List ℕ) (sys : Sysfs) (cfg : EalConfig) (k : ℕ)
    → Sorts qsort
    → Declared garbage cfg
    → 0 < k
    → k ≤ max_lcore
    → ((i : ℕ) → i < k → sys.cpu_core_id i ≡ true)
    → ((i : ℕ) → k ≤ i → i < max_lcore → sys.cpu_core_id i ≡ false)
    → Initialised k (core_nodes sys 0 k) (cpu_init qsort garbage sys cfg)
unfolding cpu_init socket_count
cpu_init-Initialised qsort garbage sys cfg k sorts d pos le shown hidden =
    let start = start_of garbage cfg in
    let f = detect sys max_lcore 0 start in
    let s = Seen_start sys garbage cfg d in
    let xs = core_nodes sys 0 k in
    let c : f.count ≡ k =
      s.counted ∙ shown_below_none sys max_lcore k le hidden ∙ shown_below_all sys k shown in
    let nonzero : (f.count == 0) ≡ false = ground (arith, c, pos) in
    let taken : take f.count f.sockets ≡ xs =
      ap (λ n. take n f.sockets) c
      ∙ sockets_taken sys k start f shown le (sym d.garbage_length) s in
    let got =
      qsort-Collected qsort xs cfg.numa_nodes sorts (core_nodes-below sys k 0) d.nodes_length in
    record {
      cfg = record cfg {
        lcore_count = f.count;
        lcore_config = f.cores;
        numa_node_count = got.count;
        numa_nodes = got.nodes;
      };
      returned = rw nonzero (rw taken (rw got.is_stored refl));
      counted = c;
      node_count_le = got.count_le;
      distinct = record {
        increasing = got.distinct.increasing;
        members = λ a. got.distinct.members a ∙ sorts.has-qsort a xs;
      };
    }

-- Where the arrays have their declared lengths and sysfs shows none of the 128 cores, `eal_cpu_init`
-- returns -1, with no core counted and `numa_nodes` and `numa_node_count` as they were.
pub cpu_init-none_shown :
    (qsort : List ℕ → List ℕ) (garbage : List ℕ) (sys : Sysfs) (cfg : EalConfig)
    → Declared garbage cfg
    → ((i : ℕ) → 0 ≤ i → i < max_lcore → sys.cpu_core_id i ≡ false)
    → (after : EalConfig) × ((cpu_init qsort garbage sys cfg ≡ some (false, after))
        × ((after.lcore_count ≡ 0)
            × ((after.numa_node_count ≡ cfg.numa_node_count)
                × (after.numa_nodes ≡ cfg.numa_nodes))))
unfolding cpu_init
cpu_init-none_shown qsort garbage sys cfg d hidden =
    let f = detect sys max_lcore 0 (start_of garbage cfg) in
    let s = Seen_start sys garbage cfg d in
    let c : f.count ≡ 0 = s.counted ∙ shown_below_none sys max_lcore 0 (omega arith) hidden in
    let isz : (f.count == 0) ≡ true = ground (arith, c) in
    (record cfg { lcore_count = f.count; lcore_config = f.cores }, (rw isz refl, (c, (refl, refl))))

singleton_of : (g : ℕ) (xs : List ℕ) → length xs ≡ 1 → has g xs ≡ true → xs ≡ g ∷ []
singleton_of g [] l h = ground arith
singleton_of g (x ∷ []) l h = elim (Bool-cases (g == x)) [
  | inl e ↦ ap (λ y. y ∷ []) (sym ((==_iff g x).0 e))
  | inr e ↦ ground (arith, e, h)
]
singleton_of g (x ∷ y ∷ xs) l h = ground (arith, l)

get_elem?-set_first : (xs : List ℕ) (g : ℕ) → 0 < length xs → get_elem? (set xs 0 g) 0 ≡ some g
get_elem?-set_first [] g h = absurd (omega arith)
get_elem?-set_first (x ∷ xs) g h = refl

take_one : (xs : List ℕ) → 0 < length xs → take 1 xs ≡ get_or xs 0 0 ∷ []
take_one [] h = absurd (omega arith)
take_one (x ∷ xs) h = refl

-- Where `qsort` sorts, the arrays have their declared lengths, and sysfs shows a single core `j`
-- above 0, whatever node it is on, `eal_cpu_init` returns 0 and the one node that
-- `rte_socket_id_by_idx` then gives is the number that stood at index 0 of the local array before
-- the array was written, if that number is not 2^32 - 1.
pub cpu_init_gap :
    (qsort : List ℕ → List ℕ) (garbage : List ℕ) (sys : Sysfs) (cfg : EalConfig) (j : ℕ)
    → Sorts qsort
    → Declared garbage cfg
    → 0 < j
    → j < max_lcore
    → ((i : ℕ) → 0 ≤ i → i < j → sys.cpu_core_id i ≡ false)
    → sys.cpu_core_id j ≡ true
    → ((i : ℕ) → suc j ≤ i → i < max_lcore → sys.cpu_core_id i ≡ false)
    → get_or garbage 0 0 ≢ 2 ^ 32 - 1
    → (after : EalConfig) × ((cpu_init qsort garbage sys cfg ≡ some (true, after))
        × ((socket_count after ≡ 1) × (socket_id_by_idx after 0 ≡ some (get_or garbage 0 0))))
unfolding cpu_init socket_count socket_id_by_idx collect
cpu_init_gap qsort garbage sys cfg j sorts d pos lt before at after ne =
    let start = start_of garbage cfg in
    let f = detect sys max_lcore 0 start in
    let s = Seen_start sys garbage cfg d in
    let g = get_or garbage 0 0 in
    let c : f.count ≡ 1 =
      s.counted
      ∙ shown_below_none sys max_lcore (suc j) (omega arith) after
      ∙ rw at (ap suc (shown_below_none sys j 0 (omega arith) before)) in
    let first : get_or f.sockets 0 0 ≡ g =
      s.sockets_seen 0 (omega arith) ∙ rw (before 0 (omega arith) pos) refl in
    let taken : take f.count f.sockets ≡ g ∷ [] =
      ap (λ n. take n f.sockets) c
      ∙ take_one f.sockets (omega (arith, s.sockets_length, d.garbage_length))
      ∙ ap (λ x. x ∷ []) first in
    let sorted : qsort (g ∷ []) ≡ g ∷ [] =
      singleton_of g (qsort (g ∷ [])) (sorts.length-qsort (g ∷ []))
        (sorts.has-qsort g (g ∷ []) ∙ has_first g []) in
    let nonzero : (f.count == 0) ≡ false = ground (arith, c) in
    let new : (g == 2 ^ 32 - 1) ≡ false = ground (arith, ne) in
    let room : ltb 0 (length cfg.numa_nodes) ≡ true = ground (arith, d.nodes_length) in
    (
      record cfg {
        lcore_count = f.count;
        lcore_config = f.cores;
        numa_node_count = 1;
        numa_nodes = set cfg.numa_nodes 0 g;
      },
      (
        rw nonzero (rw taken (rw sorted (rw new (rw room refl)))),
        (refl, get_elem?-set_first cfg.numa_nodes g (omega (arith, d.nodes_length))),
      ),
    )
