-- ===== src/Eal/Cpu.antt =====
-- dpdk_eal/eal_lcore.c and dpdk_eal/eal.c: the logical cores, their sockets, and the list of NUMA
-- nodes. Numbers are 32-bit words; `int` values are read through `signed_key`.
use linux.Common.{
  ℕ, zero, suc, ◌+◌, ◌-◌, ◌%◌, ◌^◌, Bool, true, false, if◌then◌else◌, List, [], ◌∷◌, Option, none,
  some, get_elem?, get_or, set, take, replicate, length, ltb, ◌==◌, ◌>>=◌,
}

abbrev pub max_lcore : ℕ
max_lcore = 128

abbrev pub max_numa_nodes : ℕ
max_numa_nodes = 8

-- What the program reads of sysfs: whether `node%u/cpu%u` is there, whether `cpu%u`'s
-- `topology/core_id` is there, and the number that stands in it, if it parses.
pub record Sysfs : Type 0 where
  pub node_cpu : ℕ → ℕ → Bool
  pub cpu_core_id : ℕ → Bool
  pub core_id_value : ℕ → Option ℕ

-- `struct lcore_config`
pub record LcoreConfig : Type 0 where
  pub detected : ℕ
  pub socket_id : ℕ
  pub core_id : ℕ
  pub core_index : ℕ

-- `struct eal_config`
pub record EalConfig : Type 0 where
  pub numa_node_count : ℕ
  pub numa_nodes : List ℕ
  pub lcore_count : ℕ
  pub lcore_config : List LcoreConfig

-- `_eal_config` as the program starts.
abbrev pub no_lcore : LcoreConfig
no_lcore = record { detected = 0; socket_id = 0; core_id = 0; core_index = 0 }

abbrev pub boot_config : EalConfig
boot_config = record {
  numa_node_count = 0;
  numa_nodes = replicate max_numa_nodes 0;
  lcore_count = 0;
  lcore_config = replicate max_lcore no_lcore;
}

-- `eal_cpu_detected`. The path fits its buffer at every 32-bit `lcore_id`.
unfoldable pub cpu_detected : Sysfs → ℕ → ℕ
cpu_detected sys lcore_id = if sys.cpu_core_id lcore_id then 1 else 0

-- The loop of `eal_cpu_socket_id`, with `left` sockets to look at from `socket` on.
unfoldable pub search_socket : Sysfs → ℕ → ℕ → ℕ → ℕ
search_socket sys lcore_id zero socket = 0
search_socket sys lcore_id (suc left) socket =
    let later = search_socket sys lcore_id left (socket + 1) in
    if sys.node_cpu socket lcore_id then socket else later

-- `eal_cpu_socket_id`
unfoldable pub cpu_socket_id : Sysfs → ℕ → ℕ
cpu_socket_id sys lcore_id = search_socket sys lcore_id max_numa_nodes 0

-- `eal_cpu_core_id`: 0 where the value cannot be read.
unfoldable pub cpu_core_id : Sysfs → ℕ → ℕ
cpu_core_id sys lcore_id = elim (sys.core_id_value lcore_id) [ none ↦ 0 | some id ↦ id % 2 ^ 32 ]

-- The order of an `int`'s bit pattern, as that of a natural number.
abbrev pub signed_key : ℕ → ℕ
signed_key x = (x + 2 ^ 31) % 2 ^ 32

-- `socket_id_cmp`: -1, 1 and 0
pub data Comparison : Type 0 where
  less greater same : Comparison

unfoldable pub socket_id_cmp : ℕ → ℕ → Comparison
socket_id_cmp a b =
    if ltb (signed_key a) (signed_key b)
    then less
    else if ltb (signed_key b) (signed_key a)
    then greater
    else same

-- What the first loop of `eal_cpu_init` changes: the count, the cores' entries and the local array
-- `lcore_to_socket_id`.
pub record Found : Type 0 where
  pub count : ℕ
  pub cores : List LcoreConfig
  pub sockets : List ℕ

-- One round of that loop.
unfoldable pub detect_one : Sysfs → ℕ → Found → Found
detect_one sys lcore_id f =
    let socket_id = cpu_socket_id sys lcore_id in
    let old = get_or f.cores lcore_id no_lcore in
    let seen = record old { socket_id = socket_id; detected = cpu_detected sys lcore_id } in
    let core = record seen { core_id = cpu_core_id sys lcore_id; core_index = f.count } in
    if cpu_detected sys lcore_id == 0
    then record f { cores = set f.cores lcore_id seen }
    else record {
      count = f.count + 1;
      cores = set f.cores lcore_id core;
      sockets = set f.sockets lcore_id socket_id;
    }

-- The loop, with `left` cores to look at from `lcore_id` on.
unfoldable pub detect : Sysfs → ℕ → ℕ → Found → Found
detect sys zero lcore_id f = f
detect sys (suc left) lcore_id f = detect sys left (lcore_id + 1) (detect_one sys lcore_id f)

-- The last loop of `eal_cpu_init` over the sorted sockets: each one that differs from the one
-- before it is stored at `numa_nodes[numa_node_count++]`. `none` is a store outside the array.
unfoldable pub collect : List ℕ → ℕ → ℕ → List ℕ → Option (ℕ × List ℕ)
collect [] prev count nodes = some (count, nodes)
collect (s ∷ sockets) prev count nodes =
    let same = collect sockets s count nodes in
    let new = collect sockets s (count + 1) (set nodes count s) in
    if s == prev then same else if ltb count (length nodes) then new else none

-- `eal_cpu_init`: the configuration, and 0 or -1 as `true` or `false`. `qsort` is the C library's,
-- by `socket_id_cmp`; `garbage` is what the local array holds at its declaration.
unfoldable pub cpu_init : (List ℕ → List ℕ) → List ℕ → Sysfs → EalConfig → Option (Bool × EalConfig)
cpu_init qsort garbage sys cfg =
    let f =
      detect sys max_lcore 0 (record { count = 0; cores = cfg.lcore_config; sockets = garbage }) in
    let cfg' = record cfg { lcore_count = f.count; lcore_config = f.cores } in
    if f.count == 0 then some (false, cfg') else (do
      (count, nodes) ← collect (qsort (take f.count f.sockets)) (2 ^ 32 - 1) 0 cfg.numa_nodes
      some (true, record cfg' { numa_node_count = count; numa_nodes = nodes }))

-- `rte_socket_count`
unfoldable pub socket_count : EalConfig → ℕ
socket_count cfg = cfg.numa_node_count

-- `rte_socket_id_by_idx`, with `none` for -1.
unfoldable pub socket_id_by_idx : EalConfig → ℕ → Option ℕ
socket_id_by_idx cfg idx =
    if ltb idx cfg.numa_node_count then get_elem? cfg.numa_nodes idx else none
