-- ===== src/Eal/Supply/Tests.antt =====
-- A run and an instance of `calc_num_pages_per_socket`.
use linux.Common.{ℕ, ◌%◌, ◌≡◌, refl, ◌⊎◌, some, List, [], ◌∷◌, arith, u32_mod, replicate}
use linux.Eal.Cpu.{max_numa_nodes}
use linux.Eal.Supply.{
  HugepageInfo, InternalConfig, failed, pages, fill_sizes, fill_sockets, remaining_mem,
  calc_num_pages_per_socket, spread, cpu_per_socket,
}
use linux.Eal.Supply.Kept.{HasEnough, IsSupplied, pages_from}
use linux.Eal.Supply.Sockets.{asked_by, calc_num_pages_per_socket-supplies}

-- Pages of 2 MB on node 0 and of 4 KB on nodes 0 and 1.
abbrev large : List ℕ → HugepageInfo
large num = record {
  hugepage_sz = 2097152;
  hugedir = 97 ∷ [];
  numa_node_count = 2;
  num_pages = num;
  lock_descriptor = 0;
}

abbrev small : List ℕ → HugepageInfo
small num = record {
  hugepage_sz = 4096;
  hugedir = 98 ∷ [];
  numa_node_count = 2;
  num_pages = num;
  lock_descriptor = 0;
}

abbrev info : List HugepageInfo
info = large (3 ∷ 0 ∷ 0 ∷ 0 ∷ 0 ∷ 0 ∷ 0 ∷ 0 ∷ []) ∷ small (10 ∷ 5 ∷ 0 ∷ 0 ∷ 0 ∷ 0 ∷ 0 ∷ 0 ∷ []) ∷ []

abbrev used : List HugepageInfo
used = large (replicate 8 0) ∷ small (replicate 8 0) ∷ []

-- One large page and two small ones on node 0, and a small one on node 1.
abbrev asked : List ℕ
asked = 2105344 ∷ 4000 ∷ 0 ∷ 0 ∷ 0 ∷ 0 ∷ 0 ∷ 0 ∷ []

abbrev config : InternalConfig
config = record { memory = 2109344; force_sockets = 1; socket_mem = asked }

calc_num_pages_per_socket_run :
    calc_num_pages_per_socket config [] 0 (λ s. 0) asked info used
    ≡ some (
        pages 4 (
          large (1 ∷ 0 ∷ 0 ∷ 0 ∷ 0 ∷ 0 ∷ 0 ∷ 0 ∷ [])
          ∷ small (2 ∷ 1 ∷ 0 ∷ 0 ∷ 0 ∷ 0 ∷ 0 ∷ 0 ∷ [])
          ∷ []))
unfolding calc_num_pages_per_socket fill_sockets fill_sizes remaining_mem
calc_num_pages_per_socket_run = refl

-- With no amounts per node, the cores decide: three of four are on node 0.
spread_run :
    spread
      (record { memory = 8192; force_sockets = 0; socket_mem = [] })
      (0 ∷ 0 ∷ 1 ∷ 0 ∷ [])
      4
      (λ s. 5000)
      (replicate 8 7)
    ≡ 5000 ∷ 3192 ∷ 0 ∷ 0 ∷ 0 ∷ 0 ∷ 0 ∷ 0 ∷ []
unfolding spread cpu_per_socket
spread_run = refl

calc_num_pages_per_socket-supplies_example :
    (HasEnough info (asked_by asked) max_numa_nodes 0
      × ((n : ℕ) × (used' : List HugepageInfo) × (calc_num_pages_per_socket config [] 0
              (λ s. 0)
              asked
              info
              used
            ≡ some (pages n used'))
          × IsSupplied info used' (asked_by asked) max_numa_nodes 0
          × (n ≡ pages_from used' max_numa_nodes 0 % u32_mod)))
    ⊎ ((HasEnough info (asked_by asked) max_numa_nodes 0 → ⊥)
        × (calc_num_pages_per_socket config [] 0 (λ s. 0) asked info used ≡ some failed))
calc_num_pages_per_socket-supplies_example =
    calc_num_pages_per_socket-supplies config [] 0 (λ s. 0) info used asked (omega arith)
      (omega arith) (omega arith) refl (omega arith) (omega arith)
