-- ===== src/Eal/Mapping/Tests.antt =====
-- An instance of `eal_hugepage_init`.
use linux.Common.{zero, suc, ◌+◌, ◌*◌, ◌^◌, ℕ, ◌≡◌, refl, true, List, [], ◌∷◌}
use linux.Eal.Supply.{HugepageInfo, InternalConfig}
use linux.Eal.Physical.{Pagemap, read_error}
use linux.Eal.Mapping.Taken.{all_segments}

-- Pages of 4 KB on two nodes.
abbrev small : List ℕ → HugepageInfo
small num = record {
  hugepage_sz = 4096;
  hugedir = [];
  numa_node_count = 0;
  num_pages = num;
  lock_descriptor = 0;
}

abbrev info : List HugepageInfo
info = small (3 ∷ 2 ∷ 0 ∷ 0 ∷ 0 ∷ 0 ∷ 0 ∷ 0 ∷ []) ∷ []

-- Two of them on node 0, and one on node 1.
abbrev used : List HugepageInfo
used = small (2 ∷ 1 ∷ 0 ∷ 0 ∷ 0 ∷ 0 ∷ 0 ∷ 0 ∷ []) ∷ []

abbrev asked : List ℕ
asked = 8192 ∷ 4096 ∷ 0 ∷ 0 ∷ 0 ∷ 0 ∷ 0 ∷ 0 ∷ []

abbrev config : InternalConfig
config = record { memory = 12288; force_sockets = 1; socket_mem = asked }

abbrev no_pagemap : Pagemap
no_pagemap = record {
  page_size = 4096;
  opens = true;
  seeks = λ offset. true;
  read_at = λ offset. read_error;
}

-- The segments of a node lie behind each other, those of different nodes apart.
abbrev numbered : (num_pages size socket_id : ℕ) → List ℕ
numbered zero size socket_id = []
numbered (suc n) size socket_id = (socket_id * 2 ^ 20 + n * size) ∷ numbered n size socket_id

-- Two segments of node 0 and one of node 1.
used_segments : all_segments numbered used ≡ 4096 ∷ 0 ∷ 2 ^ 20 ∷ []
used_segments = refl
