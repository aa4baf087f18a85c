-- ===== src/Eal/Supply.antt =====
-- dpdk_eal/mem.c, `calc_num_pages_per_socket`: how many huge pages of each size to take on each node.
-- Sizes are 64-bit numbers. `internal_config`, the cores and the memory of a node come from files that
-- are not here, and are arguments. `none` is a division by 0.
pub mod Amounts
pub mod Fill
pub mod Kept
pub mod Sockets
mod Tests
use linux.Common.{
  ℕ, zero, suc, ◌+◌, ◌-◌, ◌*◌, ◌/◌, ◌%◌, ◌^◌, min, Bool, true, false, ◌&&◌, not, Option, none, some,
  List, [], ◌∷◌, get_or, set, length, ltb, ◌==◌, if◌then◌else◌, ◌>>=◌, add32,
}
use linux.Eal.Cpu.{max_numa_nodes}

abbrev pub u64_mod : ℕ
u64_mod = 2 ^ 64

abbrev pub add64 : ℕ → ℕ → ℕ
add64 a b = (a + b) % u64_mod

abbrev pub sub64 : ℕ → ℕ → ℕ
sub64 a b = (a + u64_mod - b) % u64_mod

abbrev pub mul64 : ℕ → ℕ → ℕ
mul64 a b = (a * b) % u64_mod

-- `struct hugepage_info`
pub record HugepageInfo : Type 0 where
  pub hugepage_sz : ℕ
  pub hugedir : List ℕ
  pub numa_node_count : ℕ
  pub num_pages : List ℕ
  pub lock_descriptor : ℕ

-- What is read of `internal_config`.
pub record InternalConfig : Type 0 where
  pub memory : ℕ
  pub force_sockets : ℕ
  pub socket_mem : List ℕ

-- The pages of a size on a node.
abbrev pub pages_on : ℕ → HugepageInfo → ℕ
pages_on socket h = get_or h.num_pages socket 0

-- The loop for `remaining_mem`.
unfoldable pub remaining_mem : ℕ → List HugepageInfo → ℕ → ℕ
remaining_mem socket [] acc = acc
remaining_mem socket (h ∷ hs) acc =
    remaining_mem socket hs (add64 acc (mul64 h.hugepage_sz (pages_on socket h)))

-- `memory[socket]`, `total_mem` and `total_num_pages`.
pub record Tally : Type 0 where
  pub memory : ℕ
  pub total_mem : ℕ
  pub total_num_pages : ℕ

-- `n` pages more, for `cur_mem` bytes.
abbrev pub spend : ℕ → ℕ → Tally → Tally
spend n cur_mem t = record {
  memory = sub64 t.memory cur_mem;
  total_mem = sub64 t.total_mem cur_mem;
  total_num_pages = add32 t.total_num_pages n;
}

-- The loop over the page sizes for one node, with the sizes and the entries of `hp_used` still to come.
unfoldable pub fill_sizes :
    ℕ → List HugepageInfo → List HugepageInfo → Tally → Option (List HugepageInfo × Tally)
fill_sizes socket [] used t = some (used, t)
fill_sizes socket (h ∷ hs) [] t = if t.memory == 0 then some ([], t) else none
fill_sizes socket (h ∷ hs) (u ∷ us) t =
    let n = min (t.memory / h.hugepage_sz) (pages_on socket h) in
    let t1 = spend n (mul64 n u.hugepage_sz) t in
    let u1 = record u { hugedir = h.hugedir; num_pages = set u.num_pages socket n } in
    let u2 = record u { hugedir = h.hugedir; num_pages = set u.num_pages socket (n + 1) } in
    let t2 = spend 1 (min t1.memory h.hugepage_sz) t1 in
    let rest = fill_sizes socket hs us t1 >>= λ r. some (u1 ∷ r.0, r.1) in
    if t.memory == 0
    then some (u ∷ us, t)
    else if h.hugepage_sz == 0
    then none
    else if t1.memory == 0
    then some (u1 ∷ us, t1)
    else if n == pages_on socket h
    then rest
    else if ltb (remaining_mem socket hs 0) t1.memory
    then some (u2 ∷ us, t2)
    else rest

-- -1, or the number of pages with `hp_used`.
pub data Supply : Type 0 where
  failed : Supply
  pages : (count : ℕ) → (used : List HugepageInfo) → Supply

-- The loop over the nodes and the test behind it, with `left` nodes to look at from `socket` on.
unfoldable pub fill_sockets :
    InternalConfig
    → (left socket : ℕ) → (info used : List HugepageInfo) → (memory : List ℕ)
    → (total_mem total_num_pages : ℕ) → Option Supply
fill_sockets cfg zero socket info used memory total_mem total_num_pages =
    some (if ltb 0 total_mem then failed else pages total_num_pages used)
fill_sockets cfg (suc left) socket info used memory total_mem total_num_pages =
    let t : Tally = record {
      memory = get_or memory socket 0;
      total_mem = total_mem;
      total_num_pages = total_num_pages;
    } in
    let next = (do
      (used', t') ← fill_sizes socket info used t
      let rest =
          fill_sockets cfg left (socket + 1) info used' (set memory socket t'.memory) t'.total_mem
            t'.total_num_pages
      if ltb 0 t'.memory && not (get_or cfg.socket_mem socket 0 == 0) then some failed else rest) in
    if total_mem == 0 then some (pages total_num_pages used) else next

-- The cores of a node, of the sockets of all cores.
unfoldable pub cpu_per_socket : ℕ → List ℕ → ℕ
cpu_per_socket socket [] = 0
cpu_per_socket socket (s ∷ ss) = (if s == socket then 1 else 0) + cpu_per_socket socket ss

module _ (cfg : InternalConfig) (cores : List ℕ) (lcore_count : ℕ) (socket_mem_size : ℕ → ℕ) where
  -- The loop that spreads the memory by the number of cores.
  unfoldable pub spread_by_cores :
      (left socket : ℕ) → (memory : List ℕ) → (total_size : ℕ) → List ℕ × ℕ
  spread_by_cores zero socket memory total_size = (memory, total_size)
  spread_by_cores (suc left) socket memory total_size =
      let share = mul64 cfg.memory (cpu_per_socket socket cores) / lcore_count in
      let default_size = min share (socket_mem_size socket) in
      let rest =
        spread_by_cores left (socket + 1) (set memory socket default_size)
          (sub64 total_size default_size) in
      if total_size == 0 then (memory, total_size) else rest

  -- The loop that takes what remains from the nodes, one after the other.
  unfoldable pub spread_rest : (left socket : ℕ) → (memory : List ℕ) → (total_size : ℕ) → List ℕ × ℕ
  spread_rest zero socket memory total_size = (memory, total_size)
  spread_rest (suc left) socket memory total_size =
      let old = get_or memory socket 0 in
      let default_size = min (sub64 (socket_mem_size socket) old) total_size in
      let rest =
        spread_rest left (socket + 1) (set memory socket (add64 old default_size))
          (sub64 total_size default_size) in
      if total_size == 0 then (memory, total_size) else rest

  -- What the branch for no amounts per node stores in `memory`.
  unfoldable pub spread : List ℕ → List ℕ
  unfolding spread_by_cores spread_rest
  spread memory =
      let r = spread_by_cores max_numa_nodes 0 memory cfg.memory in
      (spread_rest max_numa_nodes 0 r.0 r.1).0

  -- `calc_num_pages_per_socket`
  unfoldable pub calc_num_pages_per_socket :
      (memory : List ℕ) → (info used : List HugepageInfo) → Option Supply
  calc_num_pages_per_socket memory info used =
      let memory' = if cfg.force_sockets == 0 then spread memory else memory in
      if length info == 0
      then some failed
      else if cfg.force_sockets == 0 && not (cfg.memory == 0) && lcore_count == 0
      then none
      else fill_sockets cfg max_numa_nodes 0 info used memory' cfg.memory 0
