-- ===== src/Eal/Hugepages.antt =====
-- dpdk_eal/mem_hugepage.c, `hugepage_info_init`: the table of huge page sizes, with the pages of each
-- size on each node. `none` is `rte_panic` or an access outside an array.
pub mod Table
pub mod Outcome
mod Tests
use linux.Common.{
  ℕ, zero, suc, ◌+◌, ◌-◌, Bool, true, false, not, ◌&&◌, Option, none, some, List, [], ◌∷◌, ◌++◌,
  leb, ltb, ◌==◌, if◌then◌else◌, ◌>>=◌, add32, get_elem?, get_or, set, length, drop, take,
}
use linux.Eal.Cpu.{EalConfig, socket_count, socket_id_by_idx}
use linux.Eal.Supply.{HugepageInfo}
use linux.Eal.Sizes.{str_to_size}
use linux.Eal.Discovery.{
  System, max_hugepage_sizes, starts_with, dirent_start_text, get_hugepage_dir, get_num_hugepages,
  get_num_hugepages_on_node, clear_hugedir,
}

-- What is used of `struct hugepage_conf`.
pub record HugepageConf : Type 0 where
  pub num_hugepage_sizes : ℕ
  pub hugepage_info : List HugepageInfo

-- What the loop changes: the table, `num_sizes`, and the static `default_size` of `get_hugepage_dir`.
pub record Discovered : Type 0 where
  pub info : List HugepageInfo
  pub num_sizes : ℕ
  pub default_size : ℕ

-- The loop over the nodes, with `left` of them to look at from index `i` on: `num_pages` and
-- `total_pages`. A node that is -1 is an access outside `num_pages`.
unfoldable pub count_on_nodes :
    System
    → EalConfig
    → (subdir : List ℕ) → (left i : ℕ) → (num_pages : List ℕ) → (total_pages : ℕ)
    → Option (List ℕ × ℕ)
count_on_nodes sys cfg subdir zero i num_pages total_pages = some (num_pages, total_pages)
count_on_nodes sys cfg subdir (suc left) i num_pages total_pages = do
  socket ← socket_id_by_idx cfg i
  old ← get_elem? num_pages socket
  let n = get_num_hugepages_on_node sys subdir socket
  count_on_nodes sys cfg subdir left (i + 1) (set num_pages socket n) (add32 total_pages n)

-- An entry of the table, once its directory is locked and cleared.
unfoldable pub count_pages :
    System → EalConfig → (subdir : List ℕ) → HugepageInfo → Option HugepageInfo
count_pages sys cfg subdir hpi = do
  r ← count_on_nodes sys cfg subdir (socket_count cfg) 0 hpi.num_pages 0
  let num_pages = if r.1 == 0 then set r.0 0 (get_num_hugepages sys subdir) else r.0
  some (record hpi { numa_node_count = socket_count cfg; num_pages = num_pages })

-- What a round of the loop over the directory does: it leaves the loop, or goes on.
pub data Round : Type 0 where
  leave : Discovered → Round
  go_on : Discovered → Round

-- A round for a size that is mounted at `hugedir`.
unfoldable pub take_size :
    System
    → EalConfig
    → (subdir : List ℕ) → (hugedir : List ℕ) → HugepageInfo
    → Discovered
    → Option Round
take_size sys cfg subdir hugedir hpi d =
    let locked = record hpi {
      hugedir = hugedir;
      lock_descriptor = sys.hugedir_descriptor hugedir;
    } in
    let d1 = record d { info = set d.info d.num_sizes locked } in
    let counted = (do
      hpi' ← count_pages sys cfg subdir locked
      some
          (go_on (record d { info = set d.info d.num_sizes hpi'; num_sizes = d.num_sizes + 1 }))) in
    if not (sys.hugedir_locks hugedir)
    then some (leave d1)
    else elim (clear_hugedir sys hugedir) [ none ↦ some (leave d1) | some removed ↦ counted ]

-- A round of the loop.
unfoldable pub init_round : System → EalConfig → (subdir : List ℕ) → Discovered → Option Round
init_round sys cfg subdir d =
    let sized = (do
      old ← get_elem? d.info d.num_sizes
      let size = str_to_size (drop (length dirent_start_text) subdir)
      let hpi = record old { hugepage_sz = size }
      r ← get_hugepage_dir sys size d.default_size
      let d1 = record d { info = set d.info d.num_sizes hpi; default_size = r.1 }
      elim r.0 [
        | none ↦ some (go_on d1)
        | some hugedir ↦ take_size sys cfg subdir hugedir hpi d1
      ]) in
    if not (starts_with dirent_start_text subdir)
    then some (go_on d)
    else if leb max_hugepage_sizes d.num_sizes
    then some (leave d)
    else sized

-- The loop over the names in the directory, and whether it ran to their end.
unfoldable pub init_loop :
    System → EalConfig → List (List ℕ) → Discovered → Option (Bool × Discovered)
init_loop sys cfg [] d = some (true, d)
init_loop sys cfg (name ∷ names) d = do
  r ← init_round sys cfg name d
  elim r [ leave d' ↦ some (false, d') | go_on d' ↦ init_loop sys cfg names d' ]

-- The sum of `num_pages`.
unfoldable pub sum_pages : List ℕ → ℕ → ℕ
sum_pages [] acc = acc
sum_pages (n ∷ ns) acc = sum_pages ns (add32 acc n)

-- The last loop, with the first `left` entries of the table: whether one is mounted and has pages.
unfoldable pub has_pages : (left : ℕ) → List HugepageInfo → Bool
has_pages zero info = false
has_pages (suc left) [] = false
has_pages (suc left) (h ∷ hs) =
    let later = has_pages left hs in
    if not (length h.hugedir == 0) && ltb 0 (sum_pages h.num_pages 0) then true else later

module _ (qsort : List HugepageInfo → List HugepageInfo) (sys : System) (cfg : EalConfig) where
  -- `hugepage_info_init` once the directory is open, with the names in it.
  unfoldable pub init_from :
      (names : List (List ℕ)) → (default_size : ℕ) → HugepageConf → Option (Bool × HugepageConf × ℕ)
  init_from names default_size conf = do
    r ←
        init_loop sys cfg names
          (record { info = conf.hugepage_info; num_sizes = 0; default_size = default_size })
    let d = r.1
    let info = qsort (take d.num_sizes d.info) ++ drop d.num_sizes d.info
    let sorted : HugepageConf = record { num_hugepage_sizes = d.num_sizes; hugepage_info = info }
    if not r.0
        then some (false, record conf { hugepage_info = d.info }, d.default_size)
        else some (has_pages d.num_sizes info, sorted, d.default_size)

  -- `hugepage_info_init`, with `true` for 0 and `false` for -1, and the static `default_size` before
  -- and after. `qsort` is the C library's, by `compare_hpi`.
  unfoldable pub hugepage_info_init :
      (default_size : ℕ) → HugepageConf → Option (Bool × HugepageConf × ℕ)
  hugepage_info_init default_size conf = elim sys.sys_dir [
    | none ↦ some (false, conf, default_size)
    | some names ↦ init_from names default_size conf
  ]
