-- ===== src/Eal/Discovery.antt =====
-- dpdk_eal/mem_hugepage.c: which sizes of huge pages the system has, where they are mounted, and how
-- many there are on each node. What the system's files and directories hold is a parameter. A string is
-- the list of its bytes.
pub mod Counts
pub mod Mounts
use linux.Common.{
  ℕ, zero, suc, ◌+◌, ◌-◌, ◌%◌, ◌^◌, min, Bool, true, false, not, ◌&&◌, Option, none, some, List, [],
  ◌∷◌, ◌++◌, leb, ltb, ◌==◌, if◌then◌else◌, ◌>>=◌, add32, sub32, u32_mod, get_elem?, get_or, set,
  length, drop, take,
}
use linux.Split.Scan.{rte_strsplit}
use linux.Split.Fields.{c_string}
use linux.Eal.Cpu.{EalConfig, socket_count, socket_id_by_idx, max_numa_nodes}
use linux.Eal.Supply.{HugepageInfo}
use linux.Eal.Sizes.{parse_sysfs_value, str_to_size}

-- `MAX_HUGEPAGE_SIZES`
abbrev pub max_hugepage_sizes : ℕ
max_hugepage_sizes = 3

abbrev pub bufsiz : ℕ
bufsiz = 8192

abbrev pub path_max : ℕ
path_max = 4096

-- `strncmp` with the length of `prefix`: whether it gives 0.
abbrev pub starts_with : (prefix str : List ℕ) → Bool
starts_with [] str = true
starts_with (p ∷ ps) [] = false
starts_with (p ∷ ps) (c ∷ cs) = (p == c) && starts_with ps cs

-- `strstr`, with `none` for NULL.
abbrev pub strstr : (str needle : List ℕ) → Option (List ℕ)
strstr [] needle = if starts_with needle [] then some [] else none
strstr (c ∷ cs) needle =
    let later = strstr cs needle in if starts_with needle (c ∷ cs) then some (c ∷ cs) else later

-- "Hugepagesize:", "hugetlbfs", "pagesize=", "hugepages-" and "map_"
abbrev pub str_hugepagesz : List ℕ
str_hugepagesz =
    b'H' ∷ b'u' ∷ b'g' ∷ b'e' ∷ b'p' ∷ b'a' ∷ b'g' ∷ b'e' ∷ b's' ∷ b'i' ∷ b'z' ∷ b'e' ∷ b':' ∷ []

abbrev pub hugetlbfs_str : List ℕ
hugetlbfs_str = b'h' ∷ b'u' ∷ b'g' ∷ b'e' ∷ b't' ∷ b'l' ∷ b'b' ∷ b'f' ∷ b's' ∷ []

abbrev pub pagesize_opt : List ℕ
pagesize_opt = b'p' ∷ b'a' ∷ b'g' ∷ b'e' ∷ b's' ∷ b'i' ∷ b'z' ∷ b'e' ∷ b'=' ∷ []

abbrev pub dirent_start_text : List ℕ
dirent_start_text = b'h' ∷ b'u' ∷ b'g' ∷ b'e' ∷ b'p' ∷ b'a' ∷ b'g' ∷ b'e' ∷ b's' ∷ b'-' ∷ []

abbrev pub map_text : List ℕ
map_text = b'm' ∷ b'a' ∷ b'p' ∷ b'_' ∷ []

-- An entry of a mounted directory: its name, whether `openat` opens it and `flock` locks it.
pub record DirEntry : Type 0 where
  pub name : List ℕ
  pub opens : Bool
  pub locks : Bool

-- What the program finds of the system: what each `fgets` reads of /proc/meminfo and leaves in `buf` of
-- /proc/mounts, the names in /sys/kernel/mm/hugepages; for a name there, what `fgets` reads of its
-- resv_hugepages and free_hugepages, and of a node's free_hugepages; whether a node's directory is
-- there; and for a mounted directory its entries, what `open` returns and whether `flock` locks it.
-- `none` is a file or directory that does not open.
pub record System : Type 0 where
  pub meminfo : Option (List (List ℕ))
  pub mounts : Option (List (List ℕ))
  pub sys_dir : Option (List (List ℕ))
  pub resv_hugepages : List ℕ → Option (List ℕ)
  pub free_hugepages : List ℕ → Option (List ℕ)
  pub node_dir : ℕ → Bool
  pub node_free_hugepages : ℕ → List ℕ → Option (List ℕ)
  pub hugedir_entries : List ℕ → Option (List DirEntry)
  pub hugedir_descriptor : List ℕ → ℕ
  pub hugedir_locks : List ℕ → Bool

-- The loop of `get_default_hp_size` over the lines of /proc/meminfo.
unfoldable pub find_default_size : List (List ℕ) → ℕ
find_default_size [] = 0
find_default_size (line ∷ lines) =
    let later = find_default_size lines in
    if starts_with str_hugepagesz line
    then str_to_size (drop (length str_hugepagesz) line)
    else later

-- `get_default_hp_size`. `none` is `rte_panic`, which ends the program.
unfoldable pub get_default_hp_size : System → Option ℕ
get_default_hp_size sys = do
  lines ← sys.meminfo
  let size = find_default_size lines
  if size == 0 then none else some size

-- What a round of the loop of `get_hugepage_dir` does with the fields of a mount: -1, the directory
-- found, or the next line.
pub data MountScan : Type 0 where
  stop : MountScan
  found : List ℕ → MountScan
  next_mount : MountScan

-- The round behind `rte_strsplit`, with the memory `buf` and the tokens.
unfoldable pub examine_mount : (hugepage_sz default_size : ℕ) → (buf tokens : List ℕ) → MountScan
examine_mount hugepage_sz default_size buf tokens =
    let field : ℕ → List ℕ = λ i. c_string (drop (get_or tokens i 0) buf) in
    let wanted : Bool = elim (strstr (field 3) pagesize_opt) [
      | none ↦ hugepage_sz == default_size
      | some str ↦ str_to_size (drop (length pagesize_opt) str) == hugepage_sz
    ] in
    if not (length tokens == 4)
    then stop
    else if not (starts_with hugetlbfs_str (field 2))
    then next_mount
    else if wanted
    then found (field 1)
    else next_mount

-- The loop of `get_hugepage_dir`: the directory, or `none` for -1, in `some`; `none` is a read behind
-- `buf`.
unfoldable pub find_mount :
    (hugepage_sz default_size : ℕ) → List (List ℕ) → Option (Option (List ℕ))
find_mount hugepage_sz default_size [] = some none
find_mount hugepage_sz default_size (buf ∷ bufs) = do
  r ← rte_strsplit buf bufsiz 4 b' '
  elim (examine_mount hugepage_sz default_size r.0 r.1) [
    | stop ↦ some none
    | found dir ↦ some (some dir)
    | next_mount ↦ find_mount hugepage_sz default_size bufs
  ]

-- `strlcpy` to `hugedir`
abbrev pub copy_dir : Option (List ℕ) → Option (List ℕ)
copy_dir none = none
copy_dir (some dir) = some (take (path_max - 1) dir)

-- `get_hugepage_dir`, with its static `default_size` before and after. A directory is cut to the size
-- of `hugedir`. `none` is `rte_panic`, or a read behind `buf`.
unfoldable pub get_hugepage_dir :
    System → (hugepage_sz default_size : ℕ) → Option (Option (List ℕ) × ℕ)
get_hugepage_dir sys hugepage_sz default_size = do
  bufs ← sys.mounts
  size ← if default_size == 0 then get_default_hp_size sys else some default_size
  dir ← find_mount hugepage_sz size bufs
  some (copy_dir dir, size)

-- `UINT32_MAX`
abbrev pub uint32_max : ℕ
uint32_max = u32_mod - 1

-- `get_num_hugepages`
unfoldable pub get_num_hugepages : System → (subdir : List ℕ) → ℕ
get_num_hugepages sys subdir = elim (parse_sysfs_value (sys.resv_hugepages subdir)) [
  | none ↦ 0
  | some resv_pages ↦ elim (parse_sysfs_value (sys.free_hugepages subdir)) [
    | none ↦ 0
    | some num_pages ↦
        let adjusted =
          if leb resv_pages num_pages
          then num_pages - resv_pages
          else if not (resv_pages == 0)
          then 0
          else num_pages in
        if ltb uint32_max adjusted then uint32_max else adjusted
  ]
]

-- `get_num_hugepages_on_node`
unfoldable pub get_num_hugepages_on_node : System → (subdir : List ℕ) → (socket : ℕ) → ℕ
get_num_hugepages_on_node sys subdir socket =
    let pages : ℕ = elim (parse_sysfs_value (sys.node_free_hugepages socket subdir)) [
      | none ↦ 0
      | some num_pages ↦ if ltb uint32_max num_pages then uint32_max else num_pages
    ] in
    if sys.node_dir socket then pages else 0

-- The loop of `clear_hugedir`: the names of the files that it removes. `fnmatch` of "*map_*" finds the
-- names with "map_" in them.
unfoldable pub remove_unused : List DirEntry → List (List ℕ)
remove_unused [] = []
remove_unused (e ∷ es) =
    let rest = remove_unused es in
    elim (strstr e.name map_text) [
      | none ↦ rest
      | some str ↦ if not e.opens then rest else if e.locks then e.name ∷ rest else rest
    ]

-- `clear_hugedir`: the names of the removed files, and `none` for -1.
unfoldable pub clear_hugedir : System → (hugedir : List ℕ) → Option (List (List ℕ))
clear_hugedir sys hugedir = elim (sys.hugedir_entries hugedir) [
  | none ↦ none
  | some [] ↦ none
  | some (e ∷ es) ↦ some (remove_unused (e ∷ es))
]

-- `compare_hpi`, as the bit pattern of an `int`.
unfoldable pub compare_hpi : HugepageInfo → HugepageInfo → ℕ
compare_hpi a b = ((b.hugepage_sz + 2 ^ 64 - a.hugepage_sz) % 2 ^ 64) % u32_mod
