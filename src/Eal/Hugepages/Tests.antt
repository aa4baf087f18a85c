-- ===== src/Eal/Hugepages/Tests.antt =====
-- Runs and instances of the discovery of huge pages.
use linux.Common.{
  ◌↔◌, ◌<◌, ℕ, zero, suc, ◌^◌, ◌≤◌, ◌≡◌, refl, true, false, some, List, [], ◌∷◌, ◌++◌, length,
  replicate, arith, inr, length-append, length-replicate,
}
use linux.Eal.Cpu.{EalConfig, boot_config, socket_count}
use linux.Eal.Supply.{HugepageInfo}
use linux.Eal.Sizes.{str_to_size, size_of_number, strtoull, scale_by, scale, parse_sysfs_value}
use linux.Eal.Sizes.Decimal.{str_to_size-decimal}
use linux.Eal.Discovery.{
  System, compare_hpi, str_hugepagesz, hugetlbfs_str, dirent_start_text, bufsiz, DirEntry, map_text,
  clear_hugedir, remove_unused, find_default_size,
}
use linux.Eal.Discovery.Counts.{compare_hpi_powers}
use linux.Eal.Discovery.Mounts.{IsReadable}
use linux.Eal.Hugepages.{HugepageConf, hugepage_info_init}
use linux.Eal.Hugepages.Table.{HasNodes}
use linux.Eal.Hugepages.Outcome.{Outcome, hugepage_info_init-Outcome}

-- "2048 kB", in the three parts that the theorem names.
abbrev size_text : List ℕ
size_text = b'2' ∷ b'0' ∷ b'4' ∷ b'8' ∷ b' ' ∷ b'k' ∷ b'B' ∷ 10 ∷ []

str_to_size-decimal_example : str_to_size (b' ' ∷ b' ' ∷ size_text) ≡ 2097152
str_to_size-decimal_example =
    str_to_size-decimal (b' ' ∷ b' ' ∷ []) b'2' (b'0' ∷ b'4' ∷ b'8' ∷ []) (b' ' ∷ []) b'k'
      (b'B' ∷ 10 ∷ []) (refl, (refl, tt)) (omega arith)
      (
        omega arith,
        omega arith,
        (omega arith, omega arith, (omega arith, omega arith, (omega arith, omega arith, tt))),
      )
      (inr refl) (omega arith) (λ e. omega (arith, e)) (omega arith)

abbrev two_megabytes : List ℕ
two_megabytes = dirent_start_text ++ (b'2' ∷ b'0' ∷ b'4' ∷ b'8' ∷ b'k' ∷ b'B' ∷ [])

-- /h, where huge pages are mounted.
abbrev mount_line : List ℕ
mount_line = b'x' ∷ b' ' ∷ b'/' ∷ b'h' ∷ b' ' ∷ (hugetlbfs_str ++ (b' ' ∷ b'r' ∷ b'w' ∷ 10 ∷ []))

abbrev zeros : List ℕ
zeros = replicate bufsiz 0

abbrev mount_buffer : List ℕ
mount_buffer = mount_line ++ zeros

abbrev old_file : DirEntry
old_file = record { name = map_text; opens = true; locks = true }

abbrev new_file : DirEntry
new_file = record { name = b'r' ∷ map_text; opens = true; locks = false }

abbrev machine : System
machine = record {
  meminfo = some ((str_hugepagesz ++ (b' ' ∷ size_text)) ∷ []);
  mounts = some (mount_buffer ∷ []);
  sys_dir = some (two_megabytes ∷ []);
  resv_hugepages = λ name. some (b'3' ∷ 10 ∷ []);
  free_hugepages = λ name. some (b'1' ∷ b'0' ∷ 10 ∷ []);
  node_dir = λ socket. true;
  node_free_hugepages = λ socket name. some (b'4' ∷ 10 ∷ []);
  hugedir_entries = λ dir. some (old_file ∷ new_file ∷ []);
  hugedir_descriptor = λ dir. 5;
  hugedir_locks = λ dir. true;
}

ten_pages : parse_sysfs_value (some (b'1' ∷ b'0' ∷ 10 ∷ [])) ≡ some 10
unfolding parse_sysfs_value strtoull
ten_pages = refl

three_pages : parse_sysfs_value (some (b'3' ∷ 10 ∷ [])) ≡ some 3
unfolding parse_sysfs_value strtoull
three_pages = refl

-- The file that is not locked goes.
clear_hugedir_run : clear_hugedir machine (b'/' ∷ b'h' ∷ []) ≡ some (map_text ∷ [])
unfolding clear_hugedir remove_unused
clear_hugedir_run = refl

abbrev pages_of : ℕ → HugepageInfo
pages_of size = record {
  hugepage_sz = size;
  hugedir = [];
  numa_node_count = 0;
  num_pages = replicate 8 0;
  lock_descriptor = 0;
}

-- 2 MB and 16 GB: the smaller size comes first.
compare_hpi_powers_example :
    let c = compare_hpi (pages_of (2 ^ 21)) (pages_of (2 ^ 34)) in
    (((0 < c) × (c < 2 ^ 31)) ↔ (34 < 32))
    × ((c ≡ 0) ↔ (32 ≤ 21))
    × ((2 ^ 31 ≤ c) ↔ ((21 < 32) × (32 ≤ 34)))
compare_hpi_powers_example =
    compare_hpi_powers (pages_of (2 ^ 21)) (pages_of (2 ^ 34)) 21 34 refl refl (omega arith)
      (omega arith)

abbrev one_node : EalConfig
one_node = record boot_config { numa_node_count = 1 }

one_node-HasNodes : HasNodes one_node
unfolding socket_count linux.Eal.Cpu.socket_id_by_idx
one_node-HasNodes zero p = (0, refl, omega arith)
one_node-HasNodes (suc i) p = absurd (omega (arith, p))

machine_default : find_default_size ((str_hugepagesz ++ (b' ' ∷ size_text)) ∷ []) ≡ 2097152
unfolding find_default_size str_to_size size_of_number strtoull scale_by scale
machine_default = refl

buffer_room : bufsiz ≤ length mount_buffer
buffer_room = omega (arith, length-append mount_line zeros, length-replicate {A = ℕ} bufsiz 0)

machine-IsReadable : IsReadable machine
machine-IsReadable = record {
  lines = (str_hugepagesz ++ (b' ' ∷ size_text)) ∷ [];
  has_meminfo = refl;
  has_default = λ e. omega (arith, e, machine_default);
  bufs = mount_buffer ∷ [];
  has_mounts = refl;
  are_buffers = (buffer_room, tt);
}

abbrev boot_conf : HugepageConf
boot_conf = record { num_hugepage_sizes = 0; hugepage_info = replicate 3 (pages_of 0) }

hugepage_info_init-Outcome_example :
    Outcome (hugepage_info_init (λ xs. xs) machine one_node 0 boot_conf)
hugepage_info_init-Outcome_example =
    hugepage_info_init-Outcome (λ xs. xs) (λ xs. refl) machine one_node one_node-HasNodes
      machine-IsReadable 0 boot_conf refl (refl, (refl, (refl, tt))) (omega arith)
