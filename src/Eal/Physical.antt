-- ===== src/Eal/Physical.antt =====
-- dpdk_eal/mem.c, the physical addresses of pages. What the system answers about /proc/self/pagemap is
-- a parameter.
pub mod Translate
mod Tests
use linux.Common.{
  ℕ, zero, suc, ◌+◌, ◌-◌, ◌*◌, ◌/◌, ◌%◌, ◌^◌, bit_and, Bool, true, false, not, Option, none, some,
  List, [], ◌∷◌, ◌==◌, if◌then◌else◌, ◌>>=◌,
}

-- `RTE_BAD_IOVA` and `RTE_BAD_PHYS_ADDR`
abbrev pub bad_iova : ℕ
bad_iova = 2 ^ 64 - 1

-- The bits of an entry of the page map that hold the frame number.
abbrev pub pfn_mask : ℕ
pfn_mask = 0x7f_ffff_ffff_ffff

-- What `read` of an entry gives.
pub data Read : Type 0 where
  read_error : Read
  short : ℕ → Read
  entry : ℕ → Read

-- `getpagesize`, whether `open` and `lseek` succeed, and what `read` gives at an offset.
pub record Pagemap : Type 0 where
  pub page_size : ℕ
  pub opens : Bool
  pub seeks : ℕ → Bool
  pub read_at : ℕ → Read

-- `rte_mem_virt2phy`, with `phys_addrs_available` as it stands.
unfoldable pub mem_virt2phy : Pagemap → (phys_addrs_available : Bool) → (virtaddr : ℕ) → ℕ
mem_virt2phy map phys_addrs_available virtaddr =
    let offset = (8 * (virtaddr / map.page_size)) % 2 ^ 64 in
    if not phys_addrs_available
    then bad_iova
    else if not map.opens
    then bad_iova
    else if not (map.seeks offset)
    then bad_iova
    else elim (map.read_at offset) [
      | read_error ↦ bad_iova
      | short n ↦ bad_iova
      | entry page ↦
          if bit_and page pfn_mask == 0
          then bad_iova
          else (bit_and page pfn_mask * map.page_size + virtaddr % map.page_size) % 2 ^ 64
    ]

-- `enum rte_iova_mode`
pub data IovaMode : Type 0 where
  iova_dc iova_pa iova_va : IovaMode

-- `rte_eal_iova_mode`
unfoldable pub eal_iova_mode : IovaMode
eal_iova_mode = iova_pa

-- `rte_mem_virt2iova`
unfoldable pub mem_virt2iova : Pagemap → Bool → ℕ → ℕ
mem_virt2iova map phys_addrs_available virtaddr = elim eal_iova_mode [
  | iova_va ↦ virtaddr
  | _ ↦ mem_virt2phy map phys_addrs_available virtaddr
]

-- `test_phys_addrs_available`: the flag after the call, with `tmp` the address of its variable.
unfoldable pub test_phys_addrs_available : Pagemap → (tmp : ℕ) → Bool → Bool
test_phys_addrs_available map tmp phys_addrs_available =
    if mem_virt2phy map phys_addrs_available tmp == bad_iova then false else phys_addrs_available

-- `struct hugepage_file`
pub record HugepageFile : Type 0 where
  pub orig_va : ℕ
  pub final_va : ℕ
  pub physaddr : ℕ
  pub size : ℕ
  pub socket_id : ℕ
  pub file_id : ℕ
  pub filepath : List ℕ

-- The loop of `find_physaddrs` over the table's entries, with `left` of them to fill: the table, and
-- whether it returns 0. `none` is an access behind the table.
unfoldable pub find_physaddrs :
    Pagemap → Bool → (left : ℕ) → List HugepageFile → Option (Bool × List HugepageFile)
find_physaddrs map available zero tbl = some (true, tbl)
find_physaddrs map available (suc left) [] = none
find_physaddrs map available (suc left) (f ∷ fs) =
    let addr = mem_virt2phy map available f.orig_va in
    let rest = find_physaddrs map available left fs >>= λ r.
    some (r.0, record f { physaddr = addr } ∷ r.1) in
    if addr == bad_iova then some (false, f ∷ fs) else rest

-- `set_physaddrs`, with the static `addr` before and after: it returns 0.
unfoldable pub set_physaddrs : (left addr : ℕ) → List HugepageFile → Option (ℕ × List HugepageFile)
set_physaddrs zero addr tbl = some (addr, tbl)
set_physaddrs (suc left) addr [] = none
set_physaddrs (suc left) addr (f ∷ fs) = do
  r ← set_physaddrs left ((addr + f.size) % 2 ^ 64) fs
  some (r.0, record f { physaddr = addr } ∷ r.1)
