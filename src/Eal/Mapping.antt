-- ===== src/Eal/Mapping.antt =====
-- dpdk_eal/mem.c, `eal_hugepage_init`: taking the calculated pages from the allocator.
-- `eal_memalloc_alloc_seg_bulk` is not in the repository and is a parameter, and `malloc` gives memory.
-- A segment is its address. `none` is a division by 0.
pub mod Taken
mod Tests
use linux.Common.{
  ℕ, zero, suc, ◌+◌, Bool, true, false, Option, none, some, List, [], ◌∷◌, ◌++◌, replicate, ◌==◌,
  if◌then◌else◌, ◌>>=◌,
}
use linux.Eal.Cpu.{max_numa_nodes}
use linux.Eal.Supply.{
  HugepageInfo, InternalConfig, Supply, failed, pages, pages_on, calc_num_pages_per_socket,
}
use linux.Eal.Physical.{Pagemap, test_phys_addrs_available}

-- `used_hp` before the calculation: the sizes, and 0 elsewhere.
abbrev pub blank : List HugepageInfo → List HugepageInfo
blank [] = []
blank (h ∷ hs) =
    record {
      hugepage_sz = h.hugepage_sz;
      hugedir = [];
      numa_node_count = 0;
      num_pages = replicate max_numa_nodes 0;
      lock_descriptor = 0;
    }
    ∷ blank hs

-- The segments that the allocator stores for a number of pages of a size on a node, as many as the number
-- that it returns, or `none` where it returns a number below 0.
abbrev pub Allocator : Type 0
Allocator = (num_pages size socket_id : ℕ) → Option (List ℕ)

-- Whether the segment at an address has RTE_MEMSEG_FLAG_DO_NOT_FREE.
abbrev pub SegmentFlags : Type 0
SegmentFlags = ℕ → Bool

-- The loop that marks the segments `pages[i]`.
unfoldable pub mark_pages : (segments : List ℕ) → SegmentFlags → SegmentFlags
mark_pages [] flags = flags
mark_pages (ms ∷ segments) flags = mark_pages segments (λ p. if p == ms then true else flags p)

-- The loop over the nodes for a size, with `left` of them to look at from `socket_id` on.
unfoldable pub take_nodes :
    Allocator → HugepageInfo → (left socket_id : ℕ) → SegmentFlags → Bool × SegmentFlags
take_nodes alloc hpi zero socket_id flags = (true, flags)
take_nodes alloc hpi (suc left) socket_id flags =
    let skipped = take_nodes alloc hpi left (socket_id + 1) flags in
    let taken : Bool × SegmentFlags =
      elim (alloc (pages_on socket_id hpi) hpi.hugepage_sz socket_id) [
        | none ↦ (false, flags)
        | some segments ↦ take_nodes alloc hpi left (socket_id + 1) (mark_pages segments flags)
      ] in
    if pages_on socket_id hpi == 0 then skipped else taken

-- The loop over the sizes.
unfoldable pub take_sizes : Allocator → List HugepageInfo → SegmentFlags → Bool × SegmentFlags
take_sizes alloc [] flags = (true, flags)
take_sizes alloc (h ∷ hs) flags =
    let r = take_nodes alloc h max_numa_nodes 0 flags in
    let rest = take_sizes alloc hs r.1 in if r.0 then rest else (false, r.1)

-- What `eal_hugepage_init` leaves: whether it returns 0, the flags of the segments, and
-- `phys_addrs_available`.
pub record Mapped : Type 0 where
  pub ok : Bool
  pub flags : SegmentFlags
  pub phys_addrs_available : Bool

-- `eal_hugepage_init`, with the sizes of `mem_hugepage_conf` that are in use, the address `tmp` of a
-- variable of `test_phys_addrs_available`, and what its array `memory` holds at its declaration.
unfoldable pub eal_hugepage_init :
    Allocator
    → Pagemap
    → InternalConfig
    → (cores : List ℕ) → (lcore_count : ℕ) → (socket_mem_size : ℕ → ℕ) → (info : List HugepageInfo)
    → (memory : List ℕ) → (tmp : ℕ) → (available : Bool) → SegmentFlags
    → Option Mapped
eal_hugepage_init alloc map cfg cores lcore_count socket_mem_size info memory tmp available flags =
    do
      s ← calc_num_pages_per_socket cfg cores lcore_count socket_mem_size memory info (blank info)
      let available' = test_phys_addrs_available map tmp available
      elim s [
        | failed ↦ some (record { ok = false; flags = flags; phys_addrs_available = available' })
        | pages count used ↦
            let r = take_sizes alloc used flags in
            some (record { ok = r.0; flags = r.1; phys_addrs_available = available' })
      ]
