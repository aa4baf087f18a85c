-- ===== src/Eal/Physical/Tests.antt =====
-- Runs and instances of the physical addresses.
use linux.Common.{
  ℕ, ◌+◌, ◌^◌, ◌≡◌, refl, true, false, some, List, [], ◌∷◌, arith, ◌==◌, if◌then◌else◌,
}
use linux.Eal.Physical.{
  Pagemap, entry, short, mem_virt2phy, mem_virt2iova, eal_iova_mode, test_phys_addrs_available,
  bad_iova, HugepageFile, set_physaddrs,
}
use linux.Eal.Physical.Translate.{IsMapped, IsLaidOut, SameFiles, set_physaddrs-IsLaidOut}

-- Page 2 stands in frame 7 and is present, which is bit 63 of its entry; no other page has an entry.
abbrev one_page : Pagemap
one_page = record {
  page_size = 4096;
  opens = true;
  seeks = λ o. true;
  read_at = λ o. if o == 16 then entry (2 ^ 63 + 7) else short 0;
}

virt2phy_run : mem_virt2phy one_page true 8200 ≡ 28680
unfolding mem_virt2phy
virt2phy_run = refl

virt2iova_run : mem_virt2iova one_page true 4096 ≡ bad_iova
unfolding mem_virt2iova mem_virt2phy eal_iova_mode
virt2iova_run = refl

unavailable_run : test_phys_addrs_available one_page 4096 true ≡ false
unfolding test_phys_addrs_available mem_virt2phy
unavailable_run = refl

mapped : IsMapped one_page 8200 (2 ^ 63 + 7)
mapped = record {
  pages = omega arith;
  opened = refl;
  sought = refl;
  given = refl;
  present = omega arith;
  in_range = omega arith;
}

abbrev file_at : ℕ → HugepageFile
file_at va = record {
  orig_va = va;
  final_va = 0;
  physaddr = 0;
  size = 4096;
  socket_id = 0;
  file_id = 0;
  filepath = [];
}

abbrev files : List HugepageFile
files = file_at 8192 ∷ file_at 4096 ∷ file_at 0 ∷ []

set_physaddrs-IsLaidOut_example :
    (tbl' : List HugepageFile) × (set_physaddrs 2 4096 files ≡ some (12288, tbl'))
    × IsLaidOut 2 4096 tbl'
    × SameFiles 2 files tbl'
set_physaddrs-IsLaidOut_example = set_physaddrs-IsLaidOut 2 4096 files (omega arith) (omega arith)
