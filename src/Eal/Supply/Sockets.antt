-- ===== src/Eal/Supply/Sockets.antt =====
-- The loop of `calc_num_pages_per_socket` over the nodes, and the function as a whole.
use linux.Common.{
  ℕ, zero, suc, ◌+◌, ◌%◌, ◌≤◌, ◌<◌, ◌≡◌, refl, ◌≢◌, ◌∙◌, sym, ◌⊎◌, true, false, not, ◌&&◌, some,
  List, get_or, set, length, ltb, ◌==◌, ==_iff, Bool-cases, inl, inr, arith, u32_mod, get_or-set_ne,
}
use native.Mathlib.Decide.{dec_le}
use linux.Eal.Cpu.{max_numa_nodes}
use linux.Eal.Supply.{
  HugepageInfo, InternalConfig, Tally, failed, pages, fill_sockets, calc_num_pages_per_socket,
  u64_mod,
}
use linux.Eal.Supply.Amounts.{memory_on, IsKept, IsKept-refl}
use linux.Eal.Supply.Fill.{fill_sizes-IsFilled}
use linux.Eal.Supply.Kept.{
  need_from, HasEnough, HasRoom, AllFresh, IsSupplied, pages_from, kept_IsWithin, kept_sums,
  IsKept-trans, kept_AllFresh, nothing-IsSupplied, nothing-HasEnough,
}

module _ (cfg : InternalConfig) (info : List HugepageInfo) (need : ℕ → ℕ) where
  -- `memory` holds what is asked of the nodes from `socket` on.
  abbrev Asks : List ℕ → ℕ → Type 0
  Asks memory socket = (s : ℕ) → socket ≤ s → get_or memory s 0 ≡ need s

  Asks-set :
      (memory : List ℕ) (socket v : ℕ)
      → Asks memory socket
      → Asks (set memory socket v) (socket + 1)
  Asks-set memory socket v a s le =
      get_or-set_ne memory socket s v 0 (omega arith) ∙ a s (omega arith)

  -- Where each node has enough.
  fill_sockets-supplies :
      (left socket : ℕ) (used : List HugepageInfo) (memory : List ℕ) (total count : ℕ)
      → Asks memory socket
      → AllFresh info used left socket
      → HasRoom info left socket
      → total ≡ need_from need left socket
      → total < u64_mod
      → count < u32_mod
      → HasEnough info need left socket
      → (n : ℕ) × (used' : List HugepageInfo) × (fill_sockets cfg left socket info used memory total
            count
          ≡ some (pages n used'))
        × IsSupplied info used' need left socket
        × (n ≡ (count + pages_from used' left socket) % u32_mod)
        × ((s : ℕ) → s < socket → IsKept s used used')
  unfolding fill_sockets
  fill_sockets-supplies zero socket used memory total count asks fresh room sum lt few enough = (
    count,
    used,
    (let e : ltb 0 total ≡ false = ground (arith, sum) in rw e refl),
    tt,
    omega (arith, few),
    λ s l. IsKept-refl s used,
  )
  fill_sockets-supplies (suc left) socket used memory total count asks fresh room sum lt few
        enough =
      let t : Tally = record {
        memory = get_or memory socket 0;
        total_mem = total;
        total_num_pages = count;
      } in
      let asked : t.memory ≡ need socket = asks socket (omega arith) in
      let (used1, t1, e, f) =
        fill_sizes-IsFilled socket info used t fresh.0 room.0 (omega (arith, asked, sum)) lt few in
      let done : t1.memory ≡ 0 = omega (arith, f.left, asked, enough.0) in
      let go : ltb 0 t1.memory ≡ false = ground (arith, done) in
      let (n, used', e', supplied, counted, kept) =
        fill_sockets-supplies left (socket + 1) used1 (set memory socket t1.memory) t1.total_mem
          t1.total_num_pages (Asks-set memory socket t1.memory asks)
          (kept_AllFresh info used used1 left (socket + 1) (λ s l. f.others s (omega arith))
            fresh.1)
          room.1 (omega (arith, f.spent, done, asked, sum)) (omega (arith, f.spent, lt))
          (omega (arith, f.counted)) enough.1 in
      let here = kept socket (omega arith) in
      let sums = kept_sums socket used1 used' here in
      elim (Bool-cases (total == 0)) [
        | inl z ↦
            let nothing : need_from need (suc left) socket ≡ 0 = sym sum ∙ (==_iff total 0).0 z in
            let g = nothing-IsSupplied info used need (suc left) socket fresh nothing in
            (count, used, rw z refl, g.0, omega (arith, g.1, few), λ s l. IsKept-refl s used)
        | inr z ↦ (
          n,
          used',
          rw (z, e, go) e',
          (
            kept_IsWithin socket info used1 used' here f.within,
            omega (arith, f.met, done, asked, sums.0),
            supplied,
          ),
          omega (arith, counted, f.counted, sums.1),
          λ s l. IsKept-trans s used used1 used' (f.others s (omega arith)) (kept s (omega arith)),
        )
      ]

  -- Where a node has not enough, or where something could not be met before.
  fill_sockets-failed :
      (left socket : ℕ) (used : List HugepageInfo) (memory : List ℕ) (total count unmet : ℕ)
      → Asks memory socket
      → AllFresh info used left socket
      → HasRoom info left socket
      → total ≡ need_from need left socket + unmet
      → total < u64_mod
      → count < u32_mod
      → (0 < unmet) ⊎ (HasEnough info need left socket → ⊥)
      → fill_sockets cfg left socket info used memory total count ≡ some failed
  unfolding fill_sockets
  fill_sockets-failed zero socket used memory total count unmet asks fresh room sum lt few why =
      let debt : 0 < unmet = elim why [ inl d ↦ d | inr not_enough ↦ absurd (not_enough tt) ] in
      let e : ltb 0 total ≡ true = ground (arith, sum, debt) in rw e refl
  fill_sockets-failed (suc left) socket used memory total count unmet asks fresh room sum lt few
        why =
      let t : Tally = record {
        memory = get_or memory socket 0;
        total_mem = total;
        total_num_pages = count;
      } in
      let asked : t.memory ≡ need socket = asks socket (omega arith) in
      let (used1, t1, e, f) =
        fill_sizes-IsFilled socket info used t fresh.0 room.0 (omega (arith, asked, sum)) lt few in
      let why' : (0 < unmet + t1.memory) ⊎ (HasEnough info need left (socket + 1) → ⊥) = elim why [
        | inl d ↦ inl (omega (arith, d))
        | inr not_enough ↦ elim (dec_le (need socket) (memory_on socket info)) [
          | yes le ↦ inr (λ rest. not_enough (le, rest))
          | no short ↦ inl (omega (arith, f.left, asked, short))
        ]
      ] in
      let later =
        fill_sockets-failed left (socket + 1) used1 (set memory socket t1.memory) t1.total_mem
          t1.total_num_pages (unmet + t1.memory) (Asks-set memory socket t1.memory asks)
          (kept_AllFresh info used used1 left (socket + 1) (λ s l. f.others s (omega arith))
            fresh.1)
          room.1 (omega (arith, f.spent, f.left, asked, sum)) (omega (arith, f.spent, lt))
          (omega (arith, f.counted)) why' in
      elim (Bool-cases (total == 0)) [
        | inl z ↦
            let nothing : total ≡ 0 = (==_iff total 0).0 z in
            absurd (elim why [
              | inl d ↦ omega (arith, d, nothing, sum)
              | inr not_enough ↦
                  not_enough
                    (nothing-HasEnough info need (suc left) socket (omega (arith, nothing, sum)))
            ])
        | inr z ↦ elim (Bool-cases (ltb 0 t1.memory && not (get_or cfg.socket_mem socket 0 == 0))) [
          | inl b ↦ rw (z, e, b) refl
          | inr b ↦ rw (z, e, b) later
        ]
      ]

HasEnough-cases :
    (info : List HugepageInfo) (need : ℕ → ℕ) (left socket : ℕ)
    → HasEnough info need left socket ⊎ (HasEnough info need left socket → ⊥)
HasEnough-cases info need zero socket = inl tt
HasEnough-cases info need (suc left) socket = elim (dec_le (need socket) (memory_on socket info)) [
  | no short ↦ inr (λ h. short h.0)
  | yes le ↦ elim (HasEnough-cases info need left (socket + 1)) [
    | inl rest ↦ inl (le, rest)
    | inr not_rest ↦ inr (λ h. not_rest h.1)
  ]
]

-- What is asked of the nodes by the array `memory`.
abbrev pub asked_by : List ℕ → ℕ → ℕ
asked_by memory s = get_or memory s 0

-- Where amounts are asked of the nodes, they add up to `internal_config.memory`, there is a page size,
-- `hp_used` has the sizes and no pages yet, no size is 0, and the memory of each node's pages can be
-- added up in 64 bits: `calc_num_pages_per_socket` succeeds exactly where each node has pages for at
-- least what is asked of it. It then takes on each node pages that the node has, for at least what is
-- asked of it, and returns their number, as a 32-bit number; otherwise it returns -1.
pub calc_num_pages_per_socket-supplies :
    (cfg : InternalConfig) (cores : List ℕ) (lcore_count : ℕ) (socket_mem_size : ℕ → ℕ)
    (info used : List HugepageInfo) (memory : List ℕ)
    → cfg.force_sockets ≢ 0
    → 0 < length info
    → cfg.memory < u64_mod
    → need_from (asked_by memory) max_numa_nodes 0 ≡ cfg.memory
    → AllFresh info used max_numa_nodes 0
    → HasRoom info max_numa_nodes 0
    → (HasEnough info (asked_by memory) max_numa_nodes 0
        × ((n : ℕ) × (used' : List HugepageInfo) × (calc_num_pages_per_socket cfg cores lcore_count
                socket_mem_size memory info used
              ≡ some (pages n used'))
            × IsSupplied info used' (asked_by memory) max_numa_nodes 0
            × (n ≡ pages_from used' max_numa_nodes 0 % u32_mod)))
      ⊎ ((HasEnough info (asked_by memory) max_numa_nodes 0 → ⊥)
          × (calc_num_pages_per_socket cfg cores lcore_count socket_mem_size memory info used
              ≡ some failed))
unfolding calc_num_pages_per_socket
calc_num_pages_per_socket-supplies cfg cores lcore_count socket_mem_size info used memory forced
      sizes lt sum fresh room =
    let f : (cfg.force_sockets == 0) ≡ false = ground (arith, forced) in
    let l : (length info == 0) ≡ false = ground (arith, sizes) in
    elim (HasEnough-cases info (asked_by memory) max_numa_nodes 0) [
      | inl enough ↦
          let (n, used', e, supplied, counted, kept) =
            fill_sockets-supplies cfg info (asked_by memory) max_numa_nodes 0 used memory cfg.memory
              0 (λ s l. refl) fresh room (sym sum) lt (omega arith) enough in
          inl (enough, (n, used', rw (f, l) e, supplied, omega (arith, counted)))
      | inr not_enough ↦ inr (
        not_enough,
        rw (f, l)
            (fill_sockets-failed cfg info (asked_by memory) max_numa_nodes 0 used memory cfg.memory
              0 0 (λ s l. refl) fresh room (omega (arith, sum)) lt (omega arith) (inr not_enough)),
      )
    ]
