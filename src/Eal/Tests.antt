-- ===== src/Eal/Tests.antt =====
-- Runs and instances of the code of dpdk_eal.
use linux.Common.{
  ℕ, suc, ◌≡◌, refl, ◌≢◌, ap, ◌∙◌, Bool, true, false, ◌||◌, ◌&&◌, if◌then◌else◌, List, [], ◌∷◌,
  Option, none, some, arith, length, replicate, ◌==◌, ltb, Bool-cases, inl, inr, take,
}
use linux.Eal.Cpu.{
  Sysfs, EalConfig, cpu_init, cpu_socket_id, detect, detect_one, cpu_detected, collect,
  search_socket, boot_config, socket_id_cmp, less, greater, same, Comparison, max_lcore,
  socket_count, socket_id_by_idx,
}
use linux.Eal.Nodes.{has, IsSorted, SortedAfter}
use linux.Eal.Init.{Sorts, Declared, Initialised, core_nodes, cpu_init-Initialised, cpu_init_gap}

-- A sort by insertion stands for `qsort`.
abbrev after : Comparison → Bool
after greater = true
after _ = false

abbrev insert : ℕ → List ℕ → List ℕ
insert a [] = a ∷ []
insert a (x ∷ xs) =
    let rest = insert a xs in if after (socket_id_cmp a x) then x ∷ rest else a ∷ x ∷ xs

abbrev insertion_sort : List ℕ → List ℕ
insertion_sort [] = []
insertion_sort (x ∷ xs) = insert x (insertion_sort xs)

length-insert : (a : ℕ) (xs : List ℕ) → length (insert a xs) ≡ suc (length xs)
length-insert a [] = refl
length-insert a (x ∷ xs) = elim (Bool-cases (after (socket_id_cmp a x))) [
  | inl e ↦ rw e (ap suc (length-insert a xs))
  | inr e ↦ rw e refl
]

or_swap : (a b c : Bool) → (a || (b || c)) ≡ (b || (a || c))
or_swap true true c = refl
or_swap true false c = refl
or_swap false b c = refl

has-insert : (b a : ℕ) (xs : List ℕ) → has b (insert a xs) ≡ (b == a || has b xs)
has-insert b a [] = refl
has-insert b a (x ∷ xs) = elim (Bool-cases (after (socket_id_cmp a x))) [
  | inl e ↦ rw e (ap (λ c. b == x || c) (has-insert b a xs) ∙ or_swap (b == x) (b == a) (has b xs))
  | inr e ↦ rw e refl
]

not_after : (c : Comparison) → after c ≡ false → c ≢ greater
not_after less h = ground arith
not_after greater h = ground (arith, h)
not_after same h = ground arith

cmp_other : (a x : ℕ) → after (socket_id_cmp a x) ≡ true → socket_id_cmp x a ≢ greater
unfolding socket_id_cmp
cmp_other a x h = ground arith

insert-SortedAfter :
    (p a : ℕ) (xs : List ℕ)
    → socket_id_cmp p a ≢ greater
    → SortedAfter p xs
    → SortedAfter p (insert a xs)
insert-SortedAfter p a [] h s = (h, tt)
insert-SortedAfter p a (x ∷ xs) h s = elim (Bool-cases (after (socket_id_cmp a x))) [
  | inl e ↦ rw e (s.0, insert-SortedAfter x a xs (cmp_other a x e) s.1)
  | inr e ↦ rw e (h, (not_after (socket_id_cmp a x) e, s.1))
]

insert-IsSorted : (a : ℕ) (xs : List ℕ) → IsSorted xs → IsSorted (insert a xs)
insert-IsSorted a [] s = tt
insert-IsSorted a (x ∷ xs) s = elim (Bool-cases (after (socket_id_cmp a x))) [
  | inl e ↦ rw e (insert-SortedAfter x a xs (cmp_other a x e) s)
  | inr e ↦ rw e (not_after (socket_id_cmp a x) e, s)
]

length-insertion_sort : (xs : List ℕ) → length (insertion_sort xs) ≡ length xs
length-insertion_sort [] = refl
length-insertion_sort (x ∷ xs) =
    length-insert x (insertion_sort xs) ∙ ap suc (length-insertion_sort xs)

has-insertion_sort : (a : ℕ) (xs : List ℕ) → has a (insertion_sort xs) ≡ has a xs
has-insertion_sort a [] = refl
has-insertion_sort a (x ∷ xs) =
    has-insert a x (insertion_sort xs) ∙ ap (λ c. a == x || c) (has-insertion_sort a xs)

insertion_sort-IsSorted : (xs : List ℕ) → IsSorted (insertion_sort xs)
insertion_sort-IsSorted [] = tt
insertion_sort-IsSorted (x ∷ xs) =
    insert-IsSorted x (insertion_sort xs) (insertion_sort-IsSorted xs)

insertion_sort-Sorts : Sorts insertion_sort
insertion_sort-Sorts = record {
  length-qsort = length-insertion_sort;
  has-qsort = has-insertion_sort;
  qsort-IsSorted = insertion_sort-IsSorted;
}

-- Four cores, the first and the third on node 1, the others on node 0.
abbrev four_cores : Sysfs
four_cores = record {
  node_cpu = λ node core.
      (node == 1 && (core == 0 || core == 2)) || (node == 0 && (core == 1 || core == 3));
  cpu_core_id = λ core. ltb core 4;
  core_id_value = λ core. some core;
}

-- One core, number 3, on node 2.
abbrev core_three : Sysfs
core_three = record {
  node_cpu = λ node core. node == 2 && core == 3;
  cpu_core_id = λ core. core == 3;
  core_id_value = λ core. some 0;
}

abbrev no_cores : Sysfs
no_cores = record {
  node_cpu = λ node core. false;
  cpu_core_id = λ core. false;
  core_id_value = λ core. none;
}

-- What the local array holds at its declaration.
abbrev old_stack : List ℕ
old_stack = replicate max_lcore 77

boot-Declared : Declared old_stack boot_config
boot-Declared = record { garbage_length = refl; cores_length = refl; nodes_length = refl }

-- The nodes that the four cores' run stores.
abbrev nodes_found : Option (Bool × EalConfig) → List ℕ
nodes_found none = []
nodes_found (some r) = take (r.1.numa_node_count) (r.1.numa_nodes)

four_cores_nodes :
    nodes_found (cpu_init insertion_sort old_stack four_cores boot_config) ≡ 0 ∷ 1 ∷ []
unfolding cpu_init detect detect_one cpu_detected collect socket_id_cmp cpu_socket_id search_socket
four_cores_nodes = refl

core_three_nodes : nodes_found (cpu_init insertion_sort old_stack core_three boot_config) ≡ 77 ∷ []
unfolding cpu_init detect detect_one cpu_detected collect
core_three_nodes = refl

cpu_init-Initialised_example :
    Initialised 4
      (core_nodes four_cores 0 4)
      (cpu_init insertion_sort old_stack four_cores boot_config)
cpu_init-Initialised_example =
    cpu_init-Initialised insertion_sort old_stack four_cores boot_config 4 insertion_sort-Sorts
      boot-Declared (omega arith) (omega arith) (λ i p. ground (arith, p))
      (λ i p q. ground (arith, p))

cpu_init_gap_example :
    (end : EalConfig) × ((cpu_init insertion_sort old_stack core_three boot_config
        ≡ some (true, end))
      × ((socket_count end ≡ 1) × (socket_id_by_idx end 0 ≡ some 77)))
cpu_init_gap_example =
    cpu_init_gap insertion_sort old_stack core_three boot_config 3 insertion_sort-Sorts
      boot-Declared (omega arith) (omega arith) (λ i p q. ground (arith, q)) refl
      (λ i p q. ground (arith, p)) (omega arith)
