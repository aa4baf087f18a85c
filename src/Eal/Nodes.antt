-- ===== src/Eal/Nodes.antt =====
-- The last loop of `eal_cpu_init`: the distinct sockets of a sorted array, in increasing order.
use linux.Common.{
  ℕ, zero, suc, ◌+◌, ◌-◌, ◌≤◌, ◌<◌, ◌^◌, ◌≡◌, refl, ◌≢◌, ap, ◌∙◌, Bool, true, false, ◌||◌, List, [],
  ◌∷◌, Option, some, arith, length, get_or, set, take, get_or_ext, length-set, get_or-set_self,
  get_or-set_ne, length-take, get_or-take, lt→ltb, ◌==◌, ==_iff, if◌then◌else◌, Bool-cases, inl,
  inr, subst, sym,
}
use linux.Eal.Cpu.{collect, socket_id_cmp, greater, max_numa_nodes}

-- Whether a number stands in a list.
abbrev pub has : ℕ → List ℕ → Bool
has a [] = false
has a (x ∷ xs) = a == x || has a xs

-- Every number is below `n`.
abbrev pub AllBelow : ℕ → List ℕ → Type 0
AllBelow n [] = Unit
AllBelow n (x ∷ xs) = (x < n) × AllBelow n xs

-- Each number is larger than the one before it, and the first at least `lo`.
abbrev pub IncreasingFrom : ℕ → List ℕ → Type 0
IncreasingFrom lo [] = Unit
IncreasingFrom lo (x ∷ xs) = (lo ≤ x) × IncreasingFrom (suc x) xs

-- No number is greater than the next, as `socket_id_cmp` compares.
abbrev pub SortedAfter : ℕ → List ℕ → Type 0
SortedAfter p [] = Unit
SortedAfter p (x ∷ xs) = (socket_id_cmp p x ≢ greater) × SortedAfter x xs

abbrev pub IsSorted : List ℕ → Type 0
IsSorted [] = Unit
IsSorted (x ∷ xs) = SortedAfter x xs

-- What the loop stores: each number that differs from the one before it.
abbrev dedup : ℕ → List ℕ → List ℕ
dedup prev [] = []
dedup prev (s ∷ ss) = if s == prev then dedup s ss else s ∷ dedup s ss

abbrev store_all : List ℕ → ℕ → List ℕ → List ℕ
store_all nodes count [] = nodes
store_all nodes count (x ∷ xs) = store_all (set nodes count x) (count + 1) xs

collect-dedup :
    (ss : List ℕ) (prev count : ℕ) (nodes : List ℕ)
    → count + length (dedup prev ss) ≤ length nodes
    → collect ss prev count nodes
      ≡ some (count + length (dedup prev ss), store_all nodes count (dedup prev ss))
unfolding collect
collect-dedup [] prev count nodes h = ap (λ n. some (n, nodes)) (omega arith)
collect-dedup (s ∷ ss) prev count nodes h = elim (Bool-cases (s == prev)) [
  | inl e ↦ rw e (collect-dedup ss s count nodes (rw e at h))
  | inr e ↦
      let h' : count + suc (length (dedup s ss)) ≤ length nodes = rw e at h in
      rw e (
        rw (lt→ltb count (length nodes) (omega arith)) (
          collect-dedup ss s (count + 1) (set nodes count s)
            (omega (arith, length-set nodes count s))
          ∙ ap (λ n. some (n, store_all nodes count (s ∷ dedup s ss))) (omega arith)))
]

store_all-below :
    (d nodes : List ℕ) (count j : ℕ)
    → j < count
    → get_or (store_all nodes count d) j 0 ≡ get_or nodes j 0
store_all-below [] nodes count j h = refl
store_all-below (x ∷ d) nodes count j h =
    store_all-below d (set nodes count x) (count + 1) j (omega arith)
    ∙ get_or-set_ne nodes count j x 0 (omega arith)

store_all-at :
    (d nodes : List ℕ) (count i : ℕ)
    → count + length d ≤ length nodes
    → i < length d
    → get_or (store_all nodes count d) (count + i) 0 ≡ get_or d i 0
store_all-at [] nodes count i h p = absurd (omega arith)
store_all-at (x ∷ d) nodes count zero h p =
    let e : count + 0 ≡ count = omega arith in
    rw e (
      store_all-below d (set nodes count x) (count + 1) count (omega arith)
      ∙ get_or-set_self nodes count x 0 (omega arith))
store_all-at (x ∷ d) nodes count (suc i) h p =
    let e : count + suc i ≡ count + 1 + i = omega arith in
    rw e (
      store_all-at d (set nodes count x) (count + 1) i (omega (arith, length-set nodes count x))
        (omega arith))

length-store_all : (d nodes : List ℕ) (count : ℕ) → length (store_all nodes count d) ≡ length nodes
length-store_all [] nodes count = refl
length-store_all (x ∷ d) nodes count =
    length-store_all d (set nodes count x) (count + 1) ∙ length-set nodes count x

take-store_all :
    (d nodes : List ℕ) → length d ≤ length nodes → take (length d) (store_all nodes 0 d) ≡ d
take-store_all d nodes h =
    get_or_ext 0 (take (length d) (store_all nodes 0 d)) d
      (omega (arith, length-take (length d) (store_all nodes 0 d), length-store_all d nodes 0))
      λ i p.
        let i<d : i < length d = omega (arith, length-take (length d) (store_all nodes 0 d)) in
        let e : i ≡ 0 + i = omega arith in
        get_or-take (length d) (store_all nodes 0 d) i 0 i<d
        ∙ ap (λ k. get_or (store_all nodes 0 d) k 0) e
        ∙ store_all-at d nodes 0 i (omega arith) i<d

-- Socket numbers are small, so that the comparison of `int`s is that of the numbers.
le_of_cmp : (a b : ℕ) → a < 8 → b < 8 → socket_id_cmp a b ≢ greater → a ≤ b
unfolding socket_id_cmp
le_of_cmp a b p q h = ground arith

dedup-Increasing :
    (ss : List ℕ) (prev : ℕ)
    → prev < 8
    → AllBelow 8 ss
    → SortedAfter prev ss
    → IncreasingFrom (suc prev) (dedup prev ss)
dedup-Increasing [] prev p b s = tt
dedup-Increasing (x ∷ ss) prev p b s = elim (Bool-cases (x == prev)) [
  | inl e ↦
      let e' = (==_iff x prev).0 e in
      rw e (subst (λ y. IncreasingFrom (suc y) (dedup x ss)) e' (dedup-Increasing ss x b.0 b.1 s.1))
  | inr e ↦ rw e (ground (arith, le_of_cmp prev x p b.0 s.0), dedup-Increasing ss x b.0 b.1 s.1)
]

dedup-AllBelow : (n : ℕ) (ss : List ℕ) (prev : ℕ) → AllBelow n ss → AllBelow n (dedup prev ss)
dedup-AllBelow n [] prev b = tt
dedup-AllBelow n (x ∷ ss) prev b = elim (Bool-cases (x == prev)) [
  | inl e ↦ rw e (dedup-AllBelow n ss x b.1)
  | inr e ↦ rw e (b.0, dedup-AllBelow n ss x b.1)
]

or_same : (a b : Bool) → (a || (a || b)) ≡ (a || b)
or_same true b = refl
or_same false b = refl

-- With `prev` among them, the stored numbers are those of the array.
has-dedup :
    (a : ℕ) (ss : List ℕ) (prev : ℕ)
    → (a == prev || has a (dedup prev ss)) ≡ (a == prev || has a ss)
has-dedup a [] prev = refl
has-dedup a (x ∷ ss) prev = elim (Bool-cases (x == prev)) [
  | inl e ↦
      let x≡prev = (==_iff x prev).0 e in
      rw e (
        subst (λ y. (a == y || has a (dedup x ss)) ≡ (a == y || (a == x || has a ss))) x≡prev
          (has-dedup a ss x ∙ sym (or_same (a == x) (has a ss))))
  | inr e ↦ rw e (ap (λ b. a == prev || b) (has-dedup a ss x))
]

length-Increasing :
    (d : List ℕ) (lo n : ℕ) → lo ≤ n → AllBelow n d → IncreasingFrom lo d → lo + length d ≤ n
length-Increasing [] lo n h b i = omega arith
length-Increasing (x ∷ d) lo n h b i =
    omega (arith, i.0, length-Increasing d (suc x) n (omega (arith, b.0)) b.1 i.1)

-- Strictly increasing numbers, which are those of `sockets`.
pub record Distinct (sockets nodes : List ℕ) : Type 0 where
  pub increasing : IncreasingFrom 0 nodes
  pub members : (a : ℕ) → has a nodes ≡ has a sockets

-- What the loop leaves in `numa_node_count` and `numa_nodes`.
pub record Collected (sockets : List ℕ) (stored : Option (ℕ × List ℕ)) : Type 0 where
  pub count : ℕ
  pub nodes : List ℕ
  pub is_stored : stored ≡ some (count, nodes)
  pub count_le : count ≤ max_numa_nodes
  pub distinct : Distinct sockets (take count nodes)

Distinct-dedup :
    (x : ℕ) (ss : List ℕ)
    → AllBelow 8 (x ∷ ss)
    → IsSorted (x ∷ ss)
    → Distinct (x ∷ ss) (x ∷ dedup x ss)
Distinct-dedup x ss b s = record {
  increasing = (omega arith, dedup-Increasing ss x b.0 b.1 s);
  members = λ a. has-dedup a ss x;
}

-- Sorted numbers of nodes are collected without a store outside `numa_nodes`.
pub collect-Collected :
    (ss nodes : List ℕ)
    → length nodes ≡ 8
    → AllBelow 8 ss
    → IsSorted ss
    → Collected ss (collect ss (2 ^ 32 - 1) 0 nodes)
collect-Collected [] nodes l b s = record {
  count = 0;
  nodes = nodes;
  is_stored = collect-dedup [] (2 ^ 32 - 1) 0 nodes (omega arith);
  count_le = omega arith;
  distinct = record { increasing = tt; members = λ a. refl };
}
collect-Collected (x ∷ ss) nodes l b s =
    let d = x ∷ dedup x ss in
    let all = Distinct-dedup x ss b s in
    let first : dedup (2 ^ 32 - 1) (x ∷ ss) ≡ d = ground (arith, b.0) in
    let below : length d ≤ 8 = omega (
      arith,
      length-Increasing d 0 8 (omega arith) (b.0, dedup-AllBelow 8 ss x b.1) all.increasing,
    ) in
    let kept : take (length d) (store_all nodes 0 d) ≡ d = take-store_all d nodes (omega arith) in
    record {
      count = length d;
      nodes = store_all nodes 0 d;
      is_stored =
          subst
            (λ c.
              0 + length c ≤ length nodes
              → collect (x ∷ ss) (2 ^ 32 - 1) 0 nodes ≡ some (0 + length c, store_all nodes 0 c))
            first (collect-dedup (x ∷ ss) (2 ^ 32 - 1) 0 nodes) (omega arith)
          ∙ ap (λ n. some (n, store_all nodes 0 d)) (omega arith);
      count_le = below;
      distinct = subst (Distinct (x ∷ ss)) (sym kept) all;
    }
