-- ===== src/Eal/Detect.antt =====
-- The first loop of `eal_cpu_init`: what it leaves of each core.
use linux.Common.{
  ℕ, zero, suc, ◌+◌, ◌≤◌, ◌<◌, ◌≡◌, refl, sym, ◌≢◌, ap, ◌∙◌, Bool, true, false, if◌then◌else◌, List,
  [], ◌∷◌, arith, length, get_or, set, length-set, get_or-set_self, get_or-set_ne, ==_iff, ◌==◌,
  Bool-cases, inl, inr, subst,
}
use linux.Eal.Cpu.{
  Sysfs, LcoreConfig, Found, no_lcore, cpu_detected, cpu_core_id, cpu_socket_id, search_socket,
  detect_one, detect, max_numa_nodes,
}

-- How many of the cores below `n` sysfs shows.
abbrev pub shown_below : Sysfs → ℕ → ℕ
shown_below sys zero = 0
shown_below sys (suc n) =
    let rest = shown_below sys n in if sys.cpu_core_id n then suc rest else rest

-- What core `i`'s entry becomes from `old`: one that sysfs shows gets its socket, its core number,
-- and its rank among the cores shown; another one gets its socket only.
abbrev pub seen_core : Sysfs → ℕ → LcoreConfig → LcoreConfig
seen_core sys i old =
    if sys.cpu_core_id i
    then record {
      detected = 1;
      socket_id = cpu_socket_id sys i;
      core_id = cpu_core_id sys i;
      core_index = shown_below sys i;
    }
    else record old { detected = 0; socket_id = cpu_socket_id sys i }

abbrev pub seen_socket : Sysfs → ℕ → ℕ → ℕ
seen_socket sys i old = if sys.cpu_core_id i then cpu_socket_id sys i else old

-- The state after the cores below `n`, from the arrays `cores` and `sockets`.
pub record Seen (sys : Sysfs) (n : ℕ) (start f : Found) : Type 0 where
  pub counted : f.count ≡ shown_below sys n
  pub cores_length : length f.cores ≡ length start.cores
  pub sockets_length : length f.sockets ≡ length start.sockets
  pub cores_seen :
      (i : ℕ) → i < n → get_or f.cores i no_lcore ≡ seen_core sys i (get_or start.cores i no_lcore)
  pub cores_later : (i : ℕ) → n ≤ i → get_or f.cores i no_lcore ≡ get_or start.cores i no_lcore
  pub sockets_seen :
      (i : ℕ) → i < n → get_or f.sockets i 0 ≡ seen_socket sys i (get_or start.sockets i 0)
  pub sockets_later : (i : ℕ) → n ≤ i → get_or f.sockets i 0 ≡ get_or start.sockets i 0

-- `detect_one` in one equation per field.
detect_one_count :
    (sys : Sysfs) (i : ℕ) (f : Found)
    → f.count ≡ shown_below sys i
    → (detect_one sys i f).count ≡ shown_below sys (suc i)
unfolding detect_one cpu_detected
detect_one_count sys i f h = elim (Bool-cases (sys.cpu_core_id i)) [
  | inl e ↦ rw e (omega (arith, h))
  | inr e ↦ rw e h
]

detect_one_cores :
    (sys : Sysfs) (i : ℕ) (f : Found)
    → f.count ≡ shown_below sys i
    → (detect_one sys i f).cores ≡ set f.cores i (seen_core sys i (get_or f.cores i no_lcore))
unfolding detect_one cpu_detected
detect_one_cores sys i f h = elim (Bool-cases (sys.cpu_core_id i)) [
  | inl e ↦ rw e (rw h refl)
  | inr e ↦ rw e refl
]

set_same : (xs : List ℕ) (i d : ℕ) → set xs i (get_or xs i d) ≡ xs
set_same [] i d = refl
set_same (x ∷ xs) zero d = refl
set_same (x ∷ xs) (suc i) d = ap (λ ys. x ∷ ys) (set_same xs i d)

detect_one_sockets :
    (sys : Sysfs) (i : ℕ) (f : Found)
    → (detect_one sys i f).sockets ≡ set f.sockets i (seen_socket sys i (get_or f.sockets i 0))
unfolding detect_one cpu_detected
detect_one_sockets sys i f = elim (Bool-cases (sys.cpu_core_id i)) [
  | inl e ↦ rw e refl
  | inr e ↦ rw e (sym (set_same f.sockets i 0))
]

-- A store at `n` by a loop that has stored at every index below it.
module _ {ℓ} {A : Type ℓ} (d : A) (g : ℕ → A → A) (old xs : List A) (n : ℕ) (fits : n < length xs)
    (before : (i : ℕ) → i < n → get_or xs i d ≡ g i (get_or old i d))
    (later : (i : ℕ) → n ≤ i → get_or xs i d ≡ get_or old i d) where
  stored_before :
      (i : ℕ) → i < suc n → get_or (set xs n (g n (get_or xs n d))) i d ≡ g i (get_or old i d)
  stored_before i p = elim (Bool-cases (n == i)) [
    | inl e ↦
        subst (λ j. get_or (set xs n (g n (get_or xs n d))) j d ≡ g j (get_or old j d))
          ((==_iff n i).0 e)
          (get_or-set_self xs n (g n (get_or xs n d)) d fits ∙ ap (g n) (later n (omega arith)))
    | inr e ↦
        get_or-set_ne xs n i (g n (get_or xs n d)) d (ground (arith, e))
        ∙ before i (ground (arith, p, e))
  ]

  stored_later : (i : ℕ) → suc n ≤ i → get_or (set xs n (g n (get_or xs n d))) i d ≡ get_or old i d
  stored_later i p =
      get_or-set_ne xs n i (g n (get_or xs n d)) d (omega arith) ∙ later i (omega arith)

detect_one-Seen :
    (sys : Sysfs) (n : ℕ) (start f : Found)
    → n < length start.cores
    → n < length start.sockets
    → Seen sys n start f
    → Seen sys (suc n) start (detect_one sys n f)
detect_one-Seen sys n start f p q s =
    let cores = detect_one_cores sys n f s.counted in
    let sockets = detect_one_sockets sys n f in
    let p' : n < length f.cores = rw s.cores_length p in
    let q' : n < length f.sockets = rw s.sockets_length q in
    record {
      counted = detect_one_count sys n f s.counted;
      cores_length = ap length cores ∙ length-set f.cores n _ ∙ s.cores_length;
      sockets_length = ap length sockets ∙ length-set f.sockets n _ ∙ s.sockets_length;
      cores_seen = λ i h.
          ap (λ xs. get_or xs i no_lcore) cores
          ∙ stored_before no_lcore (seen_core sys) start.cores f.cores n p' s.cores_seen
              s.cores_later i h;
      cores_later = λ i h.
          ap (λ xs. get_or xs i no_lcore) cores
          ∙ stored_later no_lcore (seen_core sys) start.cores f.cores n p' s.cores_seen
              s.cores_later i h;
      sockets_seen = λ i h.
          ap (λ xs. get_or xs i 0) sockets
          ∙ stored_before 0 (seen_socket sys) start.sockets f.sockets n q' s.sockets_seen
              s.sockets_later i h;
      sockets_later = λ i h.
          ap (λ xs. get_or xs i 0) sockets
          ∙ stored_later 0 (seen_socket sys) start.sockets f.sockets n q' s.sockets_seen
              s.sockets_later i h;
    }

detect-Seen_from :
    (sys : Sysfs) (left n : ℕ) (start f : Found)
    → n + left ≤ length start.cores
    → n + left ≤ length start.sockets
    → Seen sys n start f
    → Seen sys (n + left) start (detect sys left n f)
unfolding detect
detect-Seen_from sys zero n start f p q s = let e : n + 0 ≡ n = omega arith in rw e s
detect-Seen_from sys (suc left) n start f p q s =
    let e : n + suc left ≡ n + 1 + left = omega arith in
    let e' : n + 1 ≡ suc n = omega arith in
    let next = detect_one-Seen sys n start f (omega arith) (omega arith) s in
    rw e (
      detect-Seen_from sys left (n + 1) start (detect_one sys n f) (omega arith) (omega arith)
        (subst (λ k. Seen sys k start (detect_one sys n f)) (sym e') next))

pub detect-Seen :
    (sys : Sysfs) (n : ℕ) (start : Found)
    → start.count ≡ 0
    → n ≤ length start.cores
    → n ≤ length start.sockets
    → Seen sys n start (detect sys n 0 start)
detect-Seen sys n start h p q =
    let e : 0 + n ≡ n = omega arith in
    subst (λ k. Seen sys k start (detect sys n 0 start)) e
      (detect-Seen_from sys n 0 start start (omega arith) (omega arith) record {
        counted = h;
        cores_length = refl;
        sockets_length = refl;
        cores_seen = λ i z. absurd (omega arith);
        cores_later = λ i z. refl;
        sockets_seen = λ i z. absurd (omega arith);
        sockets_later = λ i z. refl;
      })

-- From a count of 0 and arrays of at least `n` entries, the loop over `n` cores counts those that
-- sysfs shows. Each core `i` below `n` gets the entry of `seen_core`, and at index `i` of the local
-- array stands the core's socket where sysfs shows the core, and what was there before where not.
pub detect-core :
    (sys : Sysfs) (n i : ℕ) (start : Found)
    → start.count ≡ 0
    → n ≤ length start.cores
    → n ≤ length start.sockets
    → i < n
    → ((detect sys n 0 start).count ≡ shown_below sys n)
      × ((get_or (detect sys n 0 start).cores i no_lcore
            ≡ seen_core sys i (get_or start.cores i no_lcore))
          × (get_or (detect sys n 0 start).sockets i 0
              ≡ seen_socket sys i (get_or start.sockets i 0)))
detect-core sys n i start h p q lt =
    let s = detect-Seen sys n start h p q in (s.counted, (s.cores_seen i lt, s.sockets_seen i lt))

not_both : (b : Bool) → b ≡ true → b ≢ false
not_both b h h' = ground arith

search_socket_lem :
    (sys : Sysfs) (core left lo s : ℕ)
    → lo ≤ s
    → s < lo + left
    → sys.node_cpu s core ≡ true
    → (sys.node_cpu (search_socket sys core left lo) core ≡ true)
      × (search_socket sys core left lo ≤ s)
unfolding search_socket
search_socket_lem sys core zero lo s p q h = absurd (omega arith)
search_socket_lem sys core (suc left) lo s p q h = elim (Bool-cases (sys.node_cpu lo core)) [
  | inl e ↦ rw e (e, p)
  | inr e ↦
      let ne : lo ≢ s =
        λ z. not_both (sys.node_cpu s core) h (subst (λ t. sys.node_cpu t core ≡ false) z e) in
      rw e (search_socket_lem sys core left (lo + 1) s (omega (arith, ne)) (omega arith) h)
]

search_socket-below :
    (sys : Sysfs) (core left lo : ℕ) → 0 < lo + left → search_socket sys core left lo < lo + left
unfolding search_socket
search_socket-below sys core zero lo h = h
search_socket-below sys core (suc left) lo h = elim (Bool-cases (sys.node_cpu lo core)) [
  | inl e ↦ rw e (omega arith)
  | inr e ↦ rw e (omega (arith, search_socket-below sys core left (lo + 1) (omega arith)))
]

-- Where sysfs has the core on some node below 8, `eal_cpu_socket_id` returns a node that has the
-- core, and the lowest such node.
pub cpu_socket_id_lowest :
    (sys : Sysfs) (core s : ℕ)
    → s < max_numa_nodes
    → sys.node_cpu s core ≡ true
    → (sys.node_cpu (cpu_socket_id sys core) core ≡ true) × (cpu_socket_id sys core ≤ s)
unfolding cpu_socket_id
cpu_socket_id_lowest sys core s p h = search_socket_lem sys core 8 0 s (omega arith) p h

pub cpu_socket_id-below : (sys : Sysfs) (core : ℕ) → cpu_socket_id sys core < 8
unfolding cpu_socket_id
cpu_socket_id-below sys core = search_socket-below sys core 8 0 (omega arith)
