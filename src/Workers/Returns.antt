-- ===== src/Workers/Returns.antt =====
-- `sh_destory_thread_pool` returns.
use linux.Common.{
  ℕ, zero, suc, ◌+◌, ◌≤◌, ◌≡◌, refl, ap, ◌∙◌, subst, Bool, true, false, List, [], ◌∷◌, some,
  get_elem?, length, Bool-cases, Option-cases, inl, inr, arith,
}
use linux.Lock.Threads.{total, total-set, weight-le-total}
use linux.Workers.{
  Place, work, Client, joining, closed, State, act, all_ended, Move, worker, client_step, work_at,
  step, run, start,
}
use linux.Workers.Mutex.{holds, waits, is_asleep, Flags}
use linux.Workers.Ending.{IsWell, Ends, run-IsWell, start-IsWell, work_at-IsWell}
use linux.Workers.Joining.{remaining, blocked, work-remaining, work-blocked, find_runner}

-- The accesses that the threads still make, where none waits for another one.
abbrev pub remaining_of : State → ℕ
remaining_of s = total remaining s.workers

-- A state where the client joins the threads.
record IsJoining (s : State) : Type 0 where
  well : IsWell s
  client : s.client ≡ joining

joining-Ends :
    (s : State)
    → IsJoining s
    → Ends joining s.shared.quit (total waits s.workers) (total is_asleep s.workers)
joining-Ends s j =
    subst (λ c. Ends c s.shared.quit (total waits s.workers) (total is_asleep s.workers)) j.client
      j.well.ends

joining-Flags : (s : State) → IsJoining s → Flags s.shared.mutex (total holds s.workers + 0)
joining-Flags s j =
    subst (λ c. Flags s.shared.mutex (total holds s.workers + linux.Workers.Mutex.client_holds c))
      j.client j.well.flags

work_at-client : (s : State) (i : ℕ) (spurious : Bool) → (work_at s i spurious).client ≡ s.client
unfolding work_at
work_at-client s i spurious = elim (Option-cases (get_elem? s.workers i)) [
  | inl e ↦ rw (e, work_at) refl
  | inr (p, e) ↦ rw (e, work_at) refl
]

work_at-IsJoining :
    (s : State) (i : ℕ) (spurious : Bool) → IsJoining s → IsJoining (work_at s i spurious)
work_at-IsJoining s i spurious j = record {
  well = work_at-IsWell s i spurious j.well;
  client = work_at-client s i spurious ∙ j.client;
}

-- What the access of the thread at `i` does to the sum.
work_at-remaining :
    (s : State) (i : ℕ) (spurious : Bool) (p : Place)
    → get_elem? s.workers i ≡ some p
    → remaining_of (work_at s i spurious) + remaining p
      ≡ remaining_of s + remaining (work s.shared p spurious).1
unfolding work_at
work_at-remaining s i spurious p e =
    rw (e, work_at) (total-set remaining s.workers i p (work s.shared p spurious).1 e)

-- An access of a thread that is not blocked.
work_at-runs :
    (s : State) (i : ℕ) (spurious : Bool) (p : Place)
    → IsJoining s
    → get_elem? s.workers i ≡ some p
    → blocked s.shared.mutex p ≡ false
    → remaining_of (work_at s i spurious) + 1 ≤ remaining_of s
work_at-runs s i spurious p j e b =
    let (q, w, a) = joining-Ends s j in
    let lw = weight-le-total waits s.workers i p e in
    let la = weight-le-total is_asleep s.workers i p e in
    let less =
      work-remaining s.shared p spurious q (omega (arith, lw, w)) (omega (arith, la, a)) b in
    omega (arith, less, work_at-remaining s i spurious p e)

-- No access adds to the sum.
work_at-le :
    (s : State) (i : ℕ) (spurious : Bool)
    → IsJoining s
    → remaining_of (work_at s i spurious) ≤ remaining_of s
unfolding work_at
work_at-le s i spurious j = elim (Option-cases (get_elem? s.workers i)) [
  | inl e ↦ rw (e, work_at) (omega arith)
  | inr (p, e) ↦ elim (Bool-cases (blocked s.shared.mutex p)) [
    | inl b ↦ omega (
      arith,
      work_at-remaining s i spurious p e,
      ap remaining (work-blocked s.shared p spurious b),
    )
    | inr b ↦ omega (arith, work_at-runs s i spurious p j e b)
  ]
]

-- The moves of a list of threads.
abbrev pub turns : List ℕ → List Move
turns [] = []
turns (i ∷ is) = worker i false ∷ turns is

-- Some order of accesses brings all threads to their ends.
all_end :
    (k : ℕ) (s : State)
    → IsJoining s
    → remaining_of s ≤ k
    → (is : List ℕ) × (length is ≤ k)
      × (all_ended (run s (turns is)).workers ≡ true)
      × ((run s (turns is)).client ≡ joining)
unfolding run step
all_end zero s j le = elim (Bool-cases (all_ended s.workers)) [
  | inl e ↦ ([], omega arith, e, j.client)
  | inr e ↦
      let (i, p, g, b) = find_runner s.shared.mutex s.workers (joining-Flags s j) e in
      absurd (omega (arith, le, work_at-runs s i false p j g b))
]
all_end (suc k) s j le = elim (Bool-cases (all_ended s.workers)) [
  | inl e ↦ ([], omega arith, e, j.client)
  | inr e ↦
      let (i, p, g, b) = find_runner s.shared.mutex s.workers (joining-Flags s j) e in
      let (is, l, ends, c) =
        all_end k (work_at s i false) (work_at-IsJoining s i false j)
          (omega (arith, le, work_at-runs s i false p j g b)) in
      (i ∷ is, omega (arith, l), ends, c)
]

-- Where the client joins the threads.
abbrev pub Returns : State → Type 0
Returns s =
    (total is_asleep s.workers + total waits s.workers ≡ 0)
    × ((i : ℕ) (spurious : Bool) → remaining_of (step s (worker i spurious)) ≤ remaining_of s)
    × ((is : List ℕ) × (length is ≤ remaining_of s)
        × ((step (run s (turns is)) (client_step true 0)).client ≡ closed))

act-closed :
    (s : State) (c : Client)
    → c ≡ joining
    → all_ended s.workers ≡ true
    → (act s true 0 c).client ≡ closed
unfolding act
act-closed s c e a = rw (e, a) refl

-- Whatever `n` threads of a pool and its client have done: once `sh_destory_thread_pool` has woken the
-- threads and joins them, no thread sleeps or is about to sleep; no access of a thread raises the
-- number of accesses that the threads still make; and an order of at most that many accesses ends every
-- thread, so that the call returns, if the functions of the tasks do.
pub destroy-Returns :
    (n : ℕ) (moves : List Move)
    → (run (start n) moves).client ≡ joining
    → Returns (run (start n) moves)
unfolding step
destroy-Returns n moves c =
    let s = run (start n) moves in
    let j : IsJoining s = record {
      well = run-IsWell moves (start n) (start-IsWell n);
      client = c;
    } in
    let (q, w, a) = joining-Ends s j in
    let (is, l, ends, c') = all_end (remaining_of s) s j (omega arith) in
    (
      omega (arith, w, a),
      λ i spurious. work_at-le s i spurious j,
      (is, l, act-closed (run s (turns is)) (run s (turns is)).client c' ends),
    )
