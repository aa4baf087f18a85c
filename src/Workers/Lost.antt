-- ===== src/Workers/Lost.antt =====
-- A task that no thread is woken for: `sh_push_thread_pool` signals without the mutex, and a thread
-- that has found the queue empty goes to sleep without looking again.
use linux.Common.{
  ℕ, zero, suc, ◌+◌, ◌≡◌, refl, ap, sym, ◌∙◌, true, false, List, [], ◌∷◌, ◌++◌, none, some,
  get_elem?, set, length, replicate, inl, inr, arith, append_assoc, ◌⊎◌, get_elem?-set-some,
  set_self, set-set,
}
use linux.Workers.{
  Task, Place, testing, popping, locking, locked, waiting, asleep, pop_task, work, wake_first,
  wake_one, ready, State, act, Move, client_step, push, work_at, call, step, run, start,
}
use linux.Workers.Returns.{turns}

get_elem?-next :
    (pre ps : List Place) (p : Place) → get_elem? (pre ++ (p ∷ ps)) (length pre) ≡ some p
get_elem?-next [] ps p = refl
get_elem?-next (r ∷ pre) ps p = get_elem?-next pre ps p

set-next :
    (pre ps : List Place) (p q : Place)
    → set (pre ++ (p ∷ ps)) (length pre) q ≡ (pre ++ (q ∷ [])) ++ ps
set-next [] ps p q = refl
set-next (r ∷ pre) ps p q = ap (λ rs. r ∷ rs) (set-next pre ps p q)

length-next : (pre : List Place) (q : Place) → length (pre ++ (q ∷ [])) ≡ length pre + 1
length-next [] q = refl
length-next (r ∷ pre) q = omega (arith, length-next pre q)

run-append : (xs ys : List Move) (s : State) → run s (xs ++ ys) ≡ run (run s xs) ys
unfolding run
run-append [] ys s = refl
run-append (m ∷ xs) ys s = run-append xs ys (step s m)

-- The moves `ms i` of the threads `i`, one thread after the other, from `i` on.
abbrev sweep : (ℕ → List Move) → (left i : ℕ) → List Move
sweep ms zero i = []
sweep ms (suc left) i = ms i ++ sweep ms left (i + 1)

-- The state with other threads.
abbrev with_workers : State → List Place → State
with_workers s ps = record s { workers = ps }

module _ (s : State) (ms : ℕ → List Move) (p q : Place)
    (one : (ps : List Place) (i : ℕ)
      → get_elem? ps i ≡ some p
      → run (with_workers s ps) (ms i) ≡ with_workers s (set ps i q)) where
  run-sweep :
      (left : ℕ) (pre : List Place)
      → run (with_workers s (pre ++ replicate left p)) (sweep ms left (length pre))
        ≡ with_workers s (pre ++ replicate left q)
  unfolding run
  run-sweep zero pre = refl
  run-sweep (suc left) pre =
      let ps = pre ++ (p ∷ replicate left p) in
      run-append (ms (length pre)) (sweep ms left (length pre + 1)) (with_workers s ps)
      ∙ ap (λ t. run t (sweep ms left (length pre + 1)))
          (one ps (length pre) (get_elem?-next pre (replicate left p) p)
            ∙ ap (λ rs. with_workers s rs) (set-next pre (replicate left p) p q))
      ∙ ap (λ k. run (with_workers s ((pre ++ (q ∷ [])) ++ replicate left p)) (sweep ms left k))
          (sym (length-next pre q))
      ∙ run-sweep left (pre ++ (q ∷ []))
      ∙ ap (λ rs. with_workers s rs) (append_assoc pre (q ∷ []) (replicate left q))

-- An access of the thread at `i`.
work_at_lem :
    (s : State) (ps : List Place) (i : ℕ) (p : Place)
    → get_elem? ps i ≡ some p
    → work_at (with_workers s ps) i false ≡ record s {
      shared = (work s.shared p false).0;
      workers = set ps i (work s.shared p false).1;
    }
unfolding work_at
work_at_lem s ps i p e = rw e refl

work_at-none :
    (s : State) (ps : List Place) (i : ℕ)
    → get_elem? ps i ≡ none
    → work_at (with_workers s ps) i false ≡ with_workers s ps
unfolding work_at
work_at-none s ps i e = rw e refl

wake_first-locking : (n : ℕ) → wake_first (replicate n locking) ≡ replicate n locking
unfolding wake_first
wake_first-locking zero = refl
wake_first-locking (suc n) = ap (λ ps. locking ∷ ps) (wake_first-locking n)

wake_one-locking : (n : ℕ) → wake_one 0 (replicate n locking) ≡ replicate n locking
unfolding wake_one
wake_one-locking zero = wake_first-locking zero
wake_one-locking (suc n) = wake_first-locking (suc n)

-- The pool with one task in the queue, and the threads `ps`.
abbrev queued : Task → List Place → State
queued t ps = record {
  shared = record { quit = false; mutex = false; queue = t ∷ []; started = [] };
  workers = ps;
  client = ready;
  pushed = t ∷ [];
  freed = [];
}

-- A thread finds the queue empty, and comes to the mutex.
finds_nothing :
    (n : ℕ) (ps : List Place) (i : ℕ)
    → get_elem? ps i ≡ some testing
    → run (with_workers (start n) ps) (turns (i ∷ i ∷ []))
      ≡ with_workers (start n) (set ps i locking)
unfolding run step work pop_task
finds_nothing n ps i e =
    ap (λ s. work_at s i false) (work_at_lem (start n) ps i testing e)
    ∙ work_at_lem (start n) (set ps i popping) i popping (get_elem?-set-some ps i testing popping e)
    ∙ ap (λ rs. with_workers (start n) rs) (set-set ps i popping locking)

-- The client pushes a task while all threads are there: its signal wakes nobody.
pushes :
    (n : ℕ) (t : Task)
    → run
        (with_workers (start n) (replicate n locking))
        (push t ∷ client_step true 0 ∷ client_step true 0 ∷ [])
      ≡ queued t (replicate n locking)
unfolding run step call act
pushes n t = ap (λ ps. queued t ps) (wake_one-locking n)

-- A thread locks the mutex, sees that `quit` is not set, and sleeps.
falls_asleep :
    (t : Task) (ps : List Place) (i : ℕ)
    → get_elem? ps i ≡ some locking
    → run (queued t ps) (turns (i ∷ i ∷ i ∷ [])) ≡ queued t (set ps i asleep)
unfolding run step work
falls_asleep t ps i e =
    let s = queued t ps in
    let s1 = record s { shared = record s.shared { mutex = true } } in
    let e1 = get_elem?-set-some ps i locking locked e in
    let e2 = get_elem?-set-some (set ps i locked) i locked waiting e1 in
    ap (λ r. work_at (work_at r i false) i false) (work_at_lem s ps i locking e)
    ∙ ap (λ r. work_at r i false) (work_at_lem s1 (set ps i locked) i locked e1)
    ∙ work_at_lem s1 (set (set ps i locked) i waiting) i waiting e2
    ∙ ap (λ rs. queued t rs)
        (set-set (set ps i locked) i waiting asleep ∙ set-set ps i locked asleep)

sleeps_at :
    (n i : ℕ)
    → (get_elem? (replicate n asleep) i ≡ none) ⊎ (get_elem? (replicate n asleep) i ≡ some asleep)
sleeps_at zero i = inl refl
sleeps_at (suc n) zero = inr refl
sleeps_at (suc n) (suc i) = sleeps_at n i

-- Sleeping threads stay as they are.
stays :
    (t : Task) (n i : ℕ)
    → work_at (queued t (replicate n asleep)) i false ≡ queued t (replicate n asleep)
unfolding work_at work
stays t n i = elim (sleeps_at n i) [
  | inl e ↦ work_at-none (queued t []) (replicate n asleep) i e
  | inr e ↦
      work_at_lem (queued t []) (replicate n asleep) i asleep e
      ∙ ap (λ ps. queued t ps) (set_self {A = Place} (replicate n asleep) i asleep e)
]

sleeps_on :
    (t : Task) (n : ℕ) (is : List ℕ)
    → run (queued t (replicate n asleep)) (turns is) ≡ queued t (replicate n asleep)
unfolding run step
sleeps_on t n [] = refl
sleeps_on t n (i ∷ is) = ap (λ r. run r (turns is)) (stays t n i) ∙ sleeps_on t n is

-- The order of moves that loses the wake-up.
abbrev pub losing : ℕ → Task → List Move
losing n t =
    sweep (λ i. turns (i ∷ i ∷ [])) n 0
    ++ ((push t ∷ client_step true 0 ∷ client_step true 0 ∷ [])
        ++ sweep (λ i. turns (i ∷ i ∷ i ∷ [])) n 0)

losing-queued : (n : ℕ) (t : Task) → run (start n) (losing n t) ≡ queued t (replicate n asleep)
losing-queued n t =
    let first = sweep (λ i. turns (i ∷ i ∷ [])) n 0 in
    let pushed = push t ∷ client_step true 0 ∷ client_step true 0 ∷ [] in
    let last = sweep (λ i. turns (i ∷ i ∷ i ∷ [])) n 0 in
    run-append first (pushed ++ last) (start n)
    ∙ ap (λ s. run s (pushed ++ last))
        (run-sweep (start n) (λ i. turns (i ∷ i ∷ [])) testing locking (finds_nothing n) n [])
    ∙ run-append pushed last (with_workers (start n) (replicate n locking))
    ∙ ap (λ s. run s last) (pushes n t)
    ∙ run-sweep (queued t []) (λ i. turns (i ∷ i ∷ i ∷ [])) locking asleep (falls_asleep t) n []

-- For any number of threads and any task there is an order of moves, the last calls of which have
-- returned, after which the task that the client has pushed is in the queue, all threads sleep, and no
-- further accesses of the threads change anything, unless one wakes up for no reason: the task waits
-- for another push.
pub push_loses_wakeup :
    (n : ℕ) (t : Task)
    → let s = run (start n) (losing n t) in
      (s.client ≡ ready)
      × (s.pushed ≡ t ∷ [])
      × (s.shared.queue ≡ t ∷ [])
      × (s.workers ≡ replicate n asleep)
      × ((is : List ℕ) → run s (turns is) ≡ s)
push_loses_wakeup n t =
    let e = losing-queued n t in
    (
      ap (λ s. s.client) e,
      ap (λ s. s.pushed) e,
      ap (λ s. s.shared.queue) e,
      ap (λ s. s.workers) e,
      λ is. ap (λ s. run s (turns is)) e ∙ sleeps_on t n is ∙ sym e,
    )
