-- ===== src/Workers/Joining.antt =====
-- The joins at the end of a pool come to an end.
use linux.Common.{
  ℕ, suc, ◌+◌, ◌≤◌, ◌≡◌, refl, Bool, true, false, List, [], ◌∷◌, some, get_elem?, Bool-cases, inl,
  inr, ◌⊎◌, arith,
}
use linux.Lock.Threads.{total}
use linux.Workers.{
  Task, Place, testing, popping, locking, locked, leaving, waiting, asleep, waking, woken, ended,
  working, Shared, pop_task, work, has_ended, all_ended,
}
use linux.Workers.Mutex.{holds, waits, is_asleep, Flags}

-- The accesses that a thread still makes once `quit` is set, where it waits for nobody.
abbrev pub remaining : Place → ℕ
remaining popping = 4
remaining locking = 3
remaining waking = 3
remaining locked = 2
remaining woken = 2
remaining (working t) = 2
remaining leaving = 1
remaining testing = 1
remaining waiting = 0
remaining asleep = 0
remaining ended = 0

-- A thread that has ended, or waits for the mutex.
abbrev pub blocked : (mutex : Bool) → Place → Bool
blocked m ended = true
blocked m locking = m
blocked m waking = m
blocked m popping = false
blocked m locked = false
blocked m woken = false
blocked m (working t) = false
blocked m leaving = false
blocked m testing = false
blocked m waiting = false
blocked m asleep = false

pop_task-remaining : (s : Shared) (ts : List Task) → remaining (pop_task s ts).1 + 1 ≤ 4
unfolding pop_task
pop_task-remaining s [] = omega arith
pop_task-remaining s (t ∷ ts) = omega arith

-- Once `quit` is set, an access of a thread that is not about to sleep brings it nearer to its end,
-- where it is not blocked.
pub work-remaining :
    (s : Shared) (p : Place) (spurious : Bool)
    → s.quit ≡ true
    → waits p ≡ 0
    → is_asleep p ≡ 0
    → blocked s.mutex p ≡ false
    → remaining (work s p spurious).1 + 1 ≤ remaining p
unfolding work
work-remaining s testing spurious q w a b = rw q (omega arith)
work-remaining s popping spurious q w a b = pop_task-remaining s s.queue
work-remaining s (working t) spurious q w a b = omega arith
work-remaining s locking spurious q w a b = rw b (omega arith)
work-remaining s locked spurious q w a b = rw q (omega arith)
work-remaining s leaving spurious q w a b = omega arith
work-remaining s waiting spurious q w a b = absurd (omega (arith, w))
work-remaining s asleep spurious q w a b = absurd (omega (arith, a))
work-remaining s waking spurious q w a b = rw b (omega arith)
work-remaining s woken spurious q w a b = omega arith
work-remaining s ended spurious q w a b = absurd (cc)

-- A blocked thread stays where it is.
pub work-blocked :
    (s : Shared) (p : Place) (spurious : Bool)
    → blocked s.mutex p ≡ true
    → (work s p spurious).1 ≡ p
unfolding work
work-blocked s ended spurious b = refl
work-blocked s locking spurious b = rw b refl
work-blocked s waking spurious b = rw b refl
work-blocked s testing spurious b = absurd (cc)
work-blocked s popping spurious b = absurd (cc)
work-blocked s (working t) spurious b = absurd (cc)
work-blocked s locked spurious b = absurd (cc)
work-blocked s leaving spurious b = absurd (cc)
work-blocked s waiting spurious b = absurd (cc)
work-blocked s asleep spurious b = absurd (cc)
work-blocked s woken spurious b = absurd (cc)

-- A thread that holds the mutex is not blocked.
holds-runs : (m : Bool) (p : Place) → holds p ≡ 1 → blocked m p ≡ false
holds-runs m locked h = refl
holds-runs m leaving h = refl
holds-runs m waiting h = refl
holds-runs m woken h = refl
holds-runs m testing h = refl
holds-runs m popping h = refl
holds-runs m (working t) h = refl
holds-runs m locking h = absurd (omega (arith, h))
holds-runs m waking h = absurd (omega (arith, h))
holds-runs m asleep h = refl
holds-runs m ended h = absurd (omega (arith, h))

free-runs : (p : Place) → has_ended p ≡ false → blocked false p ≡ false
free-runs ended e = absurd (cc)
free-runs locking e = refl
free-runs waking e = refl
free-runs testing e = refl
free-runs popping e = refl
free-runs (working t) e = refl
free-runs locked e = refl
free-runs leaving e = refl
free-runs waiting e = refl
free-runs asleep e = refl
free-runs woken e = refl

holds-cases : (p : Place) → (holds p ≡ 0) ⊎ (holds p ≡ 1)
holds-cases p = ground arith

-- Some thread holds the mutex, or some thread has not ended.
find_holder :
    (ps : List Place)
    → 1 ≤ total holds ps
    → (i : ℕ) × (p : Place) × (get_elem? ps i ≡ some p) × (holds p ≡ 1)
unfolding total
find_holder [] h = absurd (omega (arith, h))
find_holder (p ∷ ps) h = elim (holds-cases p) [
  | inr e ↦ (0, p, refl, e)
  | inl e ↦ let (i, q, g, k) = find_holder ps (omega (arith, h, e)) in (suc i, q, g, k)
]

find_running :
    (ps : List Place)
    → all_ended ps ≡ false
    → (i : ℕ) × (p : Place) × (get_elem? ps i ≡ some p) × (has_ended p ≡ false)
unfolding all_ended
find_running [] h = absurd (cc)
find_running (p ∷ ps) h = elim (Bool-cases (has_ended p)) [
  | inr e ↦ (0, p, refl, e)
  | inl e ↦ let (i, q, g, k) = find_running ps (rw e at h) in (suc i, q, g, k)
]

-- While a thread has not ended, some thread is not blocked.
pub find_runner :
    (m : Bool) (ps : List Place)
    → Flags m (total holds ps + 0)
    → all_ended ps ≡ false
    → (i : ℕ) × (p : Place) × (get_elem? ps i ≡ some p) × (blocked m p ≡ false)
find_runner true ps f h =
    let (i, p, g, k) = find_holder ps (omega (arith, f)) in (i, p, g, holds-runs true p k)
find_runner false ps f h = let (i, p, g, k) = find_running ps h in (i, p, g, free-runs p k)
