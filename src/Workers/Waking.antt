-- ===== src/Workers/Waking.antt =====
-- What a signal and a broadcast do to the counts of threads.
use linux.Common.{
  ℕ, zero, suc, ◌≡◌, refl, ap, sym, ◌∙◌, true, List, [], ◌∷◌, some, get_elem?, get_or,
  if◌then◌else◌, Bool-cases, inl, inr, arith,
}
use linux.Lock.Threads.{total, total-set}
use linux.Workers.{
  Place, testing, popping, locking, locked, leaving, waiting, asleep, waking, woken, ended, working,
  sleeps, wake_all, wake_first, wake_one,
}
use linux.Workers.Mutex.{is_asleep}

sleeps-eq : (p : Place) → sleeps p ≡ true → p ≡ asleep
sleeps-eq asleep e = refl
sleeps-eq testing e = absurd (cc)
sleeps-eq popping e = absurd (cc)
sleeps-eq locking e = absurd (cc)
sleeps-eq locked e = absurd (cc)
sleeps-eq leaving e = absurd (cc)
sleeps-eq waiting e = absurd (cc)
sleeps-eq waking e = absurd (cc)
sleeps-eq woken e = absurd (cc)
sleeps-eq ended e = absurd (cc)
sleeps-eq (working t) e = absurd (cc)

-- The thread at an index that sleeps.
there : (ps : List Place) (i : ℕ) → sleeps (get_or ps i ended) ≡ true → get_elem? ps i ≡ some asleep
there [] i e = absurd (cc)
there (p ∷ ps) zero e = ap some (sleeps-eq p e)
there (p ∷ ps) (suc i) e = there ps i e

-- Waking changes no count that does not tell `asleep` from `waking`.
module _ (w : Place → ℕ) (same : w asleep ≡ w waking) where
  wake-weight : (p : Place) → w (if sleeps p then waking else p) ≡ w p
  wake-weight p = elim (Bool-cases (sleeps p)) [
    | inl e ↦ rw e (sym same ∙ ap w (sym (sleeps-eq p e)))
    | inr e ↦ rw e refl
  ]

  pub total-wake_all : (ps : List Place) → total w (wake_all ps) ≡ total w ps
  unfolding total wake_all
  total-wake_all [] = refl
  total-wake_all (p ∷ ps) = omega (arith, wake-weight p, total-wake_all ps)

  total-wake_first : (ps : List Place) → total w (wake_first ps) ≡ total w ps
  unfolding total wake_first
  total-wake_first [] = refl
  total-wake_first (p ∷ ps) = elim (Bool-cases (sleeps p)) [
    | inl e ↦ rw e (omega (arith, same, ap w (sleeps-eq p e)))
    | inr e ↦ rw e (omega (arith, total-wake_first ps))
  ]

  pub total-wake_one : (i : ℕ) (ps : List Place) → total w (wake_one i ps) ≡ total w ps
  unfolding wake_one
  total-wake_one i ps = elim (Bool-cases (sleeps (get_or ps i ended))) [
    | inl e ↦ rw e (omega (arith, same, total-set w ps i asleep waking (there ps i e)))
    | inr e ↦ rw e (total-wake_first ps)
  ]

awake : (p : Place) → is_asleep (if sleeps p then waking else p) ≡ 0
awake asleep = refl
awake testing = refl
awake popping = refl
awake locking = refl
awake locked = refl
awake leaving = refl
awake waiting = refl
awake waking = refl
awake woken = refl
awake ended = refl
awake (working t) = refl

pub wake_all-awake : (ps : List Place) → total is_asleep (wake_all ps) ≡ 0
unfolding total wake_all
wake_all-awake [] = refl
wake_all-awake (p ∷ ps) = omega (arith, awake p, wake_all-awake ps)
