-- ===== src/Lock/Spin.antt =====
-- `sh_spinlock` of vpn/com_lib/lock_lib/atomic_spinlock.h. One step is one access to the flag.
use linux.Common.{
  ℕ, ◌+◌, ◌-◌, ◌≤◌, ◌≡◌, refl, ◌↔◌, Bool, true, false, List, [], ◌∷◌, none, some, arith, get_elem?,
  set, replicate, Option-cases, subst, inl, inr, if◌then◌else◌,
}
use linux.Lock.Threads.{total, total-set, total-replicate, weight-le-total}

-- Outside the lock, in `lock` before a test_and_set, or between `lock` and `unlock`.
pub data Place : Type 0 where
  idle trying holding : Place

pub record State : Type 0 where
  pub flag : Bool
  pub threads : List Place

-- A thread's next access: the flag's and the thread's new values.
unfoldable pub access : Bool → Place → Bool × Place
access f idle = (f, trying)
access f trying = (true, if f then trying else holding)
access f holding = (false, idle)

-- Thread `i` makes its next access.
unfoldable pub step : State → ℕ → State
step s i = elim (get_elem? s.threads i) [
  | none ↦ s
  | some t ↦ let (f, t') = access s.flag t in record { flag = f; threads = set s.threads i t' }
]

-- An interleaving: which thread moves next.
unfoldable pub run : State → List ℕ → State
run s [] = s
run s (i ∷ schedule) = run (step s i) schedule

abbrev pub is_holding : Place → ℕ
is_holding holding = 1
is_holding idle = 0
is_holding trying = 0

abbrev pub holders : State → ℕ
holders s = total is_holding s.threads

-- The flag stands for one holder.
abbrev Flags : Bool → ℕ → Type 0
Flags true h = h ≡ 1
Flags false h = h ≡ 0

access-Flags :
    (f : Bool) (t : Place) (h : ℕ)
    → Flags f (h + is_holding t)
    → Flags (access f t).0 (h + is_holding (access f t).1)
unfolding access
access-Flags f idle h p = p
access-Flags true trying h p = p
access-Flags false trying h p = omega arith
access-Flags true holding h p = omega arith
access-Flags false holding h p = absurd (omega arith)

step-Flags :
    (s : State) (i : ℕ) → Flags s.flag (holders s) → Flags (step s i).flag (holders (step s i))
unfolding step
step-Flags s i p = elim (Option-cases (get_elem? s.threads i)) [
  | inl e ↦ rw (e, step) p
  | inr (t, e) ↦
      let h = total is_holding s.threads - is_holding t in
      let le = weight-le-total is_holding s.threads i t e in
      let t' = (access s.flag t).1 in
      let moved = total-set is_holding s.threads i t t' e in
      rw (e, step)
        (subst (Flags (access s.flag t).0) (omega arith)
          (access-Flags s.flag t h (subst (Flags s.flag) (omega arith) p)))
]

run-Flags :
    (schedule : List ℕ) (s : State)
    → Flags s.flag (holders s)
    → Flags (run s schedule).flag (holders (run s schedule))
unfolding run
run-Flags [] s p = p
run-Flags (i ∷ schedule) s p = run-Flags schedule (step s i) (step-Flags s i p)

-- `n` threads before their first call, and the flag as it is constructed.
abbrev pub start : ℕ → State
start n = record { flag = false; threads = replicate n idle }

Flags-count : (f : Bool) (h : ℕ) → Flags f h → (h ≤ 1) × ((f ≡ true) ↔ (h ≡ 1))
Flags-count true h p = (omega arith, ((λ e. p), (λ e. refl)))
Flags-count false h p = (omega arith, ((λ e. cc), (λ e. absurd (omega arith))))

-- Whatever the interleaving of `n` threads over `sh_spinlock`, at most one holds it, and the flag
-- is set exactly while one does.
pub spin_exclusion :
    (n : ℕ) (schedule : List ℕ)
    → let s = run (start n) schedule in (holders s ≤ 1) × ((s.flag ≡ true) ↔ (holders s ≡ 1))
spin_exclusion n schedule =
    let s = run (start n) schedule in
    Flags-count s.flag (holders s)
      (run-Flags schedule (start n) (total-replicate is_holding n idle refl))
