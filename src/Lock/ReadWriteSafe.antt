-- ===== src/Lock/ReadWriteSafe.antt =====
-- Readers and a writer never hold the lock together.
use linux.Common.{
  ℕ, zero, suc, ◌+◌, ◌-◌, ◌≤◌, ◌≡◌, refl, ◌⊎◌, inl, inr, ap, Bool, false, List, [], ◌∷◌, some,
  arith, get_elem?, set, replicate, Bool-cases, Option-cases, subst₂, sym, get_elem?-set-some,
}
use linux.Lock.Counter.{ℤ, pos, negsuc, is_pos-eq}
use linux.Lock.Threads.{total, total-set, total-replicate, weight-le-total}
use linux.Lock.ReadWrite.{
  Place, idle, read_entry, read_loaded, reading, write_entry, writing, Choice, State, access, step,
  run,
}

abbrev pub is_reading : Place → ℕ
is_reading reading = 1
is_reading idle = 0
is_reading read_entry = 0
is_reading write_entry = 0
is_reading writing = 0
is_reading (read_loaded e) = 0

abbrev pub is_writing : Place → ℕ
is_writing writing = 1
is_writing idle = 0
is_writing read_entry = 0
is_writing write_entry = 0
is_writing reading = 0
is_writing (read_loaded e) = 0

abbrev pub readers : State → ℕ
readers s = total is_reading s.threads

abbrev pub writers : State → ℕ
writers s = total is_writing s.threads

-- The word counts the readers, or it is -1 and there is one writer.
abbrev pub Counts : ℤ → ℕ → ℕ → Type 0
Counts (pos n) r w = (n ≡ r) × (w ≡ 0)
Counts (negsuc n) r w = (n ≡ 0) × (w ≡ 1) × (r ≡ 0)

abbrev pub IsLocked : State → Type 0
IsLocked s = Counts s.word (readers s) (writers s)

-- One access keeps the word's meaning, where `r` and `w` count the other threads.
access-Counts :
    (c : ℤ) (t : Place) (x : Choice) (r w : ℕ)
    → Counts c (r + is_reading t) (w + is_writing t)
    → Counts (access c t x).0 (r + is_reading (access c t x).1) (w + is_writing (access c t x).1)
unfolding access
access-Counts c idle x r w h = elim (Bool-cases x.write) [ inl e ↦ rw e h | inr e ↦ rw e h ]
access-Counts (pos n) read_entry x r w h = h
access-Counts (negsuc n) read_entry x r w h = h
access-Counts c (read_loaded e) x r w h = ground (arith, is_pos-eq c e)
access-Counts (pos zero) reading x r w h = absurd (omega arith)
access-Counts (pos (suc n)) reading x r w h = omega arith
access-Counts (negsuc n) reading x r w h = absurd (omega arith)
access-Counts c write_entry x r w h = ground (arith, is_pos-eq c 0)
access-Counts (pos n) writing x r w h = absurd (omega arith)
access-Counts (negsuc n) writing x r w h = omega arith

step-IsLocked : (s : State) (i : ℕ) (x : Choice) → IsLocked s → IsLocked (step s i x)
unfolding step
step-IsLocked s i x h = elim (Option-cases (get_elem? s.threads i)) [
  | inl e ↦ rw (e, step) h
  | inr (t, e) ↦
      let r = total is_reading s.threads - is_reading t in
      let w = total is_writing s.threads - is_writing t in
      let t' = (access s.word t x).1 in
      let before : Counts s.word (r + is_reading t) (w + is_writing t) =
        subst₂ (Counts s.word) (omega (arith, weight-le-total is_reading s.threads i t e))
          (omega (arith, weight-le-total is_writing s.threads i t e)) h in
      rw (e, step)
        (subst₂ (Counts (access s.word t x).0)
          (omega (
            arith,
            weight-le-total is_reading s.threads i t e,
            total-set is_reading s.threads i t t' e,
          ))
          (omega (
            arith,
            weight-le-total is_writing s.threads i t e,
            total-set is_writing s.threads i t t' e,
          ))
          (access-Counts s.word t x r w before))
]

run-IsLocked : (schedule : List (ℕ × Choice)) (s : State) → IsLocked s → IsLocked (run s schedule)
unfolding run
run-IsLocked [] s h = h
run-IsLocked ((i, x) ∷ schedule) s h = run-IsLocked schedule (step s i x) (step-IsLocked s i x h)

-- `n` threads before their first call, and the lock as it is constructed.
abbrev pub start : ℕ → State
start n = record { word = pos 0; threads = replicate n idle }

start-IsLocked : (n : ℕ) → IsLocked (start n)
start-IsLocked n =
    (sym (total-replicate is_reading n idle refl), total-replicate is_writing n idle refl)

-- Whatever the interleaving of `n` threads over `sh_rwlock`, at most one thread writes, none reads
-- while one writes, and the word is the number of readers, or -1 while one writes.
pub exclusion :
    (n : ℕ) (schedule : List (ℕ × Choice))
    → let s = run (start n) schedule in
      (writers s ≤ 1)
      × ((writers s ≡ 0) ⊎ (readers s ≡ 0))
      × ((s.word ≡ pos (readers s)) ⊎ ((s.word ≡ negsuc 0) × (writers s ≡ 1)))
exclusion n schedule =
    go (run (start n) schedule) (run-IsLocked schedule (start n) (start-IsLocked n))
  where
    by_word :
        (c : ℤ) (r w : ℕ)
        → Counts c r w
        → (w ≤ 1) × ((w ≡ 0) ⊎ (r ≡ 0)) × ((c ≡ pos r) ⊎ ((c ≡ negsuc 0) × (w ≡ 1)))
    by_word (pos n) r w h = (omega arith, inl h.1, inl (ap pos h.0))
    by_word (negsuc n) r w h = (omega arith, inr h.2, inr (ap negsuc h.0, h.1))

    go :
        (s : State)
        → IsLocked s
        → (writers s ≤ 1)
          × ((writers s ≡ 0) ⊎ (readers s ≡ 0))
          × ((s.word ≡ pos (readers s)) ⊎ ((s.word ≡ negsuc 0) × (writers s ≡ 1)))
    go s h = by_word s.word (readers s) (writers s) h

-- A step in which no exchange fails for no reason.
abbrev pub steady : Bool → Choice
steady w = record { write = w; spurious = false }

abbrev free_word : List Place → State
free_word ts = record { word = pos 0; threads = ts }

write_enters :
    (ts : List Place) (i : ℕ) (w : Bool)
    → get_elem? ts i ≡ some write_entry
    → get_elem? (step (free_word ts) i (steady w)).threads i ≡ some writing
unfolding step access
write_enters ts i w e = rw (e, step) (get_elem?-set-some ts i write_entry writing e)

load_enters :
    (ts : List Place) (i : ℕ) (w : Bool)
    → get_elem? ts i ≡ some read_entry
    → step (free_word ts) i (steady w) ≡ free_word (set ts i (read_loaded 0))
unfolding step access
load_enters ts i w e = rw (e, step)

read_enters :
    (ts : List Place) (i : ℕ) (w : Bool)
    → get_elem? ts i ≡ some (read_loaded 0)
    → get_elem? (step (free_word ts) i (steady w)).threads i ≡ some reading
unfolding step access
read_enters ts i w e = rw (e, step) (get_elem?-set-some ts i (read_loaded 0) reading e)

word_of_free : (c : ℤ) (r w : ℕ) → Counts c r w → r ≡ 0 → w ≡ 0 → c ≡ pos 0
word_of_free (pos n) r w h r₀ w₀ = ap pos (omega arith)
word_of_free (negsuc n) r w h r₀ w₀ = absurd (omega arith)

state_of_free : (s : State) → IsLocked s → readers s ≡ 0 → writers s ≡ 0 → s ≡ free_word s.threads
state_of_free s l r₀ w₀ =
    ap (λ c. record { word = c; threads = s.threads })
      (word_of_free s.word (readers s) (writers s) l r₀ w₀)

module _ (n : ℕ) (schedule : List (ℕ × Choice)) (i : ℕ) (w : Bool) where
  abbrev now : State
  now = run (start n) schedule

  now_free : readers now ≡ 0 → writers now ≡ 0 → now ≡ free_word now.threads
  now_free = state_of_free now (run-IsLocked schedule (start n) (start-IsLocked n))

  -- In any reachable state in which no thread holds the lock, a thread that waits to write does
  -- write after its next access, if its exchange does not fail for no reason.
  pub free_lock-writing :
      readers now ≡ 0
      → writers now ≡ 0
      → get_elem? now.threads i ≡ some write_entry
      → get_elem? (step now i (steady w)).threads i ≡ some writing
  free_lock-writing r₀ w₀ e = rw (now_free r₀ w₀) (write_enters now.threads i w e)

  -- In any reachable state in which no thread holds the lock, a thread that waits to read does
  -- read after its next two accesses, if its exchange does not fail for no reason.
  pub free_lock-reading :
      readers now ≡ 0
      → writers now ≡ 0
      → get_elem? now.threads i ≡ some read_entry
      → get_elem? (step (step now i (steady w)) i (steady w)).threads i ≡ some reading
  free_lock-reading r₀ w₀ e = rw (now_free r₀ w₀) (
      rw (load_enters now.threads i w e) (
        read_enters (set now.threads i (read_loaded 0)) i w
          (get_elem?-set-some now.threads i read_entry (read_loaded 0) e)))
