-- ===== src/Workers/Mutex.antt =====
-- Who holds the mutex, what a thread's access does to the counts of threads, and what waking does.
use linux.Common.{
  ℕ, ◌+◌, ◌≤◌, ◌≡◌, refl, ap, sym, subst, Bool, true, false, List, [], ◌∷◌, if◌then◌else◌,
  Bool-cases, inl, inr, arith,
}
use linux.Workers.{
  Task, Place, testing, popping, locking, locked, leaving, waiting, asleep, waking, woken, ended,
  working, Shared, pop_task, work, Client, ready, signalling, closing, quitting, unlocking,
  broadcasting, joining, closed, pushing,
}

-- A thread holds the mutex, is about to wait, sleeps: 1 if so and 0 if not.
abbrev pub holds : Place → ℕ
holds locked = 1
holds leaving = 1
holds waiting = 1
holds woken = 1
holds testing = 0
holds popping = 0
holds locking = 0
holds asleep = 0
holds waking = 0
holds ended = 0
holds (working t) = 0

abbrev pub waits : Place → ℕ
waits waiting = 1
waits testing = 0
waits popping = 0
waits locking = 0
waits locked = 0
waits leaving = 0
waits asleep = 0
waits waking = 0
waits woken = 0
waits ended = 0
waits (working t) = 0

abbrev pub is_asleep : Place → ℕ
is_asleep asleep = 1
is_asleep testing = 0
is_asleep popping = 0
is_asleep locking = 0
is_asleep locked = 0
is_asleep leaving = 0
is_asleep waiting = 0
is_asleep waking = 0
is_asleep woken = 0
is_asleep ended = 0
is_asleep (working t) = 0

-- The client holds the mutex.
abbrev pub client_holds : Client → ℕ
client_holds quitting = 1
client_holds unlocking = 1
client_holds ready = 0
client_holds signalling = 0
client_holds closing = 0
client_holds broadcasting = 0
client_holds joining = 0
client_holds closed = 0
client_holds (pushing t) = 0

-- The mutex is taken by one holder, or free.
abbrev pub Flags : Bool → ℕ → Type 0
Flags true h = h ≡ 1
Flags false h = h ≡ 0

-- What an access leaves as it is, and what it can change: a thread comes to `waiting` only with the
-- mutex and where `quit` is not set, and to sleep only from there.
pub record Accessed (s : Shared) (p : Place) (r : Shared × Place) : Type 0 where
  pub same_quit : r.0.quit ≡ s.quit
  pub flags : (h : ℕ) → Flags s.mutex (h + holds p) → Flags r.0.mutex (h + holds r.1)
  pub needs_mutex : waits r.1 ≤ holds p
  pub needs_run : s.quit ≡ true → waits r.1 ≡ 0
  pub from_wait : is_asleep r.1 ≤ waits p + is_asleep p

-- A place between the accesses to the mutex.
outside-Accessed :
    (s : Shared) (p q : Place)
    → holds p ≡ 0
    → holds q ≡ 0
    → waits q ≡ 0
    → is_asleep q ≡ 0
    → Accessed s p (s, q)
outside-Accessed s p q hp hq wq aq = record {
  same_quit = refl;
  flags = λ h f. subst (Flags s.mutex) (omega (arith, hp, hq)) f;
  needs_mutex = omega (arith, wq);
  needs_run = λ e. wq;
  from_wait = omega (arith, aq);
}

-- A thread gives the mutex back, and comes to `q`.
unlocked-Accessed :
    (s : Shared) (p q : Place)
    → holds p ≡ 1
    → holds q ≡ 0
    → waits q ≡ 0
    → is_asleep q ≤ waits p + is_asleep p
    → Accessed s p (record s { mutex = false }, q)
unlocked-Accessed s p q hp hq wq aq = record {
  same_quit = refl;
  flags = λ h f. freed s.mutex h f;
  needs_mutex = omega (arith, wq);
  needs_run = λ e. wq;
  from_wait = aq;
}
  where
    freed : (m : Bool) (h : ℕ) → Flags m (h + holds p) → Flags false (h + holds q)
    freed true h f = omega (arith, f, hp, hq)
    freed false h f = absurd (omega (arith, f, hp))

-- A thread waits for the mutex at `p`, and comes to `q` once it has it.
lock-Accessed :
    (s : Shared) (p q : Place)
    → holds p ≡ 0
    → holds q ≡ 1
    → waits p ≡ 0
    → waits q ≡ 0
    → is_asleep p ≡ 0
    → is_asleep q ≡ 0
    → Accessed s p (if s.mutex then (s, p) else (record s { mutex = true }, q))
lock-Accessed s p q hp hq wp wq ap aq = elim (Bool-cases s.mutex) [
  | inl e ↦
      subst (λ b. Accessed s p (if b then (s, p) else (record s { mutex = true }, q))) (sym e)
        (outside-Accessed s p p hp hp wp ap)
  | inr e ↦
      subst (λ b. Accessed s p (if b then (s, p) else (record s { mutex = true }, q))) (sym e)
        (record {
          same_quit = refl;
          flags = λ h f. taken h (subst (λ b. Flags b (h + holds p)) e f);
          needs_mutex = omega (arith, wq);
          needs_run = λ e. wq;
          from_wait = omega (arith, aq);
        })
]
  where
    taken : (h : ℕ) → Flags false (h + holds p) → Flags true (h + holds q)
    taken h f = omega (arith, f, hp, hq)

pop_task-Accessed : (s : Shared) (ts : List Task) → Accessed s popping (pop_task s ts)
unfolding pop_task
pop_task-Accessed s [] = outside-Accessed s popping locking refl refl refl refl
pop_task-Accessed s (t ∷ ts) = record {
  same_quit = refl;
  flags = λ h f. f;
  needs_mutex = omega arith;
  needs_run = λ e. refl;
  from_wait = omega arith;
}

locked-Accessed : (s : Shared) → Accessed s locked (s, if s.quit then leaving else waiting)
locked-Accessed s = elim (Bool-cases s.quit) [
  | inl e ↦
      subst (λ b. Accessed s locked (s, if b then leaving else waiting)) (sym e)
        (record {
          same_quit = refl;
          flags = λ h f. f;
          needs_mutex = omega arith;
          needs_run = λ q. refl;
          from_wait = omega arith;
        })
  | inr e ↦
      subst (λ b. Accessed s locked (s, if b then leaving else waiting)) (sym e)
        (record {
          same_quit = refl;
          flags = λ h f. f;
          needs_mutex = omega arith;
          needs_run = λ q. absurd (ground (arith, e, q));
          from_wait = omega arith;
        })
]

pub work-Accessed : (s : Shared) (p : Place) (spurious : Bool) → Accessed s p (work s p spurious)
unfolding work
work-Accessed s testing spurious = elim (Bool-cases s.quit) [
  | inl e ↦
      subst (λ b. Accessed s testing (s, if b then ended else popping)) (sym e)
        (outside-Accessed s testing ended refl refl refl refl)
  | inr e ↦
      subst (λ b. Accessed s testing (s, if b then ended else popping)) (sym e)
        (outside-Accessed s testing popping refl refl refl refl)
]
work-Accessed s popping spurious = pop_task-Accessed s s.queue
work-Accessed s (working t) spurious = outside-Accessed s (working t) testing refl refl refl refl
work-Accessed s locking spurious = lock-Accessed s locking locked refl refl refl refl refl refl
work-Accessed s locked spurious = locked-Accessed s
work-Accessed s leaving spurious = unlocked-Accessed s leaving ended refl refl refl (omega arith)
work-Accessed s waiting spurious = unlocked-Accessed s waiting asleep refl refl refl (omega arith)
work-Accessed s asleep true = outside-Accessed s asleep waking refl refl refl refl
work-Accessed s asleep false = record {
  same_quit = refl;
  flags = λ h f. f;
  needs_mutex = omega arith;
  needs_run = λ e. refl;
  from_wait = omega arith;
}
work-Accessed s waking spurious = lock-Accessed s waking woken refl refl refl refl refl refl
work-Accessed s woken spurious = unlocked-Accessed s woken testing refl refl refl (omega arith)
work-Accessed s ended spurious = outside-Accessed s ended ended refl refl refl refl

-- Waking changes no count that does not tell `asleep` from `waking`, and leaves no thread asleep.
