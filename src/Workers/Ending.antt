-- ===== src/Workers/Ending.antt =====
-- No thread sleeps through the end of the pool.
use linux.Common.{
  ℕ, ◌+◌, ◌-◌, ◌≤◌, ◌≡◌, refl, sym, ◌∙◌, subst, subst₂, Bool, true, false, List, [], ◌∷◌, get_elem?,
  if◌then◌else◌, Bool-cases, Option-cases, inl, inr, ◌⊎◌, arith,
}
use linux.Lock.Threads.{total, total-set, total-replicate, weight-le-total}
use linux.Workers.{
  Task, Place, testing, Shared, work, Client, ready, signalling, closing, quitting, unlocking,
  broadcasting, joining, closed, pushing, State, act, all_ended, Move, worker, client_step, push,
  destroy, work_at, call, step, run, start,
}
use linux.Workers.Mutex.{holds, waits, is_asleep, client_holds, Flags, work-Accessed}
use linux.Workers.Waking.{total-wake_all, total-wake_one, wake_all-awake}

-- With `w` threads about to wait and `a` asleep: from `quit = 1` on none is about to wait, and from the
-- broadcast on none sleeps.
abbrev pub Ends : Client → Bool → (w a : ℕ) → Type 0
Ends ready q w a = q ≡ false
Ends (pushing t) q w a = q ≡ false
Ends signalling q w a = q ≡ false
Ends closing q w a = q ≡ false
Ends quitting q w a = (q ≡ false) × (w ≡ 0)
Ends unlocking q w a = (q ≡ true) × (w ≡ 0)
Ends broadcasting q w a = (q ≡ true) × (w ≡ 0)
Ends joining q w a = (q ≡ true) × (w ≡ 0) × (a ≡ 0)
Ends closed q w a = (q ≡ true) × (w ≡ 0) × (a ≡ 0)

pub record IsWell (s : State) : Type 0 where
  pub flags : Flags s.shared.mutex (total holds s.workers + client_holds s.client)
  pub ends : Ends s.client s.shared.quit (total waits s.workers) (total is_asleep s.workers)

-- No thread comes to wait while the client holds the mutex.
held : (m : Bool) (h k x : ℕ) → Flags m (h + k + 1) → x ≤ k → x ≡ 0
held true h k x f le = omega (arith, f, le)
held false h k x f le = absurd (omega (arith, f))

work-Ends :
    (c : Client) (s : Shared) (p : Place) (spurious : Bool) (h w a : ℕ)
    → Flags s.mutex (h + holds p + client_holds c)
    → Ends c s.quit (w + waits p) (a + is_asleep p)
    → let r = work s p spurious in Ends c r.0.quit (w + waits r.1) (a + is_asleep r.1)
work-Ends ready s p spurious h w a f e = (work-Accessed s p spurious).same_quit ∙ e
work-Ends (pushing t) s p spurious h w a f e = (work-Accessed s p spurious).same_quit ∙ e
work-Ends signalling s p spurious h w a f e = (work-Accessed s p spurious).same_quit ∙ e
work-Ends closing s p spurious h w a f e = (work-Accessed s p spurious).same_quit ∙ e
work-Ends quitting s p spurious h w a f e =
    let r = work-Accessed s p spurious in
    (
      r.same_quit ∙ e.0,
      omega (arith, e.1, held s.mutex h (holds p) (waits (work s p spurious).1) f r.needs_mutex),
    )
work-Ends unlocking s p spurious h w a f e =
    let r = work-Accessed s p spurious in (r.same_quit ∙ e.0, omega (arith, e.1, r.needs_run e.0))
work-Ends broadcasting s p spurious h w a f e =
    let r = work-Accessed s p spurious in (r.same_quit ∙ e.0, omega (arith, e.1, r.needs_run e.0))
work-Ends joining s p spurious h w a f e =
    let r = work-Accessed s p spurious in
    (r.same_quit ∙ e.0, omega (arith, e.1, r.needs_run e.0), omega (arith, e, r.from_wait))
work-Ends closed s p spurious h w a f e =
    let r = work-Accessed s p spurious in
    (r.same_quit ∙ e.0, omega (arith, e.1, r.needs_run e.0), omega (arith, e, r.from_wait))

pub work_at-IsWell :
    (s : State) (i : ℕ) (spurious : Bool) → IsWell s → IsWell (work_at s i spurious)
unfolding work_at
work_at-IsWell s i spurious v = elim (Option-cases (get_elem? s.workers i)) [
  | inl e ↦ rw (e, work_at) v
  | inr (p, e) ↦
      let q = (work s.shared p spurious).1 in
      let h = total holds s.workers - holds p in
      let w = total waits s.workers - waits p in
      let a = total is_asleep s.workers - is_asleep p in
      let lh = weight-le-total holds s.workers i p e in
      let lw = weight-le-total waits s.workers i p e in
      let la = weight-le-total is_asleep s.workers i p e in
      let mh = total-set holds s.workers i p q e in
      let mw = total-set waits s.workers i p q e in
      let ma = total-set is_asleep s.workers i p q e in
      let f : Flags s.shared.mutex (h + holds p + client_holds s.client) =
        subst (Flags s.shared.mutex) (omega (arith, lh)) v.flags in
      let f' : Flags s.shared.mutex (h + client_holds s.client + holds p) =
        subst (Flags s.shared.mutex) (omega (arith, lh)) v.flags in
      let n : Ends s.client s.shared.quit (w + waits p) (a + is_asleep p) =
        subst₂ (Ends s.client s.shared.quit) (omega (arith, lw)) (omega (arith, la)) v.ends in
      let flags' = (work-Accessed s.shared p spurious).flags (h + client_holds s.client) f' in
      let ends' = work-Ends s.client s.shared p spurious h w a f n in
      rw (e, work_at)
        (record {
          flags = subst (Flags (work s.shared p spurious).0.mutex) (omega (arith, lh, mh)) flags';
          ends =
              subst₂ (Ends s.client (work s.shared p spurious).0.quit) (omega (arith, lw, mw))
                (omega (arith, la, ma)) ends';
        })
]

waits-le-holds : (p : Place) → waits p ≤ holds p
waits-le-holds p = ground arith

total-le : (ps : List Place) → total waits ps ≤ total holds ps
unfolding total
total-le [] = omega arith
total-le (p ∷ ps) = omega (arith, waits-le-holds p, total-le ps)

-- The client's flags and ends at its place `c`.
record At (s : State) (c : Client) : Type 0 where
  flags : Flags s.shared.mutex (total holds s.workers + client_holds c)
  ends : Ends c s.shared.quit (total waits s.workers) (total is_asleep s.workers)

IsWell-At : (s : State) (c : Client) → s.client ≡ c → IsWell s → At s c
IsWell-At s c e v = record {
  flags = subst (λ c. Flags s.shared.mutex (total holds s.workers + client_holds c)) e v.flags;
  ends =
      subst (λ c. Ends c s.shared.quit (total waits s.workers) (total is_asleep s.workers)) e
        v.ends;
}

-- The client has locked the mutex.
abbrev taken : State → State
taken s = record s { shared = record s.shared { mutex = true }; client = quitting }

act-IsWell :
    (s : State) (allocates : Bool) (i : ℕ) (c : Client)
    → IsWell s
    → At s c
    → IsWell (act s allocates i c)
unfolding act
act-IsWell s allocates i ready v x = v
act-IsWell s true i (pushing t) v x = record { flags = x.flags; ends = x.ends }
act-IsWell s false i (pushing t) v x = record { flags = x.flags; ends = x.ends }
act-IsWell s allocates i signalling v x = record {
  flags =
      subst (λ n. Flags s.shared.mutex (n + 0)) (sym (total-wake_one holds refl i s.workers))
        x.flags;
  ends = x.ends;
}
act-IsWell s allocates i closing v x = elim (Bool-cases s.shared.mutex) [
  | inl m ↦ subst (λ b. IsWell (if b then s else taken s)) (sym m) v
  | inr m ↦
      let f : Flags false (total holds s.workers + 0) =
        subst (λ b. Flags b (total holds s.workers + 0)) m x.flags in
      let le = total-le s.workers in
      subst (λ b. IsWell (if b then s else taken s)) (sym m)
        (record { flags = omega (arith, f); ends = (x.ends, omega (arith, f, le)) })
]
act-IsWell s allocates i quitting v x = record { flags = x.flags; ends = (refl, x.ends.1) }
act-IsWell s allocates i unlocking v x = record {
  flags = freed s.shared.mutex (total holds s.workers) x.flags;
  ends = x.ends;
}
  where
    freed : (m : Bool) (h : ℕ) → Flags m (h + 1) → Flags false (h + 0)
    freed true h f = omega (arith, f)
    freed false h f = absurd (omega (arith, f))
act-IsWell s allocates i broadcasting v x = record {
  flags =
      subst (λ n. Flags s.shared.mutex (n + 0)) (sym (total-wake_all holds refl s.workers)) x.flags;
  ends = (x.ends.0, total-wake_all waits refl s.workers ∙ x.ends.1, wake_all-awake s.workers);
}
act-IsWell s allocates i joining v x = elim (Bool-cases (all_ended s.workers)) [
  | inl m ↦ rw m (record { flags = x.flags; ends = x.ends })
  | inr m ↦ rw m v
]
act-IsWell s allocates i closed v x = v

call-IsWell :
    (s : State) (next c : Client)
    → (next ≡ closing) ⊎ ((t : Task) × (next ≡ pushing t))
    → IsWell s
    → At s c
    → IsWell (call s next c)
unfolding call
call-IsWell s next ready (inl e) v x = rw e (record { flags = x.flags; ends = x.ends })
call-IsWell s next ready (inr (t, e)) v x = rw e (record { flags = x.flags; ends = x.ends })
call-IsWell s next signalling w v x = v
call-IsWell s next closing w v x = v
call-IsWell s next quitting w v x = v
call-IsWell s next unlocking w v x = v
call-IsWell s next broadcasting w v x = v
call-IsWell s next joining w v x = v
call-IsWell s next closed w v x = v
call-IsWell s next (pushing t) w v x = v

step-IsWell : (s : State) (m : Move) → IsWell s → IsWell (step s m)
unfolding step
step-IsWell s (worker i spurious) v = work_at-IsWell s i spurious v
step-IsWell s (client_step allocates i) v =
    act-IsWell s allocates i s.client v (IsWell-At s s.client refl v)
step-IsWell s (push t) v =
    call-IsWell s (pushing t) s.client (inr (t, refl)) v (IsWell-At s s.client refl v)
step-IsWell s destroy v = call-IsWell s closing s.client (inl refl) v (IsWell-At s s.client refl v)

pub run-IsWell : (moves : List Move) (s : State) → IsWell s → IsWell (run s moves)
unfolding run
run-IsWell [] s v = v
run-IsWell (m ∷ moves) s v = run-IsWell moves (step s m) (step-IsWell s m v)

pub start-IsWell : (n : ℕ) → IsWell (start n)
start-IsWell n = record { flags = omega (arith, total-replicate holds n testing refl); ends = refl }
