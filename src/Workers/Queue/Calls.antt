-- ===== src/Workers/Queue/Calls.antt =====
-- The linked queue is a FIFO of tasks.
use linux.Common.{
  ℕ, ◌<◌, ◌≡◌, refl, ◌≢◌, ap, ap₂, sym, ◌∙◌, Bool, true, false, some, List, [], ◌∷◌, ◌++◌, ◌==◌,
  arith, Bool-cases, inl, inr,
}
use linux.Workers.{Task}
use linux.Workers.Queue.{
  TaskQueue, with_value, push_task, QueueCall, pushes, pops, frees, QueueOutcome, pushed, popped,
  out_of_memory, empty, InUse,
}
use linux.Workers.Queue.Links.{
  IsApart, with_value-same, with_value-other, Links, live-Links, dead-IsApart, append-Links,
}

-- What C promises of `malloc`: NULL, or memory that is not allocated.
abbrev pub IsFresh : ((ℕ → Bool) → ℕ) → Type 0
IsFresh malloc = (live : ℕ → Bool) → malloc live ≢ 0 → live (malloc live) ≡ false

-- Whether the outcomes are those of a FIFO that holds `ts` before and `us` behind the calls: a push that
-- has memory puts its task behind the others, and a pop takes the first task, or none exactly where there
-- is none.
abbrev pub IsFifo : List QueueCall → List QueueOutcome → (ts us : List Task) → Type 0
IsFifo [] [] ts us = ts ≡ us
IsFifo (pushes t ∷ cs) (pushed x ∷ os) ts us = (x ≡ t) × IsFifo cs os (ts ++ (t ∷ [])) us
IsFifo (pushes t ∷ cs) (out_of_memory ∷ os) ts us = IsFifo cs os ts us
IsFifo (pops ∷ cs) (popped x ∷ os) (t ∷ ts) us = (x ≡ t) × IsFifo cs os ts us
IsFifo (pops ∷ cs) (empty ∷ os) [] us = IsFifo cs os [] us
IsFifo (frees p ∷ cs) os ts us = IsFifo cs os ts us
IsFifo _ _ _ _ = ⊥

abbrev pub tasks_of : (ℕ → Task) → List ℕ → List Task
tasks_of task [] = []
tasks_of task (p ∷ ps) = task p ∷ tasks_of task ps

-- The tasks at `ps` are linked, and what a thread holds is allocated.
pub record IsQueue (u : InUse) (ps : List ℕ) : Type 0 where
  pub queue_live : u.tasks.live u.tasks.queue ≡ true
  pub queue_unheld : u.held u.tasks.queue ≡ false
  pub held_live : (x : ℕ) → u.held x ≡ true → u.tasks.live x ≡ true
  pub links : Links u.tasks.word u.tasks.live u.held u.tasks.tail u.tasks.queue ps

pub with_value-tasks_of :
    (task : ℕ → Task) (p : ℕ) (t : Task) (ps : List ℕ)
    → IsApart p ps
    → tasks_of (with_value task p t) (ps ++ (p ∷ [])) ≡ tasks_of task ps ++ (t ∷ [])
with_value-tasks_of task p t [] d = ap (λ x. x ∷ []) (with_value-same task p t)
with_value-tasks_of task p t (x ∷ ps) d =
    ap₂ (λ y ys. y ∷ ys) (with_value-other task p t x (λ e. d.0 (sym e)))
      (with_value-tasks_of task p t ps d.1)

-- The pieces of a valid push: the new task is none of those there.
pub push-new :
    (u : InUse) (ps : List ℕ) (p : ℕ)
    → IsQueue u ps
    → u.tasks.live p ≡ false
    → (¬ (u.tasks.queue ≡ p)) × IsApart p ps × (u.held p ≡ false)
push-new u ps p v dead = (
  (λ e. let f = sym v.queue_live ∙ ap u.tasks.live e ∙ dead in cc),
  dead-IsApart u.tasks.word u.tasks.live u.held u.tasks.tail u.tasks.queue p ps dead v.links,
  elim (Bool-cases (u.held p)) [
    | inl h ↦ let f = sym (v.held_live p h) ∙ dead in absurd (cc)
    | inr h ↦ h
  ],
)

abbrev pub pushed_queue : TaskQueue → ℕ → Task → TaskQueue
pushed_queue q p t = record q {
  live = with_value q.live p true;
  task = with_value q.task p t;
  word = with_value (with_value q.word p 0) q.tail p;
  tail = p;
}

pub push_task-some :
    (q : TaskQueue) (p : ℕ) (t : Task)
    → (p == 0) ≡ false
    → with_value q.live p true q.tail ≡ true
    → push_task q p t ≡ some (pushed_queue q p t)
unfolding push_task
push_task-some q p t e l = rw (e, l) refl

pub push_task-null : (q : TaskQueue) (t : Task) (p : ℕ) → (p == 0) ≡ true → push_task q p t ≡ some q
unfolding push_task
push_task-null q t p e = rw e refl

pub with_live : (live : ℕ → Bool) (p x : ℕ) → live x ≡ true → with_value live p true x ≡ true
with_live live p x e = ground (arith, e)

pub pushed-IsQueue :
    (u : InUse) (ps : List ℕ) (p : ℕ) (t : Task)
    → IsQueue u ps
    → 0 < p
    → u.tasks.live p ≡ false
    → IsQueue (record u { tasks = pushed_queue u.tasks p t }) (ps ++ (p ∷ []))
pushed-IsQueue u ps p t v pos dead =
    let q = u.tasks in
    let (n, d, h) = push-new u ps p v dead in
    record {
      queue_live = with_live q.live p q.queue v.queue_live;
      queue_unheld = v.queue_unheld;
      held_live = λ x e. with_live q.live p x (v.held_live x e);
      links =
          append-Links q.word (with_value q.live p true) u.held q.tail q.queue p ps pos
            (with_value-same q.live p true) h n d
            (live-Links q.word q.live u.held q.tail q.queue p true ps d v.links);
    }
