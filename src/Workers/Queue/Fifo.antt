-- ===== src/Workers/Queue/Fifo.antt =====
-- Sequences of calls on the linked queue.
use linux.Common.{
  ℕ, ◌<◌, ◌≡◌, refl, ap, sym, ◌∙◌, subst, Bool, true, false, Option, some, List, [], ◌∷◌, ◌++◌,
  ◌==◌, if◌then◌else◌, arith, Bool-cases, inl, inr,
}
use linux.Workers.{Task}
use linux.Workers.Queue.{
  TaskQueue, with_value, new_queue, pop_task, free_task, QueueCall, pushes, pops, frees,
  QueueOutcome, pushed, popped, out_of_memory, empty, InUse, do_call, do_calls,
}
use linux.Workers.Queue.Links.{
  with_value-same, with_value-other, Links, word-Links, live-Links, held-Links, held-IsApart,
  tail-live,
}
use linux.Workers.Queue.Calls.{
  IsFresh, IsFifo, tasks_of, IsQueue, with_live, with_value-tasks_of, push-new, pushed_queue,
  push_task-some, push_task-null, pushed-IsQueue,
}

-- A call returns, leaves a valid queue, and is one of a FIFO.
record CallDone (u : InUse) (ps : List ℕ) (c : QueueCall) (out : Option (List QueueOutcome × InUse))
    : Type 0 where
  outcomes : List QueueOutcome
  after : InUse
  nodes : List ℕ
  returns : out ≡ some (outcomes, after)
  valid : IsQueue after nodes
  follows :
      (cs : List QueueCall) (os : List QueueOutcome) (us : List Task)
      → IsFifo cs os (tasks_of after.tasks.task nodes) us
      → IsFifo (c ∷ cs) (outcomes ++ os) (tasks_of u.tasks.task ps) us

push_call :
    (malloc : (ℕ → Bool) → ℕ) (u : InUse) (ps : List ℕ) (t : Task)
    → IsFresh malloc
    → IsQueue u ps
    → CallDone u ps (pushes t) (do_call malloc u (pushes t))
unfolding do_call
push_call malloc u ps t fresh v =
    let q = u.tasks in
    let p = malloc q.live in
    elim (Bool-cases (p == 0)) [
      | inl z ↦ record {
        outcomes = out_of_memory ∷ [];
        after = u;
        nodes = ps;
        returns = rw (push_task-null q t p z, z) refl;
        valid = v;
        follows = λ cs os us f. f;
      }
      | inr z ↦
          let pos : 0 < p = ground (arith, z) in
          let dead = fresh q.live (λ e. omega (arith, e, pos)) in
          let tail_live =
            tail-live q.word (with_value q.live p true) u.held q.tail q.queue ps
              (with_live q.live p q.queue v.queue_live)
              (live-Links q.word q.live u.held q.tail q.queue p true ps (push-new u ps p v dead).1
                v.links) in
          record {
            outcomes = pushed t ∷ [];
            after = record u { tasks = pushed_queue q p t };
            nodes = ps ++ (p ∷ []);
            returns = rw (push_task-some q p t z tail_live, z) refl;
            valid = pushed-IsQueue u ps p t v pos dead;
            follows = λ cs os us f. (
              refl,
              subst (λ ts. IsFifo cs os ts us)
                  (with_value-tasks_of q.task p t ps (push-new u ps p v dead).1) f,
            );
          }
    ]

-- The queue without its first task.
abbrev popped_queue : TaskQueue → ℕ → TaskQueue
popped_queue q p = record q {
  word = with_value q.word q.queue (q.word p);
  tail = if q.word p == 0 then q.queue else q.tail;
}

pop_task-first :
    (q : TaskQueue) (p : ℕ)
    → q.live q.queue ≡ true
    → q.word q.queue ≡ p
    → (p == 0) ≡ false
    → q.live p ≡ true
    → pop_task q ≡ some (p, popped_queue q p)
unfolding pop_task
pop_task-first q p l e z a = rw (e, l, z, a) refl

pop_task-empty :
    (q : TaskQueue) → q.live q.queue ≡ true → q.word q.queue ≡ 0 → pop_task q ≡ some (0, q)
unfolding pop_task
pop_task-empty q l e = rw (e, l) refl

popped-Links :
    (u : InUse) (p : ℕ) (ps : List ℕ)
    → IsQueue u (p ∷ ps)
    → let q = popped_queue u.tasks p in
      Links q.word q.live (with_value u.held p true) q.tail q.queue ps
popped-Links u p [] v =
    let q = u.tasks in
    let l = v.links in
    let last : (q.word p == 0) ≡ true = ground (arith, l.5.0) in
    (with_value-same q.word q.queue (q.word p) ∙ l.5.0, rw last refl)
popped-Links u p (x ∷ ps) v =
    let q = u.tasks in
    let l = v.links in
    let more : (q.word p == 0) ≡ false = ground (arith, l.5.0, l.5.1) in
    let stays : (if q.word p == 0 then q.queue else q.tail) ≡ q.tail = rw more refl in
    subst
      (λ t.
        Links (with_value q.word q.queue (q.word p)) q.live (with_value u.held p true) t q.queue
          (x ∷ ps))
      (sym stays)
      (
        with_value-same q.word q.queue (q.word p) ∙ l.5.0,
        l.5.1,
        l.5.2,
        with_value-other u.held p true x (λ e. l.5.4.0 (sym e)) ∙ l.5.3,
        l.4.1,
        held-Links (with_value q.word q.queue (q.word p)) q.live u.held q.tail x p true ps l.5.4.1 (
            word-Links q.word q.live u.held q.tail x q.queue (q.word p) ps (λ e. l.4.1.0 (sym e))
              l.4.1.1 l.5.5),
      )

pop_call :
    (malloc : (ℕ → Bool) → ℕ) (u : InUse) (ps : List ℕ)
    → IsQueue u ps
    → CallDone u ps pops (do_call malloc u pops)
unfolding do_call
pop_call malloc u [] v = record {
  outcomes = empty ∷ [];
  after = u;
  nodes = [];
  returns = rw (pop_task-empty u.tasks v.queue_live v.links.0) refl;
  valid = v;
  follows = λ cs os us f. f;
}
pop_call malloc u (p ∷ ps) v =
    let q = u.tasks in
    let l = v.links in
    let z : (p == 0) ≡ false = ground (arith, l.1) in
    record {
      outcomes = popped (q.task p) ∷ [];
      after = record { tasks = popped_queue q p; held = with_value u.held p true };
      nodes = ps;
      returns = rw (pop_task-first q p v.queue_live l.0 z l.2, z) refl;
      valid = record {
        queue_live = v.queue_live;
        queue_unheld = with_value-other u.held p true q.queue l.4.0 ∙ v.queue_unheld;
        held_live = λ x e. elim (Bool-cases (x == p)) [
          | inl same ↦ let s : x ≡ p = ground (arith, same) in ap q.live s ∙ l.2
          | inr other ↦ v.held_live x (rw other at e)
        ];
        links = popped-Links u p ps v;
      };
      follows = λ cs os us f. (refl, f);
    }

free_call :
    (malloc : (ℕ → Bool) → ℕ) (u : InUse) (ps : List ℕ) (p : ℕ)
    → IsQueue u ps
    → CallDone u ps (frees p) (do_call malloc u (frees p))
unfolding do_call free_task
free_call malloc u ps p v = elim (Bool-cases (u.held p)) [
  | inr h ↦ record {
    outcomes = [];
    after = u;
    nodes = ps;
    returns = rw h refl;
    valid = v;
    follows = λ cs os us f. f;
  }
  | inl h ↦
      let q = u.tasks in
      let d = held-IsApart q.word q.live u.held q.tail q.queue p ps h v.links in
      let other : ¬ (q.queue ≡ p) = λ e. (let f = sym v.queue_unheld ∙ ap u.held e ∙ h in cc) in
      record {
        outcomes = [];
        after = record {
          tasks = record q { live = with_value q.live p false };
          held = with_value u.held p false;
        };
        nodes = ps;
        returns = rw (h, v.held_live p h) refl;
        valid = record {
          queue_live = with_value-other q.live p false q.queue other ∙ v.queue_live;
          queue_unheld = with_value-other u.held p false q.queue other ∙ v.queue_unheld;
          held_live = λ x e. elim (Bool-cases (x == p)) [
            | inl same ↦ absurd (let f = (rw same at e) in cc)
            | inr different ↦
                let n : ¬ (x ≡ p) = λ s. ground (arith, different, s) in
                with_value-other q.live p false x n
                ∙ v.held_live x (sym (with_value-other u.held p false x n) ∙ e)
          ];
          links =
              held-Links q.word (with_value q.live p false) u.held q.tail q.queue p false ps d
                (live-Links q.word q.live u.held q.tail q.queue p false ps d v.links);
        };
        follows = λ cs os us f. f;
      }
]

any_call :
    (malloc : (ℕ → Bool) → ℕ) (u : InUse) (ps : List ℕ) (c : QueueCall)
    → IsFresh malloc
    → IsQueue u ps
    → CallDone u ps c (do_call malloc u c)
any_call malloc u ps (pushes t) fresh v = push_call malloc u ps t fresh v
any_call malloc u ps pops fresh v = pop_call malloc u ps v
any_call malloc u ps (frees p) fresh v = free_call malloc u ps p v

-- The outcomes and the state of a sequence of calls.
Ran :
    (u : InUse) (ts : List Task) (calls : List QueueCall)
    → Option (List QueueOutcome × InUse)
    → Type 0
Ran u ts calls out =
    (outcomes : List QueueOutcome) × (after : InUse) × (left : List Task) × (out
      ≡ some (outcomes, after))
    × IsFifo calls outcomes ts left

do_calls-Ran :
    (malloc : (ℕ → Bool) → ℕ) (calls : List QueueCall) (u : InUse) (ps : List ℕ)
    → IsFresh malloc
    → IsQueue u ps
    → Ran u (tasks_of u.tasks.task ps) calls (do_calls malloc u calls)
unfolding do_calls Ran
do_calls-Ran malloc [] u ps fresh v = ([], u, tasks_of u.tasks.task ps, refl, refl)
do_calls-Ran malloc (c ∷ calls) u ps fresh v =
    let d = any_call malloc u ps c fresh v in
    let (os, after, left, e, f) = do_calls-Ran malloc calls d.after d.nodes fresh d.valid in
    (d.outcomes ++ os, after, left, rw (d.returns, e) refl, d.follows calls os left f)

-- For a `malloc` that keeps its promise: from the queue that `sh_create_task_queue` makes, any sequence
-- of pushes, of pops, and of `free` of tasks that were popped returns, without an access to memory that
-- is not allocated, though freed memory may be used again; and its outcomes are those of a FIFO: a push
-- for which there is memory puts its task behind the others, and a pop takes the first task, or none
-- exactly where there is none.
pub do_calls-IsFifo :
    (malloc : (ℕ → Bool) → ℕ) (queue : ℕ) (word : ℕ → ℕ) (task : ℕ → Task) (calls : List QueueCall)
    → IsFresh malloc
    → (outcomes : List QueueOutcome) × (after : InUse) × (left : List Task) × (do_calls malloc
          (record { tasks = new_queue queue word task; held = λ x. false })
          calls
        ≡ some (outcomes, after))
      × IsFifo calls outcomes [] left
unfolding Ran
do_calls-IsFifo malloc queue word task calls fresh =
    let live : (queue == queue) ≡ true = ground arith in
    do_calls-Ran malloc calls (record { tasks = new_queue queue word task; held = λ x. false }) []
      fresh
      (record {
        queue_live = live;
        queue_unheld = refl;
        held_live = λ x e. absurd (cc);
        links = (with_value-same word queue 0, refl);
      })
