-- ===== src/Workers/Queue.antt =====
-- The queue of tasks of pools/thread_pool/thread_pool.cpp as it is linked: `head`, and the `next` of each
-- task, are words at the start of their structs, so that a pointer to one of these words is the address
-- of its struct. `none` is an access to memory that is not allocated. `malloc` is a parameter.
pub mod Links
pub mod Calls
pub mod Fifo
mod Tests
use linux.Common.{
  ℕ, Bool, true, false, Option, none, some, List, [], ◌∷◌, ◌++◌, ◌==◌, if◌then◌else◌, ◌>>=◌,
}
use linux.Workers.{Task}

-- The memory, with which structs are allocated, the word at the start of each, and the tasks; and
-- `sh_task_queue`, by its address and its `tail`.
pub record TaskQueue : Type 0 where
  pub live : ℕ → Bool
  pub word : ℕ → ℕ
  pub task : ℕ → Task
  pub queue : ℕ
  pub tail : ℕ

-- A function with another value at one address.
abbrev pub with_value : {A : Type 0} → (ℕ → A) → ℕ → A → ℕ → A
with_value f a v x = if x == a then v else f x

-- `sh_create_task_queue`, for a queue at an address.
abbrev pub new_queue : (queue : ℕ) → (word : ℕ → ℕ) → (task : ℕ → Task) → TaskQueue
new_queue queue word task = record {
  live = λ a. a == queue;
  word = with_value word queue 0;
  task = task;
  queue = queue;
  tail = queue;
}

-- `push_task`, where `malloc` returns `p`.
unfoldable pub push_task : TaskQueue → (p : ℕ) → Task → Option TaskQueue
push_task q p t =
    let q' = record q {
      live = with_value q.live p true;
      task = with_value q.task p t;
      word = with_value q.word p 0;
    } in
    if p == 0
    then some q
    else if q'.live q.tail
    then some (record q' { word = with_value q'.word q.tail p; tail = p })
    else none

-- `pop_task`: the address of the task, or 0 for NULL.
unfoldable pub pop_task : TaskQueue → Option (ℕ × TaskQueue)
pop_task q =
    let task = q.word q.queue in
    let popped = record q {
      word = with_value q.word q.queue (q.word task);
      tail = if q.word task == 0 then q.queue else q.tail;
    } in
    if q.live q.queue
    then (if task == 0 then some (0, q) else if q.live task then some (task, popped) else none)
    else none

-- `free` of a task.
unfoldable pub free_task : TaskQueue → (p : ℕ) → Option TaskQueue
free_task q p = if q.live p then some (record q { live = with_value q.live p false }) else none

-- What the client and the threads do: a push, a pop, and `free` of a task that was popped.
pub data QueueCall : Type 0 where
  pushes : Task → QueueCall
  pops : QueueCall
  frees : (p : ℕ) → QueueCall

-- What comes of it.
pub data QueueOutcome : Type 0 where
  pushed popped : Task → QueueOutcome
  out_of_memory empty : QueueOutcome

-- The queue, with the tasks that were popped and not freed yet.
pub record InUse : Type 0 where
  pub tasks : TaskQueue
  pub held : ℕ → Bool

module _ (malloc : (ℕ → Bool) → ℕ) where
  unfoldable pub do_call : InUse → QueueCall → Option (List QueueOutcome × InUse)
  do_call u (pushes t) = do
    let p = malloc u.tasks.live
    q ← push_task u.tasks p t
    some ((if p == 0 then out_of_memory else pushed t) ∷ [], record u { tasks = q })
  do_call u pops = do
    (p, q) ← pop_task u.tasks
    some (
        if p == 0
        then (empty ∷ [], record u { tasks = q })
        else (popped (q.task p) ∷ [], record { tasks = q; held = with_value u.held p true }))
  do_call u (frees p) =
      if u.held p
      then (do
        q ← free_task u.tasks p
        some ([], record { tasks = q; held = with_value u.held p false }))
      else some ([], u)

  unfoldable pub do_calls : InUse → List QueueCall → Option (List QueueOutcome × InUse)
  do_calls u [] = some ([], u)
  do_calls u (c ∷ calls) = do
    (os, u') ← do_call u c
    (rest, u'') ← do_calls u' calls
    some (os ++ rest, u'')
