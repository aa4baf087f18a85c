-- ===== src/Workers/Queue/Tests.antt =====
-- A queue of tasks in a memory with room for two of them.
use linux.Common.{
  none, ℕ, ◌≡◌, refl, Bool, false, some, List, [], ◌∷◌, Bool-cases, inl, inr, if◌then◌else◌,
}
use linux.Workers.{Task}
use linux.Workers.Queue.{
  new_queue, push_task, pop_task, free_task, QueueCall, pushes, pops, frees, QueueOutcome, pushed,
  popped, out_of_memory, empty, InUse, do_call, do_calls,
}
use linux.Workers.Queue.Calls.{IsFresh, IsFifo}
use linux.Workers.Queue.Fifo.{do_calls-IsFifo}

abbrev task_of : ℕ → Task
task_of n = record { function = 10; argument = n }

-- Addresses 100 and 200.
abbrev small_malloc : (ℕ → Bool) → ℕ
small_malloc live = if live 100 then (if live 200 then 0 else 200) else 100

small_malloc-IsFresh : IsFresh small_malloc
small_malloc-IsFresh live n = elim (Bool-cases (live 100)) [
  | inr e ↦ rw e e
  | inl e ↦ elim (Bool-cases (live 200)) [
    | inr f ↦ rw (e, f) f
    | inl f ↦ absurd (n (rw (e, f) refl))
  ]
]

abbrev start_queue : InUse
start_queue = record { tasks = new_queue 40 (λ a. 7) (λ a. task_of 0); held = λ x. false }

-- The queue runs empty, and the memory of its first task is used again.
abbrev some_calls : List QueueCall
some_calls =
    pops
    ∷ pushes (task_of 1)
    ∷ pushes (task_of 2)
    ∷ pushes (task_of 3)
    ∷ pops
    ∷ frees 100
    ∷ pops
    ∷ pushes (task_of 4)
    ∷ pops
    ∷ pops
    ∷ []

some_calls-outcomes :
    elim (do_calls small_malloc start_queue some_calls) as (λ o. List QueueOutcome) [
      | none ↦ []
      | some r ↦ r.0
    ]
    ≡ empty
      ∷ pushed (task_of 1)
      ∷ pushed (task_of 2)
      ∷ out_of_memory
      ∷ popped (task_of 1)
      ∷ popped (task_of 2)
      ∷ pushed (task_of 4)
      ∷ popped (task_of 4)
      ∷ empty
      ∷ []
unfolding do_calls do_call push_task pop_task free_task
some_calls-outcomes = refl

do_calls-IsFifo_example :
    (outcomes : List QueueOutcome) × (after : InUse) × (left : List Task) × (do_calls small_malloc
        start_queue some_calls
      ≡ some (outcomes, after))
    × IsFifo some_calls outcomes [] left
do_calls-IsFifo_example =
    do_calls-IsFifo small_malloc 40 (λ a. 7) (λ a. task_of 0) some_calls small_malloc-IsFresh
