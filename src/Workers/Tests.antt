-- ===== src/Workers/Tests.antt =====
-- Runs of a pool of threads.
use linux.Common.{ℕ, ◌≡◌, refl, true, List, [], ◌∷◌, ◌++◌, replicate}
use linux.Workers.{
  Task, asleep, working, testing, pop_task, work, wake_all, wake_first, wake_one, ready, joining,
  act, Move, client_step, push, destroy, work_at, call, step, run, start,
}
use linux.Workers.Returns.{turns, Returns, destroy-Returns}
use linux.Workers.Lost.{losing, push_loses_wakeup}

abbrev first_task : Task
first_task = record { function = 10; argument = 1 }

abbrev second_task : Task
second_task = record { function = 10; argument = 2 }

abbrev client_moves : List Move
client_moves = client_step true 0 ∷ client_step true 0 ∷ []

-- The client pushes two tasks, of which thread 1 starts one.
abbrev two_pushes : List Move
two_pushes =
    (push first_task ∷ client_moves) ++ ((push second_task ∷ client_moves) ++ turns (1 ∷ 1 ∷ []))

two_pushes-run : (run (start 2) two_pushes).workers ≡ testing ∷ working first_task ∷ []
unfolding run step call act work_at work pop_task wake_one wake_first
two_pushes-run = refl

-- Thread 0 sleeps when the client destroys the pool.
abbrev destroys : List Move
destroys = turns (0 ∷ 0 ∷ 0 ∷ 0 ∷ 0 ∷ []) ++ (destroy ∷ (client_moves ++ client_moves))

destroys-run : (run (start 2) destroys).client ≡ joining
unfolding run step call act work_at work pop_task wake_all
destroys-run = refl

destroy-Returns_example : Returns (run (start 2) destroys)
destroy-Returns_example = destroy-Returns 2 destroys destroys-run

push_loses_wakeup_example :
    let s = run (start 2) (losing 2 first_task) in
    (s.client ≡ ready)
    × (s.pushed ≡ first_task ∷ [])
    × (s.shared.queue ≡ first_task ∷ [])
    × (s.workers ≡ replicate 2 asleep)
    × ((is : List ℕ) → run s (turns is) ≡ s)
push_loses_wakeup_example = push_loses_wakeup 2 first_task
