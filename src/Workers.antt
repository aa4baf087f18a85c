-- ===== src/Workers.antt =====
-- pools/thread_pool/thread_pool.cpp: the threads of a pool, and one client that pushes tasks and then
-- destroys the pool. A step is one access of one thread to what they share: the flag `quit`, the queue
-- under its spin lock, the mutex, or the condition variable. The mutex and the condition variable are
-- those of the system: a wait releases the mutex and sleeps in one step, may wake up for no reason, and
-- a signal wakes one of the threads that sleep, if there is one.
pub mod Queue
pub mod Mutex
pub mod Waking
pub mod Ending
pub mod Joining
pub mod Returns
pub mod Lost
mod Tests
use linux.Common.{
  ℕ, Bool, true, false, List, [], ◌∷◌, ◌++◌, none, some, get_elem?, get_or, set, replicate,
  if◌then◌else◌, ◌&&◌,
}

-- `sh_task`
pub record Task : Type 0 where
  pub function : ℕ
  pub argument : ℕ

-- Where a thread stands in `thread_work`: at the test of the loop, before `pop_task`, in the task's
-- function, before and behind `pthread_mutex_lock`, at `pthread_mutex_unlock` before the `break`, at
-- `pthread_cond_wait`, asleep in it, waiting for the mutex in it, at the last unlock, and at the end.
pub data Place : Type 0 where
  testing popping locking locked leaving waiting asleep waking woken ended : Place
  working : Task → Place

-- `quit` and the mutex as flags, and the tasks in the queue, as Workers/Queue has them linked; the tasks
-- that were started, in order.
pub record Shared : Type 0 where
  pub quit : Bool
  pub mutex : Bool
  pub queue : List Task
  pub started : List Task

-- What `pop_task` does to the queue's tasks, and the place of the thread behind it.
unfoldable pub pop_task : Shared → List Task → Shared × Place
pop_task s [] = (s, locking)
pop_task s (t ∷ ts) = (record s { queue = ts; started = s.started ++ (t ∷ []) }, working t)

-- An access of `thread_work`. A thread in `pthread_cond_wait` wakes up by itself only if `spurious`.
unfoldable pub work : Shared → Place → (spurious : Bool) → Shared × Place
unfolding pop_task
work s testing spurious = (s, if s.quit then ended else popping)
work s popping spurious = pop_task s s.queue
work s (working t) spurious = (s, testing)
work s locking spurious = if s.mutex then (s, locking) else (record s { mutex = true }, locked)
work s locked spurious = (s, if s.quit then leaving else waiting)
work s leaving spurious = (record s { mutex = false }, ended)
work s waiting spurious = (record s { mutex = false }, asleep)
work s asleep spurious = (s, if spurious then waking else asleep)
work s waking spurious = if s.mutex then (s, waking) else (record s { mutex = true }, woken)
work s woken spurious = (record s { mutex = false }, testing)
work s ended spurious = (s, ended)

-- Whether a thread sleeps in `pthread_cond_wait`, and whether it has ended.
abbrev pub sleeps : Place → Bool
sleeps asleep = true
sleeps _ = false

abbrev pub has_ended : Place → Bool
has_ended ended = true
has_ended _ = false

-- `pthread_cond_broadcast`
unfoldable pub wake_all : List Place → List Place
wake_all [] = []
wake_all (p ∷ ps) = (if sleeps p then waking else p) ∷ wake_all ps

unfoldable pub wake_first : List Place → List Place
wake_first [] = []
wake_first (p ∷ ps) = if sleeps p then waking ∷ ps else p ∷ wake_first ps

-- `pthread_cond_signal`: thread `i` wakes up if it sleeps, and the first that does if not.
unfoldable pub wake_one : (i : ℕ) → List Place → List Place
wake_one i ps = if sleeps (get_or ps i ended) then set ps i waking else wake_first ps

unfoldable pub all_ended : List Place → Bool
all_ended [] = true
all_ended (p ∷ ps) = has_ended p && all_ended ps

-- Where the client stands: between calls; in `sh_push_thread_pool` before `push_task` and before the
-- signal; in `sh_destory_thread_pool` at the lock, at `quit = 1`, at the unlock, at the broadcast, at
-- the joins and `sh_destory_task_queue`; and behind it.
pub data Client : Type 0 where
  ready signalling closing quitting unlocking broadcasting joining closed : Client
  pushing : Task → Client

-- `pushed` has the tasks that `push_task` has appended, and `freed` those that were still in the queue
-- at the end.
pub record State : Type 0 where
  pub shared : Shared
  pub workers : List Place
  pub client : Client
  pub pushed : List Task
  pub freed : List Task

-- An access of the client. `allocates` tells whether `malloc` gives memory for the task, and `i` which
-- thread a signal wakes.
unfoldable pub act : State → (allocates : Bool) → (i : ℕ) → Client → State
act s allocates i ready = s
act s true i (pushing t) = record s {
  shared = record s.shared { queue = s.shared.queue ++ (t ∷ []) };
  client = signalling;
  pushed = s.pushed ++ (t ∷ []);
}
act s false i (pushing t) = record s { client = signalling }
act s allocates i signalling = record s { workers = wake_one i s.workers; client = ready }
act s allocates i closing =
    if s.shared.mutex
    then s
    else record s { shared = record s.shared { mutex = true }; client = quitting }
act s allocates i quitting = record s {
  shared = record s.shared { quit = true };
  client = unlocking;
}
act s allocates i unlocking = record s {
  shared = record s.shared { mutex = false };
  client = broadcasting;
}
act s allocates i broadcasting = record s { workers = wake_all s.workers; client = joining }
act s allocates i joining =
    if all_ended s.workers
    then record s {
      shared = record s.shared { queue = [] };
      client = closed;
      freed = s.freed ++ s.shared.queue;
    }
    else s
act s allocates i closed = s

-- The next move: an access of a thread or of the client, or a call of the client.
pub data Move : Type 0 where
  worker : (i : ℕ) → (spurious : Bool) → Move
  client_step : (allocates : Bool) → (i : ℕ) → Move
  push : Task → Move
  destroy : Move

-- Thread `i` makes its next access.
unfoldable pub work_at : State → (i : ℕ) → (spurious : Bool) → State
work_at s i spurious = elim (get_elem? s.workers i) [
  | none ↦ s
  | some p ↦
      let r = work s.shared p spurious in record s { shared = r.0; workers = set s.workers i r.1 }
]

-- The client calls a function of the pool, if it is in no other call.
unfoldable pub call : State → Client → Client → State
call s next ready = record s { client = next }
call s next _ = s

unfoldable pub step : State → Move → State
step s (worker i spurious) = work_at s i spurious
step s (client_step allocates i) = act s allocates i s.client
step s (push t) = call s (pushing t) s.client
step s destroy = call s closing s.client

unfoldable pub run : State → List Move → State
run s [] = s
run s (m ∷ moves) = run (step s m) moves

-- What `sh_create_thread_pool` has made, with all `n` threads started.
abbrev pub start : ℕ → State
start n = record {
  shared = record { quit = false; mutex = false; queue = []; started = [] };
  workers = replicate n testing;
  client = ready;
  pushed = [];
  freed = [];
}
