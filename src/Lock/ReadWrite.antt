-- ===== src/Lock/ReadWrite.antt =====
-- `sh_rwlock` of vpn/com_lib/lock_lib/atomic_rwlock.h. A thread's place is the atomic access that
-- it makes next; one step is one such access.
use linux.Common.{ℕ, suc, Bool, not, ◌&&◌, if◌then◌else◌, List, [], ◌∷◌, none, some, get_elem?, set}
use linux.Lock.Counter.{ℤ, pos, negsuc, pred_ℤ, is_pos}

-- Where a thread stands.
--   idle          outside every call
--   read_entry    in lock_read, before a load
--   read_loaded   in lock_read, before compare_exchange_weak from this `expected`
--   reading       between lock_read and unlock_read
--   write_entry   in lock_write, before compare_exchange_weak
--   writing       between lock_write and unlock_write
pub data Place : Type 0 where
  idle read_entry reading write_entry writing : Place
  read_loaded : ℕ → Place

-- What the program and the processor choose in a step: which lock an idle thread calls for, and
-- whether a weak compare and exchange fails for no reason.
pub record Choice : Type 0 where
  pub write : Bool
  pub spurious : Bool

pub record State : Type 0 where
  pub word : ℤ
  pub threads : List Place

-- The load of lock_read: a negative value is loaded again.
unfoldable pub load_step : ℤ → Place
load_step (pos n) = read_loaded n
load_step (negsuc n) = read_entry

-- The next access of a thread at a place, with the word's and the thread's new values.
unfoldable pub access : ℤ → Place → Choice → ℤ × Place
unfolding load_step
access c idle x = (c, if x.write then write_entry else read_entry)
access c read_entry x = (c, load_step c)
access c (read_loaded e) x =
    if not x.spurious && is_pos c e then (pos (suc e), reading) else (c, read_entry)
access c reading x = (pred_ℤ c, idle)
access c write_entry x =
    if not x.spurious && is_pos c 0 then (negsuc 0, writing) else (c, write_entry)
access c writing x = (pos 0, idle)

-- Thread `i` makes its next access.
unfoldable pub step : State → ℕ → Choice → State
step s i x = elim (get_elem? s.threads i) [
  | none ↦ s
  | some t ↦ let (c, t') = access s.word t x in record { word = c; threads = set s.threads i t' }
]

-- An interleaving: which thread moves next, and how.
unfoldable pub run : State → List (ℕ × Choice) → State
run s [] = s
run s ((i, x) ∷ schedule) = run (step s i x) schedule
