-- ===== src/Lock/Tests.antt =====
-- Interleavings of three threads.
use linux.Common.{ℕ, ◌≤◌, ◌≡◌, refl, ◌⊎◌, ◌↔◌, true, false, List, [], ◌∷◌, some, get_elem?}
use linux.Lock.Counter.{pos, negsuc}
use linux.Lock.Threads.{total}
use linux.Lock.ReadWrite
use linux.Lock.ReadWrite.{Choice, idle, read_entry, read_loaded, reading, write_entry, writing}
use linux.Lock.ReadWriteSafe.{
  readers, writers, start, steady, exclusion, free_lock-writing, free_lock-reading,
}
use linux.Lock.Spin
use linux.Lock.Spin.{spin_exclusion}

-- Threads 0 and 1 read together while thread 2 tries to write; a weak exchange fails once.
abbrev schedule : List (ℕ × Choice)
schedule =
    (0, steady false)
    ∷ (1, steady false)
    ∷ (2, steady true)
    ∷ (0, steady false)
    ∷ (1, steady false)
    ∷ (0, record { write = false; spurious = true })
    ∷ (1, steady false)
    ∷ (2, steady true)
    ∷ (0, steady false)
    ∷ (0, steady false)
    ∷ []

two_readers :
    ReadWrite.run (start 3) schedule
    ≡ record { word = pos 2; threads = reading ∷ reading ∷ write_entry ∷ [] }
unfolding ReadWrite.run ReadWrite.step ReadWrite.access
two_readers = refl

-- Thread 0 waits to write and thread 1 to read, over a free lock.
abbrev waiting : List (ℕ × Choice)
waiting = (0, steady true) ∷ (1, steady false) ∷ []

exclusion_example :
    (writers (ReadWrite.run (start 3) schedule) ≤ 1)
    × ((writers (ReadWrite.run (start 3) schedule) ≡ 0)
        ⊎ (readers (ReadWrite.run (start 3) schedule) ≡ 0))
    × (((ReadWrite.run (start 3) schedule).word ≡ pos (readers (ReadWrite.run (start 3) schedule)))
        ⊎ (((ReadWrite.run (start 3) schedule).word ≡ negsuc 0)
            × (writers (ReadWrite.run (start 3) schedule) ≡ 1)))
exclusion_example = exclusion 3 schedule

free_lock-writing_example :
    get_elem? (ReadWrite.step (ReadWrite.run (start 2) waiting) 0 (steady true)).threads 0
    ≡ some writing
unfolding ReadWrite.run ReadWrite.step ReadWrite.access total
free_lock-writing_example = free_lock-writing 2 waiting 0 true refl refl refl

free_lock-reading_example :
    get_elem?
      (ReadWrite.step
        (ReadWrite.step (ReadWrite.run (start 2) waiting) 1 (steady false))
        1
        (steady false)).threads
      1
    ≡ some reading
unfolding ReadWrite.run ReadWrite.step ReadWrite.access total
free_lock-reading_example = free_lock-reading 2 waiting 1 false refl refl refl

spin_turns :
    Spin.run (Spin.start 2) (0 ∷ 1 ∷ 0 ∷ 1 ∷ [])
    ≡ record { flag = true; threads = Spin.holding ∷ Spin.trying ∷ [] }
unfolding Spin.run Spin.step Spin.access
spin_turns = refl

spin_exclusion_example :
    (Spin.holders (Spin.run (Spin.start 2) (0 ∷ 1 ∷ 0 ∷ [])) ≤ 1)
    × (((Spin.run (Spin.start 2) (0 ∷ 1 ∷ 0 ∷ [])).flag ≡ true)
        ↔ (Spin.holders (Spin.run (Spin.start 2) (0 ∷ 1 ∷ 0 ∷ [])) ≡ 1))
spin_exclusion_example = spin_exclusion 2 (0 ∷ 1 ∷ 0 ∷ [])
