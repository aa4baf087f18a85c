-- ===== src/Ring/Tests.antt =====
-- Runs of a ring of eight entries, and the ring's theorems at such inputs.
use linux.Common.{
  ◌*◌, ◌+◌, ◌≤◌, ◌<◌, ◌%◌, ◌⊎◌, ℕ, ◌+◌, ◌-◌, ◌^◌, ◌≡◌, refl, ◌↔◌, Option, none, some, List, [], ◌∷◌,
  arith, true, ap, some_inj, length-replicate, length, replicate,
}
use linux.Ring.State.{
  header_size, fixed, variable, Ring, create, init, get_memsize, is_power_of_2, cache_align,
}
use linux.Ring.Head.{move_prod_head, move_cons_head, update_tail}
use linux.Ring.Table.{enqueue_ptrs, dequeue_ptrs, copy_one}
use linux.Ring.Calls.{Done, do_enqueue, do_dequeue}
use linux.Ring.Api.{
  success, sp_enqueue, mc_dequeue, sp_enqueue_bulk, mc_dequeue_bulk, status_of, count, free_count,
  full, empty,
}
use linux.Ring.Valid.{IsValid, contents}
use linux.Ring.Queue.{moved, front, rest}
use linux.Ring.Enqueue.{Enqueued, do_enqueue-Enqueued}
use linux.Ring.Dequeue.{Dequeued, do_dequeue-Dequeued}
use linux.Ring.History.{
  Call, enq, deq, multi, single, default, run, queue_run, queue_step, run_refines,
}
use linux.Ring.Window.{entries}
use linux.Ring.Query.{queries-contents}
use linux.Ring.Create.{
  IsRingSize, HoldsRequest, get_memsize_cases, create-IsValid, create_zero_overflows,
}

-- Indices about to wrap: objects 11 and 12 stand in entries 7 and 0.
abbrev wrapped : Ring
wrapped = record {
  flags = 0;
  size = 8;
  mask = 7;
  capacity = 7;
  prod = record { head = 1; tail = 1; single = 0 };
  cons = record { head = 0xffff_ffff; tail = 0xffff_ffff; single = 1 };
  table = 12 ∷ 0 ∷ 0 ∷ 0 ∷ 0 ∷ 0 ∷ 0 ∷ 11 ∷ [];
}

wrapped-IsValid : IsValid wrapped
wrapped-IsValid = record {
  order = 3;
  order_small = omega arith;
  size_pow = refl;
  mask_size = refl;
  capacity_size = refl;
  storage = omega arith;
  prod_word = omega arith;
  cons_word = omega arith;
  prod_quiet = refl;
  cons_quiet = refl;
  used_le = omega arith;
}

contents-wrapped : contents wrapped ≡ 11 ∷ 12 ∷ []
unfolding entries
contents-wrapped = refl

abbrev script : List Call
script =
    enq multi variable (1 ∷ 2 ∷ 3 ∷ 4 ∷ 5 ∷ 6 ∷ []) 6
    ∷ enq single fixed (7 ∷ []) 1
    ∷ deq default fixed (0 ∷ 0 ∷ 0 ∷ []) 3
    ∷ deq multi variable (0 ∷ 0 ∷ 0 ∷ 0 ∷ 0 ∷ []) 5
    ∷ deq single fixed (0 ∷ []) 1
    ∷ []

-- A burst of six finds room for five; a bulk call is then refused; the objects come out in order.
run-wrapped : queue_run 7 (11 ∷ 12 ∷ []) script ≡ (
  (5, 1 ∷ 2 ∷ 3 ∷ 4 ∷ 5 ∷ 6 ∷ [])
      ∷ (0, 7 ∷ [])
      ∷ (3, 11 ∷ 12 ∷ 1 ∷ [])
      ∷ (4, 2 ∷ 3 ∷ 4 ∷ 5 ∷ 0 ∷ [])
      ∷ (0, 0 ∷ [])
      ∷ [],
  [],
)
unfolding queue_run queue_step moved front rest
run-wrapped = refl

run_refines_example :
    (r' : Ring) × (run 1 wrapped script ≡ some ((queue_run 7 (contents wrapped) script).0, r'))
    × IsValid r'
    × (r'.capacity ≡ 7)
    × (contents r' ≡ (queue_run 7 (contents wrapped) script).1)
run_refines_example = run_refines 0 script wrapped-IsValid (omega arith)

do_enqueue-Enqueued_example :
    Enqueued wrapped (1 ∷ 2 ∷ []) 2 fixed (do_enqueue 4 wrapped (1 ∷ 2 ∷ []) 2 fixed 0)
do_enqueue-Enqueued_example =
    do_enqueue-Enqueued wrapped-IsValid (1 ∷ 2 ∷ []) 2 fixed 0 3 (omega arith)

do_dequeue-Dequeued_example :
    Dequeued wrapped (0 ∷ 0 ∷ []) 2 variable (do_dequeue 1 wrapped (0 ∷ 0 ∷ []) 2 variable 1)
do_dequeue-Dequeued_example =
    do_dequeue-Dequeued wrapped-IsValid (0 ∷ 0 ∷ []) 2 variable 1 0 (omega arith)

queries-contents_example :
    (count wrapped ≡ length (contents wrapped))
    × (free_count wrapped + length (contents wrapped) ≡ 7)
    × ((full wrapped ≡ true) ↔ (length (contents wrapped) ≡ 7))
    × ((empty wrapped ≡ true) ↔ (contents wrapped ≡ []))
queries-contents_example = queries-contents wrapped-IsValid

get_memsize_cases_example :
    (IsRingSize 12
      × ((header_size + 12 * 8 ≤ get_memsize 12)
          × (get_memsize 12 < header_size + 12 * 8 + 64)
          × (get_memsize 12 % 64 ≡ 0)))
    ⊎ ((¬ IsRingSize 12) × (get_memsize 12 ≡ 0))
get_memsize_cases_example = get_memsize_cases 12 (omega arith) (omega arith)

-- A `malloc` that succeeds for every request that is a whole number of words.
abbrev words_of : ℕ → Option (List ℕ)
words_of bytes = some (replicate bytes 7)

words_of-HoldsRequest : HoldsRequest words_of
words_of-HoldsRequest bytes words e =
    omega (arith, ap length (some_inj e), length-replicate {A = ℕ} bytes 7)

create_sixteen : create words_of 16 3 ≡ some (init (replicate 512 7) 16 3)
unfolding create get_memsize is_power_of_2 cache_align
create_sixteen = refl

create_twelve : create words_of 12 0 ≡ none
unfolding create get_memsize is_power_of_2 cache_align
create_twelve = refl

create-IsValid_example :
    IsValid (init (replicate 512 7) 16 3)
    × (contents (init (replicate 512 7) 16 3) ≡ [])
    × ((init (replicate 512 7) 16 3).capacity ≡ 16 - 1)
create-IsValid_example =
    create-IsValid words_of 16 3 words_of-HoldsRequest (omega arith) (omega arith) create_sixteen

create_zero_overflows_example :
    (r : Ring) × (create (λ bytes. some []) 0 0 ≡ some r)
    × (r.capacity ≡ 2 ^ 32 - 1)
    × (r.table ≡ [])
    × (do_enqueue 1 r (5 ∷ []) 1 fixed 0 ≡ none)
    × ((done : Done) × (do_enqueue 1 (record r { table = 9 ∷ [] }) (5 ∷ []) 1 fixed 0 ≡ some done)
        × (done.count ≡ 1)
        × (done.ring.table ≡ 5 ∷ []))
create_zero_overflows_example = create_zero_overflows (λ bytes. some []) 0 0 5 9 0 fixed refl

-- Single-object calls: the queue of `wrapped` gives 11, and takes 9 behind 12.
sp_enqueue_nine :
    sp_enqueue 1 wrapped 9
    ≡ some (
      success,
      record wrapped {
        prod = record { head = 2; tail = 2; single = 0 };
        table = 12 ∷ 9 ∷ 0 ∷ 0 ∷ 0 ∷ 0 ∷ 0 ∷ 11 ∷ [];
      },
    )
unfolding sp_enqueue sp_enqueue_bulk status_of do_enqueue move_prod_head update_tail enqueue_ptrs
    copy_one
sp_enqueue_nine = refl

mc_dequeue_eleven :
    mc_dequeue 1 wrapped 0
    ≡ some (success, 11 ∷ [], record wrapped { cons = record { head = 0; tail = 0; single = 1 } })
unfolding mc_dequeue mc_dequeue_bulk status_of do_dequeue move_cons_head update_tail dequeue_ptrs
    copy_one
mc_dequeue_eleven = refl
