-- ===== src/Ring/Calls.antt =====
-- The enqueue and dequeue calls of dpdk_ring/rte_ring.h, and its queries.
use linux.Common.{ℕ, Option, some, List, ◌>>=◌, sub32}
use linux.Ring.State.{Behavior, Ring}
use linux.Ring.Table.{enqueue_ptrs, dequeue_ptrs}
use linux.Ring.Head.{Claim, refused, claimed, move_prod_head, move_cons_head, update_tail}

-- What a call leaves: its return value, `*free_space` or `*available` (which C drops at NULL),
-- the caller's array and the ring.
pub record Done : Type 0 where
  pub count : ℕ
  pub left : ℕ
  pub objs : List ℕ
  pub ring : Ring

unfoldable pub finish_enqueue : List ℕ → ℕ → Claim → Ring → Option Done
finish_enqueue obj_table is_sp (refused free_entries) r =
    some (record { count = 0; left = sub32 free_entries 0; objs = obj_table; ring = r })
finish_enqueue obj_table is_sp (claimed n prod_head prod_next free_entries) r = do
  table ← enqueue_ptrs r prod_head obj_table n
  prod ← update_tail r.prod prod_head prod_next is_sp
  some (record {
    count = n;
    left = sub32 free_entries n;
    objs = obj_table;
    ring = record r { table = table; prod = prod };
  })

unfoldable pub finish_dequeue : List ℕ → ℕ → Claim → Ring → Option Done
finish_dequeue obj_table is_sc (refused entries) r =
    some (record { count = 0; left = sub32 entries 0; objs = obj_table; ring = r })
finish_dequeue obj_table is_sc (claimed n cons_head cons_next entries) r = do
  objs ← dequeue_ptrs r cons_head obj_table n
  cons ← update_tail r.cons cons_head cons_next is_sc
  some (record { count = n; left = sub32 entries n; objs = objs; ring = record r { cons = cons } })

-- `fuel` bounds the rounds of the loops that claim a head.
module _ (fuel : ℕ) where
  -- `__rte_ring_do_enqueue`
  unfoldable pub do_enqueue : Ring → List ℕ → ℕ → Behavior → ℕ → Option Done
  unfolding finish_enqueue
  do_enqueue r obj_table n behavior is_sp = do
    (claim, r) ← move_prod_head fuel r is_sp n behavior
    finish_enqueue obj_table is_sp claim r

  -- `__rte_ring_do_dequeue`
  unfoldable pub do_dequeue : Ring → List ℕ → ℕ → Behavior → ℕ → Option Done
  unfolding finish_dequeue
  do_dequeue r obj_table n behavior is_sc = do
    (claim, r) ← move_cons_head fuel r is_sc n behavior
    finish_dequeue obj_table is_sc claim r
