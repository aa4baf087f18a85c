-- ===== src/Ring/Api.antt =====
-- The public calls of dpdk_ring/rte_ring.h: bulk calls move all of `n` objects or none, burst
-- calls as many as they can, and each side has a multi-user, a single-user and a default version.
use linux.Common.{
  ℕ, Bool, Option, some, List, [], ◌∷◌, bit_and, ◌>>=◌, ltb, ◌==◌, if◌then◌else◌, sub32,
}
use linux.Ring.State.{fixed, variable, Ring, is_single, is_multi}
use linux.Ring.Calls.{Done, do_enqueue, do_dequeue}

-- 0, -ENOBUFS and -ENOENT
pub data Status : Type 0 where
  success no_buffers no_entry : Status

-- `count ? 0 : -errno`
unfoldable pub status_of : Done → Status → Status
status_of d error = if d.count == 0 then error else success

module _ (fuel : ℕ) where
  -- `rte_ring_mp_enqueue_bulk`
  unfoldable pub mp_enqueue_bulk : Ring → List ℕ → ℕ → Option Done
  mp_enqueue_bulk r obj_table n = do_enqueue fuel r obj_table n fixed is_multi

  -- `rte_ring_sp_enqueue_bulk`
  unfoldable pub sp_enqueue_bulk : Ring → List ℕ → ℕ → Option Done
  sp_enqueue_bulk r obj_table n = do_enqueue fuel r obj_table n fixed is_single

  -- `rte_ring_enqueue_bulk`
  unfoldable pub enqueue_bulk : Ring → List ℕ → ℕ → Option Done
  enqueue_bulk r obj_table n = do_enqueue fuel r obj_table n fixed r.prod.single

  -- `rte_ring_mc_dequeue_bulk`
  unfoldable pub mc_dequeue_bulk : Ring → List ℕ → ℕ → Option Done
  mc_dequeue_bulk r obj_table n = do_dequeue fuel r obj_table n fixed is_multi

  -- `rte_ring_sc_dequeue_bulk`
  unfoldable pub sc_dequeue_bulk : Ring → List ℕ → ℕ → Option Done
  sc_dequeue_bulk r obj_table n = do_dequeue fuel r obj_table n fixed is_single

  -- `rte_ring_dequeue_bulk`
  unfoldable pub dequeue_bulk : Ring → List ℕ → ℕ → Option Done
  dequeue_bulk r obj_table n = do_dequeue fuel r obj_table n fixed r.cons.single

  -- `rte_ring_mp_enqueue_burst`
  unfoldable pub mp_enqueue_burst : Ring → List ℕ → ℕ → Option Done
  mp_enqueue_burst r obj_table n = do_enqueue fuel r obj_table n variable is_multi

  -- `rte_ring_sp_enqueue_burst`
  unfoldable pub sp_enqueue_burst : Ring → List ℕ → ℕ → Option Done
  sp_enqueue_burst r obj_table n = do_enqueue fuel r obj_table n variable is_single

  -- `rte_ring_enqueue_burst`
  unfoldable pub enqueue_burst : Ring → List ℕ → ℕ → Option Done
  enqueue_burst r obj_table n = do_enqueue fuel r obj_table n variable r.prod.single

  -- `rte_ring_mc_dequeue_burst`
  unfoldable pub mc_dequeue_burst : Ring → List ℕ → ℕ → Option Done
  mc_dequeue_burst r obj_table n = do_dequeue fuel r obj_table n variable is_multi

  -- `rte_ring_sc_dequeue_burst`
  unfoldable pub sc_dequeue_burst : Ring → List ℕ → ℕ → Option Done
  sc_dequeue_burst r obj_table n = do_dequeue fuel r obj_table n variable is_single

  -- `rte_ring_dequeue_burst`
  unfoldable pub dequeue_burst : Ring → List ℕ → ℕ → Option Done
  dequeue_burst r obj_table n = do_dequeue fuel r obj_table n variable r.cons.single

  -- `rte_ring_mp_enqueue`
  unfoldable pub mp_enqueue : Ring → ℕ → Option (Status × Ring)
  mp_enqueue r obj = do d ← mp_enqueue_bulk r (obj ∷ []) 1; some (status_of d no_buffers, d.ring)

  -- `rte_ring_sp_enqueue`
  unfoldable pub sp_enqueue : Ring → ℕ → Option (Status × Ring)
  sp_enqueue r obj = do d ← sp_enqueue_bulk r (obj ∷ []) 1; some (status_of d no_buffers, d.ring)

  -- `rte_ring_enqueue`
  unfoldable pub enqueue : Ring → ℕ → Option (Status × Ring)
  enqueue r obj = do d ← enqueue_bulk r (obj ∷ []) 1; some (status_of d no_buffers, d.ring)

  -- `rte_ring_mc_dequeue`: the array is the one cell `*obj_p`.
  unfoldable pub mc_dequeue : Ring → ℕ → Option (Status × List ℕ × Ring)
  mc_dequeue r obj_p = do
    d ← mc_dequeue_bulk r (obj_p ∷ []) 1
    some (status_of d no_entry, d.objs, d.ring)

  -- `rte_ring_sc_dequeue`: the array is the one cell `*obj_p`.
  unfoldable pub sc_dequeue : Ring → ℕ → Option (Status × List ℕ × Ring)
  sc_dequeue r obj_p = do
    d ← sc_dequeue_bulk r (obj_p ∷ []) 1
    some (status_of d no_entry, d.objs, d.ring)

  -- `rte_ring_dequeue`: the array is the one cell `*obj_p`.
  unfoldable pub dequeue : Ring → ℕ → Option (Status × List ℕ × Ring)
  dequeue r obj_p = do
    d ← dequeue_bulk r (obj_p ∷ []) 1
    some (status_of d no_entry, d.objs, d.ring)

-- `rte_ring_count`
unfoldable pub count : Ring → ℕ
count r =
    let used = bit_and (sub32 r.prod.tail r.cons.tail) r.mask in
    if ltb r.capacity used then r.capacity else used

-- `rte_ring_free_count`
unfoldable pub free_count : Ring → ℕ
unfolding count
free_count r = sub32 r.capacity (count r)

-- `rte_ring_full`
unfoldable pub full : Ring → Bool
unfolding free_count
full r = free_count r == 0

-- `rte_ring_empty`
unfoldable pub empty : Ring → Bool
unfolding count
empty r = count r == 0

-- `rte_ring_get_size`
abbrev pub get_size : Ring → ℕ
get_size r = r.size

-- `rte_ring_get_capacity`
abbrev pub get_capacity : Ring → ℕ
get_capacity r = r.capacity
