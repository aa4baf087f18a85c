-- ===== src/Ring/Head.antt =====
-- dpdk_ring/rte_ring_c11_mem.h: claiming entries at a head, and publishing them at the tail, as a
-- thread runs them while no other thread touches the ring.
use linux.Common.{
  ℕ, zero, suc, Bool, true, false, Option, none, some, ltb, ◌==◌, if◌then◌else◌, add32, sub32,
}
use linux.Ring.State.{Behavior, fixed, variable, HeadTail, Ring}

-- What a claim returns, with `*free_entries` or `*entries` in both cases: nothing (0), or the
-- number of entries with `*old_head` and `*new_head`.
pub data Claim : Type 0 where
  refused : ℕ → Claim
  claimed : (n old_head new_head entries : ℕ) → Claim

-- The number of entries to claim: the request cut down to what there is.
unfoldable pub fit : Behavior → ℕ → ℕ → ℕ
fit fixed max entries = if ltb entries max then 0 else max
fit variable max entries = if ltb entries max then entries else max

-- `__atomic_compare_exchange_n(&ht->head, ...)`, or the plain store of a single user.
unfoldable pub exchange_head : HeadTail → ℕ → ℕ → ℕ → Bool × HeadTail
exchange_head ht single old_head new_head =
    if single == 0
    then (if ht.head == old_head then (true, record ht { head = new_head }) else (false, ht))
    else (true, record ht { head = new_head })

-- `__rte_ring_move_prod_head`. Each round of the `do while` takes one unit of fuel; `none` means
-- that the fuel ran out.
unfoldable pub move_prod_head : ℕ → Ring → ℕ → ℕ → Behavior → Option (Claim × Ring)
unfolding fit exchange_head
move_prod_head zero r is_sp max behavior = none
move_prod_head (suc fuel) r is_sp max behavior =
    let old_head = r.prod.head in
    let free_entries = sub32 (add32 r.capacity r.cons.tail) old_head in
    let n = fit behavior max free_entries in
    let new_head = add32 old_head n in
    let (success, prod) = exchange_head r.prod is_sp old_head new_head in
    let r' = record r { prod = prod } in
    let again = move_prod_head fuel r' is_sp max behavior in
    if n == 0
    then some (refused free_entries, r)
    else if success
    then some (claimed n old_head new_head free_entries, r')
    else again

-- `__rte_ring_move_cons_head`, with fuel as above.
unfoldable pub move_cons_head : ℕ → Ring → ℕ → ℕ → Behavior → Option (Claim × Ring)
unfolding fit exchange_head
move_cons_head zero r is_sc max behavior = none
move_cons_head (suc fuel) r is_sc max behavior =
    let old_head = r.cons.head in
    let entries = sub32 r.prod.tail old_head in
    let n = fit behavior max entries in
    let new_head = add32 old_head n in
    let (success, cons) = exchange_head r.cons is_sc old_head new_head in
    let r' = record r { cons = cons } in
    let again = move_cons_head fuel r' is_sc max behavior in
    if n == 0
    then some (refused entries, r)
    else if success
    then some (claimed n old_head new_head entries, r')
    else again

-- `update_tail`: without other threads, a wait for the tail to move never ends (`none`).
unfoldable pub update_tail : HeadTail → ℕ → ℕ → ℕ → Option HeadTail
update_tail ht old_val new_val single =
    if single == 0
    then (if ht.tail == old_val then some (record ht { tail = new_val }) else none)
    else some (record ht { tail = new_val })
