-- ===== src/Ring/Table.antt =====
-- ENQUEUE_PTRS and DEQUEUE_PTRS of dpdk_ring/rte_ring.h: the copies between the ring's table and
-- the caller's array. An access outside either of them is `none`.
use linux.Common.{
  ℕ, zero, suc, ◌+◌, ◌-◌, ◌/◌, Option, none, some, List, bit_and, ◌>>=◌, ltb, ◌==◌, if◌then◌else◌,
  get_elem?, set, length, add32,
}
use linux.Ring.State.{Ring}

-- `dst[di] = src[si]`
unfoldable pub copy_one : ℕ → ℕ → List ℕ → List ℕ → Option (List ℕ)
copy_one di si dst src = do
  v ← get_elem? src si
  if ltb di (length dst) then some (set dst di v) else none

-- `n` rounds of a loop that copies one element and steps both indices.
unfoldable pub copy : ℕ → ℕ → ℕ → List ℕ → List ℕ → Option (List ℕ)
copy zero di si dst src = some dst
copy (suc n) di si dst src = copy_one di si dst src >>= λ dst. copy n (di + 1) (si + 1) dst src

-- One round of the unrolled loop.
unfoldable pub copy_four : ℕ → ℕ → List ℕ → List ℕ → Option (List ℕ)
copy_four di si dst src = do
  dst ← copy_one di si dst src
  dst ← copy_one (di + 1) (si + 1) dst src
  dst ← copy_one (di + 2) (si + 2) dst src
  copy_one (di + 3) (si + 3) dst src

-- `n` rounds of the unrolled loop.
unfoldable pub copy_unrolled : ℕ → ℕ → ℕ → List ℕ → List ℕ → Option (List ℕ)
copy_unrolled zero di si dst src = some dst
copy_unrolled (suc n) di si dst src =
    copy_four di si dst src >>= λ dst. copy_unrolled n (di + 4) (si + 4) dst src

-- The `switch (n & 0x3)`: each case falls through to the next.
unfoldable pub copy_rest : ℕ → ℕ → ℕ → List ℕ → List ℕ → Option (List ℕ)
copy_rest m di si dst src =
    if m == 3
    then (do
      dst ← copy_one di si dst src
      dst ← copy_one (di + 1) (si + 1) dst src
      copy_one (di + 2) (si + 2) dst src)
    else if m == 2
    then (do dst ← copy_one di si dst src; copy_one (di + 1) (si + 1) dst src)
    else if m == 1
    then copy_one di si dst src
    else some dst

-- ENQUEUE_PTRS: the new table. The loops of the `else` branch run `size - idx` rounds up to the
-- table's end, and the rest from its start.
unfoldable pub enqueue_ptrs : Ring → ℕ → List ℕ → ℕ → Option (List ℕ)
unfolding copy_unrolled copy_rest copy
enqueue_ptrs r prod_head obj_table n =
    let idx = bit_and prod_head r.mask in
    if ltb (add32 idx n) r.size
    then (do
      let whole = bit_and n 0xffff_fffc
      ring ← copy_unrolled (whole / 4) idx 0 r.table obj_table
      copy_rest (bit_and n 3) (idx + whole) whole ring obj_table)
    else (do
      ring ← copy (r.size - idx) idx 0 r.table obj_table
      copy (n - (r.size - idx)) 0 (r.size - idx) ring obj_table)

-- DEQUEUE_PTRS: the new contents of the caller's array.
unfoldable pub dequeue_ptrs : Ring → ℕ → List ℕ → ℕ → Option (List ℕ)
unfolding copy_unrolled copy_rest copy
dequeue_ptrs r cons_head obj_table n =
    let idx = bit_and cons_head r.mask in
    if ltb (add32 idx n) r.size
    then (do
      let whole = bit_and n 0xffff_fffc
      out ← copy_unrolled (whole / 4) 0 idx obj_table r.table
      copy_rest (bit_and n 3) whole (idx + whole) out r.table)
    else (do
      out ← copy (r.size - idx) 0 idx obj_table r.table
      copy (n - (r.size - idx)) (r.size - idx) 0 out r.table)
