-- ===== src/Ring/State.antt =====
-- `struct rte_ring` of dpdk_ring/rte_ring.h, and its sizing and creation in dpdk_ring/rte_ring.c.
use linux.Common.{
  ℕ, ◌+◌, ◌-◌, ◌*◌, ◌^◌, ◌%◌, Bool, not, ◌||◌, Option, none, some, List, bit_and, ◌>>=◌, ltb, ◌==◌,
  if◌then◌else◌, sub32,
}

-- `enum rte_ring_queue_behavior`
pub data Behavior : Type 0 where
  fixed variable : Behavior

-- `struct rte_ring_headtail`
pub record HeadTail : Type 0 where
  pub head : ℕ
  pub tail : ℕ
  pub single : ℕ

-- `struct rte_ring`, with the object table that follows it in memory (`&r[1]`).
pub record Ring : Type 0 where
  pub flags : ℕ
  pub size : ℕ
  pub mask : ℕ
  pub capacity : ℕ
  pub prod : HeadTail
  pub cons : HeadTail
  pub table : List ℕ

abbrev pub ring_f_sp_enq : ℕ
ring_f_sp_enq = 0x0001

abbrev pub ring_f_sc_deq : ℕ
ring_f_sc_deq = 0x0002

abbrev pub ring_sz_mask : ℕ
ring_sz_mask = 0x7fff_ffff

-- `__IS_SP`, `__IS_SC`, and `__IS_MP`, `__IS_MC`
abbrev pub is_single : ℕ
is_single = 1

abbrev pub is_multi : ℕ
is_multi = 0

-- `sizeof(struct rte_ring)`: six cache lines, one for each aligned member.
abbrev pub header_size : ℕ
header_size = 6 * 64

-- `POWEROF2(x)` on an `unsigned`
unfoldable pub is_power_of_2 : ℕ → Bool
is_power_of_2 x = bit_and (sub32 x 1) x == 0

-- `RTE_ALIGN(val, RTE_CACHE_LINE_SIZE)` on a 64-bit value
unfoldable pub cache_align : ℕ → ℕ
cache_align val = bit_and ((val + 63) % 2 ^ 64) (2 ^ 64 - 64)

-- `rte_ring_get_memsize`
unfoldable pub get_memsize : ℕ → ℕ
get_memsize count =
    if not (is_power_of_2 count) || ltb ring_sz_mask count
    then 0
    else cache_align (header_size + count * 8)

abbrev pub both : ℕ → HeadTail
both single = record { head = 0; tail = 0; single = single }

-- `rte_ring_init`: the table keeps what the memory held.
unfoldable pub init : List ℕ → ℕ → ℕ → Ring
init memory count flags = record {
  flags = flags;
  size = count;
  mask = sub32 count 1;
  capacity = sub32 count 1;
  prod = both (if bit_and flags ring_f_sp_enq == 0 then is_multi else is_single);
  cons = both (if bit_and flags ring_f_sc_deq == 0 then is_multi else is_single);
  table = memory;
}

-- `rte_ring_create`. `malloc` is the C library's: for a number of bytes the 8-byte words behind
-- the header of the block that it returns, `none` for NULL.
unfoldable pub create : (ℕ → Option (List ℕ)) → ℕ → ℕ → Option Ring
create malloc count flags =
    let ring_size = get_memsize count in
    if ring_size == 0 then none else (malloc ring_size >>= λ memory. some (init memory count flags))
