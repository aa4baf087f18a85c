-- ===== src/Pcap.antt =====
-- pcap_analyze: the addresses, ports and numbers that main.cpp shows of a captured packet, with the
-- headers of pro.h. An array is the list of its bytes; a machine stores the low byte first. The shifts
-- and masks on unsigned integers are written as quotients and remainders.
pub mod Dotted
pub mod Written
pub mod Address
pub mod Frames
pub mod Packets
mod Tests
use linux.Common.{
  ℕ, suc, ◌+◌, ◌-◌, ◌*◌, ◌/◌, ◌%◌, ◌^◌, Bool, ◌&&◌, Option, none, some, List, [], ◌∷◌, ◌++◌, ltb,
  ◌==◌, if◌then◌else◌, length, set, get_or, replicate, ◌>>=◌,
}

-- `swap16` and `swap32`
unfoldable pub swap16 : ℕ → ℕ
swap16 x = x / 256 + x % 256 * 256

unfoldable pub swap32 : ℕ → ℕ
swap32 x = x / 2 ^ 24 + x / 2 ^ 16 % 256 * 2 ^ 8 + x / 2 ^ 8 % 256 * 2 ^ 16 + x % 256 * 2 ^ 24

-- The bytes of a `u32`, and the integers that stand at an index of an array.
abbrev pub u32_bytes : ℕ → List ℕ
u32_bytes x = x % 256 ∷ x / 2 ^ 8 % 256 ∷ x / 2 ^ 16 % 256 ∷ x / 2 ^ 24 % 256 ∷ []

abbrev pub u16_at : List ℕ → ℕ → ℕ
u16_at packet i = get_or packet i 0 + get_or packet (i + 1) 0 * 256

abbrev pub u32_at : List ℕ → ℕ → ℕ
u32_at packet i = u16_at packet i + u16_at packet (i + 2) * 2 ^ 16

-- `str[w_len++] = c` for some characters; `none` is a store outside the array.
unfoldable pub write_all : (str : List ℕ) → (w_len : ℕ) → List ℕ → Option (List ℕ × ℕ)
write_all str w_len [] = some (str, w_len)
write_all str w_len (c ∷ cs) =
    let later = write_all (set str w_len c) (suc w_len) cs in
    if ltb w_len (length str) then later else none

-- The digits of a byte, as the branches of the loop write them.
unfoldable pub octet : ℕ → List ℕ
octet b =
    if ltb 99 b
    then (b / 100 + b'0') ∷ (b % 100 / 10 + b'0') ∷ (b % 100 % 10 + b'0') ∷ []
    else if ltb 9 b
    then (b / 10 + b'0') ∷ (b % 10 + b'0') ∷ []
    else (b % 10 + b'0') ∷ []

-- The loop of `ip_str`, over the bytes of the address.
unfoldable pub ip_loop : (addr : List ℕ) → (str : List ℕ) → (w_len : ℕ) → Option (List ℕ × ℕ)
ip_loop [] str w_len = some (str, w_len)
ip_loop (b ∷ addr) str w_len = do
  (str', w_len') ← write_all str w_len (octet b ++ (b'.' ∷ []))
  ip_loop addr str' w_len'

-- The part of `ip_str` behind the test of `len`.
unfoldable pub ip_text : (ip : ℕ) → (str : List ℕ) → Option (List ℕ × ℕ)
ip_text ip str = do
  (str', w_len) ← ip_loop (u32_bytes ip) str 0
  (str'', w) ← write_all str' (w_len - 1) (0 ∷ [])
  some (str'', w_len - 1)

-- `ip_str`: the array as it leaves it, and what it returns.
unfoldable pub ip_str : (ip : ℕ) → (str : List ℕ) → (len : ℕ) → Option (List ℕ × ℕ)
ip_str ip str len = if ltb len 16 then some (str, 0) else ip_text ip str

-- What is shown of a packet: the arguments of `snprintf`.
pub record Shown : Type 0 where
  pub src_ip : List ℕ
  pub s_port : ℕ
  pub des_ip : List ℕ
  pub d_port : ℕ
  pub seq : ℕ
  pub ack : ℕ

-- The parts behind `ether_type` and behind `protocol`, for a TCP header at `tcp_hdr`.
unfoldable pub show_tcp : (packet : List ℕ) → (tcp_hdr : ℕ) → Option Shown
show_tcp packet tcp_hdr = do
  (src_ip, n) ← ip_str (u32_at packet 26) (replicate 32 0) 32
  (des_ip, n') ← ip_str (u32_at packet 30) (replicate 32 0) 32
  some (record {
    src_ip = src_ip;
    s_port = swap16 (u16_at packet tcp_hdr);
    des_ip = des_ip;
    d_port = swap16 (u16_at packet (tcp_hdr + 2));
    seq = swap32 (u32_at packet (tcp_hdr + 4));
    ack = swap32 (u32_at packet (tcp_hdr + 8));
  })

-- `proc_net_data`: `none` where it shows nothing. `main` reads each packet into an array of at least
-- 8192 bytes, more than the headers can take.
unfoldable pub proc_net_data : (packet : List ℕ) → Option Shown
proc_net_data packet =
    if (swap16 (u16_at packet 12) == 0x0800) && (get_or packet 23 0 == 6)
    then show_tcp packet (14 + get_or packet 14 0 % 16 * 4)
    else none
