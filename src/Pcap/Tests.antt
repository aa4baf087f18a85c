-- ===== src/Pcap/Tests.antt =====
-- Packets and addresses.
use linux.Common.{ℕ, ◌≡◌, refl, some, none, [], ◌∷◌, ◌++◌, arith, replicate, length, drop, suc, ◌≤◌}
use linux.Pcap.{u32_bytes, swap16, octet, ip_str, proc_net_data}
use linux.Pcap.Dotted.{read_octets}
use linux.Pcap.Address.{address_text, ip_str-read}
use linux.Pcap.Frames.{packet, ip_bytes, tcp_bytes}
use linux.Pcap.Packets.{IsShown, proc_net_data-IsShown}

-- 192.168.0.1
abbrev one_address : ℕ
one_address = 0x0100A8C0

one_address-text :
    address_text one_address ≡ 49 ∷ 57 ∷ 50 ∷ 46 ∷ 49 ∷ 54 ∷ 56 ∷ 46 ∷ 48 ∷ 46 ∷ 49 ∷ []
unfolding octet
one_address-text = refl

ip_str-narrow : ip_str one_address (replicate 15 7) 15 ≡ some (replicate 15 7, 0)
unfolding ip_str
ip_str-narrow = refl

ip_str-read_example :
    (ip_str one_address (replicate 16 7) 16
      ≡ some (
        (address_text one_address ++ (0 ∷ []))
            ++ drop (suc (length (address_text one_address))) (replicate 16 7),
        length (address_text one_address),
      ))
    × (length (address_text one_address) ≤ 15)
    × (read_octets none (address_text one_address) ≡ some (u32_bytes one_address))
ip_str-read_example = ip_str-read one_address (replicate 16 7) 16 (omega arith) (omega arith)

proc_net_data-IsShown_example : IsShown one_address 0x0200A8C0 443 50000 1000000 2000000 (
    proc_net_data (
      packet
        (replicate 12 1)
        0x46
        (replicate 8 2)
        (ip_bytes 77 one_address 0x0200A8C0)
        (replicate 4 3)
        (tcp_bytes 443 50000 1000000 2000000 (replicate 8 4))))
proc_net_data-IsShown_example =
    proc_net_data-IsShown (replicate 12 1) 0x46 (replicate 8 2) 77 one_address 0x0200A8C0
      (replicate 4 3) 443 50000 1000000 2000000 (replicate 8 4) refl refl refl (omega arith)
      (omega arith) (omega arith) (omega arith) (omega arith) (omega arith)

-- Nothing is shown of a packet of another protocol.
other_protocol : proc_net_data (replicate 64 0) ≡ none
unfolding proc_net_data swap16
other_protocol = refl
