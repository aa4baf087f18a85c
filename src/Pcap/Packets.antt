-- ===== src/Pcap/Packets.antt =====
-- What `proc_net_data` shows.
use linux.Common.{
  ℕ, ◌+◌, ◌*◌, ◌%◌, ◌^◌, ◌<◌, ◌≡◌, refl, ap, ◌∙◌, true, Option, some, List, ◌==◌, ◌&&◌, ◌>>=◌,
  length, arith, get_or, replicate,
}
use linux.Pcap.{swap16, swap32, u16_at, u32_at, ip_str, Shown, show_tcp, proc_net_data}
use linux.Pcap.Frames.{
  packet, ip_bytes, tcp_bytes, shown_address, ip_str-shown, swap16-net, swap32-net, is_tcp,
  tcp_start, src_stored, des_stored, u16-tcp, u32-tcp,
}

abbrev shown_at : List ℕ → ℕ → Shown
shown_at p t = record {
  src_ip = shown_address (u32_at p 26);
  s_port = swap16 (u16_at p t);
  des_ip = shown_address (u32_at p 30);
  d_port = swap16 (u16_at p (t + 2));
  seq = swap32 (u32_at p (t + 4));
  ack = swap32 (u32_at p (t + 8));
}

show_tcp-shown : (p : List ℕ) (t : ℕ) → show_tcp p t ≡ some (shown_at p t)
unfolding show_tcp
show_tcp-shown p t =
    ap
      (λ r. r >>= λ q. ip_str (u32_at p 30) (replicate 32 0) 32 >>= λ q'.
        some (record (shown_at p t) { src_ip = q.0; des_ip = q'.0 }))
      (ip_str-shown (u32_at p 26))
    ∙ ap (λ r. r >>= λ q'. some (record (shown_at p t) { des_ip = q'.0 }))
        (ip_str-shown (u32_at p 30))

proc_net_data-tcp :
    (p : List ℕ)
    → ((swap16 (u16_at p 12) == 0x0800) && (get_or p 23 0 == 6)) ≡ true
    → proc_net_data p ≡ show_tcp p (14 + get_or p 14 0 % 16 * 4)
unfolding proc_net_data
proc_net_data-tcp p e = rw (e, proc_net_data) refl

-- What is shown of a packet is what its headers hold.
pub record IsShown (src des s_port d_port seq ack : ℕ) (out : Option Shown) : Type 0 where
  pub shown : Shown
  pub returns : out ≡ some shown
  pub src_ip : shown.src_ip ≡ shown_address src
  pub des_ip : shown.des_ip ≡ shown_address des
  pub source_port : shown.s_port ≡ s_port
  pub destination_port : shown.d_port ≡ d_port
  pub sequence : shown.seq ≡ seq
  pub acknowledged : shown.ack ≡ ack

-- For a packet with an Ethernet header of type 0x0800, an IPv4 header with options of the length that its
-- first byte says and protocol 6, and a TCP header with integers in the order of the network,
-- `proc_net_data` shows the texts of the two addresses, which are the stored bytes in order, and the
-- ports and the two numbers of the TCP header.
pub proc_net_data-IsShown :
    (macs : List ℕ) (vh_len : ℕ) (middle : List ℕ) (cksum src des : ℕ) (options : List ℕ)
    (s_port d_port seq ack : ℕ) (behind : List ℕ)
    → length macs ≡ 12
    → length middle ≡ 8
    → 20 + length options ≡ vh_len % 16 * 4
    → src < 2 ^ 32
    → des < 2 ^ 32
    → s_port < 2 ^ 16
    → d_port < 2 ^ 16
    → seq < 2 ^ 32
    → ack < 2 ^ 32
    → IsShown src des s_port d_port seq ack (
        proc_net_data (
          packet macs vh_len middle
            (ip_bytes cksum src des)
            options
            (tcp_bytes s_port d_port seq ack behind)))
proc_net_data-IsShown macs vh_len middle cksum src des options s_port d_port seq ack behind lm ld lo
      hs hd hp hq hn ha =
    let tcp = tcp_bytes s_port d_port seq ack behind in
    let p = packet macs vh_len middle (ip_bytes cksum src des) options tcp in
    let t = 14 + vh_len % 16 * 4 in
    let port = u16-tcp macs vh_len middle cksum src des options tcp lm ld lo in
    let number = u32-tcp macs vh_len middle cksum src des options tcp lm ld lo in
    record {
      shown = shown_at p t;
      returns =
          proc_net_data-tcp p (is_tcp macs vh_len middle cksum src des options tcp lm ld lo)
          ∙ ap (λ k. show_tcp p k) (tcp_start macs vh_len middle cksum src des options tcp lm ld lo)
          ∙ show_tcp-shown p t;
      src_ip =
          ap shown_address (src_stored macs vh_len middle cksum src des options tcp lm ld lo hs);
      des_ip =
          ap shown_address (des_stored macs vh_len middle cksum src des options tcp lm ld lo hd);
      source_port =
          ap (λ k. swap16 (u16_at p k)) {x = t} {y = t + 0} (omega arith)
          ∙ ap swap16 (port 0)
          ∙ swap16-net s_port hp;
      destination_port = ap swap16 (port 2) ∙ swap16-net d_port hq;
      sequence = ap swap32 (number 4) ∙ swap32-net seq hn;
      acknowledged = ap swap32 (number 8) ∙ swap32-net ack ha;
    }
