-- ===== src/Pcap/Frames.antt =====
-- What is shown of a packet with a TCP header.
use linux.Common.{
  ℕ, suc, ◌+◌, ◌*◌, ◌%◌, ◌/◌, ◌^◌, ◌<◌, ◌≡◌, refl, ap, ap₂, sym, ◌∙◌, true, some, List, [], ◌∷◌,
  ◌++◌, ◌==◌, ◌&&◌, length, drop, arith, append_assoc, length-append, get_or, get_or-append_right,
  replicate,
}
use linux.Pcap.{u32_bytes, swap16, swap32, u16_at, u32_at, ip_str}
use linux.Pcap.Address.{address_text, ip_str-read}

-- The bytes of an integer in the order of the network.
abbrev pub net16 : ℕ → List ℕ
net16 x = x / 256 ∷ x % 256 ∷ []

abbrev pub net32 : ℕ → List ℕ
net32 x = x / 2 ^ 24 ∷ x / 2 ^ 16 % 256 ∷ x / 2 ^ 8 % 256 ∷ x % 256 ∷ []

pub swap16-net : (x : ℕ) → x < 2 ^ 16 → swap16 (x / 256 + x % 256 * 256) ≡ x
unfolding swap16
swap16-net x h = omega (arith, h)

pub swap32-net :
    (x : ℕ)
    → x < 2 ^ 32
    → swap32 (x / 2 ^ 24 + x / 2 ^ 16 % 256 * 256 + (x / 2 ^ 8 % 256 + x % 256 * 256) * 2 ^ 16) ≡ x
unfolding swap32
swap32-net x h = omega (arith, h)

-- A TCP header, and the bytes behind it.
abbrev pub tcp_bytes : (s_port d_port seq ack : ℕ) → List ℕ → List ℕ
tcp_bytes s_port d_port seq ack behind =
    net16 s_port ++ (net16 d_port ++ (net32 seq ++ (net32 ack ++ behind)))

-- An IPv4 header from `protocol` to `des_ip`.
abbrev pub ip_bytes : (cksum src des : ℕ) → List ℕ
ip_bytes cksum src des = 6 ∷ cksum % 256 ∷ cksum / 256 ∷ (u32_bytes src ++ u32_bytes des)

-- A packet: the addresses of its Ethernet header, the first byte of its IPv4 header, the bytes up to
-- `protocol`, and the options of its IPv4 header.
abbrev pub packet : (macs : List ℕ) → (vh_len : ℕ) → (middle ip options tcp : List ℕ) → List ℕ
packet macs vh_len middle ip options tcp =
    macs ++ (8 ∷ 0 ∷ vh_len ∷ (middle ++ (ip ++ (options ++ tcp))))

at-behind : (xs ys : List ℕ) (n i : ℕ) → length xs ≡ n → get_or (xs ++ ys) (n + i) 0 ≡ get_or ys i 0
at-behind xs ys n i e =
    ap (λ k. get_or (xs ++ ys) (k + i) 0) (sym e) ∙ get_or-append_right xs ys i 0

-- An address is shown as `ip_str` writes it into the 32 bytes of its array.
abbrev pub shown_address : ℕ → List ℕ
shown_address ip =
    (address_text ip ++ (0 ∷ [])) ++ drop (suc (length (address_text ip))) (replicate 32 0)

pub ip_str-shown :
    (ip : ℕ) → ip_str ip (replicate 32 0) 32 ≡ some (shown_address ip, length (address_text ip))
ip_str-shown ip = (ip_str-read ip (replicate 32 0) 32 (omega arith) (omega arith)).0

module _ (macs : List ℕ) (vh_len : ℕ) (middle : List ℕ) (cksum src des : ℕ) (options tcp : List ℕ)
    (lm : length macs ≡ 12) (ld : length middle ≡ 8)
    (lo : 20 + length options ≡ vh_len % 16 * 4) where
  abbrev whole : List ℕ
  whole = packet macs vh_len middle (ip_bytes cksum src des) options tcp

  abbrev behind_middle : List ℕ
  behind_middle = ip_bytes cksum src des ++ (options ++ tcp)

  -- A byte of the Ethernet header's type and of the first byte behind it.
  at-type :
      (i : ℕ) → get_or whole (12 + i) 0 ≡ get_or (8 ∷ 0 ∷ vh_len ∷ (middle ++ behind_middle)) i 0
  at-type i = at-behind macs (8 ∷ 0 ∷ vh_len ∷ (middle ++ behind_middle)) 12 i lm

  at-ip : (i : ℕ) → get_or whole (23 + i) 0 ≡ get_or behind_middle i 0
  at-ip i =
      let front = macs ++ (8 ∷ 0 ∷ vh_len ∷ middle) in
      ap (λ p. get_or p (23 + i) 0)
        (sym (append_assoc macs (8 ∷ 0 ∷ vh_len ∷ middle) behind_middle))
      ∙ at-behind front behind_middle 23 i
          (omega (arith, lm, ld, length-append macs (8 ∷ 0 ∷ vh_len ∷ middle)))

  at-tcp : (k i : ℕ) → k ≡ 14 + vh_len % 16 * 4 + i → get_or whole k 0 ≡ get_or tcp i 0
  at-tcp k i e =
      let front = ip_bytes cksum src des ++ options in
      ap (λ n. get_or whole n 0) {x = k} {y = 23 + (11 + length options + i)} (omega (arith, e, lo))
      ∙ at-ip (11 + length options + i)
      ∙ ap (λ p. get_or p (11 + length options + i) 0)
          (sym (append_assoc (ip_bytes cksum src des) options tcp))
      ∙ at-behind front tcp (11 + length options) i
          (omega (arith, length-append (ip_bytes cksum src des) options))

  u16_at-tcp :
      (i : ℕ) (k : ℕ)
      → k ≡ 14 + vh_len % 16 * 4 + i
      → u16_at whole k ≡ get_or tcp i 0 + get_or tcp (i + 1) 0 * 256
  u16_at-tcp i k e =
      ap₂ (λ a b. a + b * 256) (at-tcp k i e) (at-tcp (k + 1) (i + 1) (omega (arith, e)))

  pub is_tcp : ((swap16 (u16_at whole 12) == 0x0800) && (get_or whole 23 0 == 6)) ≡ true
  unfolding swap16
  is_tcp =
      ap₂ (λ a b. (swap16 a == 0x0800) && (b == 6))
        (ap₂ (λ a b. a + b * 256) (at-type 0) (at-type 1)) (at-ip 0)

  pub tcp_start : 14 + get_or whole 14 0 % 16 * 4 ≡ 14 + vh_len % 16 * 4
  tcp_start = ap (λ b. 14 + b % 16 * 4) (at-type 2)

  pub src_stored : src < 2 ^ 32 → u32_at whole 26 ≡ src
  src_stored h =
      ap₂ (λ a b. a + b * 2 ^ 16) (ap₂ (λ a b. a + b * 256) (at-ip 3) (at-ip 4))
        (ap₂ (λ a b. a + b * 256) (at-ip 5) (at-ip 6))
      ∙ omega (arith, h)

  pub des_stored : des < 2 ^ 32 → u32_at whole 30 ≡ des
  des_stored h =
      ap₂ (λ a b. a + b * 2 ^ 16) (ap₂ (λ a b. a + b * 256) (at-ip 7) (at-ip 8))
        (ap₂ (λ a b. a + b * 256) (at-ip 9) (at-ip 10))
      ∙ omega (arith, h)

  pub u16-tcp :
      (i : ℕ)
      → u16_at whole (14 + vh_len % 16 * 4 + i) ≡ get_or tcp i 0 + get_or tcp (i + 1) 0 * 256
  u16-tcp i = u16_at-tcp i (14 + vh_len % 16 * 4 + i) refl

  pub u32-tcp :
      (i : ℕ)
      → u32_at whole (14 + vh_len % 16 * 4 + i)
        ≡ get_or tcp i 0
          + get_or tcp (i + 1) 0 * 256
          + (get_or tcp (i + 2) 0 + get_or tcp (i + 2 + 1) 0 * 256) * 2 ^ 16
  u32-tcp i =
      ap₂ (λ a b. a + b * 2 ^ 16) (u16-tcp i)
        (u16_at-tcp (i + 2) (14 + vh_len % 16 * 4 + i + 2) (omega arith))
