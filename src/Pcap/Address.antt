-- ===== src/Pcap/Address.antt =====
-- The text of an address.
use linux.Common.{
  none, ◌>>=◌, append-nil, ◌*◌, ℕ, suc, ◌+◌, ◌%◌, ◌/◌, ◌^◌, ◌≤◌, ◌<◌, ◌≡◌, refl, ap, sym, ◌∙◌,
  false, some, List, [], ◌∷◌, ◌++◌, ltb, length, drop, arith, append_assoc, length-append,
}
use linux.Pcap.{u32_bytes, octet, ip_str}
use linux.Pcap.Dotted.{read_octets, read-dot, read-octet, octet-length}
use linux.Pcap.Written.{dotted, ip_text-written}

abbrev AreBytes : List ℕ → Type 0
AreBytes [] = Unit
AreBytes (b ∷ bs) = (b < 256) × AreBytes bs

read-end : (acc : ℕ) → read_octets (some acc) [] ≡ some (acc ∷ [])
unfolding read_octets
read-end acc = refl

read-dotted :
    (b : ℕ) (addr : List ℕ)
    → AreBytes (b ∷ addr)
    → read_octets none (dotted b addr) ≡ some (b ∷ addr)
read-dotted b [] h =
    ap (λ t. read_octets none t) (sym (append-nil (octet b))) ∙ read-octet b [] h.0 ∙ read-end b
read-dotted b (c ∷ addr) h =
    ap (λ t. read_octets none t) (append_assoc (octet b) (b'.' ∷ []) (dotted c addr))
    ∙ read-octet b (b'.' ∷ dotted c addr) h.0
    ∙ read-dot b (dotted c addr)
    ∙ ap (λ r. r >>= λ ns. some (b ∷ ns)) (read-dotted c addr h.1)

dotted-length : (b : ℕ) (addr : List ℕ) → length (dotted b addr) ≤ 3 + length addr * 4
dotted-length b [] = omega (arith, (octet-length b).1)
dotted-length b (c ∷ addr) = omega (
  arith,
  (octet-length b).1,
  dotted-length c addr,
  length-append (octet b ++ (b'.' ∷ [])) (dotted c addr),
  length-append (octet b) (b'.' ∷ []),
)

-- The text that `ip_str` is to write for an address.
abbrev pub address_text : ℕ → List ℕ
address_text ip = dotted (ip % 256) (ip / 2 ^ 8 % 256 ∷ ip / 2 ^ 16 % 256 ∷ ip / 2 ^ 24 % 256 ∷ [])

pub address_text-length : (ip : ℕ) → length (address_text ip) ≤ 15
address_text-length ip =
    dotted-length (ip % 256) (ip / 2 ^ 8 % 256 ∷ ip / 2 ^ 16 % 256 ∷ ip / 2 ^ 24 % 256 ∷ [])

-- For a `len` of at least 16 and an array of at least as many bytes, `ip_str` stays inside the array. It
-- writes a text of at most 15 characters and a NUL, leaves what is behind as it is, and returns the
-- text's length; and the text is four decimal numbers with a dot between each two, without any other
-- character and without a 0 in front of another digit: the bytes of the address, in order.
pub ip_str-read :
    (ip : ℕ) (str : List ℕ) (len : ℕ)
    → 16 ≤ len
    → len ≤ length str
    → (ip_str ip str len
        ≡ some (
          (address_text ip ++ (0 ∷ [])) ++ drop (suc (length (address_text ip))) str,
          length (address_text ip),
        ))
      × (length (address_text ip) ≤ 15)
      × (read_octets none (address_text ip) ≡ some (u32_bytes ip))
unfolding ip_str
ip_str-read ip str len h l =
    let wide : ltb len 16 ≡ false = ground (arith, h) in
    let short = address_text-length ip in
    (
      rw wide (
          ip_text-written ip (ip % 256)
            (ip / 2 ^ 8 % 256 ∷ ip / 2 ^ 16 % 256 ∷ ip / 2 ^ 24 % 256 ∷ []) str refl
            (omega (arith, short, h, l))),
      short,
      read-dotted (ip % 256) (ip / 2 ^ 8 % 256 ∷ ip / 2 ^ 16 % 256 ∷ ip / 2 ^ 24 % 256 ∷ [])
          (omega arith, (omega arith, (omega arith, (omega arith, tt)))),
    )
