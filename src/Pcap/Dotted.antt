-- ===== src/Pcap/Dotted.antt =====
-- The text that `ip_str` writes.
use linux.Common.{
  Bool, true, Option, some, none, leb, ◌&&◌, ◌>>=◌, ℕ, ◌+◌, ◌-◌, ◌*◌, ◌/◌, ◌%◌, ◌≤◌, ◌<◌, ◌≡◌, refl,
  ap, sym, ◌∙◌, subst, false, List, [], ◌∷◌, ◌++◌, ltb, ◌==◌, if◌then◌else◌, length, arith,
  Bool-cases, inl, inr,
}
use linux.Pcap.{octet}

-- A byte below 256 has one, two or three digits.
data OctetCases (b : ℕ) : Type 0 where
  three :
      99 < b
      → octet b ≡ (b / 100 + 48) ∷ (b % 100 / 10 + 48) ∷ (b % 100 % 10 + 48) ∷ []
      → OctetCases b
  two : b ≤ 99 → 9 < b → octet b ≡ (b / 10 + 48) ∷ (b % 10 + 48) ∷ [] → OctetCases b
  one : b ≤ 9 → octet b ≡ (b % 10 + 48) ∷ [] → OctetCases b

octet_cases : (b : ℕ) → OctetCases b
unfolding octet
octet_cases b = elim (Bool-cases (ltb 99 b)) [
  | inl e ↦ three (ground (arith, e)) (rw e refl)
  | inr e ↦ elim (Bool-cases (ltb 9 b)) [
    | inl f ↦ two (ground (arith, e)) (ground (arith, f)) (rw (e, f) refl)
    | inr f ↦ one (ground (arith, f)) (rw (e, f) refl)
  ]
]

abbrev is_digit : ℕ → Bool
is_digit c = leb b'0' c && leb c b'9'

-- The numbers between the dots of a text, behind `acc`, the number read so far. A number has a digit or
-- more, no other characters than digits, and no 0 in front of another digit.
unfoldable pub read_octets : (acc : Option ℕ) → List ℕ → Option (List ℕ)
read_octets none [] = none
read_octets (some a) [] = some (a ∷ [])
read_octets none (c ∷ cs) =
    let number = read_octets (some (c - b'0')) cs in if is_digit c then number else none
read_octets (some a) (c ∷ cs) =
    let next = read_octets none cs >>= λ ns. some (a ∷ ns) in
    let number = read_octets (some (a * 10 + (c - b'0'))) cs in
    if c == b'.' then next else if is_digit c && ltb 0 a then number else none

read-first :
    (d : ℕ) (cs : List ℕ) → d ≤ 9 → read_octets none ((d + 48) ∷ cs) ≡ read_octets (some d) cs
unfolding read_octets
read-first d cs h =
    let digit : is_digit (d + 48) ≡ true = ground (arith, h) in
    rw digit (ap (λ a. read_octets (some a) cs) (omega arith))

read-digit :
    (acc d : ℕ) (cs : List ℕ)
    → 0 < acc
    → d ≤ 9
    → read_octets (some acc) ((d + 48) ∷ cs) ≡ read_octets (some (acc * 10 + d)) cs
unfolding read_octets
read-digit acc d cs p h =
    let no_dot : (d + 48 == 46) ≡ false = ground arith in
    let digit : (is_digit (d + 48) && ltb 0 acc) ≡ true = ground (arith, h, p) in
    rw (no_dot, digit) (ap (λ a. read_octets (some a) cs) (omega arith))

pub read-dot :
    (acc : ℕ) (cs : List ℕ)
    → read_octets (some acc) (46 ∷ cs) ≡ (read_octets none cs >>= λ ns. some (acc ∷ ns))
unfolding read_octets
read-dot acc cs = refl

pub read-octet :
    (b : ℕ) (cs : List ℕ) → b < 256 → read_octets none (octet b ++ cs) ≡ read_octets (some b) cs
read-octet b cs h = elim (octet_cases b) [
  | three l e ↦
      ap (λ o. read_octets none (o ++ cs)) e
      ∙ read-first (b / 100) _ (omega (arith, h))
      ∙ read-digit (b / 100) (b % 100 / 10) _ (omega (arith, l)) (omega arith)
      ∙ read-digit (b / 100 * 10 + b % 100 / 10) (b % 100 % 10) cs (omega (arith, l)) (omega arith)
      ∙ ap (λ a. read_octets (some a) cs) (omega arith)
  | two l m e ↦
      ap (λ o. read_octets none (o ++ cs)) e
      ∙ read-first (b / 10) _ (omega (arith, l))
      ∙ read-digit (b / 10) (b % 10) cs (omega (arith, m)) (omega arith)
      ∙ ap (λ a. read_octets (some a) cs) (omega arith)
  | one l e ↦
      ap (λ o. read_octets none (o ++ cs)) e
      ∙ read-first (b % 10) cs (omega arith)
      ∙ ap (λ a. read_octets (some a) cs) (omega (arith, l))
]

pub octet-length : (b : ℕ) → (1 ≤ length (octet b)) × (length (octet b) ≤ 3)
octet-length b = elim (octet_cases b) [
  | three l e ↦ subst (λ o. (1 ≤ length o) × (length o ≤ 3)) (sym e) (omega arith, omega arith)
  | two l m e ↦ subst (λ o. (1 ≤ length o) × (length o ≤ 3)) (sym e) (omega arith, omega arith)
  | one l e ↦ subst (λ o. (1 ≤ length o) × (length o ≤ 3)) (sym e) (omega arith, omega arith)
]
