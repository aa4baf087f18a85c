-- ===== src/Eal/Sizes/Decimal.antt =====
-- The sizes that decimal numerals with a unit write.
use linux.Common.{
  ℕ, ◌+◌, ◌-◌, ◌*◌, ◌^◌, ◌≤◌, ◌<◌, ◌≡◌, refl, ◌≢◌, ◌∙◌, ◌⊎◌, inl, inr, true, false, ◌||◌, List, [],
  ◌∷◌, ◌++◌, ◌==◌, ltb, if◌then◌else◌, arith,
}
use linux.Eal.Sizes.{
  is_space, digit_value, skip_spaces, read_digits, read_unsigned, strtoull, scale, scale_by,
  size_of_number, str_to_size,
}

abbrev pub IsDigits : List ℕ → Type 0
IsDigits [] = Unit
IsDigits (d ∷ ds) = (b'0' ≤ d) × (d ≤ b'9') × IsDigits ds

abbrev pub IsSpaces : List ℕ → Type 0
IsSpaces [] = Unit
IsSpaces (c ∷ cs) = (is_space c ≡ true) × IsSpaces cs

-- The number that decimal digits write, behind those of `acc`.
abbrev pub decimal : ℕ → List ℕ → ℕ
decimal acc [] = acc
decimal acc (d ∷ ds) = decimal (acc * 10 + (d - b'0')) ds

-- The number of bytes that a letter stands for.
abbrev pub unit : ℕ → ℕ
unit c =
    if c == b'K' || c == b'k'
    then 2 ^ 10
    else if c == b'M' || c == b'm'
    then 2 ^ 20
    else if c == b'G' || c == b'g'
    then 2 ^ 30
    else 1

skip_spaces-IsSpaces : (pre cs : List ℕ) → IsSpaces pre → skip_spaces (pre ++ cs) ≡ skip_spaces cs
skip_spaces-IsSpaces [] cs s = refl
skip_spaces-IsSpaces (c ∷ pre) cs s = rw s.0 (skip_spaces-IsSpaces pre cs s.1)

digit_value-digit : (d : ℕ) → b'0' ≤ d → d ≤ b'9' → digit_value d ≡ d - b'0'
digit_value-digit d l h = ground arith

read_digits-decimal :
    (acc : ℕ) (ds : List ℕ) (c : ℕ) (cs : List ℕ)
    → IsDigits ds
    → 10 ≤ digit_value c
    → read_digits 10 acc (ds ++ (c ∷ cs)) ≡ (decimal acc ds, c ∷ cs)
read_digits-decimal acc [] c cs i n =
    let no : ltb (digit_value c) 10 ≡ false = ground arith in rw no refl
read_digits-decimal acc (d ∷ ds) c cs i n =
    let e = digit_value-digit d i.0 i.1 in
    let yes : ltb (d - b'0') 10 ≡ true = ground (arith, i.0, i.1) in
    rw (e, yes) (read_digits-decimal (acc * 10 + (d - b'0')) ds c cs i.2 n)

read_unsigned-decimal :
    (d : ℕ) (cs : List ℕ) → d ≢ b'0' → read_unsigned (d ∷ cs) ≡ read_digits 10 0 (d ∷ cs)
read_unsigned-decimal d [] n = refl
read_unsigned-decimal d (c ∷ []) n = let no : (d == b'0') ≡ false = ground arith in rw no refl
read_unsigned-decimal d (c ∷ e ∷ cs) n = let no : (d == b'0') ≡ false = ground arith in rw no refl

is_space-digit : (d : ℕ) → b'0' ≤ d → d ≤ b'9' → is_space d ≡ false
is_space-digit d l h = ground arith

-- `strtoull` of a numeral that starts with a digit from 1 to 9.
strtoull-decimal :
    (d : ℕ) (ds : List ℕ) (c : ℕ) (cs : List ℕ)
    → b'0' < d
    → IsDigits (d ∷ ds)
    → 10 ≤ digit_value c
    → decimal 0 (d ∷ ds) < 2 ^ 64
    → strtoull (d ∷ (ds ++ (c ∷ cs)))
      ≡ record { value = decimal 0 (d ∷ ds); endptr = c ∷ cs; out_of_range = false }
unfolding strtoull
strtoull-decimal d ds c cs p i n fits =
    let sp = is_space-digit d i.0 i.1 in
    let minus : (d == b'-') ≡ false = ground (arith, p) in
    let plus : (d == b'+') ≡ false = ground (arith, p) in
    let start : ltb (digit_value d) 10 ≡ true = ground (arith, digit_value-digit d i.0 i.1, i.1) in
    let read =
      read_unsigned-decimal d (ds ++ (c ∷ cs)) (λ e. omega (arith, p, e))
      ∙ read_digits-decimal 0 (d ∷ ds) c cs i n in
    let small : ltb (decimal 0 (d ∷ ds)) (2 ^ 64) ≡ true = ground (arith, fits) in
    rw (sp, minus, plus, start, read, small) refl

scale-unit : (c v : ℕ) → v * unit c < 2 ^ 64 → scale c v ≡ v * unit c
unfolding scale
scale-unit c v fits = ground arith

unit-fits : (c v : ℕ) → v * unit c < 2 ^ 64 → v < 2 ^ 64
unit-fits c v fits = ground arith

-- Behind a numeral: a space at most, and then the unit.
scale_by-gap :
    (gap : List ℕ) (c : ℕ) (cs : List ℕ) (v : ℕ)
    → (gap ≡ []) ⊎ (gap ≡ b' ' ∷ [])
    → c ≢ b' '
    → scale_by (gap ++ (c ∷ cs)) v ≡ scale c v
unfolding scale_by
scale_by-gap gap c [] v (inl e) n = let no : (c == b' ') ≡ false = ground arith in rw (e, no) refl
scale_by-gap gap c (d ∷ cs) v (inl e) n =
    let no : (c == b' ') ≡ false = ground arith in rw (e, no) refl
scale_by-gap gap c cs v (inr e) n = rw e refl

size_of_number-decimal :
    (d : ℕ) (ds gap : List ℕ) (c : ℕ) (cs : List ℕ)
    → b'0' < d
    → IsDigits (d ∷ ds)
    → (gap ≡ []) ⊎ (gap ≡ b' ' ∷ [])
    → 10 ≤ digit_value c
    → c ≢ b' '
    → decimal 0 (d ∷ ds) * unit c < 2 ^ 64
    → size_of_number (d ∷ (ds ++ (gap ++ (c ∷ cs)))) ≡ decimal 0 (d ∷ ds) * unit c
unfolding size_of_number
size_of_number-decimal d ds gap c cs p i g n ns fits =
    let minus : (d == b'-') ≡ false = ground (arith, p) in
    let v = decimal 0 (d ∷ ds) in
    let small : v < 2 ^ 64 = unit-fits c v fits in
    elim g [
      | inl e ↦
          rw
            (e, strtoull-decimal d ds c cs p i n small, minus, scale_by-gap [] c cs v (inl refl) ns)
            (scale-unit c v fits)
      | inr e ↦
          rw
            (
              e,
              strtoull-decimal d ds b' ' (c ∷ cs) p i (omega arith) small,
              minus,
              scale_by-gap (b' ' ∷ []) c cs v (inr refl) ns,
            )
            (scale-unit c v fits)
    ]

-- Where a string starts with spaces, then has a decimal numeral whose first digit is not 0, then
-- perhaps one space, then a byte that is neither a digit nor a space, and the number times that byte's
-- unit (2 ^ 10, 2 ^ 20 and 2 ^ 30 for K, M and G in either case, 1 for any other byte) is below 2 ^ 64:
-- `rte_str_to_size` returns that product.
pub str_to_size-decimal :
    (pre : List ℕ) (d : ℕ) (ds gap : List ℕ) (c : ℕ) (cs : List ℕ)
    → IsSpaces pre
    → b'0' < d
    → IsDigits (d ∷ ds)
    → (gap ≡ []) ⊎ (gap ≡ b' ' ∷ [])
    → 10 ≤ digit_value c
    → c ≢ b' '
    → decimal 0 (d ∷ ds) * unit c < 2 ^ 64
    → str_to_size (pre ++ (d ∷ (ds ++ (gap ++ (c ∷ cs))))) ≡ decimal 0 (d ∷ ds) * unit c
unfolding str_to_size
str_to_size-decimal pre d ds gap c cs s p i g n ns fits =
    let sp = is_space-digit d i.0 i.1 in
    rw (skip_spaces-IsSpaces pre (d ∷ (ds ++ (gap ++ (c ∷ cs)))) s, sp)
      (size_of_number-decimal d ds gap c cs p i g n ns fits)
