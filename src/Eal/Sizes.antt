-- ===== src/Eal/Sizes.antt =====
-- inc/sh_unistd.h, reading a number (`eal_parse_sysfs_value`) and a size (`rte_str_to_size`), with what
-- they use of the C library. A string is the list of its bytes, without the NUL behind them.
pub mod Decimal
use linux.Common.{
  ℕ, suc, ◌+◌, ◌-◌, ◌*◌, ◌%◌, ◌^◌, Bool, true, false, not, ◌||◌, ◌&&◌, Option, none, some, List, [],
  ◌∷◌, leb, ltb, ◌==◌, if◌then◌else◌,
}
use linux.Eal.Supply.{u64_mod, mul64, sub64}

-- `isspace`
abbrev pub is_space : ℕ → Bool
is_space c = c == b' ' || leb 9 c && leb c 13

-- The value of a digit or letter, 36 for anything else.
abbrev pub digit_value : ℕ → ℕ
digit_value c =
    if leb b'0' c && leb c b'9'
    then c - b'0'
    else if leb b'a' c && leb c b'z'
    then c - b'a' + 10
    else if leb b'A' c && leb c b'Z'
    then c - b'A' + 10
    else 36

abbrev pub skip_spaces : List ℕ → List ℕ
skip_spaces [] = []
skip_spaces (c ∷ cs) = if is_space c then skip_spaces cs else c ∷ cs

-- The number that the digits at the start of a string write, and what is behind them.
abbrev pub read_digits : (base acc : ℕ) → List ℕ → ℕ × List ℕ
read_digits base acc [] = (acc, [])
read_digits base acc (c ∷ cs) =
    let rest = read_digits base (acc * base + digit_value c) cs in
    if ltb (digit_value c) base then rest else (acc, c ∷ cs)

-- What `strtoull` returns, where `endptr` points, and whether it sets `errno`.
pub record Converted : Type 0 where
  pub value : ℕ
  pub endptr : List ℕ
  pub out_of_range : Bool

-- A number without a sign, with base 0: hexadecimal behind 0x, octal behind 0, and decimal.
abbrev pub read_unsigned : List ℕ → ℕ × List ℕ
read_unsigned [] = (0, [])
read_unsigned (c ∷ []) = read_digits 10 0 (c ∷ [])
read_unsigned (c ∷ d ∷ []) =
    if c == b'0' then read_digits 8 0 (d ∷ []) else read_digits 10 0 (c ∷ d ∷ [])
read_unsigned (c ∷ d ∷ e ∷ cs) =
    if c == b'0' && (d == b'x' || d == b'X') && ltb (digit_value e) 16
    then read_digits 16 0 (e ∷ cs)
    else if c == b'0'
    then read_digits 8 0 (d ∷ e ∷ cs)
    else read_digits 10 0 (c ∷ d ∷ e ∷ cs)

abbrev pub starts_digit : List ℕ → Bool
starts_digit [] = false
starts_digit (c ∷ cs) = ltb (digit_value c) 10

-- The number behind the sign; `str` is the whole string, where `endptr` points if there is no number.
abbrev pub convert : (str : List ℕ) (negative : Bool) → List ℕ → Converted
convert str negative cs =
    let r = read_unsigned cs in
    if not (starts_digit cs)
    then record { value = 0; endptr = str; out_of_range = false }
    else if ltb r.0 u64_mod
    then record {
      value = if negative then sub64 0 r.0 else r.0;
      endptr = r.1;
      out_of_range = false;
    }
    else record { value = u64_mod - 1; endptr = r.1; out_of_range = true }

abbrev pub convert_signed : (str : List ℕ) → List ℕ → Converted
convert_signed str [] = convert str false []
convert_signed str (c ∷ cs) =
    if c == b'-'
    then convert str true cs
    else if c == b'+'
    then convert str false cs
    else convert str false (c ∷ cs)

-- `strtoull` with base 0, and `strtoul`, which is the same for a 64-bit `long`.
unfoldable pub strtoull : List ℕ → Converted
strtoull str = convert_signed str (skip_spaces str)

-- `eal_parse_sysfs_value`, with what `fgets` reads of the file (`none` where it cannot be opened or
-- read): the value, and `none` for -1.
unfoldable pub parse_sysfs_value : Option (List ℕ) → Option ℕ
parse_sysfs_value none = none
parse_sysfs_value (some []) = none
parse_sysfs_value (some (c ∷ cs)) =
    let r = strtoull (c ∷ cs) in
    elim r.endptr [ [] ↦ none | e ∷ es ↦ if e == 10 then some r.value else none ]

-- `switch (*endptr)`
unfoldable pub scale : ℕ → ℕ → ℕ
scale c size =
    let k = mul64 size 1024 in
    let m = mul64 k 1024 in
    if c == b'G' || c == b'g'
    then mul64 m 1024
    else if c == b'M' || c == b'm'
    then m
    else if c == b'K' || c == b'k'
    then k
    else size

-- The number behind which `endptr` points, scaled by the suffix there: 1 space may stand before it.
unfoldable pub scale_by : List ℕ → ℕ → ℕ
scale_by [] size = size
scale_by (c ∷ []) size = if c == b' ' then size else scale c size
scale_by (c ∷ d ∷ cs) size = if c == b' ' then scale d size else scale c size

-- `rte_str_to_size`, behind the spaces.
unfoldable pub size_of_number : List ℕ → ℕ
size_of_number [] = 0
size_of_number (c ∷ cs) =
    let r = strtoull (c ∷ cs) in
    if c == b'-' then 0 else if r.out_of_range then 0 else scale_by r.endptr r.value

-- `rte_str_to_size`
unfoldable pub str_to_size : List ℕ → ℕ
str_to_size str = size_of_number (skip_spaces str)
