-- ===== src/Common/Words/Bits.antt =====
-- `&` at variables: with a mask of low ones it is a remainder. The native operation is defined by
-- a recursion on binary digits, and each law goes from `a / 2` to `a`.
use Prim.Native.Nat.{ℕ, zero, suc, ◌+◌, ◌-◌, ◌*◌, ◌/◌, ◌%◌, ◌^◌, ◌≤◌, ◌<◌, min, bit_and}
use Prim.Native.Nat.{digits, bit_and-bitwise}
use mathlib.Core.Path.{◌≡◌, refl, sym, ap, ap₂, ◌∙◌}
use native.Mathlib.Nat.{pow-suc, one-le-pow, le_refl, div-div-eq-div-mul}
use native.Mathlib.Decide.{ℕ_discrete}
use native.Mathlib.Omega.{arith}

-- The recursion on the digits, with `fuel` digits at most. More fuel than the number changes nothing.
abbrev masked : (fuel n mask : ℕ) → ℕ
masked = digits (λ mask. zero) min

masked_one_more : (fuel n mask : ℕ) → n ≤ fuel → masked (suc fuel) n mask ≡ masked fuel n mask
masked_one_more zero zero mask le = refl
masked_one_more zero (suc n) mask le = absurd (omega arith)
masked_one_more (suc fuel) zero mask le = refl
masked_one_more (suc fuel) (suc n) mask le =
    let half : suc n / 2 ≤ fuel = omega arith in
    omega (arith, masked_one_more fuel (suc n / 2) (mask / 2) half)

masked_enough : (fuel n mask : ℕ) → n ≤ fuel → masked fuel n mask ≡ masked n n mask
masked_enough zero zero mask le = refl
masked_enough zero (suc n) mask le = absurd (omega arith)
masked_enough (suc fuel) n mask le = elim (ℕ_discrete n (suc fuel)) [
  | yes all ↦ rw all refl
  | no fewer ↦
      let le' : n ≤ fuel = omega (arith, fewer) in
      masked_one_more fuel n mask le' ∙ masked_enough fuel n mask le'
]

bit_and-masked : (fuel n mask : ℕ) → n ≤ fuel → bit_and n mask ≡ masked fuel n mask
bit_and-masked fuel n mask le = bit_and-bitwise n mask ∙ sym (masked_enough fuel n mask le)

-- The lowest digit apart.
bit_and_step : (a b : ℕ) → bit_and a b ≡ bit_and (a / 2) (b / 2) * 2 + min (a % 2) (b % 2)
bit_and_step zero b = omega (arith, bit_and-masked 0 0 b, bit_and-masked 0 0 (b / 2))
bit_and_step (suc a) b =
    let half : suc a / 2 ≤ a = omega arith in
    omega (arith, bit_and-masked (suc a) (suc a) b, bit_and-masked a (suc a / 2) (b / 2) half)

bit_and-le_fuel : (f a b : ℕ) → a ≤ f → bit_and a b ≤ b
bit_and-le_fuel zero a b h =
    let e : a ≡ 0 = omega arith in omega (arith, ap (λ x. bit_and x b) e, bit_and-masked 0 0 b)
bit_and-le_fuel (suc f) zero b h = omega (arith, bit_and-masked 0 0 b)
bit_and-le_fuel (suc f) (suc a) b h =
    omega (arith, bit_and_step (suc a) b, bit_and-le_fuel f (suc a / 2) (b / 2) (omega arith))

-- A masked index does not exceed its mask.
pub bit_and-le_right : (a b : ℕ) → bit_and a b ≤ b
bit_and-le_right a b = bit_and-le_fuel a a b (le_refl a)

double_pow : (q k : ℕ) → q * 2 ^ suc k ≡ 2 * (q * 2 ^ k)
double_pow q k = omega (arith, ap (λ (t : ℕ). q * t) (pow-suc 2 k))

bit_and_low_digits : (k q r : ℕ) → r < 2 ^ k → bit_and (q * 2 ^ k + r) (2 ^ k - 1) ≡ r
bit_and_low_digits zero q r h = omega (arith, bit_and-le_right (q * 2 ^ 0 + r) 0)
bit_and_low_digits (suc k) q r h = ground (
  arith,
  bit_and_step (q * 2 ^ suc k + r) (2 ^ suc k - 1),
  double_pow q k,
  pow-suc 2 k,
  bit_and_low_digits k q (r / 2) (omega (arith, pow-suc 2 k)),
)

-- A mask of `k` low ones is the remainder by `2 ^ k`.
pub bit_and_low : (k a : ℕ) → bit_and a (2 ^ k - 1) ≡ a % 2 ^ k
bit_and_low k a = ground (arith, one-le-pow k 2, bit_and_low_digits k (a / 2 ^ k) (a % 2 ^ k))

-- `n & ~3` of a 32-bit `n` drops the last two binary digits.
pub bit_and_aligned4 : (n : ℕ) → n < 2 ^ 32 → bit_and n 0xffff_fffc ≡ n - n % 4
bit_and_aligned4 n h = omega (
  arith,
  bit_and_step n 0xffff_fffc,
  bit_and_step (n / 2) 0x7fff_fffe,
  bit_and_low 30 (n / 2 / 2),
)

div-div-pow : (k a : ℕ) → a / 2 / 2 ^ k ≡ a / 2 ^ suc k
div-div-pow k a = div-div-eq-div-mul a 2 (2 ^ k) ∙ ap (λ t. a / t) (omega (arith, pow-suc 2 k))

-- A mask with `k` zeros at its low end.
pub bit_and_high : (k a m : ℕ) → bit_and a (m * 2 ^ k) ≡ bit_and (a / 2 ^ k) m * 2 ^ k
bit_and_high zero a m =
    let e₁ : m * 2 ^ 0 ≡ m = omega arith in
    let e₂ : a / 2 ^ 0 ≡ a = omega arith in rw (e₁, e₂) (omega arith)
bit_and_high (suc k) a m =
    let half : m * 2 ^ suc k / 2 ≡ m * 2 ^ k = omega (arith, double_pow m k) in
    omega (
      arith,
      ap (λ x. bit_and (a / 2) x) half,
      double_pow m k,
      bit_and_step a (m * 2 ^ suc k),
      bit_and_high k (a / 2) m,
      double_pow (bit_and (a / 2 ^ suc k) m) k,
      ap (λ x. bit_and x m * 2 ^ k) (div-div-pow k a),
    )

bit_and_self : (f a : ℕ) → a ≤ f → bit_and a a ≡ a
bit_and_self f zero h = refl
bit_and_self zero (suc a) h = absurd (omega arith)
bit_and_self (suc f) (suc a) h =
    omega (arith, bit_and_step (suc a) (suc a), bit_and_self f (suc a / 2) (omega arith))

power_of_mask_fuel : (f n : ℕ) → n ≤ f → 0 < n → bit_and (n - 1) n ≡ 0 → (k : ℕ) × (n ≡ 2 ^ k)
power_of_mask_fuel zero n h p e = absurd (omega arith)
power_of_mask_fuel (suc f) n h p e = elim (ℕ_discrete (n % 2) 0) [
  | yes even ↦
      let e₁ : (n - 1) / 2 ≡ n / 2 - 1 = omega arith in
      let e₂ = ap (λ x. bit_and x (n / 2)) e₁ in
      let (k, q) =
        power_of_mask_fuel f (n / 2) (omega arith) (omega arith)
          (omega (arith, bit_and_step (n - 1) n)) in
      (suc k, omega (arith, pow-suc 2 k))
  | no odd ↦
      let e₁ : (n - 1) / 2 ≡ n / 2 = omega arith in
      let e₂ = ap (λ x. bit_and x (n / 2)) e₁ in
      (0, omega (arith, bit_and_step (n - 1) n, bit_and_self (n / 2) (n / 2) (le_refl _)))
]

-- `(n - 1) & n` is 0 at the powers of two, and at no other positive number.
pub power_of_mask : (n : ℕ) → 0 < n → bit_and (n - 1) n ≡ 0 → (k : ℕ) × (n ≡ 2 ^ k)
power_of_mask n = power_of_mask_fuel n n (le_refl n)

pub mask_of_power : (k : ℕ) → bit_and (2 ^ k - 1) (2 ^ k) ≡ 0
mask_of_power zero = refl
mask_of_power (suc k) =
    let e₁ : (2 ^ suc k - 1) / 2 ≡ 2 ^ k - 1 = omega (arith, pow-suc 2 k, one-le-pow k 2) in
    let e₂ : 2 ^ suc k / 2 ≡ 2 ^ k = omega (arith, pow-suc 2 k) in
    omega (
      arith,
      bit_and_step (2 ^ suc k - 1) (2 ^ suc k),
      ap₂ (λ x y. bit_and x y) e₁ e₂,
      mask_of_power k,
      pow-suc 2 k,
    )
