-- ===== src/Common/Words.antt =====
-- `uint32_t` arithmetic: values below 2 ^ 32, with the wrap written out.
mod Bits
pub use Bits.{
  bit_and_low, bit_and_aligned4, bit_and-le_right, bit_and_high, power_of_mask, mask_of_power,
}
use Prim.Native.Nat.{ℕ, zero, suc, ◌+◌, ◌-◌, ◌%◌, ◌^◌, ◌≤◌, ◌∣◌}
use mathlib.Core.Path.{◌≡◌, subst}
use native.Mathlib.Nat.{dvd_refl, dvd-mul_right_of_dvd, mod-mod_of_dvd, pow-suc, pow-le-pow_right}
use native.Mathlib.Omega.{arith}

abbrev pub u32_mod : ℕ
u32_mod = 2 ^ 32

abbrev pub add32 : ℕ → ℕ → ℕ
add32 a b = (a + b) % u32_mod

-- `-` on ℕ stops at 0, so the modulus is added first.
abbrev pub sub32 : ℕ → ℕ → ℕ
sub32 a b = (a + u32_mod - b) % u32_mod

pow-dvd : (k d e : ℕ) → k + d ≡ e → 2 ^ k ∣ 2 ^ e
pow-dvd k zero e h = subst (λ e. 2 ^ k ∣ 2 ^ e) {x = k} (omega arith) (dvd_refl (2 ^ k))
pow-dvd k (suc d) zero h = absurd (omega arith)
pow-dvd k (suc d) (suc e) h =
    rw (pow-suc 2 e) (dvd-mul_right_of_dvd (2 ^ k) (pow-dvd k d e (omega arith)) 2)

-- The wrap of a word does not show below a mask of `k` bits.
pub mod_word-mod_pow : (k a : ℕ) → k ≤ 32 → a % u32_mod % 2 ^ k ≡ a % 2 ^ k
mod_word-mod_pow k a h = mod-mod_of_dvd (2 ^ k) a (pow-dvd k (32 - k) 32 (omega arith))

pub pow-le_pow : (k m : ℕ) → k ≤ m → 2 ^ k ≤ 2 ^ m
pow-le_pow k m h = pow-le-pow_right (omega arith) h
