-- ===== src/Lock/Counter.antt =====
-- The `std::atomic_int32_t` of a lock: an integer that a thread reads or changes in one step.
use linux.Common.{ℕ, zero, suc, ◌≡◌, ap, Bool, true, false, ◌==◌, ==_iff}

-- `negsuc n` is -(n + 1).
pub data ℤ : Type 0 where
  pos : ℕ → ℤ
  negsuc : ℕ → ℤ

-- `fetch_sub(1)`
abbrev pub pred_ℤ : ℤ → ℤ
pred_ℤ (pos zero) = negsuc 0
pred_ℤ (pos (suc n)) = pos n
pred_ℤ (negsuc n) = negsuc (suc n)

-- The comparison of a compare and exchange with a non-negative expected value.
abbrev pub is_pos : ℤ → ℕ → Bool
is_pos (pos n) e = n == e
is_pos (negsuc n) e = false

pub is_pos-eq : (c : ℤ) (e : ℕ) → is_pos c e ≡ true → c ≡ pos e
is_pos-eq (pos n) e h = ap pos ((==_iff n e).0 h)
is_pos-eq (negsuc n) e h = cc
