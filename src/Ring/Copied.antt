-- ===== src/Ring/Copied.antt =====
-- The copies of Ring/Table, whatever their loops look like, as one statement about indices.
use linux.Common.{
  ℕ, zero, suc, ◌+◌, ◌-◌, ◌*◌, ◌/◌, ◌^◌, ◌≤◌, ◌<◌, ◌≡◌, refl, ◌⊎◌, ap, ◌∙◌, subst, Option, some,
  List, arith, ◌>>=◌, length, get_or, set, length-set, get_or-set_self, get_or-set_ne,
  get_elem?-eq-get_or, lt→ltb, bit_and, bit_and_low, bit_and_aligned4,
}
use native.Mathlib.Decide.{dec_lt}
use linux.Ring.Table.{copy_one, copy, copy_four, copy_unrolled, copy_rest}

-- `out` is `dst` with `src[si .. si + n)` written over `dst[di .. di + n)`.
pub record Copied (n di si : ℕ) (dst src : List ℕ) (out : Option (List ℕ)) : Type 0 where
  pub result : List ℕ
  pub returns : out ≡ some result
  pub same_length : length result ≡ length dst
  pub inside : (j : ℕ) → j < n → get_or result (di + j) 0 ≡ get_or src (si + j) 0
  pub outside : (j : ℕ) → (j < di) ⊎ (di + n ≤ j) → get_or result j 0 ≡ get_or dst j 0

abbrev pub InRange : ℕ → ℕ → ℕ → List ℕ → List ℕ → Type 0
InRange n di si dst src = (di + n ≤ length dst) × (si + n ≤ length src)

module _ {src : List ℕ} where
  none-Copied : (di si : ℕ) (dst : List ℕ) → Copied 0 di si dst src (some dst)
  none-Copied di si dst = record {
    result = dst;
    returns = refl;
    same_length = refl;
    inside = λ j p. absurd (omega arith);
    outside = λ j p. refl;
  }

  copy_one-Copied :
      (di si : ℕ) (dst : List ℕ)
      → InRange 1 di si dst src
      → Copied 1 di si dst src (copy_one di si dst src)
  unfolding copy_one
  copy_one-Copied di si dst (p, q) = record {
    result = set dst di (get_or src si 0);
    returns = rw (get_elem?-eq-get_or src si 0 (omega arith), lt→ltb di (length dst) (omega arith));
    same_length = length-set dst di (get_or src si 0);
    inside = λ j h.
        let e : j ≡ 0 = omega arith in
        let e₁ : di + j ≡ di = omega arith in
        let e₂ : si + j ≡ si = omega arith in
        rw (e₁, e₂) (get_or-set_self dst di (get_or src si 0) 0 (omega arith));
    outside = λ j h. get_or-set_ne dst di j (get_or src si 0) 0 (omega arith);
  }

  -- One copy after another.
  then-Copied :
      (m n k di di' si si' : ℕ) (dst : List ℕ) {first : Option (List ℕ)}
      (next : List ℕ → Option (List ℕ))
      → (m + n ≡ k) × (di + m ≡ di') × (si + m ≡ si')
      → Copied m di si dst src first
      → ((mid : List ℕ) → length mid ≡ length dst → Copied n di' si' mid src (next mid))
      → Copied k di si dst src (first >>= next)
  then-Copied m n k di di' si si' dst next e a b = record {
    result = c.result;
    returns = ap (λ o. o >>= next) a.returns ∙ c.returns;
    same_length = c.same_length ∙ a.same_length;
    inside = λ j h. elim (dec_lt j m) [
      | yes p ↦ c.outside (di + j) (omega arith) ∙ a.inside j p
      | no p ↦
          let e₁ : di' + (j - m) ≡ di + j = omega arith in
          let e₂ : si' + (j - m) ≡ si + j = omega arith in
          rw (← e₁, ← e₂) (c.inside (j - m) (omega arith))
    ];
    outside = λ j h. c.outside j (omega arith) ∙ a.outside j (omega arith);
  }
    where
      c : Copied n di' si' a.result src (next a.result)
      c = b a.result a.same_length

  pub copy-Copied :
      (n di si : ℕ) (dst : List ℕ)
      → InRange n di si dst src
      → Copied n di si dst src (copy n di si dst src)
  unfolding copy
  copy-Copied zero di si dst r = none-Copied di si dst
  copy-Copied (suc n) di si dst r =
      then-Copied 1 n (suc n) di (di + 1) si (si + 1) dst (λ mid. copy n (di + 1) (si + 1) mid src)
        (omega arith) (copy_one-Copied di si dst (omega arith))
        λ mid e. copy-Copied n (di + 1) (si + 1) mid (omega arith)

  -- `k` copies in a row, each one index on.
  more-Copied :
      (n k di si d : ℕ) (dst : List ℕ) (next : List ℕ → Option (List ℕ))
      → suc n ≡ k
      → InRange k (di + d) (si + d) dst src
      → ((mid : List ℕ)
          → length mid ≡ length dst
          → Copied n (di + suc d) (si + suc d) mid src (next mid))
      → Copied k (di + d) (si + d) dst src (copy_one (di + d) (si + d) dst src >>= next)
  more-Copied n k di si d dst next e r b =
      then-Copied 1 n k (di + d) (di + suc d) (si + d) (si + suc d) dst next (omega arith)
        (copy_one-Copied (di + d) (si + d) dst (omega arith)) b

  copy_four-Copied :
      (di si : ℕ) (dst : List ℕ)
      → InRange 4 di si dst src
      → Copied 4 di si dst src (copy_four di si dst src)
  unfolding copy_four
  copy_four-Copied di si dst r =
      then-Copied 1 3 4 di (di + 1) si (si + 1) dst _ (omega arith)
        (copy_one-Copied di si dst (omega arith))
        λ a ea. more-Copied 2 3 di si 1 a _ refl (omega arith) λ b eb.
          more-Copied 1 2 di si 2 b _ refl (omega arith)
            λ c ec. copy_one-Copied (di + 3) (si + 3) c (omega arith)

  copy_unrolled-Copied :
      (n k di si : ℕ) (dst : List ℕ)
      → n * 4 ≡ k
      → InRange k di si dst src
      → Copied k di si dst src (copy_unrolled n di si dst src)
  unfolding copy_unrolled
  copy_unrolled-Copied zero k di si dst e r =
      subst (λ k. Copied k di si dst src (some dst)) e (none-Copied di si dst)
  copy_unrolled-Copied (suc n) k di si dst e r =
      then-Copied 4 (n * 4) k di (di + 4) si (si + 4) dst
        (λ mid. copy_unrolled n (di + 4) (si + 4) mid src) (omega arith)
        (copy_four-Copied di si dst (omega arith))
        λ mid same. copy_unrolled-Copied n (n * 4) (di + 4) (si + 4) mid refl (omega arith)

  copy_rest-Copied :
      (m di si : ℕ) (dst : List ℕ)
      → m < 4
      → InRange m di si dst src
      → Copied m di si dst src (copy_rest m di si dst src)
  unfolding copy_rest
  copy_rest-Copied zero di si dst h r = none-Copied di si dst
  copy_rest-Copied (suc zero) di si dst h r = copy_one-Copied di si dst r
  copy_rest-Copied (suc (suc zero)) di si dst h r =
      then-Copied 1 1 2 di (di + 1) si (si + 1) dst _ (omega arith)
        (copy_one-Copied di si dst (omega arith))
        λ a ea. copy_one-Copied (di + 1) (si + 1) a (omega arith)
  copy_rest-Copied (suc (suc (suc zero))) di si dst h r =
      then-Copied 1 2 3 di (di + 1) si (si + 1) dst _ (omega arith)
        (copy_one-Copied di si dst (omega arith))
        λ a ea.
          more-Copied 1 2 di si 1 a _ refl (omega arith)
            λ b eb. copy_one-Copied (di + 2) (si + 2) b (omega arith)
  copy_rest-Copied (suc (suc (suc (suc m)))) di si dst h r = absurd (omega arith)

  -- The branch that does not reach the end of the table: four at a time, then the rest.
  pub unrolled_then_rest-Copied :
      (n di di' si si' : ℕ) (dst : List ℕ)
      → n < 2 ^ 32
      → InRange n di si dst src
      → (di + bit_and n 0xffff_fffc ≡ di') × (si + bit_and n 0xffff_fffc ≡ si')
      → Copied n di si dst src (
          copy_unrolled (bit_and n 0xffff_fffc / 4) di si dst src >>= λ mid.
          copy_rest (bit_and n 3) di' si' mid src)
  unrolled_then_rest-Copied n di di' si si' dst h r e =
      let e₁ = bit_and_aligned4 n h in
      let e₂ = bit_and_low 2 n in
      then-Copied (bit_and n 0xffff_fffc) (bit_and n 3) n di di' si si' dst _ (omega arith)
        (copy_unrolled-Copied _ _ di si dst (omega arith) (omega arith))
        λ mid same. copy_rest-Copied (bit_and n 3) _ _ mid (omega arith) (omega arith)
