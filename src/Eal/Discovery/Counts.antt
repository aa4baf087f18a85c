-- ===== src/Eal/Discovery/Counts.antt =====
-- The numbers of huge pages, and the order of their sizes.
use linux.Common.{
  pow-le_pow, zero, suc, ap, Bool-cases, inl, inr, ltb, ℕ, ◌+◌, ◌-◌, ◌*◌, ◌^◌, ◌≤◌, ◌<◌, ◌≡◌, min,
  some, List, arith, ◌↔◌,
}
use native.Mathlib.Nat.{pow-suc}
use linux.Eal.Supply.{HugepageInfo}
use linux.Eal.Sizes.{parse_sysfs_value}
use linux.Eal.Discovery.{System, get_num_hugepages, compare_hpi}

-- Where the files resv_hugepages and free_hugepages of a size hold the numbers `resv` and `free`:
-- `get_num_hugepages` returns the free pages that are not reserved, none where all are reserved, and
-- never more than 2 ^ 32 - 1.
pub get_num_hugepages-unreserved :
    (sys : System) (subdir : List ℕ) (resv free : ℕ)
    → parse_sysfs_value (sys.resv_hugepages subdir) ≡ some resv
    → parse_sysfs_value (sys.free_hugepages subdir) ≡ some free
    → get_num_hugepages sys subdir ≡ min (free - resv) (2 ^ 32 - 1)
unfolding get_num_hugepages
get_num_hugepages-unreserved sys subdir resv free r f = rw (get_num_hugepages, r, f) (ground arith)

-- For page sizes below 2 ^ 64 that differ by less than 2 ^ 31, `compare_hpi` is 0 exactly for equal sizes, and
-- negative exactly where the first size is the larger one.
pub compare_hpi-order :
    (a b : HugepageInfo)
    → a.hugepage_sz < 2 ^ 64
    → b.hugepage_sz < 2 ^ 64
    → a.hugepage_sz < b.hugepage_sz + 2 ^ 31
    → b.hugepage_sz < a.hugepage_sz + 2 ^ 31
    → ((compare_hpi a b ≡ 0) ↔ (a.hugepage_sz ≡ b.hugepage_sz))
      × ((2 ^ 31 ≤ compare_hpi a b) ↔ (b.hugepage_sz < a.hugepage_sz))
unfolding compare_hpi
compare_hpi-order a b fa fb near_a near_b = (
  (λ e. omega (arith, e, fa, fb, near_a, near_b), λ e. omega (arith, e, fa, fb)),
  (λ l. omega (arith, l, fa, fb, near_a, near_b), λ l. omega (arith, l, fa, fb, near_a, near_b)),
)

-- The powers of two from 2 ^ 32 on are multiples of it.
power_above : (d k : ℕ) → 32 + d ≡ k → (q : ℕ) × (2 ^ k ≡ q * 2 ^ 32)
power_above zero k h = (1, ap (λ n. 2 ^ n) {x = k} {y = 32} (omega (arith, h)))
power_above (suc d) zero h = absurd (omega (arith, h))
power_above (suc d) (suc k) h =
    let (q, e) = power_above d k (omega (arith, h)) in (q * 2, omega (arith, e, pow-suc 2 k))

-- How the sizes 2 ^ i and 2 ^ j compare: in the right order, as if they were equal, or in the wrong order.
data PowerCases (i j c : ℕ) : Type 0 where
  right : j < 32 → 0 < c → c < 2 ^ 31 → PowerCases i j c
  equal : 32 ≤ i → c ≡ 0 → PowerCases i j c
  wrong : i < 32 → 32 ≤ j → 2 ^ 31 ≤ c → PowerCases i j c

power_cases :
    (a b : HugepageInfo) (i j : ℕ)
    → a.hugepage_sz ≡ 2 ^ i
    → b.hugepage_sz ≡ 2 ^ j
    → i < j
    → j < 64
    → PowerCases i j (compare_hpi a b)
unfolding compare_hpi
power_cases a b i j ea eb l h =
    let smaller : 2 ^ i * 2 ≤ 2 ^ j =
      omega (arith, pow-suc 2 i, pow-le_pow (suc i) j (omega (arith, l))) in
    let positive : 1 ≤ 2 ^ i = omega (arith, pow-le_pow 0 i (omega arith)) in
    let fits : 2 ^ j ≤ 2 ^ 63 = pow-le_pow j 63 (omega (arith, h)) in
    elim (Bool-cases (ltb j 32)) [
      | inl e ↦
          let below : j < 32 = ground (arith, e) in
          let half : 2 ^ j ≤ 2 ^ 31 = pow-le_pow j 31 (omega (arith, below)) in
          right below (omega (arith, ea, eb, smaller, positive, half))
            (omega (arith, ea, eb, smaller, positive, half))
      | inr e ↦
          let above : 32 ≤ j = ground (arith, e) in
          let (q, eq) = power_above (j - 32) j (omega (arith, above)) in
          elim (Bool-cases (ltb i 32)) [
            | inl f ↦
                let low : i < 32 = ground (arith, f) in
                let half : 2 ^ i ≤ 2 ^ 31 = pow-le_pow i 31 (omega (arith, low)) in
                wrong low above (omega (arith, ea, eb, smaller, positive, half, eq, fits))
            | inr f ↦
                let high : 32 ≤ i = ground (arith, f) in
                let (p, ep) = power_above (i - 32) i (omega (arith, high)) in
                equal high (omega (arith, ea, eb, smaller, eq, ep, fits))
          ]
    ]

-- For page sizes 2 ^ i and 2 ^ j with i below j below 64, of which the second is to come first:
-- `compare_hpi` says so, by an `int` above 0, exactly where j is below 32; it is 0, as if the sizes were
-- equal, exactly where i is at least 32; and it is negative, which puts the smaller size first, exactly
-- where i is below 32 and j is not.
pub compare_hpi_powers :
    (a b : HugepageInfo) (i j : ℕ)
    → a.hugepage_sz ≡ 2 ^ i
    → b.hugepage_sz ≡ 2 ^ j
    → i < j
    → j < 64
    → (((0 < compare_hpi a b) × (compare_hpi a b < 2 ^ 31)) ↔ (j < 32))
      × ((compare_hpi a b ≡ 0) ↔ (32 ≤ i))
      × ((2 ^ 31 ≤ compare_hpi a b) ↔ ((i < 32) × (32 ≤ j)))
compare_hpi_powers a b i j ea eb l h = elim (power_cases a b i j ea eb l h) [
  | right below p q ↦ (
    (λ x. below, λ x. (p, q)),
    (λ e. absurd (omega (arith, e, p)), λ x. absurd (omega (arith, x, l, below))),
    (λ x. absurd (omega (arith, x, q)), λ x. absurd (omega (arith, x.1, below))),
  )
  | equal high z ↦ (
    (λ x. absurd (omega (arith, x.0, z)), λ x. absurd (omega (arith, x, l, high))),
    (λ e. high, λ x. z),
    (λ x. absurd (omega (arith, x, z)), λ x. absurd (omega (arith, x.0, high))),
  )
  | wrong low above n ↦ (
    (λ x. absurd (omega (arith, x.1, n)), λ x. absurd (omega (arith, x, above))),
    (λ e. absurd (omega (arith, e, n)), λ x. absurd (omega (arith, x, low))),
    (λ x. (low, above), λ x. n),
  )
]
