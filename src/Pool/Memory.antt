-- ===== src/Pool/Memory.antt =====
-- The memory that the pools of vpn/com_lib/mem_lib and pools/mem_pool work on: the allocated regions,
-- and the pointers stored in them. A pointer is a number and takes 8 bytes; 0 is NULL.
use linux.Common.{
  ℕ, ◌+◌, ◌≤◌, ◌≡◌, refl, ◌≢◌, ◌⊎◌, inl, inr, Bool, true, false, ◌&&◌, ◌||◌, Option, none, some,
  List, [], ◌∷◌, arith, leb, ltb, ◌==◌, if◌then◌else◌, ◌>>=◌,
}

pub record Region : Type 0 where
  pub base : ℕ
  pub size : ℕ

-- `word a` is the pointer stored at `a`, and `none` where the 8 bytes from `a` on hold no pointer
-- that was stored as a whole.
pub record Memory : Type 0 where
  pub regions : List Region
  pub word : ℕ → Option ℕ

-- Whether the 8 bytes from `a` on lie in one allocated region.
unfoldable pub accessible : List Region → ℕ → Bool
accessible [] a = false
accessible (r ∷ rs) a = (leb r.base a && leb (a + 8) (r.base + r.size)) || accessible rs a

-- A store of a pointer spoils the pointers that overlap it.
unfoldable pub put : (ℕ → Option ℕ) → ℕ → ℕ → ℕ → Option ℕ
put word p v a = if a == p then some v else if ltb a (p + 8) && ltb p (a + 8) then none else word a

-- `none` is a store outside the allocated regions.
unfoldable pub store : Memory → ℕ → ℕ → Option Memory
store m p v = if accessible m.regions p then some (record m { word = put m.word p v }) else none

-- `none` is a load outside the regions, or of bytes that hold no pointer.
unfoldable pub load : Memory → ℕ → Option ℕ
load m p = if accessible m.regions p then m.word p else none

-- The memory after `malloc` has returned `p` for `n` bytes. What the new region holds is not known.
unfoldable pub allocate : Memory → (p n : ℕ) → Memory
allocate m p n = record {
  regions = record { base = p; size = n } ∷ m.regions;
  word = λ a. if ltb a (p + n) && ltb p (a + 8) then none else m.word a;
}

remove_region : List Region → ℕ → Option (List Region)
remove_region [] p = none
remove_region (r ∷ rs) p =
    let later = remove_region rs p >>= λ rs'. some (r ∷ rs') in
    if r.base == p then some rs else later

-- `free`: `none` is a pointer that `malloc` has not returned. `free(NULL)` does nothing.
unfoldable pub free : Memory → ℕ → Option Memory
unfolding remove_region
free m p =
    if p == 0 then some m else (do rs ← remove_region m.regions p; some (record m { regions = rs }))

-- Membership, and two regions or two words that do not overlap.
abbrev pub Has : Region → List Region → Type 0
Has r [] = ⊥
Has r (x ∷ xs) = (r ≡ x) ⊎ Has r xs

abbrev pub Disjoint : Region → Region → Type 0
Disjoint r s = (r.base + r.size ≤ s.base) ⊎ (s.base + s.size ≤ r.base)

abbrev pub Apart : ℕ → ℕ → Type 0
Apart a b = (a + 8 ≤ b) ⊎ (b + 8 ≤ a)

-- What the pools rely on: `malloc` returns NULL, or memory that overlaps no allocated region and
-- ends below 2 ^ 64.
pub record KeepsApart (malloc : List Region → ℕ → ℕ) : Type 0 where
  pub fresh :
      (rs : List Region) (n : ℕ) (r : Region)
      → malloc rs n ≢ 0
      → Has r rs
      → Disjoint r (record { base = malloc rs n; size = n })

pub put_self : (word : ℕ → Option ℕ) (p v : ℕ) → put word p v p ≡ some v
unfolding put
put_self word p v = ground arith

pub put-Apart : (word : ℕ → Option ℕ) (p v a : ℕ) → Apart p a → put word p v a ≡ word a
unfolding put
put-Apart word p v a h = ground (arith, h)

pub allocate-word :
    (m : Memory) (p n a : ℕ) → (p + n ≤ a) ⊎ (a + 8 ≤ p) → (allocate m p n).word a ≡ m.word a
unfolding allocate
allocate-word m p n a h = ground (arith, h)

pub Has-accessible :
    (r : Region) (rs : List Region) (a : ℕ)
    → Has r rs
    → r.base ≤ a
    → a + 8 ≤ r.base + r.size
    → accessible rs a ≡ true
unfolding accessible
Has-accessible r [] a h lo hi = absurd h
Has-accessible r (x ∷ xs) a (inl e) lo hi = ground (arith, e)
Has-accessible r (x ∷ xs) a (inr h) lo hi = ground (arith, Has-accessible r xs a h lo hi)

pub store_lem :
    (m : Memory) (p v : ℕ)
    → accessible m.regions p ≡ true
    → store m p v ≡ some (record m { word = put m.word p v })
unfolding store
store_lem m p v h = rw h refl

pub load_lem : (m : Memory) (p : ℕ) → accessible m.regions p ≡ true → load m p ≡ m.word p
unfolding load
load_lem m p h = rw h refl
