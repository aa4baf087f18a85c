-- ===== src/Pool/Paged/Use.antt =====
-- A client of the paged pool: it takes blocks, writes into the blocks that it holds, and returns
-- blocks that it holds, in any order.
use linux.Common.{
  ℕ, suc, ◌+◌, ◌≡◌, refl, ◌≢◌, inl, inr, Option, some, List, [], ◌∷◌, arith, length, ap, sym, subst,
  ◌==◌, ==_iff, if◌then◌else◌, Bool-cases,
}
use linux.Pool.Memory.{Region, Memory}
use linux.Pool.Paged.{MemPool, malloc_mem_pool, free_mem_pool}
use linux.Pool.Paged.Shape.{Page, In, Distinct, AllBlocks, IsValid, OutOf, count_blocks}

pub record State : Type 0 where
  pub pool : MemPool
  pub memory : Memory
  pub held : List ℕ

-- A list without the first `b`.
abbrev pub remove : ℕ → List ℕ → List ℕ
remove b [] = []
remove b (x ∷ xs) = if x == b then xs else x ∷ remove b xs

-- A step of the client: it is handed a block, is refused one, writes into blocks that it holds, or
-- returns one.
pub data Step (malloc : List Region → ℕ → ℕ) : State → State → Type 0 where
  taken :
      (s : State) (r : ℕ × MemPool × Memory)
      → malloc_mem_pool malloc s.pool s.memory ≡ some r
      → r.0 ≢ 0
      → Step malloc s (record { pool = r.1; memory = r.2; held = r.0 ∷ s.held })
  refused :
      (s : State) (r : ℕ × MemPool × Memory)
      → malloc_mem_pool malloc s.pool s.memory ≡ some r
      → r.0 ≡ 0
      → Step malloc s (record { pool = r.1; memory = r.2; held = s.held })
  written :
      (s : State) (word : ℕ → Option ℕ)
      → ((a : ℕ) → ((b : ℕ) → In b s.held → OutOf s.pool.block_size b a) → word a ≡ s.memory.word a)
      → Step malloc s (record {
        pool = s.pool;
        memory = record { regions = s.memory.regions; word = word };
        held = s.held;
      })
  returned :
      (s : State) (b fuel : ℕ) (r : MemPool × Memory)
      → In b s.held
      → free_mem_pool fuel s.pool b s.memory ≡ some r
      → Step malloc s (record { pool = r.0; memory = r.1; held = remove b s.held })

pub data Reach (malloc : List Region → ℕ → ℕ) (s : State) : State → Type 0 where
  here : Reach malloc s s
  next : {t u : State} → Reach malloc s t → Step malloc t u → Reach malloc s u

-- What holds in every state: the blocks that are held are blocks of the pool, each once, and not free.
pub record Holds (size increment : ℕ) (s : State) (pages : List Page) (frees : List ℕ)
    : Type 0 where
  pub valid : IsValid s.pool s.memory pages frees
  pub held_blocks : AllBlocks s.pool.block_size pages s.held
  pub held_distinct : Distinct s.held
  pub not_free : (a : ℕ) → In a s.held → In a frees → ⊥
  pub counted : length s.held + length frees ≡ count_blocks pages
  pub sized : s.pool.block_size ≡ size
  pub increments : s.pool.auto_increment ≡ increment

pub In-remove : (a b : ℕ) (xs : List ℕ) → In a (remove b xs) → In a xs
In-remove a b [] h = h
In-remove a b (x ∷ xs) h = elim (Bool-cases (x == b)) [
  | inl e ↦ inr (rw e at h)
  | inr e ↦
      let h' : In a (x ∷ remove b xs) = rw e at h in
      elim h' [ inl q ↦ inl q | inr i ↦ inr (In-remove a b xs i) ]
]

pub remove-Distinct : (b : ℕ) (xs : List ℕ) → Distinct xs → Distinct (remove b xs)
remove-Distinct b [] d = tt
remove-Distinct b (x ∷ xs) d = elim (Bool-cases (x == b)) [
  | inl e ↦ rw e d.1
  | inr e ↦ rw e (λ i. d.0 (In-remove x b xs i), remove-Distinct b xs d.1)
]

pub remove-AllBlocks :
    (size b : ℕ) (ps : List Page) (xs : List ℕ)
    → AllBlocks size ps xs
    → AllBlocks size ps (remove b xs)
remove-AllBlocks size b ps [] d = tt
remove-AllBlocks size b ps (x ∷ xs) d = elim (Bool-cases (x == b)) [
  | inl e ↦ rw e d.1
  | inr e ↦ rw e (d.0, remove-AllBlocks size b ps xs d.1)
]

-- What is held once is not held after it is returned.
pub In-remove_self : (b : ℕ) (xs : List ℕ) → Distinct xs → In b (remove b xs) → ⊥
In-remove_self b [] d h = h
In-remove_self b (x ∷ xs) d h = elim (Bool-cases (x == b)) [
  | inl e ↦ d.0 (subst (λ y. In y xs) (sym ((==_iff x b).0 e)) (rw e at h))
  | inr e ↦
      let h' : In b (x ∷ remove b xs) = rw e at h in
      elim h' [ inl q ↦ absurd (ground (arith, e, q)) | inr i ↦ In-remove_self b xs d.1 i ]
]

pub length-remove : (b : ℕ) (xs : List ℕ) → In b xs → length xs ≡ suc (length (remove b xs))
length-remove b [] h = absurd h
length-remove b (x ∷ xs) h = elim (Bool-cases (x == b)) [
  | inl e ↦ rw e refl
  | inr e ↦ elim h [
    | inl q ↦ absurd (ground (arith, e, q))
    | inr i ↦ rw e (ap suc (length-remove b xs i))
  ]
]

pub AllBlocks-more :
    (size : ℕ) (p : Page) (ps : List Page) (xs : List ℕ)
    → AllBlocks size ps xs
    → AllBlocks size (p ∷ ps) xs
AllBlocks-more size p ps [] d = tt
AllBlocks-more size p ps (x ∷ xs) d = (inr d.0, AllBlocks-more size p ps xs d.1)
