-- ===== src/Split/Fields.antt =====
-- The fields of a text, without a loop: what is between two delimiters, and before the first and
-- behind the last one. And the strings that tokens point to.
use linux.Common.{
  ℕ, suc, ◌+◌, ◌≡◌, refl, ap, ◌≢◌, List, [], ◌∷◌, ◌++◌, some, length, get_elem?, set, drop, ◌==◌,
  Option, if◌then◌else◌, arith, map,
}

module _ (delim : ℕ) where
  -- The text up to its first delimiter.
  abbrev pub first_field : List ℕ → List ℕ
  first_field [] = []
  first_field (c ∷ cs) = if c == delim then [] else c ∷ first_field cs

  -- The fields behind the first delimiter.
  abbrev pub later_fields : List ℕ → List (List ℕ)
  later_fields [] = []
  later_fields (c ∷ cs) = if c == delim then first_field cs ∷ later_fields cs else later_fields cs

  abbrev pub fields : List ℕ → List (List ℕ)
  fields cs = first_field cs ∷ later_fields cs

-- The fields that are not empty.
abbrev pub keep_nonempty : List (List ℕ) → List (List ℕ)
keep_nonempty [] = []
keep_nonempty ([] ∷ fs) = keep_nonempty fs
keep_nonempty ((c ∷ cs) ∷ fs) = (c ∷ cs) ∷ keep_nonempty fs

-- The fields without the last one, if that is empty.
abbrev pub drop_empty_last : List (List ℕ) → List (List ℕ)
drop_empty_last [] = []
drop_empty_last ([] ∷ []) = []
drop_empty_last ((c ∷ cs) ∷ []) = (c ∷ cs) ∷ []
drop_empty_last (f ∷ g ∷ fs) = f ∷ drop_empty_last (g ∷ fs)

-- The C string that starts a memory: the bytes before the first NUL.
abbrev pub c_string : List ℕ → List ℕ
c_string [] = []
c_string (c ∷ cs) = if c == 0 then [] else c ∷ c_string cs

-- The strings that tokens point to.
abbrev pub token_strings : List ℕ → List ℕ → List (List ℕ)
token_strings memory tokens = map (λ t. c_string (drop t memory)) tokens

-- A text has no NUL.
abbrev pub IsText : List ℕ → Type 0
IsText [] = Unit
IsText (c ∷ cs) = (c ≢ 0) × IsText cs

-- The byte behind `pre`, and what is there after a store.
pub get_elem?-append : (pre xs : List ℕ) (c : ℕ) → get_elem? (pre ++ (c ∷ xs)) (length pre) ≡ some c
get_elem?-append [] xs c = refl
get_elem?-append (p ∷ pre) xs c = get_elem?-append pre xs c

pub set-append :
    (pre xs : List ℕ) (c v : ℕ) → set (pre ++ (c ∷ xs)) (length pre) v ≡ pre ++ (v ∷ xs)
set-append [] xs c v = refl
set-append (p ∷ pre) xs c v = ap (λ ys. p ∷ ys) (set-append pre xs c v)

pub drop-append : (pre xs : List ℕ) → drop (length pre) (pre ++ xs) ≡ xs
drop-append [] xs = refl
drop-append (p ∷ pre) xs = drop-append pre xs

-- One byte further.
pub snoc-append : (pre xs : List ℕ) (c : ℕ) → (pre ++ (c ∷ [])) ++ xs ≡ pre ++ (c ∷ xs)
snoc-append [] xs c = refl
snoc-append (p ∷ pre) xs c = ap (λ ys. p ∷ ys) (snoc-append pre xs c)

pub length-snoc : (pre : List ℕ) (c : ℕ) → length (pre ++ (c ∷ [])) ≡ length pre + 1
length-snoc [] c = refl
length-snoc (p ∷ pre) c = omega (arith, length-snoc pre c)

pub length-map : {A B : Type 0} (f : A → B) (xs : List A) → length (map f xs) ≡ length xs
length-map f [] = refl
length-map f (x ∷ xs) = ap suc (length-map f xs)

-- What a call leaves: the tokens point to these strings, and nothing behind the text has changed.
pub record Split (text rest : List ℕ) (strings : List (List ℕ)) (out : Option (List ℕ × List ℕ))
    : Type 0 where
  pub memory : List ℕ
  pub tokens : List ℕ
  pub returns : out ≡ some (memory, tokens)
  pub points : token_strings memory tokens ≡ strings
  pub behind : drop (length text) memory ≡ 0 ∷ rest
