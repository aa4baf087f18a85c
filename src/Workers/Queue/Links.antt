-- ===== src/Workers/Queue/Links.antt =====
-- The tasks that are linked from an address on.
use linux.Common.{
  ℕ, ◌<◌, ◌≡◌, refl, ap, sym, ◌∙◌, Bool, true, false, List, [], ◌∷◌, ◌++◌, ◌==◌, arith,
}
use linux.Workers.Queue.{with_value}

abbrev pub IsApart : ℕ → List ℕ → Type 0
IsApart x [] = Unit
IsApart x (y ∷ ys) = (¬ (x ≡ y)) × IsApart x ys

pub with_value-same : {A : Type 0} (f : ℕ → A) (a : ℕ) (v : A) → with_value f a v a ≡ v
with_value-same f a v = let e : (a == a) ≡ true = ground arith in rw e refl

pub with_value-other :
    {A : Type 0} (f : ℕ → A) (a : ℕ) (v : A) (x : ℕ) → ¬ (x ≡ a) → with_value f a v x ≡ f x
with_value-other f a v x n = let e : (x == a) ≡ false = ground (arith, n) in rw e refl

-- The word at `a` is the address of the first task, and so on; the last word is 0, and `tail` is its
-- address. The tasks are allocated, not held by a thread, and different from each other and from `a`.
abbrev pub Links : (word : ℕ → ℕ) → (live held : ℕ → Bool) → (tail a : ℕ) → List ℕ → Type 0
Links word live held tail a [] = (word a ≡ 0) × (tail ≡ a)
Links word live held tail a (p ∷ ps) =
    (word a ≡ p)
    × (0 < p)
    × (live p ≡ true)
    × (held p ≡ false)
    × IsApart a (p ∷ ps)
    × Links word live held tail p ps

-- Changes that do not concern the linked words and tasks.
pub word-Links :
    (word : ℕ → ℕ) (live held : ℕ → Bool) (tail a x v : ℕ) (ps : List ℕ)
    → ¬ (a ≡ x)
    → IsApart x ps
    → Links word live held tail a ps
    → Links (with_value word x v) live held tail a ps
word-Links word live held tail a x v [] n d l = (with_value-other word x v a n ∙ l.0, l.1)
word-Links word live held tail a x v (p ∷ ps) n d l = (
  with_value-other word x v a n ∙ l.0,
  l.1,
  l.2,
  l.3,
  l.4,
  word-Links word live held tail p x v ps (λ e. d.0 (sym e)) d.1 l.5,
)

pub live-Links :
    (word : ℕ → ℕ) (live held : ℕ → Bool) (tail a x : ℕ) (v : Bool) (ps : List ℕ)
    → IsApart x ps
    → Links word live held tail a ps
    → Links word (with_value live x v) held tail a ps
live-Links word live held tail a x v [] d l = l
live-Links word live held tail a x v (p ∷ ps) d l = (
  l.0,
  l.1,
  with_value-other live x v p (λ e. d.0 (sym e)) ∙ l.2,
  l.3,
  l.4,
  live-Links word live held tail p x v ps d.1 l.5,
)

pub held-Links :
    (word : ℕ → ℕ) (live held : ℕ → Bool) (tail a x : ℕ) (v : Bool) (ps : List ℕ)
    → IsApart x ps
    → Links word live held tail a ps
    → Links word live (with_value held x v) tail a ps
held-Links word live held tail a x v [] d l = l
held-Links word live held tail a x v (p ∷ ps) d l = (
  l.0,
  l.1,
  l.2,
  with_value-other held x v p (λ e. d.0 (sym e)) ∙ l.3,
  l.4,
  held-Links word live held tail p x v ps d.1 l.5,
)

-- A struct that is not allocated, or that a thread holds, is none of the tasks.
pub dead-IsApart :
    (word : ℕ → ℕ) (live held : ℕ → Bool) (tail a x : ℕ) (ps : List ℕ)
    → live x ≡ false
    → Links word live held tail a ps
    → IsApart x ps
dead-IsApart word live held tail a x [] e l = tt
dead-IsApart word live held tail a x (p ∷ ps) e l = (
  (λ s. let f = sym (l.2) ∙ ap live (sym s) ∙ e in cc),
  dead-IsApart word live held tail p x ps e l.5,
)

pub held-IsApart :
    (word : ℕ → ℕ) (live held : ℕ → Bool) (tail a x : ℕ) (ps : List ℕ)
    → held x ≡ true
    → Links word live held tail a ps
    → IsApart x ps
held-IsApart word live held tail a x [] e l = tt
held-IsApart word live held tail a x (p ∷ ps) e l =
    ((λ s. let f = sym e ∙ ap held s ∙ l.3 in cc), held-IsApart word live held tail p x ps e l.5)

-- The tail is the last of the structs.
pub tail-IsApart :
    (word : ℕ → ℕ) (live held : ℕ → Bool) (tail a x : ℕ) (ps : List ℕ)
    → ¬ (x ≡ a)
    → IsApart x ps
    → Links word live held tail a ps
    → ¬ (x ≡ tail)
tail-IsApart word live held tail a x [] n d l = λ e. n (e ∙ l.1)
tail-IsApart word live held tail a x (p ∷ ps) n d l =
    tail-IsApart word live held tail p x ps d.0 d.1 l.5

append-IsApart : (x p : ℕ) (ps : List ℕ) → IsApart x ps → ¬ (x ≡ p) → IsApart x (ps ++ (p ∷ []))
append-IsApart x p [] d n = (n, tt)
append-IsApart x p (y ∷ ys) d n = (d.0, append-IsApart x p ys d.1 n)

-- A new task behind the last one.
pub append-Links :
    (word : ℕ → ℕ) (live held : ℕ → Bool) (tail a p : ℕ) (ps : List ℕ)
    → 0 < p
    → live p ≡ true
    → held p ≡ false
    → ¬ (a ≡ p)
    → IsApart p ps
    → Links word live held tail a ps
    → Links (with_value (with_value word p 0) tail p) live held p a (ps ++ (p ∷ []))
append-Links word live held tail a p [] pos alive unheld n d l = (
  ap (λ x. with_value (with_value word p 0) tail p x) (sym l.1)
      ∙ with_value-same (with_value word p 0) tail p,
  pos,
  alive,
  unheld,
  (n, tt),
  (
    with_value-other (with_value word p 0) tail p p (λ e. n (sym (e ∙ l.1)))
        ∙ with_value-same word p 0,
    refl,
  ),
)
append-Links word live held tail a p (x ∷ ps) pos alive unheld n d l = (
  with_value-other (with_value word p 0) tail p a
        (tail-IsApart word live held tail x a ps l.4.0 l.4.1 l.5)
      ∙ with_value-other word p 0 a n
      ∙ l.0,
  l.1,
  l.2,
  l.3,
  append-IsApart a p (x ∷ ps) l.4 n,
  append-Links word live held tail x p ps pos alive unheld (λ e. d.0 (sym e)) d.1 l.5,
)

pub tail-live :
    (word : ℕ → ℕ) (live held : ℕ → Bool) (tail a : ℕ) (ps : List ℕ)
    → live a ≡ true
    → Links word live held tail a ps
    → live tail ≡ true
tail-live word live held tail a [] e l = ap live l.1 ∙ e
tail-live word live held tail a (p ∷ ps) e l = tail-live word live held tail p ps l.2 l.5
