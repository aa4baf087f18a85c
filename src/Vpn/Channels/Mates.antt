-- ===== src/Vpn/Channels/Mates.antt =====
-- Sockets that are each other's other end, and those that have none.
use linux.Common.{
  ℕ, ◌≡◌, refl, ap, sym, ◌∙◌, true, false, Option, none, some, List, [], ◌∷◌, ◌++◌, ◌==◌, arith,
}
use linux.Vpn.Channels.{put}

-- The sockets of two lists are each other's other end.
abbrev pub AreMates : (ℕ → Option ℕ) → List ℕ → List ℕ → Type 0
AreMates m_ptr [] [] = Unit
AreMates m_ptr (x ∷ xs) (y ∷ ys) = (m_ptr x ≡ some y) × ((m_ptr y ≡ some x) × AreMates m_ptr xs ys)
AreMates m_ptr [] (y ∷ ys) = ⊥
AreMates m_ptr (x ∷ xs) [] = ⊥

-- Sockets without another end.
abbrev pub AreAlone : (ℕ → Option ℕ) → List ℕ → Type 0
AreAlone m_ptr [] = Unit
AreAlone m_ptr (x ∷ xs) = (m_ptr x ≡ none) × AreAlone m_ptr xs

abbrev pub IsNotIn : ℕ → List ℕ → Type 0
IsNotIn x [] = Unit
IsNotIn x (y ∷ ys) = (¬ (x ≡ y)) × IsNotIn x ys

abbrev pub AreDistinct : List ℕ → Type 0
AreDistinct [] = Unit
AreDistinct (x ∷ xs) = IsNotIn x xs × AreDistinct xs

pub put-same : (m_ptr : ℕ → Option ℕ) (x p : ℕ) → put m_ptr x p x ≡ some p
unfolding put
put-same m_ptr x p = let same : (x == x) ≡ true = ground arith in rw same refl

pub put-other : (m_ptr : ℕ → Option ℕ) (x p y : ℕ) → ¬ (x ≡ y) → put m_ptr x p y ≡ m_ptr y
unfolding put
put-other m_ptr x p y n = let other : (y == x) ≡ false = ground (arith, n) in rw other refl

-- A socket that has another end is not one that has none.
pub put-kept :
    (m_ptr : ℕ → Option ℕ) (x p y q : ℕ)
    → m_ptr x ≡ none
    → m_ptr y ≡ some q
    → put m_ptr x p y ≡ some q
put-kept m_ptr x p y q none_x some_y =
    put-other m_ptr x p y (λ e. let f = sym none_x ∙ ap m_ptr e ∙ some_y in cc) ∙ some_y

pub put-AreMates :
    (m_ptr : ℕ → Option ℕ) (x p : ℕ) (xs ys : List ℕ)
    → m_ptr x ≡ none
    → AreMates m_ptr xs ys
    → AreMates (put m_ptr x p) xs ys
put-AreMates m_ptr x p [] [] e m = tt
put-AreMates m_ptr x p (a ∷ xs) (b ∷ ys) e m = (
  put-kept m_ptr x p a b e m.0,
  (put-kept m_ptr x p b a e m.1.0, put-AreMates m_ptr x p xs ys e m.1.1),
)
put-AreMates m_ptr x p [] (b ∷ ys) e m = absurd m
put-AreMates m_ptr x p (a ∷ xs) [] e m = absurd m

pub put-AreAlone :
    (m_ptr : ℕ → Option ℕ) (x p : ℕ) (xs : List ℕ)
    → IsNotIn x xs
    → AreAlone m_ptr xs
    → AreAlone (put m_ptr x p) xs
put-AreAlone m_ptr x p [] n a = tt
put-AreAlone m_ptr x p (y ∷ ys) n a =
    (put-other m_ptr x p y n.0 ∙ a.0, put-AreAlone m_ptr x p ys n.1 a.1)

pub append-AreMates :
    (m_ptr : ℕ → Option ℕ) (xs ys : List ℕ) (x y : ℕ)
    → AreMates m_ptr xs ys
    → m_ptr x ≡ some y
    → m_ptr y ≡ some x
    → AreMates m_ptr (xs ++ (x ∷ [])) (ys ++ (y ∷ []))
append-AreMates m_ptr [] [] x y m e f = (e, (f, tt))
append-AreMates m_ptr (a ∷ xs) (b ∷ ys) x y m e f =
    (m.0, (m.1.0, append-AreMates m_ptr xs ys x y m.1.1 e f))
append-AreMates m_ptr [] (b ∷ ys) x y m e f = absurd m
append-AreMates m_ptr (a ∷ xs) [] x y m e f = absurd m

pub swap-AreMates :
    (m_ptr : ℕ → Option ℕ) (xs ys : List ℕ) → AreMates m_ptr xs ys → AreMates m_ptr ys xs
swap-AreMates m_ptr [] [] m = tt
swap-AreMates m_ptr (a ∷ xs) (b ∷ ys) m = (m.1.0, (m.0, swap-AreMates m_ptr xs ys m.1.1))
swap-AreMates m_ptr [] (b ∷ ys) m = absurd m
swap-AreMates m_ptr (a ∷ xs) [] m = absurd m

pub append-AreAlone :
    (m_ptr : ℕ → Option ℕ) (xs : List ℕ) (x : ℕ)
    → AreAlone m_ptr xs
    → m_ptr x ≡ none
    → AreAlone m_ptr (xs ++ (x ∷ []))
append-AreAlone m_ptr [] x a e = (e, tt)
append-AreAlone m_ptr (y ∷ ys) x a e = (a.0, append-AreAlone m_ptr ys x a.1 e)

pub append-IsNotIn :
    (y : ℕ) (xs : List ℕ) (x : ℕ) → IsNotIn y xs → ¬ (y ≡ x) → IsNotIn y (xs ++ (x ∷ []))
append-IsNotIn y [] x n e = (e, tt)
append-IsNotIn y (a ∷ xs) x n e = (n.0, append-IsNotIn y xs x n.1 e)

pub append-AreDistinct :
    (xs : List ℕ) (x : ℕ) → AreDistinct xs → IsNotIn x xs → AreDistinct (xs ++ (x ∷ []))
append-AreDistinct [] x d n = (tt, tt)
append-AreDistinct (y ∷ ys) x d n =
    (append-IsNotIn y ys x d.0 (λ e. n.0 (sym e)), append-AreDistinct ys x d.1 n.1)

-- The pairs in order, the socket inside first.
abbrev pub weave : (inner outer : List ℕ) → List ℕ
weave (y ∷ ys) (x ∷ xs) = y ∷ x ∷ weave ys xs
weave [] xs = []
weave (y ∷ ys) [] = []

pub append-weave :
    (m_ptr : ℕ → Option ℕ) (ys xs : List ℕ) (y x : ℕ)
    → AreMates m_ptr ys xs
    → weave (ys ++ (y ∷ [])) (xs ++ (x ∷ [])) ≡ weave ys xs ++ (y ∷ x ∷ [])
append-weave m_ptr [] [] y x m = refl
append-weave m_ptr (b ∷ ys) (a ∷ xs) y x m =
    ap (λ r. b ∷ a ∷ r) (append-weave m_ptr ys xs y x m.1.1)
append-weave m_ptr [] (a ∷ xs) y x m = absurd m
append-weave m_ptr (b ∷ ys) [] y x m = absurd m
