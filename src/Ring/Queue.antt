-- ===== src/Ring/Queue.antt =====
-- What a ring promises: a FIFO of bounded length, oldest object first.
use linux.Common.{
  ℕ, ◌-◌, ◌≡◌, refl, List, ◌++◌, leb, if◌then◌else◌, min, length, take, drop, append_eq_take,
  append_eq_drop,
}
use linux.Ring.State.{Behavior, fixed, variable}

-- How many of `n` objects a call moves where `room` could be moved.
unfoldable pub moved : Behavior → ℕ → ℕ → ℕ
moved fixed n room = if leb n room then n else 0
moved variable n room = min n room

-- The number of objects that go in, and the queue afterwards.
unfoldable pub put : ℕ → Behavior → List ℕ → ℕ → List ℕ → List ℕ
put cap b objs n q = q ++ take (moved b n (cap - length q)) objs

-- What comes out, and what stays.
unfoldable pub front : Behavior → ℕ → List ℕ → List ℕ
front b n q = take (moved b n (length q)) q

unfoldable pub rest : Behavior → ℕ → List ℕ → List ℕ
rest b n q = drop (moved b n (length q)) q

-- A queue that is split behind the objects that come out.
pub split_front :
    (b : Behavior) (n : ℕ) (q xs ys : List ℕ)
    → q ≡ xs ++ ys
    → length xs ≡ moved b n (length q)
    → (xs ≡ front b n q) × (ys ≡ rest b n q)
unfolding front rest
split_front b n q xs ys e l = (
  rw (← l, e, append_eq_take (length xs) xs ys refl),
  rw (← l, e, append_eq_drop (length xs) xs ys refl),
)
