-- ===== src/Ring/Window.antt =====
-- The objects that stand in a stretch of the table, and what a copy does to them.
use linux.Common.{
  ℕ, zero, suc, ◌+◌, ◌-◌, ◌≤◌, ◌<◌, ◌≡◌, refl, sym, ap, ◌∙◌, List, [], ◌∷◌, ◌++◌, arith, length,
  take, drop, get_or, append_ext, length-take, length-drop, get_or-take, get_or-drop, Option,
}
use linux.Ring.Filled.{around, Filled, Drained}

-- The `n` entries of the table from index `start` on, in order.
unfoldable pub entries : ℕ → List ℕ → ℕ → ℕ → List ℕ
entries size table start zero = []
entries size table start (suc n) =
    get_or table (around size start) 0 ∷ entries size table (start + 1) n

pub length-entries :
    (size : ℕ) (table : List ℕ) (start n : ℕ) → length (entries size table start n) ≡ n
unfolding entries
length-entries size table start zero = refl
length-entries size table start (suc n) = ap suc (length-entries size table (start + 1) n)

pub get_or-entries :
    (size : ℕ) (table : List ℕ) (start n i : ℕ)
    → i < n
    → get_or (entries size table start n) i 0 ≡ get_or table (around size (start + i)) 0
unfolding entries
get_or-entries size table start zero i h = absurd (omega arith)
get_or-entries size table start (suc n) zero h = let e : start + 0 ≡ start = omega arith in rw e
get_or-entries size table start (suc n) (suc i) h =
    let e : start + suc i ≡ start + 1 + i = omega arith in
    rw e (get_or-entries size table (start + 1) n i (omega arith))

module _ (size start used n : ℕ) (table : List ℕ) (start_in : start < size) where
  -- Writing behind the stored objects appends what was written.
  pub entries-Filled :
      (idx : ℕ) (objs : List ℕ) {out : Option (List ℕ)}
      → idx ≡ around size (start + used)
      → used + n < size
      → n ≤ length objs
      → (f : Filled size idx n objs table out)
      → entries size f.result start (used + n) ≡ entries size table start used ++ take n objs
  entries-Filled idx objs e room h f =
      append_ext 0 (entries size f.result start (used + n)) (entries size table start used)
        (take n objs) used (length-entries size table start used)
        (omega (arith, length-entries size f.result start (used + n), length-take n objs))
        (λ i p.
          get_or-entries size f.result start (used + n) i (omega arith)
          ∙ f.outside (around size (start + i)) (λ k t. ground arith)
          ∙ sym (get_or-entries size table start used i p))
        λ i p.
          let i<n : i < n = omega (arith, length-take n objs) in
          let same : around size (start + (used + i)) ≡ around size (idx + i) = ground arith in
          get_or-entries size f.result start (used + n) (used + i) (omega arith)
          ∙ ap (λ k. get_or f.result k 0) same
          ∙ f.inside i i<n
          ∙ sym (get_or-take n objs i 0 i<n)

  -- Reading from the front takes the oldest objects.
  pub entries-Drained :
      (objs : List ℕ) {out : Option (List ℕ)}
      → n ≤ length objs
      → (f : Drained size start n objs table out)
      → f.result ≡ entries size table start n ++ drop n objs
  entries-Drained objs p f =
      append_ext 0 f.result (entries size table start n) (drop n objs) n
        (length-entries size table start n) (omega (arith, f.same_length, length-drop n objs))
        (λ i q. f.inside i q ∙ sym (get_or-entries size table start n i q))
        λ i q. f.outside (n + i) (omega arith) ∙ sym (get_or-drop n objs i 0)

  -- What is left behind the front.
  pub entries-drop :
      (start' : ℕ)
      → used < size
      → n ≤ used
      → start' ≡ around size (start + n)
      → entries size table start used
        ≡ entries size table start n ++ entries size table start' (used - n)
  entries-drop start' h p e =
      append_ext 0 (entries size table start used) (entries size table start n)
        (entries size table start' (used - n)) n (length-entries size table start n)
        (omega (
          arith,
          length-entries size table start used,
          length-entries size table start' (used - n),
        ))
        (λ i q.
          get_or-entries size table start used i (omega arith)
          ∙ sym (get_or-entries size table start n i q))
        λ i q.
          let i<rest : i < used - n = omega (arith, length-entries size table start' (used - n)) in
          let same : around size (start + (n + i)) ≡ around size (start' + i) = ground arith in
          get_or-entries size table start used (n + i) (omega arith)
          ∙ ap (λ k. get_or table k 0) same
          ∙ sym (get_or-entries size table start' (used - n) i i<rest)
