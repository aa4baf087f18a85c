-- ===== src/Ring/Enqueue.antt =====
-- Enqueueing on a quiescent ring appends to its queue.
use linux.Common.{
  ℕ, suc, ◌+◌, ◌-◌, ◌%◌, ◌≤◌, ◌≡◌, refl, sym, ap, ◌∙◌, Option, some, List, ◌++◌, arith, length,
  take, bit_and, add32, sub32, u32_mod, ◌==◌, Bool-cases, ==_iff, append-nil, inl, inr, true, false,
}
use linux.Ring.State.{Behavior, fixed, variable, HeadTail, Ring}
use linux.Ring.Head.{refused, claimed, fit, exchange_head, move_prod_head, update_tail}
use linux.Ring.Calls.{Done, do_enqueue}
use linux.Ring.Filled.{around, enqueue_ptrs-Filled}
use linux.Ring.Window.{entries, entries-Filled}
use linux.Ring.Queue.{moved}
use linux.Ring.Valid.{
  IsValid, used, contents, length-contents, masked-lt, masked_later, size_bounds,
}

-- The count that the heads' loops settle on is the one that the queue promises.
pub fit-eq-moved : (b : Behavior) (n avail : ℕ) → fit b n avail ≡ moved b n avail
unfolding fit moved
fit-eq-moved fixed n avail = ground arith
fit-eq-moved variable n avail = ground arith

pub fit-le : (b : Behavior) (n avail : ℕ) → (fit b n avail ≤ n) × (fit b n avail ≤ avail)
unfolding fit
fit-le fixed n avail = ground arith
fit-le variable n avail = ground arith

-- Alone, the exchange finds the head that it loaded.
pub exchange_head-alone :
    (ht : HeadTail) (single new_head : ℕ)
    → exchange_head ht single ht.head new_head ≡ (true, record ht { head = new_head })
unfolding exchange_head
exchange_head-alone ht single new_head = ground arith

-- Alone, a tail that stands at the old head moves on at once.
pub update_tail-alone :
    (ht : HeadTail) (old_val new_val single : ℕ)
    → ht.tail ≡ old_val
    → update_tail ht old_val new_val single ≡ some (record ht { tail = new_val })
unfolding update_tail
update_tail-alone ht old_val new_val single e = ground arith

-- What an enqueue on `r` leaves.
pub record Enqueued (r : Ring) (objs : List ℕ) (n : ℕ) (b : Behavior) (out : Option Done)
    : Type 0 where
  pub done : Done
  pub returns : out ≡ some done
  pub valid : IsValid done.ring
  pub same_capacity : done.ring.capacity ≡ r.capacity
  pub count : done.count ≡ moved b n (r.capacity - length (contents r))
  pub queue : contents done.ring ≡ contents r ++ take done.count objs
  pub left : done.left + length (contents done.ring) ≡ r.capacity
  pub same_objs : done.objs ≡ objs

module _ {r : Ring} (v : IsValid r) (objs : List ℕ) (n : ℕ) (b : Behavior) (single fuel : ℕ) where
  abbrev free : ℕ
  free = r.capacity - used r

  abbrev k : ℕ
  k = fit b n free

  free_entries : sub32 (add32 r.capacity r.cons.tail) r.prod.head ≡ free
  free_entries = omega (arith, v, size_bounds v)

  move_prod_head-refused : k ≡ 0 → move_prod_head (suc fuel) r single n b ≡ some (refused free, r)
  unfolding move_prod_head
  move_prod_head-refused e = rw free_entries (rw e)

  move_prod_head-claimed :
      (k == 0) ≡ false
      → move_prod_head (suc fuel) r single n b
        ≡ some (
          claimed k r.prod.head (add32 r.prod.head k) free,
          record r { prod = record r.prod { head = add32 r.prod.head k } },
        )
  unfolding move_prod_head
  move_prod_head-claimed e = rw free_entries (rw (e, exchange_head-alone))

  refused-Enqueued : k ≡ 0 → Enqueued r objs n b (do_enqueue (suc fuel) r objs n b single)
  unfolding do_enqueue
  refused-Enqueued e =
      let z : 0 ≡ moved b n (r.capacity - length (contents r)) =
        rw length-contents (sym e ∙ fit-eq-moved b n free) in
      record {
        done = record { count = 0; left = sub32 free 0; objs = objs; ring = r };
        returns = rw (move_prod_head-refused e);
        valid = v;
        same_capacity = refl;
        count = z;
        queue = sym (append-nil (contents r));
        left = omega (arith, v, length-contents r, size_bounds v);
        same_objs = refl;
      }

  claimed-Enqueued :
      n ≤ length objs
      → (k == 0) ≡ false
      → Enqueued r objs n b (do_enqueue (suc fuel) r objs n b single)
  unfolding do_enqueue
  claimed-Enqueued h e =
      let le = fit-le b n free in
      let bounds = size_bounds v in
      let new = add32 r.prod.head k in
      let r' : Ring = record r { prod = record r.prod { head = new } } in
      let f = enqueue_ptrs-Filled {r = r'} {head = r.prod.head} {n = k} {objs = objs} (record {
        index = masked-lt v r.prod.head;
        small = omega (arith, bounds);
        claim = omega (arith, v, bounds);
        table = v.storage;
        array = omega (arith, le);
      }) in
      let r₂ : Ring = record r {
        prod = record r.prod { head = new; tail = new };
        table = f.result;
      } in
      let place : (r.cons.tail + used r) % u32_mod ≡ r.prod.head = omega (arith, v, bounds) in
      let behind : bit_and r.prod.head r.mask
          ≡ around r.size (bit_and r.cons.tail r.mask + used r) =
        ap (λ x. bit_and x r.mask) (sym place)
        ∙ masked_later v r.cons.tail (used r) (omega (arith, v, bounds)) in
      let used₂ : used r₂ ≡ used r + k = omega (arith, v, bounds, le) in
      record {
        done = record { count = k; left = sub32 free k; objs = objs; ring = r₂ };
        returns =
            rw (move_prod_head-claimed e)
              (rw (f.returns, update_tail-alone r'.prod r.prod.head new single v.prod_quiet));
        valid = record {
          order = v.order;
          order_small = v.order_small;
          size_pow = v.size_pow;
          mask_size = v.mask_size;
          capacity_size = v.capacity_size;
          storage = omega (arith, v, f.same_length);
          prod_word = omega arith;
          cons_word = v.cons_word;
          prod_quiet = refl;
          cons_quiet = v.cons_quiet;
          used_le = omega (arith, v, used₂, le);
        };
        same_capacity = refl;
        count = rw length-contents (fit-eq-moved b n free);
        queue =
            ap (entries r.size f.result (bit_and r.cons.tail r.mask)) used₂
            ∙ entries-Filled r.size (bit_and r.cons.tail r.mask) (used r) k r.table
                (masked-lt v r.cons.tail) (bit_and r.prod.head r.mask) objs behind
                (omega (arith, v, bounds, le)) (omega (arith, le)) f;
        left = omega (arith, v, length-contents r₂, bounds, le);
        same_objs = refl;
      }

  -- On a quiescent ring, an enqueue of `n` objects from an array of at least `n` returns within one
  -- round, for a single and for a shared producer. It moves all `n` or, with fixed behaviour, none,
  -- where they do not fit, and with variable behaviour as many as fit; it returns that count and
  -- what is then free; the ring stays quiescent, with the objects appended in order.
  pub do_enqueue-Enqueued :
      n ≤ length objs → Enqueued r objs n b (do_enqueue (suc fuel) r objs n b single)
  do_enqueue-Enqueued h = elim (Bool-cases (k == 0)) [
    | inl e ↦ refused-Enqueued ((==_iff k 0).0 e)
    | inr e ↦ claimed-Enqueued h e
  ]
