-- ===== src/Ring/Dequeue.antt =====
-- Dequeueing from a quiescent ring takes from the front of its queue.
use linux.Common.{
  ℕ, suc, ◌+◌, ◌-◌, ◌≤◌, ◌≡◌, refl, sym, ap, ◌∙◌, Option, some, List, ◌++◌, arith, length, drop,
  bit_and, add32, sub32, ◌==◌, Bool-cases, ==_iff, inl, inr, false,
}
use linux.Ring.State.{Behavior, Ring}
use linux.Ring.Head.{refused, claimed, fit, move_cons_head}
use linux.Ring.Calls.{Done, do_dequeue}
use linux.Ring.Filled.{around, dequeue_ptrs-Drained}
use linux.Ring.Window.{entries, length-entries, entries-Drained, entries-drop}
use linux.Ring.Queue.{moved, front, rest, split_front}
use linux.Ring.Valid.{
  IsValid, used, contents, length-contents, masked-lt, masked_later, size_bounds,
}
use linux.Ring.Enqueue.{fit-eq-moved, fit-le, exchange_head-alone, update_tail-alone}

-- What a dequeue from `r` into `objs` leaves.
pub record Dequeued (r : Ring) (objs : List ℕ) (n : ℕ) (b : Behavior) (out : Option Done)
    : Type 0 where
  pub done : Done
  pub returns : out ≡ some done
  pub valid : IsValid done.ring
  pub same_capacity : done.ring.capacity ≡ r.capacity
  pub count : done.count ≡ moved b n (length (contents r))
  pub queue : contents done.ring ≡ rest b n (contents r)
  pub left : done.left ≡ length (contents done.ring)
  pub objs_front : done.objs ≡ front b n (contents r) ++ drop done.count objs

module _ {r : Ring} (v : IsValid r) (objs : List ℕ) (n : ℕ) (b : Behavior) (single fuel : ℕ) where
  abbrev k : ℕ
  k = fit b n (used r)

  stored : sub32 r.prod.tail r.cons.head ≡ used r
  stored = ap (λ x. sub32 r.prod.tail x) (sym v.cons_quiet)

  move_cons_head-refused :
      k ≡ 0 → move_cons_head (suc fuel) r single n b ≡ some (refused (used r), r)
  unfolding move_cons_head
  move_cons_head-refused e = rw stored (rw e)

  move_cons_head-claimed :
      (k == 0) ≡ false
      → move_cons_head (suc fuel) r single n b
        ≡ some (
          claimed k r.cons.head (add32 r.cons.head k) (used r),
          record r { cons = record r.cons { head = add32 r.cons.head k } },
        )
  unfolding move_cons_head
  move_cons_head-claimed e = rw stored (rw (e, exchange_head-alone))

  count_moved : k ≡ moved b n (length (contents r))
  count_moved = rw length-contents (fit-eq-moved b n (used r))

  refused-Dequeued : k ≡ 0 → Dequeued r objs n b (do_dequeue (suc fuel) r objs n b single)
  unfolding do_dequeue front rest
  refused-Dequeued e =
      let z = sym e ∙ count_moved in
      record {
        done = record { count = 0; left = sub32 (used r) 0; objs = objs; ring = r };
        returns = rw (move_cons_head-refused e);
        valid = v;
        same_capacity = refl;
        count = z;
        queue = rw (← z);
        left = omega (arith, v, length-contents r, size_bounds v);
        objs_front = rw (← z);
      }

  claimed-Dequeued :
      n ≤ length objs
      → (k == 0) ≡ false
      → Dequeued r objs n b (do_dequeue (suc fuel) r objs n b single)
  unfolding do_dequeue front rest
  claimed-Dequeued h e =
      let le = fit-le b n (used r) in
      let bounds = size_bounds v in
      let new = add32 r.cons.head k in
      let i = bit_and r.cons.tail r.mask in
      let same : bit_and r.cons.head r.mask ≡ i = ap (λ x. bit_and x r.mask) (sym v.cons_quiet) in
      let r' : Ring = record r { cons = record r.cons { head = new } } in
      let f = dequeue_ptrs-Drained {r = r'} {head = r.cons.head} {n = k} {objs = objs} (record {
        index = masked-lt v r.cons.head;
        small = omega (arith, bounds);
        claim = omega (arith, v, bounds, le);
        table = v.storage;
        array = omega (arith, le);
      }) in
      let r₂ : Ring = record r { cons = record r.cons { head = new; tail = new } } in
      let used₂ : used r₂ ≡ used r - k = omega (arith, v, bounds, le) in
      let start' : bit_and new r.mask ≡ around r.size (i + k) =
        masked_later v r.cons.head k (omega (arith, v, bounds, le))
        ∙ ap (λ x. around r.size (x + k)) same in
      let split : contents r ≡ entries r.size r.table i k ++ contents r₂ =
        entries-drop r.size i (used r) k r.table (masked-lt v r.cons.tail) (bit_and new r.mask)
          (omega (arith, v, bounds)) (omega (arith, le)) start'
        ∙ ap (λ m. entries r.size r.table i k ++ entries r.size r.table (bit_and new r.mask) m)
            (sym used₂) in
      let parts =
        split_front b n (contents r) (entries r.size r.table i k) (contents r₂) split
          (length-entries r.size r.table i k ∙ count_moved) in
      let read : f.result ≡ entries r.size r.table (bit_and r.cons.head r.mask) k ++ drop k objs =
        entries-Drained r.size (bit_and r.cons.head r.mask) (used r) k r.table
          (masked-lt v r.cons.head) objs (omega (arith, le)) f in
      record {
        done = record { count = k; left = sub32 (used r) k; objs = f.result; ring = r₂ };
        returns =
            rw (move_cons_head-claimed e)
              (rw (f.returns, update_tail-alone r'.cons r.cons.head new single v.cons_quiet));
        valid = record {
          order = v.order;
          order_small = v.order_small;
          size_pow = v.size_pow;
          mask_size = v.mask_size;
          capacity_size = v.capacity_size;
          storage = v.storage;
          prod_word = v.prod_word;
          cons_word = omega arith;
          prod_quiet = v.prod_quiet;
          cons_quiet = refl;
          used_le = omega (arith, v, used₂, le);
        };
        same_capacity = refl;
        count = count_moved;
        queue = parts.1;
        left = omega (arith, v, length-contents r₂, bounds, le);
        objs_front =
            read
            ∙ ap (λ x. entries r.size r.table x k ++ drop k objs) same
            ∙ ap (λ xs. xs ++ drop k objs) parts.0;
      }

  -- On a quiescent ring, a dequeue of `n` objects into an array of at least `n` returns within one
  -- round, for a single and for a shared consumer. It moves all `n` or, with fixed behaviour, none,
  -- where fewer are stored, and with variable behaviour as many as are stored; it returns that
  -- count and what is then stored; the oldest objects, in order, fill the front of the array, whose
  -- rest is kept; the ring stays quiescent, without those objects.
  pub do_dequeue-Dequeued :
      n ≤ length objs → Dequeued r objs n b (do_dequeue (suc fuel) r objs n b single)
  do_dequeue-Dequeued h = elim (Bool-cases (k == 0)) [
    | inl e ↦ refused-Dequeued ((==_iff k 0).0 e)
    | inr e ↦ claimed-Dequeued h e
  ]
