-- ===== src/Ring/History.antt =====
-- Any sequence of calls of the ring's API, against the bounded queue.
use linux.Common.{
  ℕ, suc, ◌-◌, ◌≤◌, ◌≡◌, refl, ap, ap₂, ◌∙◌, Option, some, List, [], ◌∷◌, ◌++◌, length, take, drop,
  ◌>>=◌,
}
use linux.Ring.State.{Behavior, fixed, variable, Ring}
use linux.Ring.Calls.{Done}
use linux.Ring.Api.{
  mp_enqueue_bulk, sp_enqueue_bulk, enqueue_bulk, mp_enqueue_burst, sp_enqueue_burst, enqueue_burst,
  mc_dequeue_bulk, sc_dequeue_bulk, dequeue_bulk, mc_dequeue_burst, sc_dequeue_burst, dequeue_burst,
}
use linux.Ring.Queue.{moved, front, rest}
use linux.Ring.Valid.{IsValid, contents}
use linux.Ring.Enqueue.{Enqueued, do_enqueue-Enqueued}
use linux.Ring.Dequeue.{Dequeued, do_dequeue-Dequeued}

-- Which version of a call: multi-user, single-user, or by the ring's own setting.
pub data Version : Type 0 where
  multi single default : Version

-- An enqueue or a dequeue with the caller's array and `n`.
pub data Call : Type 0 where
  enq : Version → Behavior → List ℕ → ℕ → Call
  deq : Version → Behavior → List ℕ → ℕ → Call

-- The function of the API that a call names.
unfoldable pub perform : ℕ → Ring → Call → Option Done
perform fuel r (enq multi fixed objs n) = mp_enqueue_bulk fuel r objs n
perform fuel r (enq multi variable objs n) = mp_enqueue_burst fuel r objs n
perform fuel r (enq single fixed objs n) = sp_enqueue_bulk fuel r objs n
perform fuel r (enq single variable objs n) = sp_enqueue_burst fuel r objs n
perform fuel r (enq default fixed objs n) = enqueue_bulk fuel r objs n
perform fuel r (enq default variable objs n) = enqueue_burst fuel r objs n
perform fuel r (deq multi fixed objs n) = mc_dequeue_bulk fuel r objs n
perform fuel r (deq multi variable objs n) = mc_dequeue_burst fuel r objs n
perform fuel r (deq single fixed objs n) = sc_dequeue_bulk fuel r objs n
perform fuel r (deq single variable objs n) = sc_dequeue_burst fuel r objs n
perform fuel r (deq default fixed objs n) = dequeue_bulk fuel r objs n
perform fuel r (deq default variable objs n) = dequeue_burst fuel r objs n

-- What a caller sees of a call: its return value and its array.
abbrev pub Seen : Type 0
Seen = ℕ × List ℕ

unfoldable pub run : ℕ → Ring → List Call → Option (List Seen × Ring)
run fuel r [] = some ([], r)
run fuel r (c ∷ cs) = do
  d ← perform fuel r c
  (seen, r') ← run fuel d.ring cs
  some ((d.count, d.objs) ∷ seen, r')

-- The same calls on a queue of at most `cap` objects.
unfoldable pub queue_step : ℕ → List ℕ → Call → Seen × List ℕ
queue_step cap q (enq w b objs n) =
    let k = moved b n (cap - length q) in ((k, objs), q ++ take k objs)
queue_step cap q (deq w b objs n) =
    let k = moved b n (length q) in ((k, front b n q ++ drop k objs), rest b n q)

unfoldable pub queue_run : ℕ → List ℕ → List Call → List Seen × List ℕ
queue_run cap q [] = ([], q)
queue_run cap q (c ∷ cs) =
    let (seen, q') = queue_step cap q c in
    let (later, q'') = queue_run cap q' cs in (seen ∷ later, q'')

-- The caller's array has room for `n`.
abbrev pub HasRoom : Call → Type 0
HasRoom (enq w b objs n) = n ≤ length objs
HasRoom (deq w b objs n) = n ≤ length objs

abbrev pub AllHaveRoom : List Call → Type 0
AllHaveRoom [] = Unit
AllHaveRoom (c ∷ cs) = HasRoom c × AllHaveRoom cs

-- One call, as the queue answers it.
pub record Answered (r : Ring) (c : Call) (out : Option Done) : Type 0 where
  pub done : Done
  pub returns : out ≡ some done
  pub valid : IsValid done.ring
  pub same_capacity : done.ring.capacity ≡ r.capacity
  pub answer : ((done.count, done.objs), contents done.ring) ≡ queue_step r.capacity (contents r) c

module _ {r : Ring} {objs : List ℕ} {n : ℕ} {b : Behavior} (w : Version) where
  Enqueued→Answered :
      {out : Option Done} → Enqueued r objs n b out → Answered r (enq w b objs n) out
  unfolding queue_step
  Enqueued→Answered e = record {
    done = e.done;
    returns = e.returns;
    valid = e.valid;
    same_capacity = e.same_capacity;
    answer = cc (e.count, e.queue, e.same_objs);
  }

  Dequeued→Answered :
      {out : Option Done} → Dequeued r objs n b out → Answered r (deq w b objs n) out
  unfolding queue_step
  Dequeued→Answered e = record {
    done = e.done;
    returns = e.returns;
    valid = e.valid;
    same_capacity = e.same_capacity;
    answer = cc (e.count, e.queue, e.objs_front);
  }

module _ (fuel : ℕ) where
  perform-Answered :
      {r : Ring} → IsValid r → (c : Call) → HasRoom c → Answered r c (perform (suc fuel) r c)
  unfolding perform mp_enqueue_bulk mp_enqueue_burst sp_enqueue_bulk sp_enqueue_burst enqueue_bulk
      enqueue_burst mc_dequeue_bulk mc_dequeue_burst sc_dequeue_bulk sc_dequeue_burst dequeue_bulk
      dequeue_burst
  perform-Answered v (enq multi fixed objs n) h =
      Enqueued→Answered multi (do_enqueue-Enqueued v objs n fixed 0 fuel h)
  perform-Answered v (enq multi variable objs n) h =
      Enqueued→Answered multi (do_enqueue-Enqueued v objs n variable 0 fuel h)
  perform-Answered v (enq single fixed objs n) h =
      Enqueued→Answered single (do_enqueue-Enqueued v objs n fixed 1 fuel h)
  perform-Answered v (enq single variable objs n) h =
      Enqueued→Answered single (do_enqueue-Enqueued v objs n variable 1 fuel h)
  perform-Answered {r} v (enq default fixed objs n) h =
      Enqueued→Answered default (do_enqueue-Enqueued v objs n fixed r.prod.single fuel h)
  perform-Answered {r} v (enq default variable objs n) h =
      Enqueued→Answered default (do_enqueue-Enqueued v objs n variable r.prod.single fuel h)
  perform-Answered v (deq multi fixed objs n) h =
      Dequeued→Answered multi (do_dequeue-Dequeued v objs n fixed 0 fuel h)
  perform-Answered v (deq multi variable objs n) h =
      Dequeued→Answered multi (do_dequeue-Dequeued v objs n variable 0 fuel h)
  perform-Answered v (deq single fixed objs n) h =
      Dequeued→Answered single (do_dequeue-Dequeued v objs n fixed 1 fuel h)
  perform-Answered v (deq single variable objs n) h =
      Dequeued→Answered single (do_dequeue-Dequeued v objs n variable 1 fuel h)
  perform-Answered {r} v (deq default fixed objs n) h =
      Dequeued→Answered default (do_dequeue-Dequeued v objs n fixed r.cons.single fuel h)
  perform-Answered {r} v (deq default variable objs n) h =
      Dequeued→Answered default (do_dequeue-Dequeued v objs n variable r.cons.single fuel h)

  run_refines_at :
      (cs : List Call) (r : Ring) (cap : ℕ) (q : List ℕ)
      → IsValid r
      → r.capacity ≡ cap
      → contents r ≡ q
      → AllHaveRoom cs
      → (r' : Ring) × (run (suc fuel) r cs ≡ some ((queue_run cap q cs).0, r'))
        × IsValid r'
        × (r'.capacity ≡ cap)
        × (contents r' ≡ (queue_run cap q cs).1)
  unfolding run queue_run
  run_refines_at [] r cap q v e₁ e₂ h = (r, refl, v, e₁, e₂)
  run_refines_at (c ∷ cs) r cap q v e₁ e₂ h =
      let a = perform-Answered v c h.0 in
      let answer : ((a.done.count, a.done.objs), contents a.done.ring) ≡ queue_step cap q c =
        a.answer ∙ ap₂ (λ x y. queue_step x y c) e₁ e₂ in
      let (r', e, v', cap', q') =
        run_refines_at cs a.done.ring cap (queue_step cap q c).1 a.valid (a.same_capacity ∙ e₁)
          (ap (λ t. t.1) answer) h.1 in
      (
        r',
        ap (λ o. o >>= λ d. run (suc fuel) d.ring cs >>= λ t. some ((d.count, d.objs) ∷ t.0, t.1))
              a.returns
            ∙ ap (λ o. o >>= λ t. some ((a.done.count, a.done.objs) ∷ t.0, t.1)) e
            ∙ ap (λ s. some (s ∷ (queue_run cap (queue_step cap q c).1 cs).0, r'))
                (ap (λ t. t.0) answer),
        v',
        cap',
        q',
      )

  -- On a quiescent ring, any sequence of bulk and burst calls whose arrays have room returns, with
  -- the counts and arrays that a FIFO of at most `capacity` objects gives, and leaves a quiescent
  -- ring of the same capacity that holds the FIFO's objects.
  pub run_refines :
      {r : Ring} (cs : List Call)
      → IsValid r
      → AllHaveRoom cs
      → (r' : Ring) × (run (suc fuel) r cs ≡ some ((queue_run r.capacity (contents r) cs).0, r'))
        × IsValid r'
        × (r'.capacity ≡ r.capacity)
        × (contents r' ≡ (queue_run r.capacity (contents r) cs).1)
  run_refines {r} cs v h = run_refines_at cs r r.capacity (contents r) v refl refl h
