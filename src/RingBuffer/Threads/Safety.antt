-- ===== src/RingBuffer/Threads/Safety.antt =====
-- What the ring promises its two threads.
use sequitur.Prelude.{
  ℕ, ◌+◌, ◌%◌, ◌<◌, ◌≡◌, refl, true, ◌++◌, arith, ap, sym, ◌∙◌, subst, length, word64,
}
use sequitur.Ring.{IsCapacity, distance, length-window}
use sequitur.RingBuffer.Threads.{
  resting, rejecting, published, waiting, moved, Threads, Step, call, stopped, proceed, load_tail,
  see_head, full, count_reject, pass, store, advance_tail, count_push, load_head, see_tail,
  none_there, copy, advance_head, count_pop, shutdown, Reach, start, later,
}
use sequitur.RingBuffer.Threads.Invariant.{
  in_ring, owed_push, owed_pop, Producing, Consuming, Inv, create-Inv, aside-Inv,
}
use sequitur.RingBuffer.Threads.Produce.{pass-Inv, store-Inv, advance_tail-Inv}
use sequitur.RingBuffer.Threads.Produce
use sequitur.RingBuffer.Threads.Consume.{copy-Inv, advance_head-Inv}
use sequitur.RingBuffer.Threads.Consume

module _ {A : Type 0} {c : ℕ} {s : Threads A} (v : Inv c s) where
  count_reject-Inv :
      s.producer ≡ rejecting
      → Inv c (record s {
        ring = record s.ring { push_rejects = (s.ring.push_rejects + 1) % word64 };
        producer = resting;
      })
  count_reject-Inv e =
      let q = s.ring in
      aside-Inv v q.stop_flag q.push_count ((q.push_rejects + 1) % word64) q.pop_count resting
        s.consumer tt v.consuming
        (ap (λ p. (q.push_count + owed_push p) % word64) (sym e) ∙ v.pushes) v.pops

  count_push-Inv :
      s.producer ≡ published
      → Inv c (record s {
        ring = record s.ring { push_count = (s.ring.push_count + 1) % word64 };
        producer = resting;
      })
  count_push-Inv e =
      let q = s.ring in
      let before = ap (λ p. (q.push_count + owed_push p) % word64) (sym e) ∙ v.pushes in
      aside-Inv v q.stop_flag ((q.push_count + 1) % word64) q.push_rejects q.pop_count resting
        s.consumer tt v.consuming (omega (arith, before)) v.pops

  count_pop-Inv :
      s.consumer ≡ moved
      → Inv c (record s {
        ring = record s.ring { pop_count = (s.ring.pop_count + 1) % word64 };
        consumer = waiting;
      })
  count_pop-Inv e =
      let q = s.ring in
      let before = ap (λ d. (q.pop_count + owed_pop d) % word64) (sym e) ∙ v.pops in
      aside-Inv v q.stop_flag q.push_count q.push_rejects ((q.pop_count + 1) % word64) s.producer
        waiting v.producing tt v.pushes (omega (arith, before))

  shutdown-Inv : Inv c (record s { ring = record s.ring { stop_flag = true } })
  shutdown-Inv =
      let q = s.ring in
      aside-Inv v true q.push_count q.push_rejects q.pop_count s.producer s.consumer v.producing
        v.consuming v.pushes v.pops

module _ {A : Type 0} {c : ℕ} (w : IsCapacity c) where
  Step-Inv : {s t : Threads A} → Step c s t → Inv c s → Inv c t
  Step-Inv (call x e) v = Produce.local-Inv w v (ap owed_push (sym e)) tt
  Step-Inv (stopped e f) v = Produce.local-Inv w v (ap owed_push (sym e)) tt
  Step-Inv (proceed e f) v = Produce.local-Inv w v (ap owed_push (sym e)) tt
  Step-Inv (load_tail e) v = Produce.local-Inv w v (ap owed_push (sym e)) refl
  Step-Inv {s} (see_head e) v =
      let here = subst (Producing c s.ring) e v.producing in
      Produce.local-Inv w v (ap owed_push (sym e))
        (here, v.head_in, omega arith, omega (arith, here, v.bounded))
  Step-Inv (full e f) v = Produce.local-Inv w v (ap owed_push (sym e)) tt
  Step-Inv (count_reject e) v = count_reject-Inv v e
  Step-Inv (pass e f) v = pass-Inv w v e f
  Step-Inv (store e) v = store-Inv w v e
  Step-Inv (advance_tail e) v = advance_tail-Inv w v e
  Step-Inv (count_push e) v = count_push-Inv v e
  Step-Inv (load_head e) v = Consume.local-Inv w v (ap owed_pop (sym e)) refl
  Step-Inv {s} (see_tail e) v =
      Consume.local-Inv w v (ap owed_pop (sym e))
        (subst (Consuming c s.ring) e v.consuming, v.tail_in, omega arith)
  Step-Inv (none_there e f) v = Consume.local-Inv w v (ap owed_pop (sym e)) tt
  Step-Inv (copy e f) v = copy-Inv w v e f
  Step-Inv (advance_head e) v = advance_head-Inv w v e
  Step-Inv (count_pop e) v = count_pop-Inv v e
  Step-Inv shutdown v = shutdown-Inv v

  Reach-Inv : {slots : ℕ → A} {s : Threads A} → Reach c slots s → Inv c s
  Reach-Inv {slots} start = create-Inv c w slots
  Reach-Inv (later r m) = Step-Inv m (Reach-Inv r)

  -- Along every interleaving of the producer, the consumer and `shutdown` on a ring of a positive
  -- capacity below 2^64 that divides 2^64, however often the cursors wrap: the items with which
  -- `push` has advanced the tail are, in their order, those with which `pop` has advanced the head
  -- and then those between the two cursors, which are fewer than the capacity. The two counters,
  -- with the addition that a thread still owes, are the numbers of those items, modulo 2^64.
  pub none_lost :
      {slots : ℕ → A} {s : Threads A}
      → Reach c slots s
      → (s.sent ≡ s.received ++ in_ring c s.ring)
        × (length (in_ring c s.ring) < c)
        × ((s.ring.push_count + owed_push s.producer) % word64 ≡ length s.sent % word64)
        × ((s.ring.pop_count + owed_pop s.consumer) % word64 ≡ length s.received % word64)
  none_lost {slots} {s} r =
      let v = Reach-Inv r in
      let q = s.ring in
      (
        v.flow,
        omega (arith, v.bounded, length-window c q.buffer q.head (distance q.tail q.head)),
        v.pushes,
        v.pops,
      )
