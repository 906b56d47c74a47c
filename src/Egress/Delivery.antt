-- ===== src/Egress/Delivery.antt =====
-- What reaches the gateway.
use sequitur.Prelude.{ℕ, ◌+◌, ◌≤◌, ◌≡◌, refl, true, List, [], ◌++◌, arith, ap, sym, ◌∙◌}
use sequitur.Packets.{EgressPacket}
use sequitur.Ring.{pow-IsCapacity}
use sequitur.Spsc.Refine.{Holds, create-Holds}
use sequitur.Core.{ring_size, egress_capacity}
use sequitur.Egress.{
  Shared, Pipeline, Step, push, signal, pop, load, spin, give_up, enter, store, advance, look,
  none_there, copy, deliver, create, Reach, at_start, later,
}
use sequitur.Egress.Span.{span, span-zero}
use sequitur.Egress.Invariant.{in_hand, in_ring, Inv}
use sequitur.Egress.Moves.{push-Inv, pop-Inv, load-Inv, enter-Inv, store-Inv, advance-Inv}
use sequitur.Egress.Receive.{look-Inv, none_there-Inv, copy-Inv, deliver-Inv}

-- The signal is not taken back.
still_active : {s t : Pipeline} → Step s t → t.engine_active ≡ true → s.engine_active ≡ true
still_active (push p e) h = h
still_active signal h = cc
still_active (pop e f) h = h
still_active (load e) h = h
still_active (spin e f a) h = h
still_active (give_up e f a) h = h
still_active (enter e f) h = h
still_active (store e) h = h
still_active (advance e) h = h
still_active (look e) h = h
still_active (none_there e f) h = h
still_active (copy e f) h = h
still_active (deliver e) h = h

Step-Inv : {s t : Pipeline} → Step s t → t.engine_active ≡ true → Inv s → Inv t
Step-Inv (push p e) h v = push-Inv v p e
Step-Inv signal h v = cc
Step-Inv (pop e f) h v = pop-Inv v e f
Step-Inv (load e) h v = load-Inv v (ap in_hand e)
Step-Inv (spin e f a) h v = load-Inv v (ap in_hand e)
Step-Inv (give_up e f a) h v = absurd (cc (a, h))
Step-Inv (enter e f) h v = enter-Inv v e f
Step-Inv (store e) h v = store-Inv v e
Step-Inv (advance e) h v = advance-Inv v e
Step-Inv (look e) h v = look-Inv v
Step-Inv (none_there e f) h v = none_there-Inv v
Step-Inv (copy e f) h v = copy-Inv v e f
Step-Inv (deliver e) h v = deliver-Inv v e

module _ (slots : ℕ → EgressPacket) (shared : Shared)
    (read_up : shared.egress_read_idx ≡ shared.egress_write_idx) where
  create-Inv : Inv (create slots shared)
  unfolding create
  create-Inv = record {
    queued = [];
    queue = create-Holds (pow-IsCapacity 13 (omega arith)) slots;
    index = refl;
    order = omega arith;
    publishing = tt;
    receiving = tt;
    flow = sym (
        ap (λ l. l ++ [] ++ [])
          (ap (span shared.egress_ring_buffer shared.egress_read_idx) (omega arith)
            ∙ span-zero shared.egress_ring_buffer shared.egress_read_idx));
  }

  Reach-Inv : {s : Pipeline} → Reach (create slots shared) s → s.engine_active ≡ true → Inv s
  Reach-Inv at_start h = create-Inv
  Reach-Inv (later r m) h = Step-Inv m h (Reach-Inv r (still_active m h))

  -- Let the ring in shared memory be read up to its write index when the threads start. Then,
  -- along every interleaving of the core thread's pushes, the publisher and the gateway until the
  -- signal, at most 65536 packets are in the ring, and the packets that the core thread has pushed
  -- are, in this order, those that `Dequeue` has returned, those in the ring, the one that the
  -- publisher has in hand, and those in the egress queue: none is lost, doubled or overtaken.
  pub delivered :
      {s : Pipeline}
      → Reach (create slots shared) s
      → s.engine_active ≡ true
      → (s.shared.egress_read_idx ≤ s.shared.egress_write_idx)
        × (s.shared.egress_write_idx ≤ s.shared.egress_read_idx + ring_size)
        × ((queued : List EgressPacket) × Holds egress_capacity s.egress_queue queued
            × (s.sent ≡ s.received ++ in_ring s ++ in_hand s.publisher ++ queued))
  delivered r h =
      let v = Reach-Inv r h in
      (
        omega (arith, v.index, v.order),
        omega (arith, v.index, v.order),
        (v.queued, v.queue, v.flow),
      )
