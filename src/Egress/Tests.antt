-- ===== src/Egress/Tests.antt =====
-- One packet goes through the egress pipeline, on a ring whose indexes stand at 65535.
use sequitur.Prelude.{◌+◌, ◌≤◌, ◌≡◌, refl, List, ◌++◌}
use sequitur.Packets.{EgressPacket, order_accepted}
use sequitur.Spsc
use sequitur.Spsc.Refine.{Holds}
use sequitur.Core.{ring_size, egress_capacity}
use sequitur.Egress.{
  Shared, Pipeline, push, pop, load, enter, store, advance, create, Reach, at_start, later,
}
use sequitur.Egress.Invariant.{in_hand, in_ring}
use sequitur.Egress.Delivery.{delivered}

abbrev blank_packet : EgressPacket
blank_packet = record {
  type = 0;
  side = 0;
  instrument_id = 0;
  client_order_id = 0;
  maker_id = 0;
  taker_id = 0;
  match_price = 0;
  match_quantity = 0;
  leaves_quantity = 0;
}

abbrev packet : EgressPacket
packet = record blank_packet { type = order_accepted; client_order_id = 7 }

abbrev memory : Shared
memory = record {
  egress_read_idx = 65535;
  egress_write_idx = 65535;
  egress_ring_buffer = λ _. blank_packet;
}

record Reached : Type 0 where
  pub state : Pipeline
  pub reached : Reach (create (λ _. blank_packet) memory) state

published : Reached
unfolding create Spsc.create Spsc.push Spsc.publish Spsc.pop
published = record {
  state = _;
  reached =
      let a = later at_start (push packet refl) in
      let b = later a (pop refl refl) in
      let c = later b (load refl) in
      let d = later c (enter refl refl) in let e = later d (store refl) in later e (advance refl);
}

delivered_example :
    let s = published.state in
    (s.shared.egress_read_idx ≤ s.shared.egress_write_idx)
    × (s.shared.egress_write_idx ≤ s.shared.egress_read_idx + ring_size)
    × ((queued : List EgressPacket) × Holds egress_capacity s.egress_queue queued
        × (s.sent ≡ s.received ++ in_ring s ++ in_hand s.publisher ++ queued))
unfolding create published
delivered_example = delivered (λ _. blank_packet) memory refl published.reached refl
