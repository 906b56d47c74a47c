-- ===== src/Egress/Invariant.antt =====
-- What holds between the steps of the egress pipeline, until the signal.
use sequitur.Prelude.{◌+◌, ◌-◌, ◌%◌, ◌≤◌, ◌<◌, ◌≡◌, List, [], ◌∷◌, ◌++◌}
use sequitur.Packets.{EgressPacket}
use sequitur.Spsc.Refine.{Holds}
use sequitur.Core.{ring_size, egress_capacity}
use sequitur.Egress.{
  Publisher, polling, holding, looking, ready, stored, Gateway, idle, seen, copied, Pipeline,
}
use sequitur.Egress.Span.{span}

-- The packet that the publisher has taken and not yet made visible.
abbrev pub in_hand : Publisher → List EgressPacket
in_hand polling = []
in_hand (holding p) = p ∷ []
in_hand (looking p r) = p ∷ []
in_hand (ready p) = p ∷ []
in_hand (stored p) = p ∷ []

abbrev pub in_ring : Pipeline → List EgressPacket
in_ring s =
    span s.shared.egress_ring_buffer s.shared.egress_read_idx
      (s.current_write - s.shared.egress_read_idx)

-- What the locals of the publisher and of the gateway say about the ring.
abbrev pub Publishing : Pipeline → Publisher → Type 0
Publishing s (looking p r) = r ≤ s.shared.egress_read_idx
Publishing s (ready p) = s.current_write < s.shared.egress_read_idx + ring_size
Publishing s (stored p) =
    (s.current_write < s.shared.egress_read_idx + ring_size)
    × (s.shared.egress_ring_buffer (s.current_write % ring_size) ≡ p)
Publishing s _ = Unit {0}

abbrev pub Receiving : Pipeline → Gateway → Type 0
Receiving s idle = Unit {0}
Receiving s (seen r w) = (r ≡ s.shared.egress_read_idx) × (r ≤ w) × (w ≤ s.current_write)
Receiving s (copied r p) =
    (r ≡ s.shared.egress_read_idx)
    × (r < s.current_write)
    × (s.shared.egress_ring_buffer (r % ring_size) ≡ p)

pub record Inv (s : Pipeline) : Type 0 where
  pub queued : List EgressPacket
  pub queue : Holds egress_capacity s.egress_queue queued
  pub index : s.shared.egress_write_idx ≡ s.current_write
  pub order :
      (s.shared.egress_read_idx ≤ s.current_write)
      × (s.current_write ≤ s.shared.egress_read_idx + ring_size)
  pub publishing : Publishing s s.publisher
  pub receiving : Receiving s s.gateway
  pub flow : s.sent ≡ s.received ++ in_ring s ++ in_hand s.publisher ++ queued
