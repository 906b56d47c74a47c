-- ===== src/Ingress/Invariant.antt =====
-- What holds of the ingress ring and its two threads in every state.
use sequitur.Prelude.{ℕ, ◌+◌, ◌-◌, ◌%◌, ◌≤◌, ◌<◌, ◌≡◌, List, [], ◌∷◌, ◌++◌}
use sequitur.Packets.{IngressPacket}
use sequitur.Core.{ring_size}
use sequitur.Egress.Span.{span}
use sequitur.Ingress.{
  Shared, Gateway, read_loaded, loaded, roomy, stored, Handler, polling, found, copied, answering,
  released, priced, order_in, Handled, Pipeline,
}

abbrev pub in_ring : Shared → List IngressPacket
in_ring m = span m.ingress_ring_buffer m.ingress_read_idx (m.ingress_write_idx - m.ingress_read_idx)

-- The packet whose slot is given back and whose report is still to come.
abbrev pub in_hand : Handler → List IngressPacket
in_hand (released k x y b) = y ∷ []
in_hand (priced k x y b price) = y ∷ []
in_hand _ = []

abbrev pub packets_of : List Handled → List IngressPacket
packets_of [] = []
packets_of (h ∷ hs) = h.seen ∷ packets_of hs

-- The packet that is submitted and whose slot is not given back yet.
abbrev pub in_engine : Handler → List IngressPacket
in_engine (answering k x y b) = y ∷ []
in_engine _ = []

-- The orders among some packets.
abbrev pub orders_in : List IngressPacket → List IngressPacket
orders_in [] = []
orders_in (p ∷ ps) = order_in p ++ orders_in ps

-- What was copied for the reports is of the packet that was read to submit it.
abbrev pub AgreeOnNames : List Handled → Type 0
AgreeOnNames [] = Unit {0}
AgreeOnNames (h ∷ hs) = (h.named ≡ h.seen) × AgreeOnNames hs

abbrev pub Sending : Shared → Gateway → Type 0
Sending m (read_loaded p r) = (r ≤ m.ingress_read_idx) × (m.ingress_write_idx ≤ r + ring_size)
Sending m (loaded p r w) =
    (r ≤ m.ingress_read_idx) × (w ≡ m.ingress_write_idx) × (w ≤ r + ring_size)
Sending m (roomy p w) = (w ≡ m.ingress_write_idx) × (w < m.ingress_read_idx + ring_size)
Sending m (stored p w) =
    (w ≡ m.ingress_write_idx)
    × (w < m.ingress_read_idx + ring_size)
    × (m.ingress_ring_buffer (w % ring_size) ≡ p)
Sending m _ = Unit {0}

-- The slot belongs to the core thread.
abbrev pub Owned : Shared → ℕ → Type 0
Owned m k = (k ≡ m.ingress_read_idx % ring_size) × (m.ingress_read_idx < m.ingress_write_idx)

abbrev pub Handling : Shared → Handler → Type 0
Handling m polling = Unit {0}
Handling m (found k) = Owned m k
Handling m (copied k x) = Owned m k × (m.ingress_ring_buffer k ≡ x)
Handling m (answering k x y b) =
    Owned m k × (m.ingress_ring_buffer k ≡ x) × (m.ingress_ring_buffer k ≡ y)
Handling m (released k x y b) = x ≡ y
Handling m (priced k x y b price) = x ≡ y

pub record Inv (s : Pipeline) : Type 0 where
  pub order :
      (s.shared.ingress_read_idx ≤ s.shared.ingress_write_idx)
      × (s.shared.ingress_write_idx ≤ s.shared.ingress_read_idx + ring_size)
  pub index : s.current_read ≡ s.shared.ingress_read_idx
  pub sending : Sending s.shared s.gateway
  pub handling : Handling s.shared s.handler
  pub flow : s.enqueued ≡ s.given_back ++ in_ring s.shared
  pub past : s.given_back ≡ packets_of s.handled ++ in_hand s.handler
  pub orders : s.submitted ≡ orders_in (s.given_back ++ in_engine s.handler)
  pub agree : AgreeOnNames s.handled
