-- ===== src/Core/Reports.antt =====
-- What the packets that a round sends have to say.
use mathlib.Core.List.{map}
use sequitur.Prelude.{ℕ, suc, max, ◌≡◌, refl, true, List, [], ◌∷◌, arith, length, ap}
use sequitur.Market.{Trade}
use sequitur.Packets.{IngressPacket, EgressPacket, order_filled, order_accepted}
use sequitur.Core.{reports, accepted, fill}

-- One fill report for each trade, in order.
abbrev pub Told : IngressPacket → List Trade → List EgressPacket → Type 0
Told packet [] [] = Unit {0}
Told packet [] (p ∷ ps) = ⊥
Told packet (t ∷ ts) [] = ⊥
Told packet (t ∷ ts) (p ∷ ps) =
    (p.type ≡ order_filled)
    × (p.client_order_id ≡ packet.client_order_id)
    × ((p.maker_id ≡ t.maker_id) × (p.taker_id ≡ t.taker_id))
    × ((p.match_price ≡ t.price) × (p.match_quantity ≡ t.quantity))
    × Told packet ts ps

-- A packet of the given type with the order id and the side of `packet` and the price and the
-- quantity of `late`.
abbrev pub Echoes : ℕ → (packet late : IngressPacket) → EgressPacket → Type 0
Echoes type packet late p =
    (p.type ≡ type)
    × (p.client_order_id ≡ packet.client_order_id)
    × (p.side ≡ packet.side)
    × (p.match_price ≡ late.price)
    × (p.match_quantity ≡ late.quantity)

-- The reports on an order that made the trades `ts`.
abbrev pub Reported : (packet late : IngressPacket) → List Trade → List EgressPacket → Type 0
Reported packet late [] ps =
    (p : EgressPacket) × (ps ≡ p ∷ []) × Echoes order_accepted packet late p
Reported packet late (t ∷ ts) ps = Told packet (t ∷ ts) ps

map-Told : (packet : IngressPacket) (ts : List Trade) → Told packet ts (map (fill packet) ts)
unfolding fill
map-Told packet [] = tt
map-Told packet (t ∷ ts) = (refl, refl, (refl, refl), (refl, refl), map-Told packet ts)

pub reports-Reported :
    (packet late : IngressPacket) (ts : List Trade)
    → Reported packet late ts (reports packet late true ts)
unfolding reports accepted
reports-Reported packet late [] = (accepted packet late, refl, (refl, refl, refl, refl, refl))
reports-Reported packet late (t ∷ ts) = map-Told packet (t ∷ ts)

length-map : (packet : IngressPacket) (ts : List Trade) → length (map (fill packet) ts) ≡ length ts
length-map packet [] = refl
length-map packet (t ∷ ts) = ap suc (length-map packet ts)

pub length-reports :
    (packet late : IngressPacket) (ts : List Trade)
    → length (reports packet late true ts) ≡ max 1 (length ts)
unfolding reports
length-reports packet late [] = refl
length-reports packet late (t ∷ ts) = omega (arith, length-map packet ts)
