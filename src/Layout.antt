-- ===== src/Layout.antt =====
-- src/main.cpp, the shared memory: where its four indexes and the slots of its two rings lie, and how
-- large `IngressPacket` and `EgressPacket` are (include/sequitur/core), by the layout rules of a
-- standard-layout struct.
pub mod Places
mod Tests
use sequitur.Prelude.{ℕ, ◌+◌, ◌-◌, ◌*◌, ◌/◌, max, List, [], ◌∷◌}
use sequitur.Core.{ring_size}

-- A member: its size, which is its alignment too, or an array of bytes.
pub data Member : Type 0 where
  scalar : (size : ℕ) → Member
  bytes : (count : ℕ) → Member

abbrev pub align_up : ℕ → ℕ → ℕ
align_up offset alignment = (offset + (alignment - 1)) / alignment * alignment

-- The end of the last member, where the first begins at `offset`.
abbrev pub end_of : ℕ → List Member → ℕ
end_of offset [] = offset
end_of offset (scalar size ∷ ms) = end_of (align_up offset size + size) ms
end_of offset (bytes count ∷ ms) = end_of (offset + count) ms

-- `type`, `side`, `padding16`, `instrument_id`, `trader_id`, `quantity`, `price`, `client_order_id`
abbrev pub ingress_members : List Member
ingress_members =
    scalar 1 ∷ scalar 1 ∷ scalar 2 ∷ scalar 4 ∷ scalar 4 ∷ scalar 4 ∷ scalar 8 ∷ scalar 8 ∷ []

abbrev pub ingress_alignment : ℕ
ingress_alignment = 32

abbrev pub sizeof_ingress : ℕ
sizeof_ingress = align_up (end_of 0 ingress_members) ingress_alignment

-- `type`, `side`, `padding16`, `instrument_id`, `client_order_id`, `maker_id`, `taker_id`,
-- `match_price`, `match_quantity`, `leaves_quantity`, `padding`
abbrev pub egress_members : List Member
egress_members =
    scalar 1
    ∷ scalar 1
    ∷ scalar 2
    ∷ scalar 4
    ∷ scalar 8
    ∷ scalar 8
    ∷ scalar 8
    ∷ scalar 8
    ∷ scalar 4
    ∷ scalar 4
    ∷ bytes 16
    ∷ []

abbrev pub egress_alignment : ℕ
egress_alignment = 64

abbrev pub sizeof_egress : ℕ
sizeof_egress = align_up (end_of 0 egress_members) egress_alignment

abbrev pub ingress_ring_bytes : ℕ
ingress_ring_bytes = ring_size * sizeof_ingress

abbrev pub egress_ring_bytes : ℕ
egress_ring_bytes = ring_size * sizeof_egress

abbrev pub shm_size : ℕ
shm_size = 8 + 8 + 8 + 8 + ingress_ring_bytes + egress_ring_bytes

-- What the program accesses in the shared memory.
pub data Place : Type 0 where
  ingress_read_idx : Place
  ingress_write_idx : Place
  egress_read_idx : Place
  egress_write_idx : Place
  ingress_slot : (i : ℕ) → Place
  egress_slot : (i : ℕ) → Place

-- Its distance from `base_ptr`.
abbrev pub offset : Place → ℕ
offset ingress_read_idx = 0
offset ingress_write_idx = 8
offset egress_read_idx = 16
offset egress_write_idx = 24
offset (ingress_slot i) = 32 + i * sizeof_ingress
offset (egress_slot i) = 32 + ingress_ring_bytes + i * sizeof_egress

abbrev pub size : Place → ℕ
size (ingress_slot i) = sizeof_ingress
size (egress_slot i) = sizeof_egress
size _ = 8

abbrev pub alignment : Place → ℕ
alignment (ingress_slot i) = ingress_alignment
alignment (egress_slot i) = egress_alignment
alignment _ = 8
