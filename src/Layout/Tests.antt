-- ===== src/Layout/Tests.antt =====
-- The last slot of the ingress ring and the first of the egress ring.
use sequitur.Prelude.{◌+◌, ◌%◌, ◌≤◌, ◌≡◌, refl, ◌⊎◌, ◌↔◌, false, arith, ap, ◌≢◌}
use sequitur.Layout.{
  ingress_slot, egress_slot, shm_size, sizeof_ingress, sizeof_egress, offset, size, alignment,
}
use sequitur.Layout.Places.{is_egress_slot, placed}

sizes : (sizeof_ingress ≡ 32) × (sizeof_egress ≡ 64)
sizes = (refl, refl)

egress-ne-ingress : egress_slot 0 ≢ ingress_slot 65535
egress-ne-ingress e = cc (ap is_egress_slot e)

placed_example :
    let p = egress_slot 0 in
    let q = ingress_slot 65535 in
    (offset p + size p ≤ shm_size)
    × ((offset p + size p ≤ offset q) ⊎ (offset q + size q ≤ offset p))
    × ((8192 + offset p) % alignment p ≡ 0 ↔ is_egress_slot p ≡ false)
placed_example =
    placed 8192 (egress_slot 0) (ingress_slot 65535) (omega arith) (omega arith) (omega arith)
      egress-ne-ingress
