-- ===== src/Layout/Places.antt =====
-- The places in shared memory do not overlap, and not all are aligned.
use sequitur.Prelude.{
  ℕ, ◌+◌, ◌-◌, ◌*◌, ◌%◌, ◌≤◌, ◌<◌, ◌≡◌, refl, ◌≢◌, ◌⊎◌, inl, inr, arith, ap, Bool, true, false, ltb,
  Bool-cases, sym, ◌∙◌, ◌==◌, ◌↔◌,
}
use sequitur.Core.{ring_size}
use sequitur.Layout.{
  Place, ingress_read_idx, ingress_write_idx, egress_read_idx, egress_write_idx, ingress_slot,
  egress_slot, shm_size, offset, size, alignment,
}

-- A slot is one of the ring.
abbrev pub IsPlace : Place → Type 0
IsPlace (ingress_slot i) = i < ring_size
IsPlace (egress_slot i) = i < ring_size
IsPlace _ = Unit {0}

-- The places, numbered from the base on.
abbrev rank : Place → ℕ
rank ingress_read_idx = 0
rank ingress_write_idx = 1
rank egress_read_idx = 2
rank egress_write_idx = 3
rank (ingress_slot i) = 4 + i
rank (egress_slot i) = 4 + ring_size + i

abbrev place_at : ℕ → Place
place_at n = elim (ltb n 4) [
  | true ↦ elim (n == 0) [
    | true ↦ ingress_read_idx
    | false ↦ elim (n == 1) [
      | true ↦ ingress_write_idx
      | false ↦ elim (n == 2) [ true ↦ egress_read_idx | false ↦ egress_write_idx ]
    ]
  ]
  | false ↦ elim (ltb n (4 + ring_size)) [
    | true ↦ ingress_slot (n - 4)
    | false ↦ egress_slot (n - (4 + ring_size))
  ]
]

place_at-rank : (p : Place) → IsPlace p → place_at (rank p) ≡ p
place_at-rank ingress_read_idx h = refl
place_at-rank ingress_write_idx h = refl
place_at-rank egress_read_idx h = refl
place_at-rank egress_write_idx h = refl
place_at-rank (ingress_slot i) h = ground arith
place_at-rank (egress_slot i) h = ground arith

-- Where the place of a rank begins.
abbrev starts : ℕ → ℕ
starts n = elim (ltb n (4)) [
  | true ↦ n * 8
  | false ↦ elim (ltb n (4 + ring_size)) [
    | true ↦ 32 + (n - 4) * 32
    | false ↦ 32 + ring_size * 32 + (n - (4 + ring_size)) * 64
  ]
]

starts-rank :
    (p : Place)
    → IsPlace p
    → (starts (rank p) ≡ offset p) × (starts (rank p + 1) ≡ offset p + size p)
starts-rank ingress_read_idx h = (refl, refl)
starts-rank ingress_write_idx h = (refl, refl)
starts-rank egress_read_idx h = (refl, refl)
starts-rank egress_write_idx h = (refl, refl)
starts-rank (ingress_slot i) h = (ground arith, ground arith)
starts-rank (egress_slot i) h = (ground arith, ground arith)

starts_mono : (m n : ℕ) → m ≤ n → starts m ≤ starts n
starts_mono m n h = ground arith

apart_of_ranks :
    (p q : Place) → IsPlace p → IsPlace q → rank p < rank q → offset p + size p ≤ offset q
apart_of_ranks p q h k lt =
    let at_p = starts-rank p h in
    let at_q = starts-rank q k in
    omega (arith, at_p.1, at_q.0, starts_mono (rank p + 1) (rank q) (omega arith))

rank_ne : (p q : Place) → IsPlace p → IsPlace q → p ≢ q → rank p ≢ rank q
rank_ne p q h k ne e = ne (sym (place_at-rank p h) ∙ ap place_at e ∙ place_at-rank q k)

inside : (p : Place) → IsPlace p → offset p + size p ≤ shm_size
inside ingress_read_idx h = omega arith
inside ingress_write_idx h = omega arith
inside egress_read_idx h = omega arith
inside egress_write_idx h = omega arith
inside (ingress_slot i) h = omega arith
inside (egress_slot i) h = omega arith

abbrev pub is_egress_slot : Place → Bool
is_egress_slot (egress_slot i) = true
is_egress_slot _ = false

is_aligned :
    (base : ℕ) (p : Place)
    → base % 4096 ≡ 0
    → ((base + offset p) % alignment p ≡ 0 ↔ is_egress_slot p ≡ false)
is_aligned base ingress_read_idx h = ((λ _. refl), (λ _. omega arith))
is_aligned base ingress_write_idx h = ((λ _. refl), (λ _. omega arith))
is_aligned base egress_read_idx h = ((λ _. refl), (λ _. omega arith))
is_aligned base egress_write_idx h = ((λ _. refl), (λ _. omega arith))
is_aligned base (ingress_slot i) h = ((λ _. refl), (λ _. omega arith))
is_aligned base (egress_slot i) h = ((λ e. absurd (omega (arith, e))), (λ e. cc))

-- In shared memory mapped at a multiple of the page size, 4096: let `p` and `q` be two different
-- places, among the four indexes and the slots below 65536 of the two rings. Then `p` lies within
-- the mapped size, `p` and `q` do not overlap, and the address of `p` is a multiple of its type's
-- alignment if and only if `p` is not a slot of the egress ring.
pub placed :
    (base : ℕ) (p q : Place)
    → base % 4096 ≡ 0
    → IsPlace p
    → IsPlace q
    → p ≢ q
    → (offset p + size p ≤ shm_size)
      × ((offset p + size p ≤ offset q) ⊎ (offset q + size q ≤ offset p))
      × ((base + offset p) % alignment p ≡ 0 ↔ is_egress_slot p ≡ false)
placed base p q page h k ne =
    let ranks = rank_ne p q h k ne in
    (
      inside p h,
      elim (Bool-cases (ltb (rank p) (rank q))) [
        | inl lt ↦ inl (apart_of_ranks p q h k (ground arith))
        | inr ge ↦ inr (apart_of_ranks q p k h (above (rank p) (rank q) ranks ge))
      ],
      is_aligned base p page,
    )
  where
    above : (m n : ℕ) → m ≢ n → ltb m n ≡ false → n < m
    above m n ne ge = ground arith
