-- ===== src/RingBuffer/Threads/Tests.antt =====
-- Two threads on a ring of two slots.
use sequitur.Prelude.{ℕ, ◌+◌, ◌%◌, ◌<◌, ◌≡◌, refl, [], ◌∷◌, ◌++◌, arith, length, word64}
use sequitur.Ring.{IsCapacity, pow-IsCapacity}
use sequitur.RingBuffer
use sequitur.RingBuffer.Threads.{
  Threads, call, proceed, load_tail, see_head, pass, full, store, advance_tail, count_push,
  load_head, see_tail, copy, advance_head, create, Reach, start, later,
}
use sequitur.RingBuffer.Threads.Invariant.{in_ring, owed_push, owed_pop}
use sequitur.RingBuffer.Threads.Safety.{none_lost}

two_slots : IsCapacity 2
two_slots = pow-IsCapacity 1 (omega arith)

record Reached : Type 0 where
  state : Threads ℕ
  reached : Reach 2 (λ _. 0) state

-- 7 is pushed and popped, but the pop not counted yet, while the producer, which has seen the old
-- head, is about to count 8 as rejected.
crossed : Reached
unfolding create RingBuffer.create
crossed = record {
  state = _;
  reached =
      let a0 = later start (call 7 refl) in
      let a1 = later a0 (proceed refl refl) in
      let a2 = later a1 (load_tail refl) in
      let a3 = later a2 (see_head refl) in
      let a4 = later a3 (pass refl refl) in
      let b0 = later a4 (load_head refl) in
      let a5 = later b0 (store refl) in
      let a6 = later a5 (advance_tail refl) in
      let b1 = later a6 (see_tail refl) in
      let a7 = later b1 (count_push refl) in
      let c0 = later a7 (call 8 refl) in
      let c1 = later c0 (proceed refl refl) in
      let c2 = later c1 (load_tail refl) in
      let c3 = later c2 (see_head refl) in
      let b2 = later c3 (copy refl (λ e. omega (arith, e))) in
      let b3 = later b2 (advance_head refl) in later b3 (full refl refl);
}

none_lost_example :
    let s = crossed.state in
    (s.sent ≡ s.received ++ in_ring 2 s.ring)
    × (length (in_ring 2 s.ring) < 2)
    × ((s.ring.push_count + owed_push s.producer) % word64 ≡ length s.sent % word64)
    × ((s.ring.pop_count + owed_pop s.consumer) % word64 ≡ length s.received % word64)
none_lost_example = none_lost two_slots crossed.reached

crossed-parts :
    (crossed.state.received ≡ 7 ∷ [])
    × (in_ring 2 crossed.state.ring ≡ [])
    × (crossed.state.ring.push_count ≡ 1)
unfolding crossed create RingBuffer.create
crossed-parts = (refl, refl, refl)
