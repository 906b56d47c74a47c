-- ===== src/Spsc/Threads/Tests.antt =====
-- Two threads on a ring of two slots.
use sequitur.Prelude.{ℕ, ◌≤◌, ◌≡◌, refl, [], ◌∷◌, ◌++◌, arith, length}
use sequitur.Ring.{IsCapacity, pow-IsCapacity}
use sequitur.Spsc
use sequitur.Spsc.Threads.{
  Threads, loaded, at, call, proceed, load_tail, skip, store, advance_tail, load_head, see_tail,
  copy, advance_head, create, Reach, start, later,
}
use sequitur.Spsc.Threads.Invariant.{in_queue}
use sequitur.Spsc.Threads.Safety.{in_order}

two_slots : IsCapacity 2
two_slots = pow-IsCapacity 1 (omega arith)

record Reached : Type 0 where
  pub state : Threads ℕ
  pub reached : Reach 2 (λ _. 0) state

-- 7 and 8 are pushed; the consumer takes 7 while the producer calls `push` with 9.
crossed : Reached
unfolding create Spsc.create
crossed = record {
  state = _;
  reached =
      let a0 = later start (call 7 refl) in
      let a1 = later a0 (proceed refl refl) in
      let a2 = later a1 (load_tail refl) in
      let a3 = later a2 (skip refl refl) in
      let b0 = later a3 (load_head refl) in
      let a4 = later b0 (store refl) in
      let a5 = later a4 (advance_tail refl) in
      let b1 = later a5 (see_tail refl) in
      let c0 = later b1 (call 8 refl) in
      let c1 = later c0 (proceed refl refl) in
      let c2 = later c1 (load_tail refl) in
      let b2 = later c2 (copy refl (λ e. omega (arith, e))) in
      let c3 = later b2 (skip refl refl) in
      let c4 = later c3 (store refl) in
      let c5 = later c4 (advance_tail refl) in
      let d0 = later c5 (call 9 refl) in
      let d1 = later d0 (proceed refl refl) in
      let b3 = later d1 (advance_head refl) in
      let b4 = later b3 (load_head refl) in later b4 (load_tail refl);
}

in_order_example :
    let s = crossed.state in
    (s.sent ≡ s.received ++ in_queue 2 s.queue) × (length (in_queue 2 s.queue) ≤ 2)
unfolding crossed create Spsc.create
in_order_example = in_order two_slots crossed.reached

crossed-parts :
    (crossed.state.received ≡ 7 ∷ [])
    × (in_queue 2 crossed.state.queue ≡ 8 ∷ [])
    × (crossed.state.producer ≡ loaded 9 2)
    × (crossed.state.consumer ≡ at 1)
unfolding crossed create Spsc.create
crossed-parts = (refl, refl, refl, refl)
