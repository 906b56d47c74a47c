-- ===== src/Mpsc/Tests.antt =====
-- Runs of `MPSCQueue` with numbers for packets.
use sequitur.Prelude.{
  ℕ, zero, suc, ◌+◌, ◌%◌, ◌^◌, ◌≤◌, ◌<◌, ◌≡◌, refl, ◌≢◌, inl, inr, ◌↔◌, true, false, some, arith,
  word64, update, update_self, subst, sym, ◌∙◌,
}
use sequitur.Mpsc.{
  MpscQueue, capacity, is_behind, resting, entered, running, looping, waiting, System, Reach, start,
  later, produce, claim, write, publish, consume, advance, release, ProducerMove, call, proceed,
  load_tail, load_sequence, load_head, examine, copy, create, is_empty,
}
use sequitur.Mpsc.Invariant.{ticket, moving, IsPublished}
use sequitur.Mpsc.Reached.{Reach-Inv}
use sequitur.Mpsc.Progress.{Run, Reach-Run, push-Run, pop-Run}
use sequitur.Mpsc.Safety.{fifo, exclusive, full_lem, pop_finds}

abbrev blank : ℕ → ℕ
blank _ = 0

record Reached : Type 0 where
  pub state : System ℕ
  pub reached : Reach blank state

-- A new queue, on which producers 0 and 1 call `push` with 7 and 8, and claim a cell each.
abbrev both_claimed : Reached
unfolding create
both_claimed = record {
  state = _;
  reached =
      let a0 = later start (produce 0 (call {x = 7})) in
      let a1 = later a0 (produce 0 (proceed refl)) in
      let a2 = later a1 (produce 0 load_tail) in
      let a3 = later a2 (produce 0 load_sequence) in
      let a4 = later a3 (claim 0 refl refl refl) in
      let b0 = later a4 (produce 1 (call {x = 8})) in
      let b1 = later b0 (produce 1 (proceed refl)) in
      let b2 = later b1 (produce 1 load_tail) in
      let b3 = later b2 (produce 1 load_sequence) in later b3 (claim 1 refl refl refl);
}

-- Then producer 0 publishes its packet, and the consumer takes it.
abbrev first_taken : Reached
unfolding create
first_taken = record {
  state = _;
  reached =
      let w = later both_claimed.reached (write 0 refl) in
      let p = later w (publish 0 refl) in
      let c0 = later p (consume load_head) in
      let c1 = later c0 (consume examine) in
      let c2 = later c1 (advance refl refl) in
      let c3 = later c2 (consume copy) in later c3 (release refl);
}

first_taken-state :
    (first_taken.state.taken ≡ 1) × (first_taken.state.out 0 ≡ 7) × (first_taken.state.tickets ≡ 2)
unfolding create
first_taken-state = (refl, refl, refl)

fifo_example :
    (first_taken.state.taken ≤ first_taken.state.tickets)
    × (first_taken.state.tickets ≤ first_taken.state.taken + capacity)
    × ((j : ℕ) → j < first_taken.state.taken → first_taken.state.out j ≡ first_taken.state.log j)
fifo_example = fifo first_taken.reached (omega (arith, first_taken-state.2))

both_claimed-small : both_claimed.state.tickets + capacity < 2 ^ 63
unfolding create
both_claimed-small = omega arith

both_claimed-holds : ticket (both_claimed.state.producers 1) ≡ some 1
unfolding create
both_claimed-holds = refl

exclusive_example :
    ((j u : ℕ)
      → ticket (both_claimed.state.producers j) ≡ some u
      → 1 % capacity ≡ u % capacity
      → 1 ≡ j)
    × (moving both_claimed.state.consumer ≡ 1 → 1 % capacity ≢ both_claimed.state.taken % capacity)
exclusive_example = exclusive both_claimed.reached both_claimed-small 1 1 both_claimed-holds

-- Producer 0 is at its loop with the ticket after as many packets as there are cells.
record Filled (n : ℕ) : Type 0 where
  pub state : System ℕ
  pub reached : Reach blank state
  pub tickets : state.tickets ≡ n
  pub taken : state.taken ≡ 0
  pub idle : state.producers 0 ≡ resting
  pub going : state.queue.stop_flag ≡ false

fill : (n : ℕ) → n ≤ capacity → Filled n
unfolding create
fill zero room = record {
  state = create blank;
  reached = start;
  tickets = refl;
  taken = refl;
  idle = refl;
  going = refl;
}
fill (suc n) room =
    let f = fill n (omega arith) in
    let entering = update f.state.producers 0 (entered n) in
    let reached =
      later f.reached
        (produce 0 (subst (λ k. ProducerMove f.state.queue k (entered n)) (sym f.idle) call)) in
    let (t, run, idle, c, taken, going, others, more, l, done) =
      push-Run reached (omega (arith, f.tickets)) 0 (update_self f.state.producers 0 (entered n))
        f.going (omega (arith, f.tickets)) in
    record {
      state = t;
      reached = Reach-Run reached run;
      tickets = omega (arith, f.tickets);
      taken = taken ∙ f.taken;
      idle = idle;
      going = going;
    }

-- With every cell taken, producer 0 calls `push` once more and loads the tail.
record Refused : Type 0 where
  pub state : System ℕ
  pub ticket : ℕ
  pub reached : Reach blank state
  pub small : state.tickets + capacity < 2 ^ 63
  pub here : state.producers 0 ≡ looping 9 ticket
  pub behind : is_behind (state.queue.sequence (ticket % capacity)) ticket ≡ true

refused : Refused
refused =
    let f = fill capacity (omega arith) in
    let v = Reach-Inv f.reached (omega (arith, f.tickets)) in
    let full = v.tail ∙ f.tickets in
    let ps0 = update f.state.producers 0 (entered 9) in
    let ps1 = update ps0 0 (running 9) in
    let a =
      later f.reached
        (produce 0 (subst (λ k. ProducerMove f.state.queue k (entered 9)) (sym f.idle) call)) in
    let b = later a (
      produce 0 (
        subst (λ k. ProducerMove f.state.queue k (running 9))
          (sym (update_self f.state.producers 0 (entered 9))) (proceed f.going))) in
    let c = later b (
      produce 0 (
        subst (λ k. ProducerMove f.state.queue k (looping 9 f.state.queue.tail))
          (sym (update_self ps0 0 (running 9))) load_tail)) in
    record {
      state = _;
      ticket = f.state.queue.tail;
      reached = c;
      small = omega (arith, f.tickets);
      here = update_self ps1 0 (looping 9 f.state.queue.tail);
      behind =
          subst (λ k. is_behind (f.state.queue.sequence (k % capacity)) k ≡ true) (sym full)
            (elim (v.cells 0 (omega (arith, f.taken)) (omega (arith, f.taken))) [
              | inl free ↦ ground (arith, free)
              | inr g ↦ ground (arith, g.1)
            ]);
    }

full_lem_example :
    (refused.state.tickets ≡ refused.state.taken + capacity)
    × (refused.ticket ≡ refused.state.tickets)
full_lem_example = full_lem refused.reached refused.small 0 refused.here refused.behind

-- A new queue, whose consumer calls `pop`.
abbrev popping : Reached
unfolding create
popping = record { state = _; reached = later start (consume load_head) }

pop_finds_example :
    (popping.state.queue.sequence (0 % capacity) ≡ (0 + 1) % word64
      ↔ popping.state.taken < popping.state.tickets)
    × ((q : MpscQueue ℕ)
        → q.head ≡ popping.state.queue.head
        → (is_empty popping.state.queue q ≡ true ↔ popping.state.taken ≡ popping.state.tickets))
unfolding create
pop_finds_example = pop_finds popping.reached (omega arith) (λ i. refl) 0 refl

-- A new queue, on which producer 0 calls `push` with 7, and after it has published the packet.
abbrev one_called : Reached
unfolding create
one_called = record { state = _; reached = later start (produce 0 (call {x = 7})) }

abbrev one_published : Reached
unfolding create
one_published = record {
  state = _;
  reached =
      let a1 = later one_called.reached (produce 0 (proceed refl)) in
      let a2 = later a1 (produce 0 load_tail) in
      let a3 = later a2 (produce 0 load_sequence) in
      let a4 = later a3 (claim 0 refl refl refl) in
      later (later a4 (write 0 refl)) (publish 0 refl);
}

push-Run_example :
    let s = one_called.state in
    (t : System ℕ) × Run s t
    × (t.producers 0 ≡ resting)
    × (t.consumer ≡ s.consumer)
    × (t.taken ≡ s.taken)
    × (t.queue.stop_flag ≡ false)
    × ((j : ℕ) → j ≢ 0 → t.producers j ≡ s.producers j)
    × (t.tickets ≡ s.tickets + 1)
    × (t.log s.tickets ≡ 7)
    × IsPublished t s.tickets
unfolding create
push-Run_example = push-Run one_called.reached (omega arith) 0 refl refl (omega arith)

pop-Run_example :
    let s = one_published.state in
    (t : System ℕ) × Run s t
    × (t.consumer ≡ waiting)
    × ((j : ℕ) → t.producers j ≡ s.producers j)
    × (t.taken ≡ s.taken + 1)
    × (t.out s.taken ≡ s.log s.taken)
unfolding create
pop-Run_example = pop-Run one_published.reached (omega arith) refl (omega arith, refl, refl)
