-- ===== src/Mpsc/Progress.antt =====
-- A thread that runs alone finishes its call.
use sequitur.Prelude.{
  ℕ, ◌+◌, ◌%◌, ◌^◌, ◌<◌, ◌≡◌, refl, ◌≢◌, inl, inr, false, arith, word64, update, update_self, subst,
  ap, sym, ◌∙◌,
}
use sequitur.Mpsc.{
  capacity, Producer, resting, entered, running, looping, compared, claimed, written, Consumer,
  waiting, System, Reach, later, Step, produce, claim, write, publish, consume, advance, release,
  ProducerMove, proceed, load_tail, load_sequence, ConsumerMove, load_head, examine, copy,
}
use sequitur.Mpsc.Invariant.{moving, IsPublished, Inv}
use sequitur.Mpsc.Reached.{Reach-Inv}

module _ {A : Type 0} where
  -- A run of any number of steps.
  pub data Run (s : System A) : System A → Type 0 where
    rest : Run s s
    step : {t u : System A} → Run s t → Step t u → Run s u

  pub Reach-Run : {blank : ℕ → A} {s t : System A} → Reach blank s → Run s t → Reach blank t
  Reach-Run r rest = r
  Reach-Run r (step run m) = later (Reach-Run r run) m

  module _ {blank : ℕ → A} {s : System A} (r : Reach blank s) where
    move :
        {t : System A} (i : ℕ) {p p' : Producer A}
        → Run s t
        → t.producers i ≡ p
        → ProducerMove t.queue p p'
        → Run s (record t { producers = update t.producers i p' })
    move {t} i {p} {p'} before e m =
        step before (produce i (subst (λ k. ProducerMove t.queue k p') (sym e) m))

    eat :
        {t : System A} {c c' : Consumer A}
        → Run s t
        → t.consumer ≡ c
        → ConsumerMove t.queue c c'
        → Run s (record t { consumer = c' })
    eat {t} {c} {c'} before e m =
        step before (consume (subst (λ k. ConsumerMove t.queue k c') (sym e) m))

    -- From every reachable state in which a producer has called `push`, the stop flag is down,
    -- fewer than `Capacity` packets are claimed and not yet returned, and the tickets handed out
    -- and `Capacity + 1` more stay below `2 ^ 63`, some steps that leave the consumer and the
    -- other producers where they are bring the producer to the end of its call, with its packet in
    -- the log as the next one and published.
    pub push-Run :
        s.tickets + 1 + capacity < 2 ^ 63
        → (i : ℕ) {x : A} → s.producers i ≡ entered x
        → s.queue.stop_flag ≡ false
        → s.tickets < s.taken + capacity
        → (t : System A) × Run s t
          × (t.producers i ≡ resting)
          × (t.consumer ≡ s.consumer)
          × (t.taken ≡ s.taken)
          × (t.queue.stop_flag ≡ false)
          × ((j : ℕ) → j ≢ i → t.producers j ≡ s.producers j)
          × (t.tickets ≡ s.tickets + 1)
          × (t.log s.tickets ≡ x)
          × IsPublished t s.tickets
    push-Run small i {x} e going room =
        let v = Reach-Inv r (omega (arith, small)) in
        let at_tail = s.queue.tail in
        let free : s.queue.sequence (at_tail % capacity) ≡ at_tail = tail_free v v.tail room in
        let ps1 = update s.producers i (running x) in
        let ps2 = update ps1 i (looping x at_tail) in
        let ps3 = update ps2 i (compared x at_tail (s.queue.sequence (at_tail % capacity))) in
        let ps4 = update ps3 i (claimed x at_tail) in
        let ps5 = update ps4 i (written x at_tail) in
        let run3 =
          move i
            (move i (move i rest e (proceed going)) (update_self s.producers i (running x))
              load_tail)
            (update_self ps1 i (looping x at_tail)) load_sequence in
        let run4 = step run3 (
          claim i (update_self ps2 i (compared x at_tail (s.queue.sequence (at_tail % capacity))))
            free refl) in
        let run5 = step run4 (write i (update_self ps3 i (claimed x at_tail))) in
        let run6 = step run5 (publish i (update_self ps4 i (written x at_tail))) in
        (
          _,
          run6,
          update_self ps5 i resting,
          refl,
          refl,
          going,
          λ j n. ground (arith, n),
          refl,
          update_self s.log s.tickets x,
          (omega arith, ground (arith, v.tail, small), ground (arith, v.tail)),
        )
      where
        tail_free :
            Inv s
            → s.queue.tail ≡ s.tickets
            → s.tickets < s.taken + capacity
            → s.queue.sequence (s.queue.tail % capacity) ≡ s.queue.tail
        tail_free v e room =
            subst (λ k. s.queue.sequence (k % capacity) ≡ k) (sym e)
              (elim (v.cells s.tickets (omega (arith, v.order)) room) [
                | inl free ↦ free
                | inr f ↦ absurd (omega (arith, f.0))
              ])

    -- From every reachable state in which the consumer is idle and the next packet to return is
    -- published, while the tickets handed out and `Capacity` more stay below `2 ^ 63`, some steps
    -- that leave the producers where they are bring the consumer to the end of a `pop` that
    -- returns this packet.
    pub pop-Run :
        s.tickets + capacity < 2 ^ 63
        → s.consumer ≡ waiting
        → IsPublished s s.taken
        → (t : System A) × Run s t
          × (t.consumer ≡ waiting)
          × ((j : ℕ) → t.producers j ≡ s.producers j)
          × (t.taken ≡ s.taken + 1)
          × (t.out s.taken ≡ s.log s.taken)
    pop-Run small e (more, seq, f) =
        let v = Reach-Inv r small in
        let still = ap moving e in
        let here : s.queue.head ≡ s.taken = omega (arith, v.head) in
        let cell : s.queue.sequence (s.queue.head % capacity) ≡ (s.queue.head + 1) % word64 =
          ap (λ k. s.queue.sequence (k % capacity)) here ∙ seq ∙ omega (arith, v.bound) in
        let run2 = eat (eat rest e load_head) refl examine in
        let run3 = step run2 (advance refl cell) in
        let run4 = step (eat run3 refl copy) (release refl) in
        (
          _,
          run4,
          refl,
          λ j. refl,
          refl,
          update_self s.out s.taken (s.queue.packets (s.queue.head % capacity))
              ∙ ap (λ k. s.queue.packets (k % capacity)) here
              ∙ f,
        )
