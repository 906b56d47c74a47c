-- ===== src/RingBuffer/Threads/Consume.antt =====
-- The steps of the consumer keep the invariant.
use sequitur.Prelude.{
  ℕ, ◌<◌, ◌+◌, ◌-◌, ◌%◌, ◌≡◌, refl, ◌≢◌, [], ◌∷◌, ◌++◌, append_assoc, length-append, word64, arith,
  ap, sym, ◌∙◌, subst,
}
use sequitur.Ring.{IsCapacity, distance, window, window-suc}
use sequitur.RingBuffer.Threads.{
  Producer, resting, entered, live, loaded, measured, rejecting, roomy, stored, published, Consumer,
  seen, copied, moved, Threads,
}
use sequitur.RingBuffer.Threads.Invariant.{in_ring, owed_pop, Producing, Consuming, Inv}

module _ {A : Type 0} {c : ℕ} (w : IsCapacity c) {s : Threads A} (v : Inv c s) where
  -- A step that changes nothing shared.
  pub local-Inv :
      {d : Consumer A}
      → owed_pop d ≡ owed_pop s.consumer
      → Consuming c s.ring d
      → Inv c (record s { consumer = d })
  local-Inv e f = record {
    bounded = v.bounded;
    tail_in = v.tail_in;
    head_in = v.head_in;
    flow = v.flow;
    pushes = v.pushes;
    pops = ap (λ n. (s.ring.pop_count + n) % word64) e ∙ v.pops;
    producing = v.producing;
    consuming = f;
  }

  pub copy-Inv :
      {h t : ℕ}
      → s.consumer ≡ seen h t
      → h ≢ t
      → Inv c (record s { consumer = copied h (s.ring.buffer (h % c)) })
  copy-Inv {h} {t} e ne =
      let (here, t_in, f) = subst (Consuming c s.ring) e v.consuming in
      local-Inv (ap owed_pop (sym e)) (here, omega (arith, ne, v.head_in), refl)

  pub advance_head-Inv :
      {h : ℕ} {x : A}
      → s.consumer ≡ copied h x
      → Inv c (record s {
        ring = record s.ring { head = (h + 1) % word64 };
        consumer = moved;
        received = s.received ++ x ∷ [];
      })
  advance_head-Inv {h} {x} e =
      let (here, pos, f) = subst (Consuming c s.ring) e v.consuming in
      let q = s.ring in
      let small = w.small in
      let n = distance q.tail q.head in
      let fewer : distance q.tail ((h + 1) % word64) ≡ n - 1 =
        omega (arith, v.tail_in, v.head_in) in
      let first : in_ring c q ≡ x ∷ window c q.buffer ((h + 1) % word64) (n - 1) =
        window-suc c q.buffer q.head n (λ k. omega (arith, k, pos, here))
        ∙ ap (λ k. q.buffer (k % c) ∷ window c q.buffer ((k + 1) % word64) (n - 1)) (sym here)
        ∙ ap (λ y. y ∷ window c q.buffer ((h + 1) % word64) (n - 1)) f in
      let before = ap (λ d. (q.pop_count + owed_pop d) % word64) (sym e) ∙ v.pops in
      record {
        bounded = omega (arith, v.bounded, fewer);
        tail_in = v.tail_in;
        head_in = omega arith;
        flow =
            v.flow
            ∙ ap (λ l. s.received ++ l) first
            ∙ sym (append_assoc s.received (x ∷ []) (window c q.buffer ((h + 1) % word64) (n - 1)))
            ∙ ap (λ k. s.received ++ x ∷ [] ++ window c q.buffer ((h + 1) % word64) k) (sym fewer);
        pushes = v.pushes;
        pops = omega (arith, before, length-append s.received (x ∷ []));
        producing = advance-Producing h here pos s.producer v.producing;
        consuming = tt;
      }
    where
      advance-Producing :
          (h : ℕ)
          → h ≡ s.ring.head
          → 0 < distance s.ring.tail h
          → (p : Producer A) → Producing c s.ring p
          → Producing c (record s.ring { head = (h + 1) % word64 }) p
      advance-Producing h here pos resting f = tt
      advance-Producing h here pos (entered x) f = tt
      advance-Producing h here pos (live x) f = tt
      advance-Producing h here pos rejecting f = tt
      advance-Producing h here pos published f = tt
      advance-Producing h here pos (loaded x t) f = f
      advance-Producing h here pos (measured x t k) (there, k_in, older, fits) =
          (there, k_in, omega (arith, v.tail_in, v.head_in), fits)
      advance-Producing h here pos (roomy x t) (there, room) =
          (there, omega (arith, v.tail_in, v.head_in))
      advance-Producing h here pos (stored x t) (there, room, f) =
          (there, omega (arith, v.tail_in, v.head_in), f)
