-- ===== src/RingBuffer/Threads/Produce.antt =====
-- The steps of the producer keep the invariant.
use sequitur.Prelude.{
  ℕ, suc, ◌+◌, ◌%◌, ◌<◌, ◌≡◌, ◌≢◌, false, [], ◌∷◌, ◌++◌, append_assoc, length-append, word64, arith,
  ap, sym, ◌∙◌, subst, ◌==◌, ne_of_test, update, update_self, update_ne,
}
use sequitur.Ring.{IsCapacity, distance, window, window-frame, window-last}
use sequitur.Spsc.Threads.Invariant.{tail-slot, head-ne-tail}
use sequitur.RingBuffer.Threads.{
  Producer, measured, roomy, stored, published, Consumer, waiting, at, seen, copied, moved, Threads,
}
use sequitur.RingBuffer.Threads.Invariant.{in_ring, owed_push, Producing, Consuming, Inv, next-slot}

module _ {A : Type 0} {c : ℕ} (w : IsCapacity c) {s : Threads A} (v : Inv c s) where
  -- A step that changes nothing shared.
  pub local-Inv :
      {p : Producer A}
      → owed_push p ≡ owed_push s.producer
      → Producing c s.ring p
      → Inv c (record s { producer = p })
  local-Inv e f = record {
    bounded = v.bounded;
    tail_in = v.tail_in;
    head_in = v.head_in;
    flow = v.flow;
    pushes = ap (λ n. (s.ring.push_count + n) % word64) e ∙ v.pushes;
    pops = v.pops;
    producing = f;
    consuming = v.consuming;
  }

  pub pass-Inv :
      {x : A} {t h : ℕ}
      → s.producer ≡ measured x t h
      → ((t + 1) % word64 % c == h % c) ≡ false
      → Inv c (record s { producer = roomy x t })
  pass-Inv {x} {t} {h} e test =
      let (here, h_in, older, fits) = subst (Producing c s.ring) e v.producing in
      let ne : distance t h + 1 ≢ c =
        λ k. ne_of_test _ _ test (next-slot t h w (omega (arith, here, v.tail_in)) h_in k) in
      local-Inv (ap owed_push (sym e)) (here, omega (arith, here, older, fits, ne))

  pub store-Inv :
      {x : A} {t : ℕ}
      → s.producer ≡ roomy x t
      → Inv c (record s {
        ring = record s.ring { buffer = update s.ring.buffer (t % c) x };
        producer = stored x t;
      })
  store-Inv {x} {t} e =
      let (here, room) = subst (Producing c s.ring) e v.producing in
      let q = s.ring in
      let at_tail = ap (λ k. k % c) here ∙ tail-slot q.tail q.head w v.tail_in v.head_in in
      record {
        bounded = v.bounded;
        tail_in = v.tail_in;
        head_in = v.head_in;
        flow =
            v.flow
            ∙ ap (λ l. s.received ++ l)
                (sym (
                  window-frame q.buffer x (distance q.tail q.head) q.head (t % c) w (omega arith)
                    at_tail));
        pushes = ap (λ p. (q.push_count + owed_push p) % word64) (sym e) ∙ v.pushes;
        pops = v.pops;
        producing = (here, room, update_self q.buffer (t % c) x);
        consuming = store-Consuming x t here s.consumer v.consuming;
      }
    where
      store-Consuming :
          (x : A) (t : ℕ)
          → t ≡ s.ring.tail
          → (d : Consumer A) → Consuming c s.ring d
          → Consuming c (record s.ring { buffer = update s.ring.buffer (t % c) x }) d
      store-Consuming x t here waiting f = tt
      store-Consuming x t here moved f = tt
      store-Consuming x t here (at h) f = f
      store-Consuming x t here (seen h k) f = f
      store-Consuming x t here (copied h y) (there, pos, f) =
          let ne =
            head-ne-tail s.ring.tail s.ring.head w v.tail_in v.head_in (omega (arith, there))
              v.bounded in
          let ne' : h % c ≢ t % c =
            λ k. ne (ap (λ j. j % c) (sym there) ∙ k ∙ ap (λ j. j % c) here) in
          (there, pos, update_ne s.ring.buffer (t % c) (h % c) x ne' ∙ f)

  pub advance_tail-Inv :
      {x : A} {t : ℕ}
      → s.producer ≡ stored x t
      → Inv c (record s {
        ring = record s.ring { tail = (t + 1) % word64 };
        producer = published;
        sent = s.sent ++ x ∷ [];
      })
  advance_tail-Inv {x} {t} e =
      let (here, room, there) = subst (Producing c s.ring) e v.producing in
      let q = s.ring in
      let small = w.small in
      let grown : distance ((t + 1) % word64) q.head ≡ suc (distance q.tail q.head) =
        omega (arith, v.tail_in, v.head_in) in
      let last : q.buffer ((q.head + distance q.tail q.head) % c) ≡ x =
        ap q.buffer
          (sym (tail-slot q.tail q.head w v.tail_in v.head_in) ∙ ap (λ k. k % c) (sym here))
        ∙ there in
      let before = ap (λ p. (q.push_count + owed_push p) % word64) (sym e) ∙ v.pushes in
      record {
        bounded = omega (arith, grown);
        tail_in = omega arith;
        head_in = v.head_in;
        flow =
            ap (λ l. l ++ x ∷ []) v.flow
            ∙ append_assoc s.received (in_ring c q) (x ∷ [])
            ∙ ap (λ l. s.received ++ l)
                (ap (λ y. in_ring c q ++ y ∷ []) (sym last)
                  ∙ sym (window-last q.buffer (distance q.tail q.head) q.head w)
                  ∙ ap (window c q.buffer q.head) (sym grown));
        pushes = omega (arith, before, length-append s.sent (x ∷ []));
        pops = v.pops;
        producing = tt;
        consuming = advance-Consuming t here room s.consumer v.consuming;
      }
    where
      advance-Consuming :
          (t : ℕ)
          → t ≡ s.ring.tail
          → distance s.ring.tail s.ring.head + 1 < c
          → (d : Consumer A) → Consuming c s.ring d
          → Consuming c (record s.ring { tail = (t + 1) % word64 }) d
      advance-Consuming t here room waiting f = tt
      advance-Consuming t here room moved f = tt
      advance-Consuming t here room (at h) f = f
      advance-Consuming t here room (seen h k) (there, k_in, f) =
          (there, k_in, omega (arith, v.tail_in, v.head_in, w.small))
      advance-Consuming t here room (copied h y) (there, pos, f) =
          (there, omega (arith, v.tail_in, v.head_in, w.small), f)
