-- ===== src/Spsc/Threads/Produce.antt =====
-- The steps of the producer keep the invariant.
use sequitur.Prelude.{
  ℕ, suc, ◌+◌, ◌%◌, ◌<◌, ◌≡◌, ◌≢◌, false, [], ◌∷◌, ◌++◌, append_assoc, word64, arith, ap, sym, ◌∙◌,
  subst, leb, leb-lt, update, update_self, update_ne,
}
use sequitur.Ring.{IsCapacity, distance, window, window-frame, window-last}
use sequitur.Spsc.Threads.{
  Producer, resting, loaded, synced, roomy, stored, Consumer, waiting, at, seen, copied, Threads,
}
use sequitur.Spsc.Threads.Invariant.{in_queue, Producing, Consuming, Inv, tail-slot, head-ne-tail}

module _ {A : Type 0} {c : ℕ} (w : IsCapacity c) {s : Threads A} (v : Inv c s) where
  -- A step that changes nothing shared.
  pub local-Inv : {p : Producer A} → Producing c s.queue p → Inv c (record s { producer = p })
  local-Inv f = record {
    bounded = v.bounded;
    behind = v.behind;
    tail_in = v.tail_in;
    head_in = v.head_in;
    cached_in = v.cached_in;
    flow = v.flow;
    producing = f;
    consuming = v.consuming;
  }

  pub skip-Inv :
      {x : A} {t : ℕ}
      → t ≡ s.queue.tail
      → leb c (distance t s.queue.cached_head) ≡ false
      → Inv c (record s { producer = roomy x t })
  skip-Inv {x} {t} f room = local-Inv (f, omega (arith, leb-lt _ _ room))

  pub sync-Inv :
      {x : A} {t : ℕ}
      → s.producer ≡ loaded x t
      → Inv c (record s {
        queue = record s.queue { cached_head = s.queue.head };
        producer = synced x t;
      })
  sync-Inv {x} {t} e = record {
    bounded = v.bounded;
    behind = omega arith;
    tail_in = v.tail_in;
    head_in = v.head_in;
    cached_in = v.head_in;
    flow = v.flow;
    producing = subst (Producing c s.queue) e v.producing;
    consuming = sync-Consuming s.consumer v.consuming;
  }
    where
      sync-Consuming :
          (d : Consumer A)
          → Consuming c s.queue d
          → Consuming c (record s.queue { cached_head = s.queue.head }) d
      sync-Consuming waiting f = tt
      sync-Consuming (at h) f = f
      sync-Consuming (seen h t) f = f
      sync-Consuming (copied h x) f = f

  pub store-Inv :
      {x : A} {t : ℕ}
      → s.producer ≡ roomy x t
      → Inv c (record s {
        queue = record s.queue { buffer = update s.queue.buffer (t % c) x };
        producer = stored x t;
      })
  store-Inv {x} {t} e =
      let (here, room) = subst (Producing c s.queue) e v.producing in
      let q = s.queue in
      let at_tail = ap (λ k. k % c) here ∙ tail-slot q.tail q.head w v.tail_in v.head_in in
      record {
        bounded = v.bounded;
        behind = v.behind;
        tail_in = v.tail_in;
        head_in = v.head_in;
        cached_in = v.cached_in;
        flow =
            v.flow
            ∙ ap (λ l. s.received ++ l)
                (sym (
                  window-frame q.buffer x (distance q.tail q.head) q.head (t % c) w
                    (omega (arith, v.behind)) at_tail));
        producing = (here, room, update_self q.buffer (t % c) x);
        consuming = store-Consuming x t here room s.consumer v.consuming;
      }
    where
      store-Consuming :
          (x : A) (t : ℕ)
          → t ≡ s.queue.tail
          → distance s.queue.tail s.queue.cached_head < c
          → (d : Consumer A) → Consuming c s.queue d
          → Consuming c (record s.queue { buffer = update s.queue.buffer (t % c) x }) d
      store-Consuming x t here room waiting f = tt
      store-Consuming x t here room (at h) f = f
      store-Consuming x t here room (seen h k) f = f
      store-Consuming x t here room (copied h y) (there, pos, f) =
          let ne =
            head-ne-tail s.queue.tail s.queue.head w v.tail_in v.head_in (omega (arith, there))
              (omega (arith, v.behind)) in
          let ne' : h % c ≢ t % c =
            λ k. ne (ap (λ j. j % c) (sym there) ∙ k ∙ ap (λ j. j % c) here) in
          (there, pos, update_ne s.queue.buffer (t % c) (h % c) x ne' ∙ f)

  pub advance_tail-Inv :
      {x : A} {t : ℕ}
      → s.producer ≡ stored x t
      → Inv c (record s {
        queue = record s.queue { tail = (t + 1) % word64 };
        producer = resting;
        sent = s.sent ++ x ∷ [];
      })
  advance_tail-Inv {x} {t} e =
      let (here, room, there) = subst (Producing c s.queue) e v.producing in
      let q = s.queue in
      let small = w.small in
      let grown : distance ((t + 1) % word64) q.head ≡ suc (distance q.tail q.head) =
        omega (arith, v.behind, v.tail_in, v.head_in) in
      let last : q.buffer ((q.head + distance q.tail q.head) % c) ≡ x =
        ap q.buffer
          (sym (tail-slot q.tail q.head w v.tail_in v.head_in) ∙ ap (λ k. k % c) (sym here))
        ∙ there in
      record {
        bounded = omega (arith, v.behind, grown);
        behind = omega (arith, v.behind, v.tail_in, v.head_in, v.cached_in, grown);
        tail_in = omega arith;
        head_in = v.head_in;
        cached_in = v.cached_in;
        flow =
            ap (λ l. l ++ x ∷ []) v.flow
            ∙ append_assoc s.received (in_queue c q) (x ∷ [])
            ∙ ap (λ l. s.received ++ l)
                (ap (λ y. in_queue c q ++ y ∷ []) (sym last)
                  ∙ sym (window-last q.buffer (distance q.tail q.head) q.head w)
                  ∙ ap (window c q.buffer q.head) (sym grown));
        producing = tt;
        consuming = advance-Consuming t here room s.consumer v.consuming;
      }
    where
      advance-Consuming :
          (t : ℕ)
          → t ≡ s.queue.tail
          → distance s.queue.tail s.queue.cached_head < c
          → (d : Consumer A) → Consuming c s.queue d
          → Consuming c (record s.queue { tail = (t + 1) % word64 }) d
      advance-Consuming t here room waiting f = tt
      advance-Consuming t here room (at h) f = f
      advance-Consuming t here room (seen h k) (there, k_in, f) =
          (there, k_in, omega (arith, v.behind, v.tail_in, v.head_in, w.small))
      advance-Consuming t here room (copied h y) (there, pos, f) =
          (there, omega (arith, v.behind, v.tail_in, v.head_in, w.small), f)
