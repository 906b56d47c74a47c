-- ===== src/Spsc/Threads/Consume.antt =====
-- The steps of the consumer keep the invariant.
use sequitur.Prelude.{
  ℕ, ◌+◌, ◌-◌, ◌%◌, ◌≡◌, refl, ◌≢◌, [], ◌∷◌, ◌++◌, append_assoc, word64, arith, ap, sym, ◌∙◌, subst,
}
use sequitur.Ring.{IsCapacity, distance, window, window-suc}
use sequitur.Spsc.Threads.{
  Producer, resting, entered, live, loaded, synced, roomy, stored, Consumer, waiting, seen, copied,
  Threads,
}
use sequitur.Spsc.Threads.Invariant.{in_queue, Producing, Consuming, Inv}

module _ {A : Type 0} {c : ℕ} (w : IsCapacity c) {s : Threads A} (v : Inv c s) where
  -- A step that changes nothing shared.
  pub local-Inv : {d : Consumer A} → Consuming c s.queue d → Inv c (record s { consumer = d })
  local-Inv f = record {
    bounded = v.bounded;
    behind = v.behind;
    tail_in = v.tail_in;
    head_in = v.head_in;
    cached_in = v.cached_in;
    flow = v.flow;
    producing = v.producing;
    consuming = f;
  }

  pub copy-Inv :
      {h t : ℕ}
      → s.consumer ≡ seen h t
      → h ≢ t
      → Inv c (record s { consumer = copied h (s.queue.buffer (h % c)) })
  copy-Inv {h} {t} e ne =
      let (here, t_in, f) = subst (Consuming c s.queue) e v.consuming in
      local-Inv (here, omega (arith, ne, v.head_in), refl)

  pub advance_head-Inv :
      {h : ℕ} {x : A}
      → s.consumer ≡ copied h x
      → Inv c (record s {
        queue = record s.queue { head = (h + 1) % word64 };
        consumer = waiting;
        received = s.received ++ x ∷ [];
      })
  advance_head-Inv {h} {x} e =
      let (here, pos, f) = subst (Consuming c s.queue) e v.consuming in
      let q = s.queue in
      let small = w.small in
      let n = distance q.tail q.head in
      let fewer : distance q.tail ((h + 1) % word64) ≡ n - 1 =
        omega (arith, v.tail_in, v.head_in) in
      let first : in_queue c q ≡ x ∷ window c q.buffer ((h + 1) % word64) (n - 1) =
        window-suc c q.buffer q.head n (λ k. omega (arith, k, pos, here))
        ∙ ap (λ k. q.buffer (k % c) ∷ window c q.buffer ((k + 1) % word64) (n - 1)) (sym here)
        ∙ ap (λ y. y ∷ window c q.buffer ((h + 1) % word64) (n - 1)) f in
      record {
        bounded = omega (arith, v.bounded, fewer);
        behind = omega (arith, v.behind, fewer);
        tail_in = v.tail_in;
        head_in = omega arith;
        cached_in = v.cached_in;
        flow =
            v.flow
            ∙ ap (λ l. s.received ++ l) first
            ∙ sym (append_assoc s.received (x ∷ []) (window c q.buffer ((h + 1) % word64) (n - 1)))
            ∙ ap (λ k. s.received ++ x ∷ [] ++ window c q.buffer ((h + 1) % word64) k) (sym fewer);
        producing = advance-Producing h s.producer v.producing;
        consuming = tt;
      }
    where
      advance-Producing :
          (h : ℕ) (p : Producer A)
          → Producing c s.queue p
          → Producing c (record s.queue { head = (h + 1) % word64 }) p
      advance-Producing h resting f = tt
      advance-Producing h (entered x) f = tt
      advance-Producing h (live x) f = tt
      advance-Producing h (loaded x t) f = f
      advance-Producing h (synced x t) f = f
      advance-Producing h (roomy x t) f = f
      advance-Producing h (stored x t) f = f
