-- ===== src/Egress/Moves.antt =====
-- The steps of the core thread and of the publisher keep the invariant.
use sequitur.Prelude.{
  ℕ, ◌+◌, ◌-◌, ◌%◌, ◌<◌, ◌≡◌, refl, ◌≢◌, Bool, true, false, some, List, [], ◌∷◌, ◌++◌, append-nil,
  append_assoc, update, update_self, update_ne, arith, ap, ap₂, sym, ◌∙◌, subst, leb, leb-lt,
  Bool-cases, inl, inr, length,
}
use sequitur.Packets.{EgressPacket}
use sequitur.Ring.{IsCapacity, pow-IsCapacity}
use sequitur.Spsc.{SpscQueue}
use sequitur.Spsc
use sequitur.Spsc.Refine.{Holds, push_refines, push_spec, pop_refines, pop_spec}
use sequitur.Core.{ring_size, egress_capacity}
use sequitur.Egress.{
  polling, holding, looking, ready, stored, Gateway, idle, seen, copied, Pipeline,
}
use sequitur.Egress.Span.{span, span-update, span_next}
use sequitur.Egress.Invariant.{in_hand, in_ring, Publishing, Receiving, Inv}

egress-IsCapacity : IsCapacity egress_capacity
egress-IsCapacity = pow-IsCapacity 13 (omega arith)

accepted :
    (p : EgressPacket) (flag : Bool) (xs : List EgressPacket)
    → (push_spec egress_capacity flag p xs).0 ≡ true
    → (push_spec egress_capacity flag p xs).1 ≡ xs ++ p ∷ []
unfolding push_spec
accepted p true xs h = cc
accepted p false xs h = elim (Bool-cases (leb egress_capacity (length xs))) [
  | inl full ↦ absurd (refused full (ap (λ r. r) h))
  | inr room ↦ rw room refl
]
  where
    refused :
        leb egress_capacity (length xs) ≡ true → (push_spec egress_capacity false p xs).0 ≡ true → ⊥
    refused full h = ground arith

oldest :
    (p : EgressPacket) (xs : List EgressPacket)
    → (pop_spec xs).0 ≡ some p
    → (rest : List EgressPacket) × (xs ≡ p ∷ rest) × ((pop_spec xs).1 ≡ rest)
unfolding pop_spec
oldest p [] h = cc
oldest p (x ∷ xs) h = (xs, ap (λ y. y ∷ xs) (cc h), refl)

module _ {s : Pipeline} (v : Inv s) where
  pub push-Inv :
      (p : EgressPacket)
      → (Spsc.push egress_capacity p s.egress_queue).0 ≡ true
      → Inv (record s {
        egress_queue = (Spsc.push egress_capacity p s.egress_queue).1;
        sent = s.sent ++ p ∷ [];
      })
  push-Inv p e =
      let (answer, holds, flag) =
        push_refines egress-IsCapacity s.egress_queue p v.queued v.queue in
      record {
        queued = v.queued ++ p ∷ [];
        queue =
            subst (Holds egress_capacity (Spsc.push egress_capacity p s.egress_queue).1)
              (accepted p s.egress_queue.stop_flag v.queued (sym answer ∙ e)) holds;
        index = v.index;
        order = v.order;
        publishing = v.publishing;
        receiving = v.receiving;
        flow =
            ap (λ l. l ++ p ∷ []) v.flow
            ∙ append_assoc (s.received ++ in_ring s ++ in_hand s.publisher) v.queued (p ∷ []);
      }

  pub pop-Inv :
      {p : EgressPacket}
      → s.publisher ≡ polling
      → (Spsc.pop egress_capacity s.egress_queue).0 ≡ some p
      → Inv (record s {
        egress_queue = (Spsc.pop egress_capacity s.egress_queue).1;
        publisher = holding p;
      })
  pop-Inv {p} e taken =
      let (answer, holds, flag) = pop_refines egress-IsCapacity s.egress_queue v.queued v.queue in
      let (rest, is, left) = oldest p v.queued (sym answer ∙ taken) in
      record {
        queued = rest;
        queue =
            subst (Holds egress_capacity (Spsc.pop egress_capacity s.egress_queue).1) left holds;
        index = v.index;
        order = v.order;
        publishing = tt;
        receiving = v.receiving;
        flow =
            v.flow
            ∙ ap₂ (λ q l. s.received ++ in_ring s ++ in_hand q ++ l) e is
            ∙ ap (λ l. l ++ p ∷ rest) (append-nil (s.received ++ in_ring s))
            ∙ sym (append_assoc (s.received ++ in_ring s) (p ∷ []) rest);
      }

  pub load-Inv :
      {p : EgressPacket}
      → in_hand s.publisher ≡ p ∷ []
      → Inv (record s { publisher = looking p s.shared.egress_read_idx })
  load-Inv {p} e = record {
    queued = v.queued;
    queue = v.queue;
    index = v.index;
    order = v.order;
    publishing = omega arith;
    receiving = v.receiving;
    flow = v.flow ∙ ap (λ l. s.received ++ in_ring s ++ l ++ v.queued) e;
  }

  pub enter-Inv :
      {p : EgressPacket} {r : ℕ}
      → s.publisher ≡ looking p r
      → leb ring_size (s.current_write - r) ≡ false
      → Inv (record s { publisher = ready p })
  enter-Inv {p} {r} e room =
      let old = subst (Publishing s) e v.publishing in
      let lt = leb-lt _ _ room in
      record {
        queued = v.queued;
        queue = v.queue;
        index = v.index;
        order = v.order;
        publishing = omega arith;
        receiving = v.receiving;
        flow = v.flow ∙ ap (λ q. s.received ++ in_ring s ++ in_hand q ++ v.queued) e;
      }

  pub store-Inv :
      {p : EgressPacket}
      → s.publisher ≡ ready p
      → Inv (record s {
        shared = record s.shared {
          egress_ring_buffer = update s.shared.egress_ring_buffer (s.current_write % ring_size) p;
        };
        publisher = stored p;
      })
  store-Inv {p} e =
      let room = subst (Publishing s) e v.publishing in
      let ring = s.shared.egress_ring_buffer in
      let r = s.shared.egress_read_idx in
      let w = s.current_write in
      record {
        queued = v.queued;
        queue = v.queue;
        index = v.index;
        order = v.order;
        publishing = (room, update_self ring (w % ring_size) p);
        receiving = store-Receiving p room s.gateway v.receiving;
        flow =
            v.flow
            ∙ ap₂ (λ q l. s.received ++ l ++ in_hand q ++ v.queued) e
                (sym (span-update ring p r (w - r) w (omega (arith, v.order)) room));
      }
    where
      store-Receiving :
          (p : EgressPacket)
          → s.current_write < s.shared.egress_read_idx + ring_size
          → (g : Gateway) → Receiving s g
          → Receiving
              (record s {
                shared = record s.shared {
                  egress_ring_buffer =
                      update s.shared.egress_ring_buffer (s.current_write % ring_size) p;
                };
                publisher = stored p;
              })
              g
      store-Receiving p room idle f = tt
      store-Receiving p room (seen r w) f = f
      store-Receiving p room (copied r x) (here, lt, f) =
          let ne : r % ring_size ≢ s.current_write % ring_size =
            λ k. omega (arith, k, here, room) in
          (
            here,
            lt,
            update_ne s.shared.egress_ring_buffer (s.current_write % ring_size) (r % ring_size) p ne
                ∙ f,
          )

  pub advance-Inv :
      {p : EgressPacket}
      → s.publisher ≡ stored p
      → Inv (record s {
        shared = record s.shared { egress_write_idx = s.current_write + 1 };
        current_write = s.current_write + 1;
        publisher = polling;
      })
  advance-Inv {p} e =
      let (room, there) = subst (Publishing s) e v.publishing in
      let ring = s.shared.egress_ring_buffer in
      let r = s.shared.egress_read_idx in
      let w = s.current_write in
      let grown : span ring r (w + 1 - r) ≡ in_ring s ++ p ∷ [] =
        ap (span ring r) (omega (arith, v.order))
        ∙ span_next ring r (w - r)
        ∙ ap (λ x. in_ring s ++ x ∷ [])
            (ap (λ j. ring (j % ring_size)) (omega (arith, v.order)) ∙ there) in
      record {
        queued = v.queued;
        queue = v.queue;
        index = refl;
        order = omega (arith, v.order);
        publishing = tt;
        receiving = advance-Receiving s.gateway v.receiving;
        flow =
            v.flow
            ∙ ap (λ q. s.received ++ in_ring s ++ in_hand q ++ v.queued) e
            ∙ ap (λ l. l ++ v.queued)
                (append_assoc s.received (in_ring s) (p ∷ [])
                  ∙ ap (λ l. s.received ++ l) (sym grown)
                  ∙ sym (append-nil (s.received ++ span ring r (w + 1 - r))));
      }
    where
      advance-Receiving :
          (g : Gateway)
          → Receiving s g
          → Receiving
              (record s {
                shared = record s.shared { egress_write_idx = s.current_write + 1 };
                current_write = s.current_write + 1;
                publisher = polling;
              })
              g
      advance-Receiving idle f = tt
      advance-Receiving (seen r w) (here, lo, hi) = (here, lo, omega arith)
      advance-Receiving (copied r x) (here, lt, f) = (here, omega arith, f)
