-- ===== src/Egress/Receive.antt =====
-- The steps of the gateway keep the invariant.
use sequitur.Prelude.{
  ℕ, ◌+◌, ◌-◌, ◌%◌, ◌≡◌, refl, ◌≢◌, [], ◌∷◌, ◌++◌, append_assoc, arith, ap, sym, ◌∙◌, subst,
}
use sequitur.Packets.{EgressPacket}
use sequitur.Core.{ring_size}
use sequitur.Egress.{
  Publisher, polling, holding, looking, ready, stored, idle, seen, copied, Pipeline,
}
use sequitur.Egress.Span.{span, span-suc}
use sequitur.Egress.Invariant.{in_hand, in_ring, Publishing, Receiving, Inv}

module _ {s : Pipeline} (v : Inv s) where
  pub look-Inv :
      Inv (record s { gateway = seen s.shared.egress_read_idx s.shared.egress_write_idx })
  look-Inv = record {
    queued = v.queued;
    queue = v.queue;
    index = v.index;
    order = v.order;
    publishing = v.publishing;
    receiving = omega (arith, v.order, v.index);
    flow = v.flow;
  }

  pub none_there-Inv : Inv (record s { gateway = idle })
  none_there-Inv = record {
    queued = v.queued;
    queue = v.queue;
    index = v.index;
    order = v.order;
    publishing = v.publishing;
    receiving = tt;
    flow = v.flow;
  }

  pub copy-Inv :
      {r w : ℕ}
      → s.gateway ≡ seen r w
      → r ≢ w
      → Inv (record s { gateway = copied r (s.shared.egress_ring_buffer (r % ring_size)) })
  copy-Inv {r} {w} e ne =
      let (here, lo, hi) = subst (Receiving s) e v.receiving in
      record {
        queued = v.queued;
        queue = v.queue;
        index = v.index;
        order = v.order;
        publishing = v.publishing;
        receiving = (here, omega (arith, ne), refl);
        flow = v.flow;
      }

  pub deliver-Inv :
      {r : ℕ} {p : EgressPacket}
      → s.gateway ≡ copied r p
      → Inv (record s {
        shared = record s.shared { egress_read_idx = r + 1 };
        gateway = idle;
        received = s.received ++ p ∷ [];
      })
  deliver-Inv {r} {p} e =
      let (here, lt, f) = subst (Receiving s) e v.receiving in
      let ring = s.shared.egress_ring_buffer in
      let w = s.current_write in
      let first : in_ring s ≡ p ∷ span ring (r + 1) (w - (r + 1)) =
        ap (λ k. span ring k (w - k)) (sym here)
        ∙ span-suc ring r w lt
        ∙ ap (λ x. x ∷ span ring (r + 1) (w - (r + 1))) f in
      record {
        queued = v.queued;
        queue = v.queue;
        index = v.index;
        order = omega (arith, v.order);
        publishing = deliver-Publishing r p s.publisher v.publishing here;
        receiving = tt;
        flow =
            v.flow
            ∙ ap (λ l. l ++ in_hand s.publisher ++ v.queued)
                (ap (λ l. s.received ++ l) first
                  ∙ sym (append_assoc s.received (p ∷ []) (span ring (r + 1) (w - (r + 1)))));
      }
    where
      deliver-Publishing :
          (r : ℕ) (p : EgressPacket) (q : Publisher)
          → Publishing s q
          → r ≡ s.shared.egress_read_idx
          → Publishing
              (record s {
                shared = record s.shared { egress_read_idx = r + 1 };
                gateway = idle;
                received = s.received ++ p ∷ [];
              })
              q
      deliver-Publishing r p polling f here = tt
      deliver-Publishing r p (holding x) f here = tt
      deliver-Publishing r p (looking x k) f here = omega arith
      deliver-Publishing r p (ready x) f here = omega arith
      deliver-Publishing r p (stored x) (room, g) here = (omega arith, g)
