-- ===== src/Ingress/Send.antt =====
-- The steps of the gateway keep the invariant.
use sequitur.Prelude.{
  ℕ, ◌+◌, ◌-◌, ◌%◌, ◌<◌, ◌≡◌, ◌≢◌, [], ◌∷◌, ◌++◌, append_assoc, update, update_self, update_ne,
  arith, ap, sym, ◌∙◌, subst,
}
use sequitur.Packets.{IngressPacket}
use sequitur.Core.{ring_size}
use sequitur.Egress.Span.{span, span-update, span_next}
use sequitur.Ingress.{
  Gateway, idle, loaded, roomy, stored, Handler, polling, found, copied, answering, released,
  priced, Pipeline,
}
use sequitur.Ingress.Invariant.{in_ring, Sending, Owned, Handling, Inv}

module _ {s : Pipeline} (v : Inv s) where
  -- A step of the gateway that changes nothing shared.
  pub gateway-Inv : {g : Gateway} → Sending s.shared g → Inv (record s { gateway = g })
  gateway-Inv f = record {
    order = v.order;
    index = v.index;
    sending = f;
    handling = v.handling;
    flow = v.flow;
    past = v.past;
    orders = v.orders;
    agree = v.agree;
  }

  pub pass-Inv :
      {p : IngressPacket} {r w : ℕ}
      → s.gateway ≡ loaded p r w
      → w - r ≢ ring_size
      → Inv (record s { gateway = roomy p w })
  pass-Inv {p} {r} {w} e ne =
      let (older, here, near) = subst (Sending s.shared) e v.sending in
      gateway-Inv (here, omega (arith, ne, v.order))

  pub store-Inv :
      {p : IngressPacket} {w : ℕ}
      → s.gateway ≡ roomy p w
      → Inv (record s {
        shared = record s.shared {
          ingress_ring_buffer = update s.shared.ingress_ring_buffer (w % ring_size) p;
        };
        gateway = stored p w;
      })
  store-Inv {p} {w} e =
      let (here, room) = subst (Sending s.shared) e v.sending in
      let m = s.shared in
      record {
        order = v.order;
        index = v.index;
        sending = (here, room, update_self m.ingress_ring_buffer (w % ring_size) p);
        handling = store-Handling p w here room s.handler v.handling;
        flow =
            v.flow
            ∙ ap (λ l. s.given_back ++ l)
                (sym (
                  span-update m.ingress_ring_buffer p m.ingress_read_idx
                    (m.ingress_write_idx - m.ingress_read_idx) w (omega (arith, v.order)) room));
        past = v.past;
        orders = v.orders;
        agree = v.agree;
      }
    where
      kept :
          (p : IngressPacket) (w k : ℕ)
          → w ≡ s.shared.ingress_write_idx
          → w < s.shared.ingress_read_idx + ring_size
          → Owned s.shared k
          → update s.shared.ingress_ring_buffer (w % ring_size) p k ≡ s.shared.ingress_ring_buffer k
      kept p w k here room (at, more) =
          update_ne s.shared.ingress_ring_buffer (w % ring_size) k p (λ e. omega (arith, e))

      store-Handling :
          (p : IngressPacket) (w : ℕ)
          → w ≡ s.shared.ingress_write_idx
          → w < s.shared.ingress_read_idx + ring_size
          → (h : Handler) → Handling s.shared h
          → Handling
              (record s.shared {
                ingress_ring_buffer = update s.shared.ingress_ring_buffer (w % ring_size) p;
              })
              h
      store-Handling p w here room polling f = tt
      store-Handling p w here room (found k) f = f
      store-Handling p w here room (copied k x) (o, f) = (o, kept p w k here room o ∙ f)
      store-Handling p w here room (answering k x y b) (o, f, g) =
          (o, kept p w k here room o ∙ f, kept p w k here room o ∙ g)
      store-Handling p w here room (released k x y b) f = f
      store-Handling p w here room (priced k x y b price) f = f

  pub publish-Inv :
      {p : IngressPacket} {w : ℕ}
      → s.gateway ≡ stored p w
      → Inv (record s {
        shared = record s.shared { ingress_write_idx = w + 1 };
        gateway = idle;
        enqueued = s.enqueued ++ p ∷ [];
      })
  publish-Inv {p} {w} e =
      let (here, room, there) = subst (Sending s.shared) e v.sending in
      let m = s.shared in
      let ring = m.ingress_ring_buffer in
      let r = m.ingress_read_idx in
      let grown : span ring r (w + 1 - r) ≡ in_ring m ++ p ∷ [] =
        ap (span ring r) (omega (arith, v.order))
        ∙ span_next ring r (m.ingress_write_idx - r)
        ∙ ap (λ x. in_ring m ++ x ∷ [])
            (ap (λ j. ring (j % ring_size)) (omega (arith, v.order)) ∙ there) in
      record {
        order = omega (arith, v.order);
        index = v.index;
        sending = tt;
        handling = publish-Handling w here s.handler v.handling;
        flow =
            ap (λ l. l ++ p ∷ []) v.flow
            ∙ append_assoc s.given_back (in_ring m) (p ∷ [])
            ∙ ap (λ l. s.given_back ++ l) (sym grown);
        past = v.past;
        orders = v.orders;
        agree = v.agree;
      }
    where
      publish-Handling :
          (w : ℕ)
          → w ≡ s.shared.ingress_write_idx
          → (h : Handler) → Handling s.shared h
          → Handling (record s.shared { ingress_write_idx = w + 1 }) h
      publish-Handling w here polling f = tt
      publish-Handling w here (found k) (a, b) = (a, omega arith)
      publish-Handling w here (copied k x) ((a, b), f) = ((a, omega arith), f)
      publish-Handling w here (answering k x y ok) ((a, b), f, g) = ((a, omega arith), f, g)
      publish-Handling w here (released k x y b) f = f
      publish-Handling w here (priced k x y b price) f = f
