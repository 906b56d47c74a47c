-- ===== src/Ingress/Stale.antt =====
-- The report of a packet is read from its slot after the slot is given back.
use sequitur.Prelude.{
  true, ltb, length, word32, List-cases, inl, inr, ℕ, zero, suc, ◌+◌, ◌-◌, ◌%◌, ◌≤◌, ◌<◌, ◌≡◌, refl,
  ◌≢◌, [], ◌∷◌, ◌++◌, update, update_self, arith, ap, ap₂, sym, ◌∙◌,
}
use sequitur.FixedQueue
use sequitur.Market.{Trade, Ptr, max_price_ticks}
use sequitur.Packets.{IngressPacket, EgressPacket, new_order, order_accepted}
use sequitur.Book.Resting.{resting}
use sequitur.Engine
use sequitur.Engine.{MatchingEngine, answered}
use sequitur.Engine.Idle.{IsRequest, IsIdle, create-IsIdle, submit_order-bounded}
use sequitur.Core.{ring_size, submit_packet, reports, accepted}
use sequitur.Core.Reports.{Echoes}
use sequitur.Core.Session.{request}
use sequitur.Core.Handle.{submit_packet-new}
use sequitur.Ingress.{
  Shared, idle, Pipeline, order_in, call, load_read, load_write, pass, store, publish, find, copy,
  submit, release, read_price, report, create, Reach, start, later,
}

-- A whole `Enqueue` that finds room.
after_enqueue : IngressPacket → Pipeline → Pipeline
after_enqueue p s = record s {
  shared = record s.shared {
    ingress_ring_buffer =
        update s.shared.ingress_ring_buffer (s.shared.ingress_write_idx % ring_size) p;
    ingress_write_idx = s.shared.ingress_write_idx + 1;
  };
  gateway = idle;
  enqueued = s.enqueued ++ p ∷ [];
}

module _ (fuel : ℕ) (engine : MatchingEngine) (shared : Shared) where
  enqueue-Reach :
      {s : Pipeline} (p : IngressPacket)
      → Reach fuel engine shared s
      → s.gateway ≡ idle
      → s.shared.ingress_write_idx - s.shared.ingress_read_idx ≢ ring_size
      → Reach fuel engine shared (after_enqueue p s)
  unfolding after_enqueue
  enqueue-Reach p r e room =
      let a = later r (call p e) in
      let b = later a (load_read refl) in
      let c = later b (load_write refl) in
      let d = later c (pass refl room) in let e = later d (store refl) in later e (publish refl)

  -- A state in which `n` more packets have been put in since `s`.
  record Filled (s : Pipeline) (n : ℕ) : Type 0 where
    state : Pipeline
    reached : Reach fuel engine shared state
    free : state.gateway ≡ idle
    read : state.shared.ingress_read_idx ≡ s.shared.ingress_read_idx
    write : state.shared.ingress_write_idx ≡ s.shared.ingress_write_idx + n
    handler : state.handler ≡ s.handler
    engine_kept : state.engine ≡ s.engine
    sent : state.sent ≡ s.sent
    submitted : state.submitted ≡ s.submitted

  fill :
      {s : Pipeline} (p : IngressPacket) (n : ℕ)
      → Reach fuel engine shared s
      → s.gateway ≡ idle
      → s.shared.ingress_write_idx + n ≤ s.shared.ingress_read_idx + ring_size
      → Filled s n
  unfolding after_enqueue
  fill {s} p zero r e room = record {
    state = s;
    reached = r;
    free = e;
    read = refl;
    write = omega arith;
    handler = refl;
    engine_kept = refl;
    sent = refl;
    submitted = refl;
  }
  fill {s} p (suc n) r e room =
      let f = fill p n r e (omega arith) in
      record {
        state = after_enqueue p f.state;
        reached = enqueue-Reach p f.reached f.free (
            not_full f.state.shared.ingress_write_idx f.state.shared.ingress_read_idx
              (omega (arith, f.read, f.write)));
        free = refl;
        read = f.read;
        write = omega (arith, f.write);
        handler = f.handler;
        engine_kept = f.engine_kept;
        sent = f.sent;
        submitted = f.submitted;
      }
    where
      not_full : (w r : ℕ) → w < r + ring_size → w - r ≢ ring_size
      not_full w r h k = omega (arith, k)

-- On an engine in whose book no order rests, an order makes no trade.
pub accepted_alone :
    (fuel : ℕ) {cap : ℕ} (e : MatchingEngine) (p : IngressPacket)
    → max_price_ticks + 1 < fuel
    → 0 < cap
    → (v : IsIdle cap e) → resting v.levels ≡ []
    → p.type ≡ new_order
    → IsRequest (request p)
    → (e' : MatchingEngine) × (submit_packet fuel p e ≡ answered true e')
      × (FixedQueue.to_list e'.world.exec_q ≡ [])
accepted_alone fuel {cap} e p enough room v none_rest new q =
    let rest : length (resting v.levels) ≡ 0 = ap length none_rest in
    let (e', between, answer, trades, more) =
      submit_order-bounded fuel 0 (omega arith) (omega arith) e (request p) v (omega arith) q in
    let test : ltb (length (resting v.levels)) cap ≡ true = ground arith in
    (
      e',
      submit_packet-new fuel p e (ground arith) ∙ answer ∙ ap (λ b. answered b e') test,
      elim (List-cases (FixedQueue.to_list e'.world.exec_q)) [
        | inl none_made ↦ none_made
        | inr (t, ts, some_made) ↦ absurd (omega (arith, ap length some_made))
      ],
    )

module _ (fuel : ℕ) (enough : max_price_ticks + 1 < fuel) (exec_slots : ℕ → Trade)
    (trash_slots : ℕ → Ptr) (cap : ℕ) (some_slot : 0 < cap) (small : cap < word32)
    (shared : Shared) where
  -- Let the engine be new, with a pool of at least one slot and fewer than 2^32, let the fuel
  -- exceed the number of prices, and let the ring be read up to its write index when the threads
  -- start. For any new order `p`, a buy or a sell (side 0 or 1) at a price strictly between 0 and
  -- the highest price with a `uint32_t` quantity, and any packet `q`: a state is reachable in
  -- which `submit_order` has been called for `p` and nothing else, and the one report sent is an
  -- acceptance with the order id and the side of `p` and with the price and the quantity of `q`.
  pub stale_report :
      (p q : IngressPacket)
      → p.type ≡ new_order
      → IsRequest (request p)
      → shared.ingress_read_idx ≡ shared.ingress_write_idx
      → (s : Pipeline) × (r : EgressPacket) × Reach fuel
          (Engine.create exec_slots trash_slots cap)
          shared
          s
        × (s.submitted ≡ p ∷ [])
        × (s.sent ≡ r ∷ [])
        × Echoes order_accepted p q r
  unfolding create after_enqueue reports accepted
  stale_report p q new ok e =
      let engine = Engine.create exec_slots trash_slots cap in
      let (between, none_rest) = create-IsIdle exec_slots trash_slots cap small in
      let (e', answer, no_trades) =
        accepted_alone fuel engine p enough some_slot between none_rest new ok in
      let k = shared.ingress_read_idx % ring_size in
      let named = update shared.ingress_ring_buffer (shared.ingress_write_idx % ring_size) p k in
      let first : named ≡ p =
        ap (λ w. update shared.ingress_ring_buffer (w % ring_size) p k) (sym e)
        ∙ update_self shared.ingress_ring_buffer k p in
      let a = enqueue-Reach fuel engine shared p start refl (λ h. omega (arith, h)) in
      let b = later a (find refl (λ h. omega (arith, h))) in
      let c = later b (copy refl) in
      let d = later c (submit refl (ap (λ z. submit_packet fuel z engine) first ∙ answer)) in
      let g = later d (release refl) in
      let f = fill fuel engine shared q (ring_size - 1) g refl (omega arith) in
      let h =
        enqueue-Reach fuel engine shared q f.reached f.free
          (λ n. omega (arith, n, f.read, f.write)) in
      let ring = f.state.shared.ingress_ring_buffer in
      let same : f.state.shared.ingress_write_idx % ring_size ≡ k = omega (arith, f.write) in
      let late = update ring (f.state.shared.ingress_write_idx % ring_size) q k in
      let again : late ≡ q = ap (λ j. update ring j q k) same ∙ update_self ring k q in
      let one_order : order_in p ≡ p ∷ [] = ground arith in
      let priced_at = later h (read_price f.handler) in
      (
        _,
        accepted p q,
        later priced_at (report refl),
        f.submitted ∙ ap order_in first ∙ one_order,
        ap (λ l. l ++ reports named late true (FixedQueue.to_list f.state.engine.world.exec_q))
              f.sent
            ∙ ap
                (λ (m : MatchingEngine).
                  reports named late true (FixedQueue.to_list m.world.exec_q))
                f.engine_kept
            ∙ ap (reports named late true) no_trades
            ∙ ap₂ (λ x z. accepted x z ∷ []) first again,
        (refl, refl, refl, refl, refl),
      )
