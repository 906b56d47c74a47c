-- ===== src/Spsc/Threads/Safety.antt =====
-- What the ring promises its two threads.
use sequitur.Prelude.{
  ℕ, ◌≤◌, ◌<◌, ◌≡◌, refl, ◌↔◌, true, false, [], ◌++◌, arith, ap, subst, leb, leb-lt, leb-le, length,
}
use sequitur.Ring.{IsCapacity, distance, window, length-window}
use sequitur.Spsc.Threads.{
  Producer, resting, entered, live, loaded, synced, roomy, stored, Consumer, waiting, at, seen,
  copied, Threads, Step, call, stopped, proceed, load_tail, skip, sync, full, pass, store,
  advance_tail, load_head, see_tail, none_there, copy, advance_head, shutdown, Reach, start, later,
}
use sequitur.Spsc.Threads.Invariant.{in_queue, Producing, Consuming, Inv, create-Inv}
use sequitur.Spsc.Threads.Produce.{skip-Inv, sync-Inv, store-Inv, advance_tail-Inv}
use sequitur.Spsc.Threads.Produce
use sequitur.Spsc.Threads.Consume.{copy-Inv, advance_head-Inv}
use sequitur.Spsc.Threads.Consume

shutdown-Inv :
    {A : Type 0} {c : ℕ} {s : Threads A}
    → Inv c s
    → Inv c (record s { queue = record s.queue { stop_flag = true } })
shutdown-Inv {A} {c} {s} v = record {
  bounded = v.bounded;
  behind = v.behind;
  tail_in = v.tail_in;
  head_in = v.head_in;
  cached_in = v.cached_in;
  flow = v.flow;
  producing = stop-Producing s.producer v.producing;
  consuming = stop-Consuming s.consumer v.consuming;
}
  where
    stop-Producing :
        (p : Producer A)
        → Producing c s.queue p
        → Producing c (record s.queue { stop_flag = true }) p
    stop-Producing resting f = tt
    stop-Producing (entered x) f = tt
    stop-Producing (live x) f = tt
    stop-Producing (loaded x t) f = f
    stop-Producing (synced x t) f = f
    stop-Producing (roomy x t) f = f
    stop-Producing (stored x t) f = f

    stop-Consuming :
        (d : Consumer A)
        → Consuming c s.queue d
        → Consuming c (record s.queue { stop_flag = true }) d
    stop-Consuming waiting f = tt
    stop-Consuming (at h) f = f
    stop-Consuming (seen h t) f = f
    stop-Consuming (copied h x) f = f

module _ {A : Type 0} {c : ℕ} (w : IsCapacity c) where
  Step-Inv : {s t : Threads A} → Step c s t → Inv c s → Inv c t
  Step-Inv (call x e) v = Produce.local-Inv w v tt
  Step-Inv (stopped e f) v = Produce.local-Inv w v tt
  Step-Inv (proceed e f) v = Produce.local-Inv w v tt
  Step-Inv (load_tail e) v = Produce.local-Inv w v refl
  Step-Inv {s} (skip e f) v = skip-Inv w v (subst (Producing c s.queue) e v.producing) f
  Step-Inv (sync e f) v = sync-Inv w v e
  Step-Inv (full e f) v = Produce.local-Inv w v tt
  Step-Inv {s} (pass e f) v = skip-Inv w v (subst (Producing c s.queue) e v.producing) f
  Step-Inv (store e) v = store-Inv w v e
  Step-Inv (advance_tail e) v = advance_tail-Inv w v e
  Step-Inv (load_head e) v = Consume.local-Inv w v refl
  Step-Inv {s} (see_tail e) v =
      Consume.local-Inv w v (subst (Consuming c s.queue) e v.consuming, v.tail_in, omega arith)
  Step-Inv (none_there e f) v = Consume.local-Inv w v tt
  Step-Inv (copy e f) v = copy-Inv w v e f
  Step-Inv (advance_head e) v = advance_head-Inv w v e
  Step-Inv shutdown v = shutdown-Inv v

  Reach-Inv : {slots : ℕ → A} {s : Threads A} → Reach c slots s → Inv c s
  Reach-Inv {slots} start = create-Inv c slots
  Reach-Inv (later r m) = Step-Inv m (Reach-Inv r)

  module _ {slots : ℕ → A} {s : Threads A} (r : Reach c slots s) where
    -- Along every interleaving of the producer, the consumer and `shutdown` on a ring of a
    -- positive capacity below 2^64 that divides 2^64, however often the cursors wrap: the items of
    -- the pushes that answered true are, in their order, those that `pop` has returned and then
    -- those between the two cursors, of which there are at most as many as the capacity.
    pub in_order : (s.sent ≡ s.received ++ in_queue c s.queue) × (length (in_queue c s.queue) ≤ c)
    in_order =
        let v = Reach-Inv r in
        (
          v.flow,
          omega (
            arith,
            v.bounded,
            length-window c s.queue.buffer s.queue.head (distance s.queue.tail s.queue.head),
          ),
        )

    pub answers :
        ((x : A) (t : ℕ)
          → s.producer ≡ loaded x t
          → (leb c (distance t s.queue.head) ≡ true ↔ length (in_queue c s.queue) ≡ c)
            × (leb c (distance t s.queue.cached_head) ≡ false → length (in_queue c s.queue) < c))
        × ((h : ℕ) → s.consumer ≡ at h → (h ≡ s.queue.tail ↔ in_queue c s.queue ≡ []))
    answers =
        let v = Reach-Inv r in
        let q = s.queue in
        let n = length-window c q.buffer q.head (distance q.tail q.head) in
        (
          λ x t e.
              let here : t ≡ q.tail = subst (Producing c q) e v.producing in
              (
                (
                  λ full. omega (arith, leb-le _ _ full, n, here, v.bounded),
                  λ size. full_test (distance t q.head) (omega (arith, n, here)),
                ),
                λ room. omega (arith, leb-lt _ _ room, n, here, v.behind),
              ),
          λ h e.
              let here : h ≡ q.head = subst (Consuming c q) e v.consuming in
              (
                λ same.
                    let none_left : distance q.tail q.head ≡ 0 = omega (arith, here, v.tail_in) in
                    ap (window c q.buffer q.head) none_left,
                λ empty. omega (arith, ap length empty, n, here, v.tail_in, v.head_in),
              ),
        )
      where
        full_test : (d : ℕ) → c ≤ d → leb c d ≡ true
        full_test d h = ground arith
