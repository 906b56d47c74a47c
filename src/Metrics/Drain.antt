-- ===== src/Metrics/Drain.antt =====
-- src/utils/MetricsWorker.cpp, the inner loop: it ends, and empties the queue.
use sequitur.Prelude.{
  ℕ, zero, suc, ◌<◌, ◌≡◌, refl, Bool, true, none, some, List, [], ◌∷◌, length, arith, sym, ◌∙◌, ap,
  subst,
}
use sequitur.Packets.{MetricsPacket}
use sequitur.Ring.{pow-IsCapacity}
use sequitur.Spsc.{SpscQueue}
use sequitur.Spsc
use sequitur.Spsc.Refine.{Holds, pop_refines, pop_spec}
use sequitur.Metrics.{Logging, queue_capacity, count_backpressure, count_latency, process, drain}
use sequitur.Metrics.Counts.{IsWorker, Counted, Counted-none, Counted-more, process-IsWorker}

kept :
    (q : SpscQueue MetricsPacket) (l : Logging)
    → IsWorker l.worker
    → IsWorker (record l.worker { queue = q })
kept q l v = record { buckets = v.buckets; outliers = v.outliers; backpressure = v.backpressure }

-- Did the loop take a packet?
abbrev pub processed : Bool → List MetricsPacket → Bool
processed before [] = before
processed before (x ∷ xs) = true

abbrev set_queue : SpscQueue MetricsPacket → Logging → Logging
set_queue q l = record l { worker = record l.worker { queue = q } }

drain_end :
    (fuel : ℕ) (before : Bool) (l : Logging)
    → (Spsc.pop queue_capacity l.worker.queue).0 ≡ none
    → drain (suc fuel) before l
      ≡ some (before, set_queue (Spsc.pop queue_capacity l.worker.queue).1 l)
unfolding drain
drain_end fuel before l e = rw (e, drain) refl

drain_more :
    (fuel : ℕ) (before : Bool) (l : Logging) (x : MetricsPacket)
    → (Spsc.pop queue_capacity l.worker.queue).0 ≡ some x
    → drain (suc fuel) before l
      ≡ drain fuel true (process x (set_queue (Spsc.pop queue_capacity l.worker.queue).1 l))
unfolding drain
drain_more fuel before l x e = rw (e, drain) refl

-- What is counted does not depend on the queue.
requeue :
    (q : SpscQueue MetricsPacket) (xs : List MetricsPacket) (l l' : Logging)
    → Counted xs (set_queue q l) l'
    → Counted xs l l'
requeue q xs l l' k = record {
  buckets = k.buckets;
  outliers = k.outliers;
  backpressure = k.backpressure;
  totals = k.totals;
  reported = k.reported;
  is_worker = k.is_worker;
}

processed-true : (xs : List MetricsPacket) → processed true xs ≡ true
processed-true [] = refl
processed-true (x ∷ xs) = refl

process-queue : (x : MetricsPacket) (l : Logging) → (process x l).worker.queue ≡ l.worker.queue
unfolding process count_latency count_backpressure
process-queue x l = ground arith

-- Let the metrics queue hold the packets `xs`, the counters be in range, and the fuel exceed the
-- number of the packets. Then the inner loop ends, with the queue empty and `data_processed` true
-- exactly if it was or there was a packet. Each bucket has grown, modulo 2^32, by the packets of
-- its latency; the outliers by the packets beyond the last bucket and the backpressure events by
-- the packets of that type, modulo 2^64; the totals are those of the last packet, if there was
-- one; the time and the orders of the last report are as before.
pub drain_lem :
    (xs : List MetricsPacket) (fuel : ℕ) (before : Bool) (l : Logging)
    → Holds queue_capacity l.worker.queue xs
    → IsWorker l.worker
    → length xs < fuel
    → (l' : Logging) × (drain fuel before l ≡ some (processed before xs, l'))
      × Holds queue_capacity l'.worker.queue []
      × Counted xs l l'
unfolding pop_spec
drain_lem xs zero before l h v enough = absurd (omega arith)
drain_lem [] (suc fuel) before l h v enough =
    let (e, h', flag) = pop_refines (pow-IsCapacity 12 (omega arith)) l.worker.queue [] h in
    let q = (Spsc.pop queue_capacity l.worker.queue).1 in
    (
      set_queue q l,
      drain_end fuel before l e,
      h',
      requeue q [] l (set_queue q l) (Counted-none (set_queue q l) (kept q l v)),
    )
drain_lem (x ∷ xs) (suc fuel) before l h v enough =
    let (e, h', flag) = pop_refines (pow-IsCapacity 12 (omega arith)) l.worker.queue (x ∷ xs) h in
    let q = (Spsc.pop queue_capacity l.worker.queue).1 in
    let next = set_queue q l in
    let held = subst (λ k. Holds queue_capacity k xs) (sym (process-queue x next)) h' in
    let sane = process-IsWorker x next (kept q l v) in
    let (l', result, h'', k) = drain_lem xs fuel true (process x next) held sane (omega arith) in
    (
      l',
      drain_more fuel before l x e ∙ result ∙ ap (λ b. some (b, l')) (processed-true xs),
      h'',
      requeue q (x ∷ xs) l l' (Counted-more x xs next l' (kept q l v) k),
    )
