-- ===== src/Metrics/Counts.antt =====
-- src/utils/MetricsWorker.cpp, the inner loop: what it counts.
use sequitur.Prelude.{
  ℕ, ◌+◌, ◌%◌, ◌<◌, ◌≡◌, refl, List, [], ◌∷◌, ltb, ◌==◌, if◌then◌else◌, word32, word64, arith,
}
use sequitur.Packets.{MetricsPacket, backpressure_detected}
use sequitur.Metrics.{
  MetricsWorker, Logging, num_buckets, latency_ns, count_backpressure, count_latency, process,
}

-- How many of the packets have the latency `ns`, have no bucket, or report backpressure.
unfoldable pub with_latency : ℕ → List MetricsPacket → ℕ
with_latency ns [] = 0
with_latency ns (x ∷ xs) = (if latency_ns x == ns then 1 else 0) + with_latency ns xs

unfoldable pub outlying : List MetricsPacket → ℕ
outlying [] = 0
outlying (x ∷ xs) = (if ltb (latency_ns x) num_buckets then 0 else 1) + outlying xs

unfoldable pub with_backpressure : List MetricsPacket → ℕ
with_backpressure [] = 0
with_backpressure (x ∷ xs) =
    (if x.type == backpressure_detected then 1 else 0) + with_backpressure xs

-- The totals that a report shows: of the last packet, if there is one.
pub record Totals : Type 0 where
  pub orders : ℕ
  pub trades : ℕ
  pub used : ℕ
  pub failures : ℕ
  pub peak : ℕ

abbrev pub totals : Logging → Totals
totals l = record {
  orders = l.current_orders;
  trades = l.current_trades;
  used = l.pool_used;
  failures = l.pool_failures;
  peak = l.pool_peak;
}

unfoldable pub latest : List MetricsPacket → Totals → Totals
latest [] before = before
latest (x ∷ xs) before = latest xs (record {
  orders = x.total_orders;
  trades = x.total_trades;
  used = x.pool_used;
  failures = x.pool_failures;
  peak = x.pool_peak;
})

-- The counters are in their types' ranges.
pub record IsWorker (w : MetricsWorker) : Type 0 where
  pub buckets : (ns : ℕ) → w.latency_buckets ns < word32
  pub outliers : w.latency_outliers < word64
  pub backpressure : w.backpressure_events < word64

-- The packets `xs` are counted between `l` and `l'`.
pub record Counted (xs : List MetricsPacket) (l l' : Logging) : Type 0 where
  pub buckets :
      (ns : ℕ)
      → ns < num_buckets
      → l'.worker.latency_buckets ns ≡ (l.worker.latency_buckets ns + with_latency ns xs) % word32
  pub outliers : l'.worker.latency_outliers ≡ (l.worker.latency_outliers + outlying xs) % word64
  pub backpressure :
      l'.worker.backpressure_events ≡ (l.worker.backpressure_events + with_backpressure xs) % word64
  pub totals : totals l' ≡ latest xs (totals l)
  pub reported : (l'.last_orders ≡ l.last_orders) × (l'.last_report_time ≡ l.last_report_time)
  pub is_worker : IsWorker l'.worker

pub Counted-none : (l : Logging) → IsWorker l.worker → Counted [] l l
unfolding with_latency outlying with_backpressure latest
Counted-none l v = record {
  buckets = λ ns h. omega (arith, v.buckets ns);
  outliers = omega (arith, v.outliers);
  backpressure = omega (arith, v.backpressure);
  totals = refl;
  reported = (refl, refl);
  is_worker = v;
}

-- The body of the loop, on one packet.
pub process-IsWorker :
    (x : MetricsPacket) (l : Logging) → IsWorker l.worker → IsWorker (process x l).worker
unfolding process count_latency count_backpressure
process-IsWorker x l v = record {
  buckets = λ ns. ground (arith, v.buckets ns, v.buckets (latency_ns x));
  outliers = ground (arith, v.outliers);
  backpressure = ground (arith, v.backpressure);
}

bucket_after :
    (x : MetricsPacket) (l : Logging) (ns : ℕ)
    → ns < num_buckets
    → IsWorker l.worker
    → (process x l).worker.latency_buckets ns
      ≡ (l.worker.latency_buckets ns + (if latency_ns x == ns then 1 else 0)) % word32
unfolding process count_latency count_backpressure
bucket_after x l ns h v = ground (arith, v.buckets ns)

outliers_after :
    (x : MetricsPacket) (l : Logging)
    → IsWorker l.worker
    → (process x l).worker.latency_outliers
      ≡ (l.worker.latency_outliers + (if ltb (latency_ns x) num_buckets then 0 else 1)) % word64
unfolding process count_latency count_backpressure
outliers_after x l v = ground (arith, v.outliers)

backpressure_after :
    (x : MetricsPacket) (l : Logging)
    → IsWorker l.worker
    → (process x l).worker.backpressure_events
      ≡ (l.worker.backpressure_events + (if x.type == backpressure_detected then 1 else 0)) % word64
unfolding process count_latency count_backpressure
backpressure_after x l v = ground (arith, v.backpressure)

pub Counted-more :
    (x : MetricsPacket) (xs : List MetricsPacket) (l l' : Logging)
    → IsWorker l.worker
    → Counted xs (process x l) l'
    → Counted (x ∷ xs) l l'
unfolding process with_latency outlying with_backpressure latest
Counted-more x xs l l' v k = record {
  buckets = λ ns h. omega (arith, k.buckets ns h, bucket_after x l ns h v);
  outliers = omega (arith, k.outliers, outliers_after x l v);
  backpressure = omega (arith, k.backpressure, backpressure_after x l v);
  totals = k.totals;
  reported = k.reported;
  is_worker = k.is_worker;
}
