-- ===== src/Metrics.antt =====
-- src/utils/MetricsWorker.cpp and include/sequitur/utils/MetricsWorker.hpp: the thread that takes
-- the core's packets from the metrics queue, counts them, and reports every 250 ms. The queue is
-- never null, as in `main`.
pub mod Message
pub mod Counts
pub mod Drain
pub mod Samples
pub mod Ranks
pub mod Text
pub mod Report
pub mod Round
pub mod Turns
pub mod Loop
mod Sample
mod Tests
use sequitur.Prelude.{
  ℕ, zero, suc, ◌+◌, ◌-◌, ◌*◌, ◌/◌, ◌%◌, Bool, true, false, ◌||◌, Option, none, some, List, [], ◌∷◌,
  ltb, leb, ◌==◌, if◌then◌else◌, update, word32, word64,
}
use sequitur.Packets.{MetricsPacket, backpressure_detected}
use sequitur.Spsc.{SpscQueue}
use sequitur.Spsc
use sequitur.Metrics.Message.{
  Charconv, Piece, put_all, literal, unsigned, fixed4, codes, clear, written,
}
use sequitur.Ring.{distance}

abbrev pub num_buckets : ℕ
num_buckets = 2048

abbrev pub cpu_hz : ℕ
cpu_hz = 3600000000

-- The capacity of the metrics queue.
abbrev pub queue_capacity : ℕ
queue_capacity = 4096

-- The fields that `logging_loop` uses.
pub record MetricsWorker : Type 0 where
  pub queue : SpscQueue MetricsPacket
  pub latency_buckets : ℕ → ℕ
  pub latency_outliers : ℕ
  pub backpressure_events : ℕ

-- `logging_loop`: the worker and the loop's variables. Times are nanoseconds.
pub record Logging : Type 0 where
  pub worker : MetricsWorker
  pub last_orders : ℕ
  pub current_orders : ℕ
  pub current_trades : ℕ
  pub pool_used : ℕ
  pub pool_failures : ℕ
  pub pool_peak : ℕ
  pub last_report_time : ℕ

-- The variables before the loop.
unfoldable pub start : MetricsWorker → ℕ → Logging
start worker now = record {
  worker = worker;
  last_orders = 0;
  current_orders = 0;
  current_trades = 0;
  pool_used = 0;
  pool_failures = 0;
  pool_peak = 0;
  last_report_time = now;
}

unfoldable pub latency_ns : MetricsPacket → ℕ
latency_ns packet = (packet.latency_cycles * 1000000000) % word64 / cpu_hz

-- The first statement of the inner loop's body, and the last.
unfoldable pub count_backpressure : MetricsPacket → MetricsWorker → MetricsWorker
count_backpressure packet w =
    if packet.type == backpressure_detected
    then record w { backpressure_events = (w.backpressure_events + 1) % word64 }
    else w

unfoldable pub count_latency : ℕ → MetricsWorker → MetricsWorker
count_latency ns w =
    if ltb ns num_buckets
    then record w {
      latency_buckets = update w.latency_buckets ns ((w.latency_buckets ns + 1) % word32);
    }
    else record w { latency_outliers = (w.latency_outliers + 1) % word64 }

-- The body of the inner loop.
unfoldable pub process : MetricsPacket → Logging → Logging
process packet l = record l {
  worker = count_latency (latency_ns packet) (count_backpressure packet l.worker);
  current_orders = packet.total_orders;
  current_trades = packet.total_trades;
  pool_used = packet.pool_used;
  pool_failures = packet.pool_failures;
  pool_peak = packet.pool_peak;
}

-- The inner loop, with `data_processed`: `none` where the fuel runs out.
unfoldable pub drain : ℕ → Bool → Logging → Option (Bool × Logging)
drain zero data_processed l = none
drain (suc fuel) data_processed l =
    let (item, queue) = Spsc.pop queue_capacity l.worker.queue in
    let popped = record l { worker = record l.worker { queue = queue } } in
    elim item [
      | none ↦ some (data_processed, popped)
      | some packet ↦ drain fuel true (process packet popped)
    ]

-- `total_samples`, from bucket `i` on for `n` buckets.
unfoldable pub add_buckets : (ℕ → ℕ) → ℕ → ℕ → ℕ → ℕ
add_buckets buckets zero i sum = sum
add_buckets buckets (suc n) i sum = add_buckets buckets n (i + 1) ((sum + buckets i) % word64)

unfoldable pub total_samples : MetricsWorker → ℕ
total_samples w = add_buckets w.latency_buckets num_buckets 0 w.latency_outliers

-- `none` where `hit_p50`, `hit_p99` or `hit_p999` is false.
pub record Percentiles : Type 0 where
  pub p50 : Option ℕ
  pub p99 : Option ℕ
  pub p999 : Option ℕ

-- What `total_samples` is multiplied to.
pub record Targets : Type 0 where
  pub target_p50 : ℕ
  pub target_p99 : ℕ
  pub target_p999 : ℕ

unfoldable pub mark : (target running_sum i : ℕ) → Option ℕ → Option ℕ
mark target running_sum i (some found) = some found
mark target running_sum i none = if leb target running_sum then some i else none

-- The loop over the buckets, from bucket `i` on for `n` buckets. It ends early at the last target.
unfoldable pub find_percentiles : (ℕ → ℕ) → Targets → ℕ → ℕ → ℕ → Percentiles → Percentiles
find_percentiles buckets g zero i running_sum p = p
find_percentiles buckets g (suc n) i running_sum p =
    let sum = (running_sum + buckets i) % word64 in
    let p' : Percentiles = record {
      p50 = mark g.target_p50 sum i p.p50;
      p99 = mark g.target_p99 sum i p.p99;
      p999 = mark g.target_p999 sum i p.p999;
    } in
    elim p'.p999 [ some found ↦ p' | none ↦ find_percentiles buckets g n (i + 1) sum p' ]

unfoldable pub value_or_zero : Option ℕ → ℕ
value_or_zero none = 0
value_or_zero (some n) = n

-- What the reports use of `double`.
pub record Double : Type 1 where
  pub Carrier : Type 0
  pub from_uint64 : ℕ → Carrier
  pub to_uint64 : Carrier → ℕ
  pub multiply : Carrier → Carrier → Carrier
  pub divide : Carrier → Carrier → Carrier
  -- The constants 0.0, 1.0, 0.50, 0.99 and 0.999.
  pub nought : Carrier
  pub one : Carrier
  pub half : Carrier
  pub most : Carrier
  pub nearly_all : Carrier

-- 250 ms
abbrev pub report_interval : ℕ
report_interval = 250000000

module _ (d : Double) where
  unfoldable pub targets : ℕ → Targets
  targets total_samples =
      let total = d.from_uint64 total_samples in
      record {
        target_p50 = d.to_uint64 (d.multiply total d.half);
        target_p99 = d.to_uint64 (d.multiply total d.most);
        target_p999 = d.to_uint64 (d.multiply total d.nearly_all);
      }

  unfoldable pub percentiles : MetricsWorker → Percentiles
  percentiles w =
      let total = total_samples w in
      let none_hit : Percentiles = record { p50 = none; p99 = none; p999 = none } in
      if ltb 0 total
      then find_percentiles w.latency_buckets (targets total) num_buckets 0 0 none_hit
      else none_hit

  unfoldable pub fill_rate : Logging → d.Carrier
  fill_rate l =
      if ltb 0 l.current_orders
      then d.divide (d.from_uint64 l.current_trades) (d.from_uint64 l.current_orders)
      else d.nought

  unfoldable pub pool_hit_rate : Logging → d.Carrier
  pool_hit_rate l =
      if ltb 0 l.current_orders
      then d.divide (d.from_uint64 (distance l.current_orders l.pool_failures))
          (d.from_uint64 l.current_orders)
      else d.one

  -- `delta_orders * 4`
  unfoldable pub throughput_ops : Logging → ℕ
  throughput_ops l = distance l.current_orders l.last_orders * 4 % word64

  -- The statements that write the message, in their order.
  unfoldable pub message : Logging → List (Piece d.Carrier)
  message l =
      let p = percentiles l.worker in
      literal (codes "{") 1
      ∷ literal (codes "\"latency_scope\":\"matching_core_isolated\",") 41
      ∷ literal (codes "\"clock_source\":\"rdtsc\",") 23
      ∷ literal (codes "\"cpu_hz_estimated\":3600000000,") 30
      ∷ literal (codes "\"total_orders\":") 15
      ∷ unsigned l.current_orders
      ∷ literal (codes ",") 1
      ∷ literal (codes "\"total_trades\":") 15
      ∷ unsigned l.current_trades
      ∷ literal (codes ",") 1
      ∷ literal (codes "\"fill_rate\":") 12
      ∷ fixed4 (fill_rate l)
      ∷ literal (codes ",") 1
      ∷ literal (codes "\"throughput_ops\":") 17
      ∷ unsigned (throughput_ops l)
      ∷ literal (codes ",") 1
      ∷ literal (codes "\"p50_latency_ns\":") 17
      ∷ unsigned (value_or_zero p.p50)
      ∷ literal (codes ",") 1
      ∷ literal (codes "\"p99_latency_ns\":") 17
      ∷ unsigned (value_or_zero p.p99)
      ∷ literal (codes ",") 1
      ∷ literal (codes "\"p999_latency_ns\":") 18
      ∷ unsigned (value_or_zero p.p999)
      ∷ literal (codes ",") 1
      ∷ literal (codes "\"pool_used_objects\":") 20
      ∷ unsigned l.pool_used
      ∷ literal (codes ",") 1
      ∷ literal (codes "\"pool_peak_objects\":") 20
      ∷ unsigned l.pool_peak
      ∷ literal (codes ",") 1
      ∷ literal (codes "\"memory_pool_hit_rate\":") 23
      ∷ fixed4 (pool_hit_rate l)
      ∷ literal (codes ",") 1
      ∷ literal (codes "\"ring_buffer_backpressure_events\":") 34
      ∷ unsigned l.worker.backpressure_events
      ∷ literal (codes "}\n") 2
      ∷ []

  -- One round of the loop at the time `now`: the bytes of the report, if one is due.
  unfoldable pub round : Charconv d.Carrier → ℕ → ℕ → Logging → Option (Option (List ℕ) × Logging)
  unfolding drain message put_all written clear
  round t fuel now l = elim (drain fuel false l) [
    | none ↦ none
    | some (data_processed, l') ↦ some (
        if leb report_interval (now - l'.last_report_time)
        then (
          some (written (put_all t (message l') clear)),
          record l' { last_report_time = now; last_orders = l'.current_orders },
        )
        else (none, l'))
  ]
