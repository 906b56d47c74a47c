-- ===== src/Metrics/Tests.antt =====
-- The telemetry thread, on two packets in its queue.
use sequitur.Prelude.{
  length, ℕ, List, Option, ◌≤◌, ◌+◌, ◌-◌, ◌<◌, ◌≡◌, refl, true, false, some, [], ◌∷◌, leb, update,
  arith,
}
use sequitur.Packets.{MetricsPacket, order_processed, backpressure_detected}
use sequitur.Spsc.{SpscQueue}
use sequitur.Spsc
use sequitur.Ring.{pow-IsCapacity}
use sequitur.Spsc.Refine.{Holds, create-Holds}
use sequitur.Metrics.{
  MetricsWorker, Logging, start, num_buckets, queue_capacity, report_interval, latency_ns,
  total_samples, percentiles, value_or_zero, targets, drain, round, message, process, count_latency,
  count_backpressure,
}
use sequitur.Metrics.Message.{written, put_all, clear, buffer_size}
use sequitur.Metrics.Counts.{
  IsWorker, Counted, totals, latest, Counted-more, Counted-none, process-IsWorker,
}
use sequitur.Metrics.Drain.{drain_lem}
use sequitur.Metrics.Samples.{samples, below, below-zero, samples_lem}
use sequitur.Metrics.Ranks.{AreFirst, percentiles_lem, outlying_tail}
use sequitur.Metrics.Report.{json, IsTotals, message-json}
use sequitur.Metrics.Round.{ArePackets, outcome, round_lem}
use sequitur.Metrics.Turns.{Turn, logging_loop}
use sequitur.Metrics.Loop.{Spaced, logging_loop_lem}
use sequitur.Metrics.Sample.{
  thousandths, digits, fixed, charconv, charconv-IsCharconv, thousandths-IsShort,
}

-- 36 cycles are 10 ns; 18000 are 5000 ns, for which there is no bucket.
abbrev quick : MetricsPacket
quick = record {
  type = order_processed;
  latency_cycles = 36;
  total_orders = 1;
  total_trades = 0;
  pool_used = 1;
  pool_failures = 0;
  pool_peak = 1;
  pool_capacity = 8;
}

abbrev slow : MetricsPacket
slow = record {
  type = backpressure_detected;
  latency_cycles = 18000;
  total_orders = 2;
  total_trades = 1;
  pool_used = 0;
  pool_failures = 0;
  pool_peak = 1;
  pool_capacity = 8;
}

two_latencies : (latency_ns quick ≡ 10) × (latency_ns slow ≡ 5000)
unfolding latency_ns
two_latencies = (refl, refl)

abbrev two_packets : SpscQueue MetricsPacket
two_packets = record {
  buffer = update (λ _. slow) 0 quick;
  tail = 2;
  head = 0;
  cached_head = 0;
  stop_flag = false;
}

two_packets-Holds : Holds queue_capacity two_packets (quick ∷ slow ∷ [])
two_packets-Holds = record {
  items = refl;
  bounded = omega arith;
  behind = omega arith;
  tail_in = omega arith;
  head_in = omega arith;
  cached_in = omega arith;
}

abbrev worker : MetricsWorker
worker = record {
  queue = two_packets;
  latency_buckets = λ _. 0;
  latency_outliers = 0;
  backpressure_events = 0;
}

worker-IsWorker : IsWorker worker
worker-IsWorker = record {
  buckets = λ ns. omega arith;
  outliers = omega arith;
  backpressure = omega arith;
}

abbrev logging : Logging
logging = record {
  worker = worker;
  last_orders = 0;
  current_orders = 0;
  current_trades = 0;
  pool_used = 0;
  pool_failures = 0;
  pool_peak = 0;
  last_report_time = 0;
}

started : start worker 0 ≡ logging
unfolding start
started = refl

drain_lem_example :
    (l' : Logging) × (drain 3 false logging ≡ some (true, l'))
    × Holds queue_capacity l'.worker.queue []
    × Counted (quick ∷ slow ∷ []) logging l'
drain_lem_example =
    drain_lem (quick ∷ slow ∷ []) 3 false logging two_packets-Holds worker-IsWorker (omega arith)

logging-IsTotals : IsTotals (totals logging)
logging-IsTotals = record {
  orders = omega arith;
  trades = omega arith;
  used = omega arith;
  failures = omega arith;
  peak = omega arith;
}

packets-ArePackets : ArePackets (quick ∷ slow ∷ [])
packets-ArePackets = ground arith

message-json_example :
    (written (put_all charconv (message thousandths logging) clear)
      ≡ json thousandths digits fixed logging)
    × ((put_all charconv (message thousandths logging) clear).ptr < buffer_size)
message-json_example =
    message-json thousandths digits fixed charconv charconv-IsCharconv thousandths-IsShort logging
      logging-IsTotals (omega arith)

round_lem_example :
    (l' : Logging) × Holds queue_capacity l'.worker.queue []
    × Counted (quick ∷ slow ∷ []) logging l'
    × (round thousandths charconv 3 300000000 logging
        ≡ some
            (outcome thousandths digits fixed 300000000 l' (leb report_interval (300000000 - 0))))
round_lem_example =
    round_lem thousandths digits fixed charconv charconv-IsCharconv thousandths-IsShort
      (quick ∷ slow ∷ []) 3 300000000 logging two_packets-Holds packets-ArePackets worker-IsWorker
      logging-IsTotals (omega arith)

-- The first packet is counted.
abbrev counted : Logging
counted = process quick logging

counted-IsWorker : IsWorker counted.worker
counted-IsWorker = process-IsWorker quick logging worker-IsWorker

quick-Counted : Counted (quick ∷ []) logging counted
quick-Counted =
    Counted-more quick [] logging counted worker-IsWorker (Counted-none counted counted-IsWorker)

samples_lem_example :
    (total_samples worker ≡ samples worker)
    × (total_samples counted.worker ≡ total_samples worker + 1)
unfolding samples
samples_lem_example =
    samples_lem (quick ∷ []) logging counted quick-Counted (omega (arith, below-zero num_buckets))

counted-samples : samples counted.worker ≡ 1
unfolding samples below process count_latency count_backpressure latency_ns
counted-samples = refl

percentiles_lem_example :
    AreFirst counted.worker.latency_buckets
      (targets thousandths (samples counted.worker))
      num_buckets
      (percentiles thousandths counted.worker)
unfolding targets
percentiles_lem_example =
    percentiles_lem thousandths counted.worker (omega (arith, counted-samples))
      (omega (arith, counted-samples)) (omega (arith, counted-samples))
      (omega (arith, counted-samples))

-- Two outliers, and no sample in a bucket.
abbrev slow_worker : MetricsWorker
slow_worker = record worker { latency_outliers = 2 }

outlying_tail_example :
    (value_or_zero (percentiles thousandths slow_worker).p99 ≡ 0)
    × (value_or_zero (percentiles thousandths slow_worker).p999 ≡ 0)
unfolding targets samples
outlying_tail_example =
    let empty = below-zero num_buckets in
    outlying_tail thousandths slow_worker (omega (arith, empty)) (omega (arith, empty))
      (omega (arith, empty)) (omega (arith, empty)) (omega (arith, empty))

-- Two packets and, 300 ms later, one more.
abbrev two_turns : List Turn
two_turns =
    record { arrivals = quick ∷ slow ∷ []; now = 100 }
    ∷ record { arrivals = quick ∷ []; now = 300000100 }
    ∷ []

abbrev new_worker : MetricsWorker
new_worker = record worker { queue = Spsc.create (λ _. quick) }

new_worker-IsWorker : IsWorker new_worker
new_worker-IsWorker = record {
  buckets = worker-IsWorker.buckets;
  outliers = worker-IsWorker.outliers;
  backpressure = worker-IsWorker.backpressure;
}

new_worker-samples : samples new_worker ≡ 0
unfolding samples
new_worker-samples = omega (arith, below-zero num_buckets)

logging_loop_lem_example :
    (xs : List MetricsPacket) × (outs : List (Option (List ℕ))) × (l' : Logging) × (logging_loop
        thousandths charconv 5000 two_turns
        (start new_worker 0)
      ≡ some (xs, outs, l'))
    × Holds queue_capacity l'.worker.queue []
    × (length xs ≤ 3)
    × (total_samples l'.worker ≡ total_samples new_worker + length xs)
    × (totals l' ≡ latest xs (totals (start new_worker 0)))
    × Spaced 0 two_turns outs
logging_loop_lem_example =
    logging_loop_lem thousandths digits fixed charconv charconv-IsCharconv thousandths-IsShort 5000
      (omega arith) two_turns new_worker 0
      (create-Holds (pow-IsCapacity 12 (omega arith)) (λ _. quick)) new_worker-IsWorker
      (packets-ArePackets, ((packets-ArePackets.0, tt), tt)) (omega (arith, new_worker-samples))
