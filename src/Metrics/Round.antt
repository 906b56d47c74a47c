-- ===== src/Metrics/Round.antt =====
-- src/utils/MetricsWorker.cpp, one round of `logging_loop`: the packets in the queue, and the report.
use sequitur.Prelude.{
  ℕ, ◌-◌, ◌<◌, ◌≡◌, refl, Bool, false, Option, none, some, List, [], ◌∷◌, leb, if◌then◌else◌,
  word64, length, sym, subst,
}
use sequitur.Packets.{MetricsPacket}
use sequitur.Spsc.Refine.{Holds}
use sequitur.Metrics.{Logging, Double, queue_capacity, report_interval, round}
use sequitur.Metrics.Message.{Charconv}
use sequitur.Metrics.Counts.{Totals, totals, latest, IsWorker, Counted}
use sequitur.Metrics.Drain.{drain_lem}
use sequitur.Metrics.Text.{IsCharconv}
use sequitur.Metrics.Report.{IsTotals, IsShort, json, message-json}

pub record IsPacket (x : MetricsPacket) : Type 0 where
  pub orders : x.total_orders < word64
  pub trades : x.total_trades < word64
  pub used : x.pool_used < word64
  pub failures : x.pool_failures < word64
  pub peak : x.pool_peak < word64

abbrev pub ArePackets : List MetricsPacket → Type 0
ArePackets [] = Unit {0}
ArePackets (x ∷ xs) = IsPacket x × ArePackets xs

pub latest-IsTotals :
    (xs : List MetricsPacket) (g : Totals) → ArePackets xs → IsTotals g → IsTotals (latest xs g)
unfolding latest
latest-IsTotals [] g h v = v
latest-IsTotals (x ∷ xs) g (h, hs) v = latest-IsTotals xs _ hs (record {
  orders = h.orders;
  trades = h.trades;
  used = h.used;
  failures = h.failures;
  peak = h.peak;
})

module _ (d : Double) (digits : ℕ → List ℕ) (fixed : d.Carrier → List ℕ) where
  -- What a round leaves, where `due` says whether a report is.
  abbrev pub outcome : ℕ → Logging → Bool → Option (List ℕ) × Logging
  outcome now l due =
      if due
      then (
        some (json d digits fixed l),
        record l { last_report_time = now; last_orders = l.current_orders },
      )
      else (none, l)

  module _ (t : Charconv d.Carrier) (c : IsCharconv t digits fixed)
      (s : IsShort d digits fixed) where
    -- Let the metrics queue hold the packets `xs`, with `uint64_t` totals, the counters be in
    -- range and the fuel exceed the number of the packets; let `std::to_chars` write a text that
    -- fits, with at most 20 digits for a `uint64_t` and 25 characters for a rate. Then a round of
    -- `logging_loop` returns, with the queue empty and the packets counted. If 250 ms have passed
    -- since the last report it writes out the report of what is then counted, and keeps the time
    -- and the number of orders for the next one; otherwise it writes nothing.
    pub round_lem :
        (xs : List MetricsPacket) (fuel now : ℕ) (l : Logging)
        → Holds queue_capacity l.worker.queue xs
        → ArePackets xs
        → IsWorker l.worker
        → IsTotals (totals l)
        → length xs < fuel
        → (l' : Logging) × Holds queue_capacity l'.worker.queue []
          × Counted xs l l'
          × (round d t fuel now l
              ≡ some (outcome now l' (leb report_interval (now - l.last_report_time))))
    unfolding round
    round_lem xs fuel now l q h w v enough =
        let (l', drained, q', k) = drain_lem xs fuel false l q w enough in
        let v' = subst IsTotals (sym k.totals) (latest-IsTotals xs (totals l) h v) in
        let (e, short) = message-json d digits fixed t c s l' v' k.is_worker.backpressure in
        (l', q', k, rw (drained, round, e, k.reported.1) refl)
