-- ===== src/Metrics/Loop.antt =====
-- src/utils/MetricsWorker.cpp, `logging_loop`: what is counted and reported in any number of turns.
use sequitur.Prelude.{
  ℕ, ◌+◌, ◌-◌, ◌<◌, ◌≤◌, ◌≡◌, refl, Option, none, some, List, [], ◌∷◌, ◌++◌, leb, leb-le, leb-lt,
  word32, length, length-append, sym, subst, arith, Bool-cases, inl, inr, ap, ◌∙◌,
}
use sequitur.Packets.{MetricsPacket}
use sequitur.Ring.{pow-IsCapacity}
use sequitur.Spsc.Refine.{Holds, length-Holds}
use sequitur.Metrics.{
  MetricsWorker, Logging, Double, queue_capacity, report_interval, round, total_samples, start,
}
use sequitur.Metrics.Message.{Charconv}
use sequitur.Metrics.Counts.{Totals, totals, latest, IsWorker}
use sequitur.Metrics.Samples.{samples, samples-grown, total_samples-samples}
use sequitur.Metrics.Text.{IsCharconv}
use sequitur.Metrics.Report.{IsTotals, IsShort, json}
use sequitur.Metrics.Round.{ArePackets, outcome, round_lem, latest-IsTotals}
use sequitur.Metrics.Turns.{Turn, arrive, arrive-Holds, with_queue, logging_loop, logging_loop-some}

abbrev pub AllPackets : List Turn → Type 0
AllPackets [] = Unit {0}
AllPackets (e ∷ es) = ArePackets e.arrivals × AllPackets es

-- The packets that the core thread pushes.
abbrev pub arrived : List Turn → ℕ
arrived [] = 0
arrived (e ∷ es) = length e.arrivals + arrived es

-- There is a report in the turns in which at least 250 ms have passed since the last report, and in
-- those only.
abbrev pub Spaced : ℕ → List Turn → List (Option (List ℕ)) → Type 0
Spaced last [] [] = Unit {0}
Spaced last (e ∷ es) (none ∷ outs) = (e.now < last + report_interval) × Spaced last es outs
Spaced last (e ∷ es) (some bytes ∷ outs) = (last + report_interval ≤ e.now) × Spaced e.now es outs
Spaced last _ _ = ⊥

latest-append :
    (xs ys : List MetricsPacket) (g : Totals) → latest ys (latest xs g) ≡ latest (xs ++ ys) g
unfolding latest
latest-append [] ys g = refl
latest-append (x ∷ xs) ys g = latest-append xs ys _

-- The loop between two turns.
pub record IsLoop (l : Logging) : Type 0 where
  pub queue : Holds queue_capacity l.worker.queue []
  pub worker : IsWorker l.worker
  pub totals : IsTotals (totals l)

pub record Counts (xs : List MetricsPacket) (l l' : Logging) : Type 0 where
  pub is_loop : IsLoop l'
  pub samples : samples l'.worker ≡ samples l.worker + length xs
  pub totals : totals l' ≡ latest xs (totals l)

append-Counts :
    (xs ys : List MetricsPacket) (l m l' : Logging)
    → Counts xs l m
    → Counts ys m l'
    → Counts (xs ++ ys) l l'
append-Counts xs ys l m l' k k' = record {
  is_loop = k'.is_loop;
  samples = omega (arith, k.samples, k'.samples, length-append xs ys);
  totals = k'.totals ∙ ap (latest ys) k.totals ∙ latest-append xs ys (totals l);
}

module _ (d : Double) (digits : ℕ → List ℕ) (fixed : d.Carrier → List ℕ) (t : Charconv d.Carrier)
    (c : IsCharconv t digits fixed) (s : IsShort d digits fixed) (fuel : ℕ)
    (enough : queue_capacity < fuel) where
  -- One turn.
  turn_lem :
      (e : Turn) (l : Logging)
      → IsLoop l
      → ArePackets e.arrivals
      → samples l.worker + length e.arrivals < word32
      → (l' : Logging) × (round d t fuel e.now (with_queue (arrive e.arrivals l.worker.queue).1 l)
          ≡ some
              (outcome d digits fixed e.now l' (leb report_interval (e.now - l.last_report_time))))
        × Counts (arrive e.arrivals l.worker.queue).0 l l'
        × (length (arrive e.arrivals l.worker.queue).0 ≤ length e.arrivals)
        × (l'.last_report_time ≡ l.last_report_time)
  unfolding with_queue samples
  turn_lem e l v are small =
      let (h, are', few) = arrive-Holds e.arrivals l.worker.queue [] v.queue are in
      let (xs, q) = arrive e.arrivals l.worker.queue in
      let l0 = with_queue q l in
      let room : length xs ≤ queue_capacity =
        omega (arith, length-Holds (pow-IsCapacity 12 (omega arith)) q xs h, h.bounded) in
      let w : IsWorker l0.worker = record {
        buckets = v.worker.buckets;
        outliers = v.worker.outliers;
        backpressure = v.worker.backpressure;
      } in
      let (l', queue, k, done) =
        round_lem d digits fixed t c s xs fuel e.now l0 h are' w v.totals (omega arith) in
      (
        l',
        done,
        record {
          is_loop = record {
            queue = queue;
            worker = k.is_worker;
            totals = subst IsTotals (sym k.totals) (latest-IsTotals xs (totals l0) are' v.totals);
          };
          samples = samples-grown xs l0 l' k (omega arith);
          totals = k.totals;
        },
        few,
        k.reported.1,
      )

  -- Any number of turns.
  turns_lem :
      (es : List Turn) (l : Logging)
      → IsLoop l
      → AllPackets es
      → samples l.worker + arrived es < word32
      → (xs : List MetricsPacket) × (outs : List (Option (List ℕ))) × (l' : Logging) × (logging_loop
            d t fuel es l
          ≡ some (xs, outs, l'))
        × Counts xs l l'
        × (length xs ≤ arrived es)
        × Spaced l.last_report_time es outs
  unfolding logging_loop latest
  turns_lem [] l v are small = (
    [],
    [],
    l,
    refl,
    record { is_loop = v; samples = omega arith; totals = refl },
    omega arith,
    tt,
  )
  turns_lem (e ∷ es) l v (are, ares) small =
      let (l', done, k, few, kept) = turn_lem e l v are (omega arith) in
      let loop = k.is_loop in
      let count = k.samples in
      let arrivals = (arrive e.arrivals l.worker.queue).0 in
      elim (Bool-cases (leb report_interval (e.now - l.last_report_time))) [
        | inl due ↦
            let m : Logging = record l' {
              last_report_time = e.now;
              last_orders = l'.current_orders;
            } in
            let v' : IsLoop m = record {
              queue = loop.queue;
              worker = loop.worker;
              totals = loop.totals;
            } in
            let (ys, outs, l'', done', k', few', spaced) = turns_lem es m v' ares (omega arith) in
            (
              arrivals ++ ys,
              some (json d digits fixed l') ∷ outs,
              l'',
              logging_loop-some d t fuel e es l m l'' _ ys outs
                  (done ∙ ap (λ b. some (outcome d digits fixed e.now l' b)) due) done',
              append-Counts arrivals ys l m l''
                  (record { is_loop = v'; samples = k.samples; totals = k.totals }) k',
              omega (arith, length-append arrivals ys),
              (omega (arith, leb-le _ _ due), spaced),
            )
        | inr early ↦
            let (ys, outs, l'', done', k', few', spaced) =
              turns_lem es l' loop ares (omega arith) in
            (
              arrivals ++ ys,
              none ∷ outs,
              l'',
              logging_loop-some d t fuel e es l l' l'' _ ys outs
                  (done ∙ ap (λ b. some (outcome d digits fixed e.now l' b)) early) done',
              append-Counts arrivals ys l l' l'' k k',
              omega (arith, length-append arrivals ys),
              (omega (arith, leb-lt _ _ early), subst (λ last. Spaced last es outs) kept spaced),
            )
      ]

  -- Let `std::to_chars` write a text that fits, with at most 20 digits for a `uint64_t` and 25
  -- characters for a rate, and let the fuel exceed the capacity of the metrics queue. Start
  -- `logging_loop` with the queue empty and the counters in range, and let the core thread push
  -- any packets, with `uint64_t` totals, before each turn, while the samples with all those
  -- packets stay below 2^32. Then for any number of turns the loop returns, with the queue empty:
  -- each packet that got into the queue is counted as one sample; the totals are those of the last
  -- of these packets, or 0 if there is none; and there is a report in the turns in which at least
  -- 250 ms have passed since the last report, or since the start, and in no other.
  pub logging_loop_lem :
      (es : List Turn) (worker : MetricsWorker) (now : ℕ)
      → Holds queue_capacity worker.queue []
      → IsWorker worker
      → AllPackets es
      → samples worker + arrived es < word32
      → (xs : List MetricsPacket) × (outs : List (Option (List ℕ))) × (l' : Logging) × (logging_loop
            d t fuel es
            (start worker now)
          ≡ some (xs, outs, l'))
        × Holds queue_capacity l'.worker.queue []
        × (length xs ≤ arrived es)
        × (total_samples l'.worker ≡ total_samples worker + length xs)
        × (totals l' ≡ latest xs (totals (start worker now)))
        × Spaced now es outs
  unfolding start
  logging_loop_lem es worker now q w packets small =
      let l = start worker now in
      let nothing : IsTotals (totals l) = record {
        orders = omega arith;
        trades = omega arith;
        used = omega arith;
        failures = omega arith;
        peak = omega arith;
      } in
      let v : IsLoop l = record { queue = q; worker = w; totals = nothing } in
      let (xs, outs, l', done, k, few, spaced) = turns_lem es l v packets small in
      let counted = k.samples in
      let now_is = total_samples-samples l'.worker (omega arith) in
      let was = total_samples-samples worker (omega arith) in
      (xs, outs, l', done, k.is_loop.queue, few, omega arith, k.totals, spaced)
