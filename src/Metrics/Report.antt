-- ===== src/Metrics/Report.antt =====
-- src/utils/MetricsWorker.cpp, the report: what its message says, and that it fits.
use sequitur.Prelude.{
  ℕ, zero, suc, ◌+◌, ◌%◌, ◌≤◌, ◌<◌, ◌≡◌, refl, true, false, Option, none, some, List, [], ◌∷◌, ◌++◌,
  ltb, if◌then◌else◌, word64, length, arith, ◌∙◌, Bool-cases, inl, inr, ltb-lt,
}
use sequitur.Ring.{distance}
use sequitur.Metrics.{
  MetricsWorker, Logging, Double, Percentiles, Targets, num_buckets, mark, find_percentiles,
  targets, percentiles, value_or_zero, fill_rate, pool_hit_rate, throughput_ops, message,
  total_samples,
}
use sequitur.Metrics.Message.{buffer_size, clear, Charconv, put_all, written, codes, bytes_from}
use sequitur.Metrics.Counts.{Totals, totals}
use sequitur.Metrics.Text.{IsCharconv, put_all_lem, texts, most_of, AreExact}

-- The values of the fields are those of a `uint64_t`.
pub record IsTotals (g : Totals) : Type 0 where
  pub orders : g.orders < word64
  pub trades : g.trades < word64
  pub used : g.used < word64
  pub failures : g.failures < word64
  pub peak : g.peak < word64

-- The values that a report shows are buckets.
record AreBuckets (p : Percentiles) : Type 0 where
  p50 : value_or_zero p.p50 < num_buckets
  p99 : value_or_zero p.p99 < num_buckets
  p999 : value_or_zero p.p999 < num_buckets

mark_small :
    (target sum i : ℕ) (r : Option ℕ)
    → i < num_buckets
    → value_or_zero r < num_buckets
    → value_or_zero (mark target sum i r) < num_buckets
unfolding mark value_or_zero
mark_small target sum i none h k = ground arith
mark_small target sum i (some j) h k = k

find_percentiles-AreBuckets :
    (b : ℕ → ℕ) (g : Targets) (n i sum : ℕ) (p : Percentiles)
    → n + i ≤ num_buckets
    → AreBuckets p
    → AreBuckets (find_percentiles b g n i sum p)
unfolding find_percentiles
find_percentiles-AreBuckets b g zero i sum p h v = v
find_percentiles-AreBuckets b g (suc n) i sum p h v =
    let sum' = (sum + b i) % word64 in
    let p' : Percentiles = record {
      p50 = mark g.target_p50 sum' i p.p50;
      p99 = mark g.target_p99 sum' i p.p99;
      p999 = mark g.target_p999 sum' i p.p999;
    } in
    let v' : AreBuckets p' = record {
      p50 = mark_small g.target_p50 sum' i p.p50 (omega arith) v.p50;
      p99 = mark_small g.target_p99 sum' i p.p99 (omega arith) v.p99;
      p999 = mark_small g.target_p999 sum' i p.p999 (omega arith) v.p999;
    } in
    let rest = find_percentiles-AreBuckets b g n (i + 1) sum' p' (omega arith) v' in
    elim p'.p999
      as (λ (r : Option ℕ).
        AreBuckets (elim r [ some found ↦ p' | none ↦ find_percentiles b g n (i + 1) sum' p' ])) [
          | some found ↦ v'
          | none ↦ rest
        ]

abbrev join : List (List ℕ) → List ℕ
join [] = []
join (x ∷ xs) = x ++ join xs

infixr 4 ◌&◌
abbrev ◌&◌ : {P Q : Type 0} → P → Q → P × Q
p & q = (p, q)

none_hit-AreBuckets : AreBuckets (record { p50 = none; p99 = none; p999 = none })
unfolding value_or_zero
none_hit-AreBuckets = record { p50 = omega arith; p99 = omega arith; p999 = omega arith }

module _ (d : Double) where
  percentiles-AreBuckets : (w : MetricsWorker) → AreBuckets (percentiles d w)
  unfolding percentiles
  percentiles-AreBuckets w =
      let none_hit : Percentiles = record { p50 = none; p99 = none; p999 = none } in
      let blank = none_hit-AreBuckets in
      elim (ltb 0 (total_samples w))
        as (λ k. AreBuckets (
          if k
          then find_percentiles w.latency_buckets (targets d (total_samples w)) num_buckets 0 0
              none_hit
          else none_hit)) [
            | true ↦
                find_percentiles-AreBuckets w.latency_buckets (targets d (total_samples w))
                  num_buckets 0 0 none_hit (omega arith) blank
            | false ↦ blank
          ]

module _ (d : Double) (digits : ℕ → List ℕ) (fixed : d.Carrier → List ℕ) where
  -- The report that the totals and counters of `l` make.
  unfoldable pub json : Logging → List ℕ
  json l =
      let p = percentiles d l.worker in
      join (
        codes
          "{\"latency_scope\":\"matching_core_isolated\",\"clock_source\":\"rdtsc\",\"cpu_hz_estimated\":3600000000,\"total_orders\":"
        ∷ digits l.current_orders
        ∷ codes ",\"total_trades\":"
        ∷ digits l.current_trades
        ∷ codes ",\"fill_rate\":"
        ∷ fixed (fill_rate d l)
        ∷ codes ",\"throughput_ops\":"
        ∷ digits (throughput_ops d l)
        ∷ codes ",\"p50_latency_ns\":"
        ∷ digits (value_or_zero p.p50)
        ∷ codes ",\"p99_latency_ns\":"
        ∷ digits (value_or_zero p.p99)
        ∷ codes ",\"p999_latency_ns\":"
        ∷ digits (value_or_zero p.p999)
        ∷ codes ",\"pool_used_objects\":"
        ∷ digits l.pool_used
        ∷ codes ",\"pool_peak_objects\":"
        ∷ digits l.pool_peak
        ∷ codes ",\"memory_pool_hit_rate\":"
        ∷ fixed (pool_hit_rate d l)
        ∷ codes ",\"ring_buffer_backpressure_events\":"
        ∷ digits l.worker.backpressure_events
        ∷ codes "}\n"
        ∷ [])

  -- The four decimals of a rate take at most 25 characters.
  pub record IsShort : Type 0 where
    pub quotient :
        (a b : ℕ)
        → a < word64
        → 0 < b
        → b < word64
        → length (fixed (d.divide (d.from_uint64 a) (d.from_uint64 b))) ≤ 25
    pub nought : length (fixed d.nought) ≤ 25
    pub one : length (fixed d.one) ≤ 25

  fill_rate_short :
      (l : Logging) → IsShort → IsTotals (totals l) → length (fixed (fill_rate d l)) ≤ 25
  unfolding fill_rate
  fill_rate_short l s v = elim (Bool-cases (ltb 0 l.current_orders)) [
    | inl pos ↦
        rw pos (s.quotient l.current_trades l.current_orders v.trades (ltb-lt _ _ pos) v.orders)
    | inr none_yet ↦ rw none_yet s.nought
  ]

  hit_rate_short :
      (l : Logging) → IsShort → IsTotals (totals l) → length (fixed (pool_hit_rate d l)) ≤ 25
  unfolding pool_hit_rate
  hit_rate_short l s v = elim (Bool-cases (ltb 0 l.current_orders)) [
    | inl pos ↦ rw pos (
        s.quotient (distance l.current_orders l.pool_failures) l.current_orders (omega arith)
          (ltb-lt _ _ pos) v.orders)
    | inr none_yet ↦ rw none_yet s.one
  ]

  texts-json : (l : Logging) → texts digits fixed (message d l) ≡ json l
  unfolding message json
  texts-json l = refl

  most-message : (l : Logging) → most_of digits fixed (message d l) ≡ 545
  unfolding message
  most-message l = refl

  throughput_small : (l : Logging) → throughput_ops d l < word64
  unfolding throughput_ops
  throughput_small l = omega arith

  message-AreExact :
      (l : Logging)
      → IsShort
      → IsTotals (totals l)
      → l.worker.backpressure_events < word64
      → AreExact digits fixed (message d l)
  unfolding message
  message-AreExact l s v h =
      let a = percentiles-AreBuckets d l.worker in
      let throughput = throughput_small l in
      (refl
        & refl
        & refl
        & refl
        & refl
        & v.orders
        & refl
        & refl
        & v.trades
        & refl
        & refl
        & fill_rate_short l s v
        & refl
        & refl
        & throughput
        & refl
        & refl
        & omega (arith, a.p50)
        & refl
        & refl
        & omega (arith, a.p99)
        & refl
        & refl
        & omega (arith, a.p999)
        & refl
        & refl
        & v.used
        & refl
        & refl
        & v.peak
        & refl
        & refl
        & hit_rate_short l s v
        & refl
        & refl
        & h
        & refl
        & tt)

  module _ (t : Charconv d.Carrier) (c : IsCharconv t digits fixed) (s : IsShort) where
    -- Let `std::to_chars` write a text that fits, with at most 20 digits for a `uint64_t` and 25
    -- characters for a rate, and let the totals and the backpressure events be `uint64_t`. Then
    -- the message is the whole report: no statement that writes to the buffer of 1024 bytes is
    -- skipped or cut, each literal's length is right, and the buffer is not full at the end.
    pub message-json :
        (l : Logging)
        → IsTotals (totals l)
        → l.worker.backpressure_events < word64
        → (written (put_all t (message d l) clear) ≡ json l)
          × ((put_all t (message d l) clear).ptr < buffer_size)
    unfolding clear written bytes_from
    message-json l v h =
        let most = most-message l in
        let (e, le) =
          put_all_lem digits fixed t c (message d l) clear (message-AreExact l s v h)
            (omega arith) in
        (e ∙ texts-json l, omega arith)
