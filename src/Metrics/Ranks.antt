-- ===== src/Metrics/Ranks.antt =====
-- src/utils/MetricsWorker.cpp: the loop that finds the percentiles.
use sequitur.Prelude.{
  ℕ, zero, suc, ◌+◌, ◌-◌, ◌%◌, ◌≤◌, ◌<◌, ◌≡◌, refl, true, Option, none, some, ltb, leb, leb-le,
  leb-lt, ◌==◌, if◌then◌else◌, word64, arith, Bool-cases, inl, inr, sym, ◌∙◌, ap, ap₂, subst,
  eq_of_test, ne_of_test, ◌⊎◌,
}
use sequitur.Metrics.{
  MetricsWorker, Targets, Percentiles, num_buckets, mark, find_percentiles, targets, percentiles,
  value_or_zero, Double,
}
use sequitur.Metrics.Samples.{below, below_mono, samples, total_samples-samples}

-- Among the buckets below `n`, the first that brings the sum to the target; `none` if there is none.
abbrev pub IsFirst : (ℕ → ℕ) → ℕ → ℕ → Option ℕ → Type 0
IsFirst b target n none = (j : ℕ) → j < n → below b (suc j) < target
IsFirst b target n (some i) =
    (i < n) × (target ≤ below b (suc i)) × ((j : ℕ) → j < i → below b (suc j) < target)

mark-IsFirst :
    (b : ℕ → ℕ) (target n : ℕ) (r : Option ℕ)
    → IsFirst b target n r
    → IsFirst b target (suc n) (mark target (below b (suc n)) n r)
unfolding mark
mark-IsFirst b target n (some i) h = (omega arith, h.1, h.2)
mark-IsFirst b target n none h = elim (Bool-cases (leb target (below b (suc n)))) [
  | inl hit ↦ rw hit (omega arith, leb-le _ _ hit, h)
  | inr miss ↦ rw miss λ j k. elim (Bool-cases (j == n)) [
    | inl last ↦ subst (λ i. below b (suc i) < target) (sym (eq_of_test j n last)) (leb-lt _ _ miss)
    | inr old ↦ h j (omega (arith, ne_of_test j n old))
  ]
]

-- A first bucket stays the first when more buckets are looked at.
more-IsFirst :
    (b : ℕ → ℕ) (target n m i : ℕ)
    → n ≤ m
    → IsFirst b target n (some i)
    → IsFirst b target m (some i)
more-IsFirst b target n m i le h = (omega arith, h.1, h.2)

Option-cases : {A : Type 0} (o : Option A) → (o ≡ none) ⊎ ((x : A) × (o ≡ some x))
Option-cases none = inl refl
Option-cases (some x) = inr (x, refl)

module _ (b : ℕ → ℕ) (g : Targets) where
  abbrev pub AreFirst : ℕ → Percentiles → Type 0
  AreFirst n p =
      IsFirst b g.target_p50 n p.p50
      × IsFirst b g.target_p99 n p.p99
      × IsFirst b g.target_p999 n p.p999

  -- Where the last target is reached, the others are.
  settled :
      (target n m i : ℕ) (r : Option ℕ)
      → n ≤ m
      → target ≤ g.target_p999
      → IsFirst b g.target_p999 n (some i)
      → IsFirst b target n r
      → IsFirst b target m r
  settled target n m i (some j) le small last h = more-IsFirst b target n m j le h
  settled target n m i none le small (lt, reached, f) h = absurd (omega (arith, h i lt))

  -- What the loop has after bucket `i`.
  abbrev marked : ℕ → ℕ → Percentiles → Percentiles
  marked i sum p = record {
    p50 = mark g.target_p50 sum i p.p50;
    p99 = mark g.target_p99 sum i p.p99;
    p999 = mark g.target_p999 sum i p.p999;
  }

  stops :
      (n i running k : ℕ) (p : Percentiles)
      → (marked i ((running + b i) % word64) p).p999 ≡ some k
      → find_percentiles b g (suc n) i running p ≡ marked i ((running + b i) % word64) p
  unfolding find_percentiles
  stops n i running k p e =
      let p' = marked i ((running + b i) % word64) p in
      ap
        (λ (r : Option ℕ). elim r [
          | some found ↦ p'
          | none ↦ find_percentiles b g n (i + 1) ((running + b i) % word64) p'
        ])
        e

  goes_on :
      (n i running : ℕ) (p : Percentiles)
      → (marked i ((running + b i) % word64) p).p999 ≡ none
      → find_percentiles b g (suc n) i running p
        ≡ find_percentiles b g n
            (i + 1)
            ((running + b i) % word64)
            (marked i ((running + b i) % word64) p)
  unfolding find_percentiles
  goes_on n i running p e =
      let p' = marked i ((running + b i) % word64) p in
      ap
        (λ (r : Option ℕ). elim r [
          | some found ↦ p'
          | none ↦ find_percentiles b g n (i + 1) ((running + b i) % word64) p'
        ])
        e

  find_percentiles_lem :
      g.target_p50 ≤ g.target_p99
      → g.target_p99 ≤ g.target_p999
      → (n i m : ℕ) (p : Percentiles) → m ≡ n + i
      → below b m < word64
      → AreFirst i p
      → AreFirst m (find_percentiles b g n i (below b i) p)
  unfolding find_percentiles below
  find_percentiles_lem o o' zero i m p e small f =
      let same : i ≡ m = omega arith in subst (λ k. AreFirst k p) same f
  find_percentiles_lem o o' (suc n) i m p e small (f50, f99, f999) =
      let run = (below b i + b i) % word64 in
      let sum : run ≡ below b (suc i) = omega (arith, below_mono b (suc i) n m (omega arith)) in
      let p' = marked i (below b (suc i)) p in
      let m50 = mark-IsFirst b g.target_p50 i p.p50 f50 in
      let m99 = mark-IsFirst b g.target_p99 i p.p99 f99 in
      let m999 = mark-IsFirst b g.target_p999 i p.p999 f999 in
      elim (Option-cases p'.p999) [
        | inl hit ↦
            let rest =
              find_percentiles_lem o o' n (suc i) m p' (omega arith) small (m50, m99, m999) in
            subst (AreFirst m)
              (sym (
                goes_on n i (below b i) p (ap (λ k. (marked i k p).p999) sum ∙ hit)
                ∙ ap₂ (λ j k. find_percentiles b g n j k (marked i k p)) (omega arith) sum))
              rest
        | inr (k, hit) ↦
            let last = subst (IsFirst b g.target_p999 (suc i)) hit m999 in
            let le : suc i ≤ m = omega arith in
            subst (AreFirst m)
              (sym (
                stops n i (below b i) k p (ap (λ j. (marked i j p).p999) sum ∙ hit)
                ∙ ap (λ j. marked i j p) sum))
              (
                settled g.target_p50 (suc i) m k p'.p50 le (omega arith) last m50,
                settled g.target_p99 (suc i) m k p'.p99 le o' last m99,
                settled g.target_p999 (suc i) m k p'.p999 le (omega arith) last m999,
              )
      ]

pos_test : (n : ℕ) → 0 < n → ltb 0 n ≡ true
pos_test n h = ground arith

below-nought : (b : ℕ → ℕ) → below b 0 ≡ 0
unfolding below
below-nought b = refl

below-rest : (b : ℕ → ℕ) (i m : ℕ) → i ≤ m → below b i ≤ below b m
below-rest b i m h = below_mono b i (m - i) m (omega arith)

-- Let there be samples, fewer than 2^64, and let the three targets, as `double` computes them, be
-- in ascending order. Then each of the three percentiles is the first bucket whose samples, with
-- those of all buckets below it, reach the target, or is not found if all buckets together do not
-- reach it. The early end of the loop changes none of them.
pub percentiles_lem :
    (d : Double) (w : MetricsWorker)
    → samples w < word64
    → 0 < samples w
    → (targets d (samples w)).target_p50 ≤ (targets d (samples w)).target_p99
    → (targets d (samples w)).target_p99 ≤ (targets d (samples w)).target_p999
    → AreFirst w.latency_buckets (targets d (samples w)) num_buckets (percentiles d w)
unfolding percentiles samples
percentiles_lem d w small nonempty o o' =
    let b = w.latency_buckets in
    let total = total_samples-samples w small in
    let g = targets d (samples w) in
    let none_hit : Percentiles = record { p50 = none; p99 = none; p999 = none } in
    let found =
      find_percentiles_lem b g o o' num_buckets 0 num_buckets none_hit refl (omega arith)
        (λ j k. absurd (omega arith), λ j k. absurd (omega arith), λ j k. absurd (omega arith)) in
    subst
      (λ t.
        AreFirst b g num_buckets
          (if ltb 0 t then find_percentiles b (targets d t) num_buckets 0 0 none_hit else none_hit))
      (sym total)
      (subst
        (λ k.
          AreFirst b g num_buckets
            (if k then find_percentiles b g num_buckets 0 0 none_hit else none_hit))
        (sym (pos_test (samples w) nonempty))
        (subst (λ k. AreFirst b g num_buckets (find_percentiles b g num_buckets 0 k none_hit))
          (below-nought b) found))

-- Let there be samples, fewer than 2^64, and let the three targets be in ascending order. If the
-- samples in buckets, without the outliers, are fewer than the target of the 99th percentile, then
-- the report says 0 for the 99th and for the 99.9th percentile.
pub outlying_tail :
    (d : Double) (w : MetricsWorker)
    → samples w < word64
    → 0 < samples w
    → (targets d (samples w)).target_p50 ≤ (targets d (samples w)).target_p99
    → (targets d (samples w)).target_p99 ≤ (targets d (samples w)).target_p999
    → below w.latency_buckets num_buckets < (targets d (samples w)).target_p99
    → (value_or_zero (percentiles d w).p99 ≡ 0) × (value_or_zero (percentiles d w).p999 ≡ 0)
unfolding value_or_zero
outlying_tail d w small nonempty o o' few =
    let g = targets d (samples w) in
    let (f50, f99, f999) = percentiles_lem d w small nonempty o o' in
    (
      no_bucket g.target_p99 (percentiles d w).p99 few f99,
      no_bucket g.target_p999 (percentiles d w).p999 (omega arith) f999,
    )
  where
    no_bucket :
        (target : ℕ) (r : Option ℕ)
        → below w.latency_buckets num_buckets < target
        → IsFirst w.latency_buckets target num_buckets r
        → value_or_zero r ≡ 0
    no_bucket target none few h = refl
    no_bucket target (some i) few (lt, reached, h) =
        absurd (omega (arith, below-rest w.latency_buckets (suc i) num_buckets lt))
