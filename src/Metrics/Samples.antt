-- ===== src/Metrics/Samples.antt =====
-- src/utils/MetricsWorker.cpp: `total_samples` is the number of the packets counted.
use sequitur.Prelude.{
  ℕ, zero, suc, ◌+◌, ◌%◌, ◌≤◌, ◌<◌, ◌≡◌, refl, List, [], ◌∷◌, ltb, ◌==◌, if◌then◌else◌, word32,
  word64, length, arith, Bool-cases, inl, inr, sym, ◌∙◌, ap, ap₂, subst, eq_of_test, ne_of_test,
}
use sequitur.Packets.{MetricsPacket}
use sequitur.Metrics.{MetricsWorker, Logging, num_buckets, latency_ns, add_buckets, total_samples}
use sequitur.Metrics.Counts.{with_latency, outlying, Counted}

-- The sum of the buckets below `n`.
unfoldable pub below : (ℕ → ℕ) → ℕ → ℕ
below b zero = 0
below b (suc n) = below b n + b n

-- The samples that a worker has counted.
unfoldable pub samples : MetricsWorker → ℕ
samples w = w.latency_outliers + below w.latency_buckets num_buckets

pub below_mono : (b : ℕ → ℕ) (i n m : ℕ) → m ≡ n + i → below b i ≤ below b m
unfolding below
below_mono b i zero m e = omega (arith, ap (below b) (e ∙ plain))
  where
    plain : 0 + i ≡ i
    plain = omega arith
below_mono b i (suc n) m e =
    let h = below_mono b i n (n + i) refl in
    let shift : m ≡ suc (n + i) = omega arith in omega (arith, h, ap (below b) shift)

bucket-below : (b : ℕ → ℕ) (n i : ℕ) → i < n → b i ≤ below b n
unfolding below
bucket-below b zero i h = absurd (omega arith)
bucket-below b (suc n) i h = elim (Bool-cases (i == n)) [
  | inl hit ↦ subst (λ j. b j ≤ below b n + b n) (sym (eq_of_test i n hit)) (omega arith)
  | inr miss ↦ omega (arith, bucket-below b n i (omega (arith, ne_of_test i n miss)))
]

below-add :
    (b c d : ℕ → ℕ) (n : ℕ)
    → ((i : ℕ) → i < n → d i ≡ b i + c i)
    → below d n ≡ below b n + below c n
unfolding below
below-add b c d zero h = refl
below-add b c d (suc n) h =
    omega (arith, below-add b c d n (λ i k. h i (omega arith)), h n (omega arith))

pub below-zero : (n : ℕ) → below (λ _. 0) n ≡ 0
unfolding below
below-zero zero = refl
below-zero (suc n) = omega (arith, below-zero n)

below-hit : (k n : ℕ) → below (λ i. if k == i then 1 else 0) n ≡ (if ltb k n then 1 else 0)
unfolding below
below-hit k zero = ground arith
below-hit k (suc n) = ground (arith, below-hit k n)

-- The loop that adds the buckets up.
add_buckets_lem :
    (b : ℕ → ℕ) (n i m t : ℕ)
    → m ≡ n + i
    → t + below b m < word64
    → add_buckets b n i (t + below b i) ≡ t + below b m
unfolding add_buckets below
add_buckets_lem b zero i m t e h = ap (λ k. t + below b k) (omega arith)
add_buckets_lem b (suc n) i m t e h =
    let fits : (t + below b i + b i) % word64 ≡ t + below b (suc i) =
      omega (arith, below_mono b (suc i) n m (omega arith)) in
    let next : i + 1 ≡ suc i = omega arith in
    ap₂ (add_buckets b n) next fits ∙ add_buckets_lem b n (suc i) m t (omega arith) h

pub total_samples-samples : (w : MetricsWorker) → samples w < word64 → total_samples w ≡ samples w
unfolding total_samples samples below
total_samples-samples w h =
    ap (add_buckets w.latency_buckets num_buckets 0) (omega arith)
    ∙ add_buckets_lem w.latency_buckets num_buckets 0 num_buckets w.latency_outliers refl h

-- Each packet is in one bucket, or is an outlier.
sorted_out :
    (xs : List MetricsPacket)
    → below (λ ns. with_latency ns xs) num_buckets + outlying xs ≡ length xs
unfolding with_latency outlying
sorted_out [] = omega (arith, below-zero num_buckets)
sorted_out (x ∷ xs) =
    let split =
      below-add (λ ns. if latency_ns x == ns then 1 else 0) (λ ns. with_latency ns xs)
        (λ ns. with_latency ns (x ∷ xs)) num_buckets (λ i h. refl) in
    ground (arith, split, below-hit (latency_ns x) num_buckets, sorted_out xs)

pub samples-grown :
    (xs : List MetricsPacket) (l l' : Logging)
    → Counted xs l l'
    → samples l.worker + length xs < word32
    → samples l'.worker ≡ samples l.worker + length xs
unfolding samples
samples-grown xs l l' k small =
    let b = l.worker.latency_buckets in
    let c : ℕ → ℕ = λ ns. with_latency ns xs in
    let all = sorted_out xs in
    let grown = below-add b c l'.worker.latency_buckets num_buckets (λ ns h. omega (
      arith,
      k.buckets ns h,
      bucket-below b num_buckets ns h,
      bucket-below c num_buckets ns h,
      all,
      samples_is l.worker,
    )) in
    omega (arith, grown, all, k.outliers, samples_is l.worker, samples_is l'.worker)
  where
    samples_is :
        (w : MetricsWorker) → samples w ≡ w.latency_outliers + below w.latency_buckets num_buckets
    samples_is w = refl

-- If between `l` and `l'` the packets `xs` are counted as the inner loop counts them, and the
-- samples, with those of `xs`, stay below 2^32, then the sum that `total_samples` computes is the
-- number of samples before, and has grown by exactly the number of the packets after: each is in
-- one bucket or is an outlier.
pub samples_lem :
    (xs : List MetricsPacket) (l l' : Logging)
    → Counted xs l l'
    → samples l.worker + length xs < word32
    → (total_samples l.worker ≡ samples l.worker)
      × (total_samples l'.worker ≡ total_samples l.worker + length xs)
samples_lem xs l l' k small =
    let after = samples-grown xs l l' k small in
    let old = total_samples-samples l.worker (omega arith) in
    (old, omega (arith, total_samples-samples l'.worker (omega (arith, after)), after, old))
