-- ===== src/Egress/Span.antt =====
-- The packets in a ring between two indexes.
use sequitur.Prelude.{
  ℕ, zero, suc, ◌+◌, ◌-◌, ◌%◌, ◌≤◌, ◌<◌, ◌≡◌, refl, ◌≢◌, List, [], ◌∷◌, ◌++◌, update, update_ne,
  arith, ap, ap₂, ◌∙◌,
}
use sequitur.Core.{ring_size}

module _ {A : Type 0} where
  -- The `n` packets from index `i` on.
  unfoldable pub span : (ℕ → A) → ℕ → ℕ → List A
  span ring i zero = []
  span ring i (suc n) = ring (i % ring_size) ∷ span ring (i + 1) n

  pub span-zero : (ring : ℕ → A) (i : ℕ) → span ring i 0 ≡ []
  unfolding span
  span-zero ring i = refl

  pub span-suc :
      (ring : ℕ → A) (i w : ℕ)
      → i < w
      → span ring i (w - i) ≡ ring (i % ring_size) ∷ span ring (i + 1) (w - (i + 1))
  unfolding span
  span-suc ring i w h = ap (span ring i) (split w h)
    where
      split : (w : ℕ) → i < w → w - i ≡ suc (w - (i + 1))
      split w h = omega arith

  -- A write of a slot beyond the packets.
  pub span-update :
      (ring : ℕ → A) (x : A) (i n w : ℕ)
      → i + n ≤ w
      → w < i + ring_size
      → span (update ring (w % ring_size) x) i n ≡ span ring i n
  unfolding span
  span-update ring x i zero w lo hi = refl
  span-update ring x i (suc n) w lo hi =
      ap₂ (λ y ys. y ∷ ys) (update_ne ring (w % ring_size) (i % ring_size) x (other i n w lo hi))
        (span-update ring x (i + 1) n w (omega arith) (omega arith))
    where
      other : (i n w : ℕ) → i + suc n ≤ w → w < i + ring_size → i % ring_size ≢ w % ring_size
      other i n w lo hi e = omega arith

  pub span_next :
      (ring : ℕ → A) (i n : ℕ)
      → span ring i (n + 1) ≡ span ring i n ++ ring ((i + n) % ring_size) ∷ []
  unfolding span
  span_next ring i zero = ap (λ j. ring (j % ring_size) ∷ []) (omega arith)
  span_next ring i (suc n) =
      ap (span ring i) (shift n)
      ∙ ap (λ ys. ring (i % ring_size) ∷ ys) (span_next ring (i + 1) n)
      ∙ ap (λ j. ring (i % ring_size) ∷ span ring (i + 1) n ++ ring (j % ring_size) ∷ []) (along n)
    where
      shift : (n : ℕ) → suc n + 1 ≡ suc (n + 1)
      shift n = omega arith

      along : (n : ℕ) → i + 1 + n ≡ i + suc n
      along n = omega arith
