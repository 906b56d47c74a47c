-- ===== src/RingBuffer/Batch.antt =====
-- `pop_batch` of the ring buffer.
use sequitur.Prelude.{ℕ, zero, suc, refl, List, [], ◌∷◌, ap, sym, ◌∙◌, subst}
use sequitur.Ring.{IsCapacity}
use sequitur.RingBuffer.Counts.{pop_batch-none, pop_batch-some}
use sequitur.RingBuffer.{RingBuffer, pop, pop_batch}
use sequitur.RingBuffer.Refine.{Holds, Agrees, pop_spec, pop_lem}

-- The `n` oldest items leave, or all of them.
unfoldable pub pop_batch_spec : {A : Type 0} → ℕ → List A → List A × List A
pop_batch_spec zero xs = ([], xs)
pop_batch_spec (suc n) [] = ([], [])
pop_batch_spec (suc n) (x ∷ xs) = let (ys, zs) = pop_batch_spec n xs in (x ∷ ys, zs)

module _ {A : Type 0} {c : ℕ} (v : IsCapacity c) where
  -- On a ring that holds the items `xs`, of a positive capacity below 2^64 that divides 2^64,
  -- `pop_batch` with the bound `max` appends the `max` oldest items, or all if there are fewer,
  -- oldest first, and the ring then holds the others. The stop flag stays.
  pub pop_batch_lem :
      (max : ℕ) (r : RingBuffer A) (xs : List A)
      → Holds c r xs
      → Agrees c r (pop_batch c max r) (pop_batch_spec max xs)
  unfolding pop_batch pop_batch_spec pop_spec
  pop_batch_lem zero r xs h = (refl, h, refl)
  pop_batch_lem (suc max) r [] h =
      let (answer, holds, flag) = pop_lem v r [] h in
      subst (λ out. Agrees c r out ([], [])) (sym (pop_batch-none c max r answer))
        (refl, holds, flag)
  pop_batch_lem (suc max) r (x ∷ xs) h =
      let (answer, holds, flag) = pop_lem v r (x ∷ xs) h in
      let (batch, holds', flag') = pop_batch_lem max (pop c r).1 xs holds in
      subst (λ out. Agrees c r out (pop_batch_spec (suc max) (x ∷ xs)))
        (sym (pop_batch-some c max r x answer)) (ap (λ l. x ∷ l) batch, holds', flag' ∙ flag)
