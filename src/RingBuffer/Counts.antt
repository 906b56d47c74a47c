-- ===== src/RingBuffer/Counts.antt =====
-- The counters of the ring buffer.
use sequitur.Prelude.{
  ℕ, zero, suc, ◌+◌, ◌%◌, ◌<◌, ◌≡◌, refl, Bool, true, false, Option, none, some, List, [], ◌∷◌,
  arith, ◌==◌, if◌then◌else◌, length, word64, ap, sym, ◌∙◌, inl, inr, Bool-cases, subst,
  Option-cases,
}
use sequitur.RingBuffer.{RingBuffer, push, pop, pop_batch}

-- The pops counted after a `pop` that gave `o`.
abbrev pub popped : {A : Type 0} → RingBuffer A → Option A → ℕ
popped r none = r.pop_count
popped r (some x) = (r.pop_count + 1) % word64

module _ {A : Type 0} (c : ℕ) where
  -- The counters after a `push` on a live ring that answered `b`.
  abbrev pub Pushed : Bool → RingBuffer A → RingBuffer A → Type 0
  Pushed b r r' =
      (r'.push_count ≡ (if b then (r.push_count + 1) % word64 else r.push_count))
      × (r'.push_rejects ≡ (if b then r.push_rejects else (r.push_rejects + 1) % word64))
      × (r'.pop_count ≡ r.pop_count)

  pub push-Pushed :
      (r : RingBuffer A) (x : A) → r.stop_flag ≡ false → Pushed (push c x r).0 r (push c x r).1
  unfolding push
  push-Pushed r x live = elim (Bool-cases ((r.tail + 1) % word64 % c == r.head % c)) [
    | inl full ↦ rw (live, full) (refl, refl, refl)
    | inr room ↦ rw (live, room) (refl, refl, refl)
  ]

  pub push-stopped : (r : RingBuffer A) (x : A) → r.stop_flag ≡ true → push c x r ≡ (false, r)
  unfolding push
  push-stopped r x dead = rw dead refl

  pub pop-counts :
      (r : RingBuffer A)
      → ((pop c r).1.push_count ≡ r.push_count)
        × ((pop c r).1.push_rejects ≡ r.push_rejects)
        × ((pop c r).1.pop_count ≡ popped r (pop c r).0)
  unfolding pop
  pop-counts r = elim (Bool-cases (r.head == r.tail)) [
    | inl none_left ↦ rw none_left (refl, refl, refl)
    | inr some_left ↦ rw some_left (refl, refl, refl)
  ]

  pub pop_batch-none :
      (max : ℕ) (r : RingBuffer A)
      → (pop c r).0 ≡ none
      → pop_batch c (suc max) r ≡ ([], (pop c r).1)
  unfolding pop_batch pop
  pop_batch-none max r e = rw (pop_batch, e) refl

  pub pop_batch-some :
      (max : ℕ) (r : RingBuffer A) (x : A)
      → (pop c r).0 ≡ some x
      → pop_batch c (suc max) r
        ≡ (x ∷ (pop_batch c max (pop c r).1).0, (pop_batch c max (pop c r).1).1)
  unfolding pop_batch
  pop_batch-some max r x e = rw (pop_batch, e) refl

  -- The counters after a `pop_batch` that gave `xs`.
  abbrev pub Batched : List A → RingBuffer A → RingBuffer A → Type 0
  Batched xs r r' =
      (r'.push_count ≡ r.push_count)
      × (r'.push_rejects ≡ r.push_rejects)
      × (r'.pop_count ≡ (r.pop_count + length xs) % word64)

  pub pop_batch-Batched :
      (max : ℕ) (r : RingBuffer A)
      → r.pop_count < word64
      → Batched (pop_batch c max r).0 r (pop_batch c max r).1
  unfolding pop_batch
  pop_batch-Batched zero r small = (refl, refl, omega arith)
  pop_batch-Batched (suc max) r small =
      let (pushes, rejects, pops) = pop-counts r in
      elim (Option-cases (pop c r).0) [
        | inl nothing ↦
            subst (λ out. Batched out.0 r out.1) (sym (pop_batch-none max r nothing))
              (pushes, rejects, omega (arith, pops ∙ ap (popped r) nothing))
        | inr (x, something) ↦
            let popped_one = pops ∙ ap (popped r) something in
            let rest = pop_batch-Batched max (pop c r).1 (omega (arith, popped_one)) in
            subst (λ out. Batched out.0 r out.1) (sym (pop_batch-some max r x something))
              (rest.0 ∙ pushes, rest.1 ∙ rejects, omega (arith, rest.2, popped_one))
      ]
