-- ===== src/RingBuffer/Refine.antt =====
-- The ring buffer is a first-in, first-out queue of at most `capacity - 1` items.
use native.Mathlib.Nat.{mod-add-mod, add-mod_right}
use sequitur.Prelude.{
  ℕ, suc, ◌+◌, ◌-◌, ◌%◌, ◌<◌, ◌≡◌, refl, ◌≢◌, Bool, true, false, Option, none, some, List, [], ◌∷◌,
  ◌++◌, arith, leb, leb-le, leb-lt, ◌==◌, if◌then◌else◌, length, length-append, update, word64, ap,
  sym, ◌∙◌, inl, inr, Bool-cases, subst, subst₂, ne_of_test,
}
use sequitur.Ring.{
  IsCapacity, distance, window, length-window, window-update, window-suc, wrap-slot, slot-ne,
}
use sequitur.RingBuffer.{RingBuffer, create, push, pop}

-- The ring buffer holds the items `xs`, oldest first, and its counters tell of them.
pub record Holds {A : Type 0} (c : ℕ) (r : RingBuffer A) (xs : List A) : Type 0 where
  pub items : xs ≡ window c r.buffer r.head (distance r.tail r.head)
  pub bounded : distance r.tail r.head < c
  pub tail_in : r.tail < word64
  pub head_in : r.head < word64
  pub counted : (r.push_count + word64 - r.pop_count) % word64 ≡ length xs
  pub counts_in : (r.push_count < word64) × (r.pop_count < word64)

-- The oldest item leaves.
unfoldable pub pop_spec : {A : Type 0} → List A → Option A × List A
pop_spec [] = (none, [])
pop_spec (x ∷ xs) = (some x, xs)

module _ {A : Type 0} (c : ℕ) where
  unfoldable pub push_spec : Bool → A → List A → Bool × List A
  push_spec stopped x xs =
      if stopped
      then (false, xs)
      else if leb c (length xs + 1)
      then (false, xs)
      else (true, xs ++ x ∷ [])

  -- A call gives the same answer as the queue, leaves the ring holding what the queue then holds,
  -- and leaves the flag alone.
  abbrev pub Agrees : {B : Type 0} → RingBuffer A → B × RingBuffer A → B × List A → Type 0
  Agrees r out spec = (out.0 ≡ spec.0) × Holds c out.1 spec.1 × (out.1.stop_flag ≡ r.stop_flag)

module _ {A : Type 0} {c : ℕ} (v : IsCapacity c) where
  pub length-Holds :
      (r : RingBuffer A) (xs : List A) → Holds c r xs → length xs ≡ distance r.tail r.head
  length-Holds r xs h = ap length h.items ∙ length-window c r.buffer r.head (distance r.tail r.head)

  tail-slot :
      (r : RingBuffer A) (xs : List A)
      → Holds c r xs
      → r.tail % c ≡ (r.head + distance r.tail r.head) % c
  tail-slot r xs h =
      let n = distance r.tail r.head in
      let tail_is : r.tail ≡ (r.head + n) % word64 = omega (arith, h.tail_in, h.head_in) in
      ap (λ m. m % c) tail_is ∙ wrap-slot v (r.head + n)

  -- The test for a full buffer, on slots, tells whether `c - 1` items are held.
  full_iff :
      (r : RingBuffer A) (xs : List A)
      → Holds c r xs
      → ((r.tail + 1) % word64 % c == r.head % c) ≡ leb c (length xs + 1)
  full_iff r xs h =
      let n = distance r.tail r.head in
      let size = length-Holds r xs h in
      let next : (r.tail + 1) % word64 % c ≡ (r.head + suc n) % c =
        wrap-slot v (r.tail + 1)
        ∙ sym (mod-add-mod r.tail c 1)
        ∙ ap (λ m. (m + 1) % c) (tail-slot r xs h)
        ∙ mod-add-mod (r.head + n) c 1
        ∙ ap (λ m. m % c) (one_more r.head n) in
      elim (Bool-cases (leb c (length xs + 1))) [
        | inl full ↦
            let all : suc n ≡ c = omega (arith, leb-le c (length xs + 1) full, h.bounded) in
            let same : (r.tail + 1) % word64 % c ≡ r.head % c =
              next ∙ ap (λ m. (r.head + m) % c) all ∙ add-mod_right r.head c in
            ground arith
        | inr room ↦
            let lt : suc n < c = omega (arith, leb-lt c (length xs + 1) room) in
            let ne : (r.tail + 1) % word64 % c ≢ r.head % c =
              λ e. slot-ne c r.head (suc n) (omega arith) lt (sym e ∙ next) in
            ground arith
      ]
    where
      one_more : (h n : ℕ) → h + n + 1 ≡ h + suc n
      one_more h n = omega arith

  rejected :
      (r : RingBuffer A) (xs : List A)
      → Holds c r xs
      → Holds c (record r { push_rejects = (r.push_rejects + 1) % word64 }) xs
  rejected r xs h = record {
    items = h.items;
    bounded = h.bounded;
    tail_in = h.tail_in;
    head_in = h.head_in;
    counted = h.counted;
    counts_in = h.counts_in;
  }

  pushed :
      (r : RingBuffer A) (x : A) (xs : List A)
      → Holds c r xs
      → length xs + 1 < c
      → Holds c
          (record r {
            buffer = update r.buffer (r.tail % c) x;
            tail = (r.tail + 1) % word64;
            push_count = (r.push_count + 1) % word64;
          })
          (xs ++ x ∷ [])
  pushed r x xs h room =
      let n = distance r.tail r.head in
      let size = length-Holds r xs h in
      let small = v.small in
      let counted = h.counted in
      let pushes = h.counts_in.0 in
      let pops = h.counts_in.1 in
      let longer : length (xs ++ x ∷ []) ≡ length xs + 1 = length-append xs (x ∷ []) in
      let grown : distance ((r.tail + 1) % word64) r.head ≡ suc n =
        omega (arith, h.tail_in, h.head_in) in
      record {
        items =
            ap (λ l. l ++ x ∷ []) h.items
            ∙ sym
                (window-update v r.buffer x n r.head (r.tail % c) (omega arith) (tail-slot r xs h))
            ∙ ap (window c (update r.buffer (r.tail % c) x) r.head) (sym grown);
        bounded = omega (arith, grown);
        tail_in = omega arith;
        head_in = h.head_in;
        counted = omega arith;
        counts_in = (omega arith, pops);
      }

  -- On a ring that holds the items `xs`, of a positive capacity below 2^64 that divides 2^64: if
  -- it is stopped or holds `capacity - 1` items, `push` answers false and the ring holds `xs`
  -- still; otherwise `push` answers true and the ring holds `xs` and then the item. The stop flag
  -- stays, and the pushes less the pops stay the number of items.
  pub push_lem :
      (r : RingBuffer A) (x : A) (xs : List A)
      → Holds c r xs
      → Agrees c r (push c x r) (push_spec c r.stop_flag x xs)
  unfolding push push_spec
  push_lem r x xs h = elim (Bool-cases r.stop_flag) [
    | inl stopped ↦
        let e : push c x r ≡ (false, r) = ground arith in
        let e' : push_spec c r.stop_flag x xs ≡ (false, xs) = ground arith in
        subst₂ (Agrees c r) (sym e) (sym e') (refl, h, refl)
    | inr live ↦ elim (Bool-cases (leb c (length xs + 1))) [
      | inl full ↦
          let test = full_iff r xs h ∙ full in
          let e : push c x r ≡ (false, record r { push_rejects = (r.push_rejects + 1) % word64 }) =
            ground arith in
          let e' : push_spec c r.stop_flag x xs ≡ (false, xs) = ground arith in
          subst₂ (Agrees c r) (sym e) (sym e') (refl, rejected r xs h, refl)
      | inr room ↦
          let test = full_iff r xs h ∙ room in
          let r' : RingBuffer A = record r {
            buffer = update r.buffer (r.tail % c) x;
            tail = (r.tail + 1) % word64;
            push_count = (r.push_count + 1) % word64;
          } in
          let e : push c x r ≡ (true, r') = ground arith in
          let e' : push_spec c r.stop_flag x xs ≡ (true, xs ++ x ∷ []) = ground arith in
          subst₂ (Agrees c r) (sym e) (sym e')
            (refl, pushed r x xs h (leb-lt c (length xs + 1) room), refl)
    ]
  ]

  -- On a ring that holds the items `xs`, of a positive capacity below 2^64 that divides 2^64,
  -- `pop` gives nothing if `xs` is empty, and otherwise the oldest item, and then the ring holds
  -- the others. The stop flag stays, and the pushes less the pops stay the number of items.
  pub pop_lem : (r : RingBuffer A) (xs : List A) → Holds c r xs → Agrees c r (pop c r) (pop_spec xs)
  unfolding pop pop_spec
  pop_lem r xs h = elim (Bool-cases (r.head == r.tail)) [
    | inl none_left ↦
        let same : r.head ≡ r.tail = ground arith in
        let size : distance r.tail r.head ≡ 0 = omega arith in
        let nil : xs ≡ [] = h.items ∙ ap (window c r.buffer r.head) size in
        let e : pop c r ≡ (none, r) = ground arith in
        subst₂ (Agrees c r) (sym e) (ap (pop_spec) (sym nil)) (refl, subst (Holds c r) nil h, refl)
    | inr some_left ↦
        let ne = ne_of_test r.head r.tail some_left in
        let n = distance r.tail r.head in
        let r' : RingBuffer A = record r {
          head = (r.head + 1) % word64;
          pop_count = (r.pop_count + 1) % word64;
        } in
        let pos : n ≢ 0 = omega (arith, h.tail_in, h.head_in) in
        let rest = window c r.buffer ((r.head + 1) % word64) (n - 1) in
        let cons : xs ≡ r.buffer (r.head % c) ∷ rest =
          h.items ∙ window-suc c r.buffer r.head n pos in
        let fewer : distance r'.tail r'.head ≡ n - 1 = omega (arith, h.tail_in, h.head_in) in
        let size = length-Holds r xs h in
        let small = v.small in
        let bounded = h.bounded in
        let counted = h.counted in
        let pushes = h.counts_in.0 in
        let pops = h.counts_in.1 in
        let left : length rest ≡ n - 1 = length-window c r.buffer ((r.head + 1) % word64) (n - 1) in
        let e : pop c r ≡ (some (r.buffer (r.head % c)), r') = ground arith in
        subst₂ (Agrees c r) (sym e) (ap (pop_spec) (sym cons)) (
          refl,
          record {
            items = ap (window c r.buffer r'.head) (sym fewer);
            bounded = omega arith;
            tail_in = h.tail_in;
            head_in = omega arith;
            counted = omega arith;
            counts_in = (pushes, omega arith);
          },
          refl,
        )
  ]

  -- A new ring is empty.
  pub create_lem : (slots : ℕ → A) → Holds c (create slots) []
  unfolding create
  create_lem slots = record {
    items = refl;
    bounded = omega (arith, v.pos);
    tail_in = omega arith;
    head_in = omega arith;
    counted = refl;
    counts_in = (omega arith, omega arith);
  }
