-- ===== src/Spsc/Refine.antt =====
-- The ring is a bounded first-in, first-out queue, also when its cursors wrap.
use sequitur.Prelude.{
  ℕ, suc, ◌+◌, ◌-◌, ◌%◌, ◌≤◌, ◌<◌, ◌≡◌, refl, ◌≢◌, Bool, true, false, Option, none, some, List, [],
  ◌∷◌, ◌++◌, arith, leb, leb-lt, ◌==◌, if◌then◌else◌, length, update, word64, ap, sym, ◌∙◌, inl,
  inr, Bool-cases, subst, subst₂, ne_of_test,
}
use sequitur.Ring.{
  IsCapacity, distance, window, length-window, window-update, window-suc, wrap-slot,
}
use sequitur.Spsc.{SpscQueue, create, publish, push, pop}

-- The queue holds the items `xs`, oldest first.
pub record Holds {A : Type 0} (c : ℕ) (q : SpscQueue A) (xs : List A) : Type 0 where
  pub items : xs ≡ window c q.buffer q.head (distance q.tail q.head)
  pub bounded : distance q.tail q.head ≤ c
  -- The shadow cursor is not ahead of the consumer's.
  pub behind : distance q.tail q.head ≤ distance q.tail q.cached_head
  pub tail_in : q.tail < word64
  pub head_in : q.head < word64
  pub cached_in : q.cached_head < word64

-- The oldest item leaves.
unfoldable pub pop_spec : {A : Type 0} → List A → Option A × List A
pop_spec [] = (none, [])
pop_spec (x ∷ xs) = (some x, xs)

-- The queue that the ring stands for.
module _ {A : Type 0} (c : ℕ) where
  unfoldable pub push_spec : Bool → A → List A → Bool × List A
  push_spec stopped x xs =
      if stopped
      then (false, xs)
      else if leb c (length xs)
      then (false, xs)
      else (true, xs ++ x ∷ [])

  -- A call gives the same answer as the queue, leaves the ring holding what the queue then holds,
  -- and leaves the flag alone.
  abbrev pub Agrees : {B : Type 0} → SpscQueue A → B × SpscQueue A → B × List A → Type 0
  Agrees q out spec = (out.0 ≡ spec.0) × Holds c out.1 spec.1 × (out.1.stop_flag ≡ q.stop_flag)

module _ {A : Type 0} {c : ℕ} (v : IsCapacity c) where
  pub length-Holds :
      (q : SpscQueue A) (xs : List A) → Holds c q xs → length xs ≡ distance q.tail q.head
  length-Holds q xs h = ap length h.items ∙ length-window c q.buffer q.head (distance q.tail q.head)

  publish-Holds :
      (q : SpscQueue A) (x : A) (xs : List A)
      → Holds c q xs
      → distance q.tail q.head < c
      → distance q.tail q.cached_head < c
      → Holds c (publish c x q) (xs ++ x ∷ [])
  unfolding publish
  publish-Holds q x xs h room room' =
      let n = distance q.tail q.head in
      let small = v.small in
      let grown : distance ((q.tail + 1) % word64) q.head ≡ suc n =
        omega (arith, h.tail_in, h.head_in, small) in
      let at : q.tail % c ≡ (q.head + n) % c = ap (λ m. m % c) tail_is ∙ wrap-slot v (q.head + n) in
      record {
        items =
            ap (λ l. l ++ x ∷ []) h.items
            ∙ sym (window-update v q.buffer x n q.head (q.tail % c) room at)
            ∙ ap (window c (update q.buffer (q.tail % c) x) q.head) (sym grown);
        bounded = omega (arith, grown);
        behind = omega (arith, h.behind, h.tail_in, h.head_in, h.cached_in, small);
        tail_in = omega arith;
        head_in = h.head_in;
        cached_in = h.cached_in;
      }
    where
      tail_is : q.tail ≡ (q.head + distance q.tail q.head) % word64
      tail_is = omega (arith, h.tail_in, h.head_in)

  -- Reading `head_` anew brings the shadow cursor up to the consumer's.
  sync-Holds :
      (q : SpscQueue A) (xs : List A)
      → Holds c q xs
      → Holds c (record q { cached_head = q.head }) xs
  sync-Holds q xs h = record {
    items = h.items;
    bounded = h.bounded;
    behind = omega arith;
    tail_in = h.tail_in;
    head_in = h.head_in;
    cached_in = h.head_in;
  }

  -- On a ring that holds the items `xs`, of a positive capacity below 2^64 that divides 2^64: if
  -- it is stopped or holds `capacity` items, `push` answers false and the ring holds `xs` still;
  -- otherwise `push` answers true and the ring holds `xs` and then the item. The stop flag stays.
  pub push_refines :
      (q : SpscQueue A) (x : A) (xs : List A)
      → Holds c q xs
      → Agrees c q (push c x q) (push_spec c q.stop_flag x xs)
  unfolding push push_spec publish
  push_refines q x xs h =
      let size = length-Holds q xs h in
      let synced = record q { cached_head = q.head } in
      elim (Bool-cases q.stop_flag) [
        | inl stopped ↦
            let e : push c x q ≡ (false, q) = ground arith in
            let e' : push_spec c q.stop_flag x xs ≡ (false, xs) = ground arith in
            subst₂ (Agrees c q) (sym e) (sym e') (refl, h, refl)
        | inr live ↦ elim (Bool-cases (leb c (distance q.tail q.cached_head))) [
          | inr room ↦
              let lt = leb-lt _ _ room in
              let lt' : distance q.tail q.head < c = omega (arith, h.behind) in
              let test : leb c (length xs) ≡ false = ground arith in
              let e : push c x q ≡ (true, publish c x q) = ground arith in
              let e' : push_spec c q.stop_flag x xs ≡ (true, xs ++ x ∷ []) = ground arith in
              subst₂ (Agrees c q) (sym e) (sym e') (refl, publish-Holds q x xs h lt' lt, refl)
          | inl maybe_full ↦ elim (Bool-cases (leb c (distance q.tail q.head))) [
            | inl full ↦
                let test : leb c (length xs) ≡ true = rw size full in
                let e : push c x q ≡ (false, synced) = ground arith in
                let e' : push_spec c q.stop_flag x xs ≡ (false, xs) = ground arith in
                subst₂ (Agrees c q) (sym e) (sym e') (refl, sync-Holds q xs h, refl)
            | inr room ↦
                let lt = leb-lt _ _ room in
                let test : leb c (length xs) ≡ false = rw size room in
                let e : push c x q ≡ (true, publish c x synced) = ground arith in
                let e' : push_spec c q.stop_flag x xs ≡ (true, xs ++ x ∷ []) = ground arith in
                subst₂ (Agrees c q) (sym e) (sym e')
                  (refl, publish-Holds synced x xs (sync-Holds q xs h) lt lt, refl)
          ]
        ]
      ]

  -- On a ring that holds the items `xs`, of a positive capacity below 2^64 that divides 2^64,
  -- `pop` gives nothing if `xs` is empty, and otherwise the oldest item, and then the ring holds
  -- the others. The stop flag stays.
  pub pop_refines :
      (q : SpscQueue A) (xs : List A) → Holds c q xs → Agrees c q (pop c q) (pop_spec xs)
  unfolding pop pop_spec
  pop_refines q xs h = elim (Bool-cases (q.head == q.tail)) [
    | inl none_left ↦
        let same : q.head ≡ q.tail = ground arith in
        let size : distance q.tail q.head ≡ 0 = omega arith in
        let nil : xs ≡ [] = h.items ∙ ap (window c q.buffer q.head) size in
        let e : pop c q ≡ (none, q) = ground arith in
        subst₂ (Agrees c q) (sym e) (ap (pop_spec) (sym nil)) (refl, subst (Holds c q) nil h, refl)
    | inr some_left ↦
        let ne = ne_of_test q.head q.tail some_left in
        let n = distance q.tail q.head in
        let q' : SpscQueue A = record q { head = (q.head + 1) % word64 } in
        let pos : n ≢ 0 = omega (arith, h.tail_in, h.head_in) in
        let rest = window c q.buffer ((q.head + 1) % word64) (n - 1) in
        let cons : xs ≡ q.buffer (q.head % c) ∷ rest =
          h.items ∙ window-suc c q.buffer q.head n pos in
        let fewer : distance q'.tail q'.head ≡ n - 1 = omega (arith, h.tail_in, h.head_in) in
        let e : pop c q ≡ (some (q.buffer (q.head % c)), q') = ground arith in
        subst₂ (Agrees c q) (sym e) (ap (pop_spec) (sym cons)) (
          refl,
          record {
            items = ap (window c q.buffer q'.head) (sym fewer);
            bounded = omega (arith, h.bounded);
            behind = omega (arith, h.behind, h.cached_in);
            tail_in = h.tail_in;
            head_in = omega arith;
            cached_in = h.cached_in;
          },
          refl,
        )
  ]

  -- A new queue is empty.
  pub create-Holds : (slots : ℕ → A) → Holds c (create slots) []
  unfolding create
  create-Holds slots = record {
    items = refl;
    bounded = omega arith;
    behind = omega arith;
    tail_in = omega arith;
    head_in = omega arith;
    cached_in = omega arith;
  }
