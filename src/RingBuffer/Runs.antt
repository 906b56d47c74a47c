-- ===== src/RingBuffer/Runs.antt =====
-- Any sequence of calls on the ring buffer, and on the queue that it stands for.
use sequitur.Prelude.{
  ℕ, ◌+◌, ◌%◌, ◌≡◌, refl, Bool, true, false, Option, none, some, List, [], ◌∷◌, ◌++◌, ap, ap₂, ◌∙◌,
  sym, arith, length, ◌==◌, leb, if◌then◌else◌, Bool-cases, inl, inr, word64, subst, subst₂,
}
use sequitur.Ring.{IsCapacity}
use sequitur.RingBuffer.{
  RingBuffer, create, push, pop, pop_batch, size, empty, shutdown, get_push_count, get_push_rejects,
  get_pop_count,
}
use sequitur.RingBuffer.Counts.{
  Pushed, push-Pushed, push-stopped, popped, pop-counts, pop_batch-Batched,
}
use sequitur.RingBuffer.Refine.{
  Holds, push_spec, pop_spec, push_lem, pop_lem, length-Holds, create_lem,
}
use sequitur.RingBuffer.Batch.{pop_batch_spec, pop_batch_lem}

pub data Call (A : Type 0) : Type 0 where
  put : A → Call A
  get : Call A
  get_many : (max : ℕ) → Call A
  ask : Call A
  stop : Call A

pub data Reply (A : Type 0) : Type 0 where
  put_was : Bool → Reply A
  got : Option A → Reply A
  got_many : List A → Reply A
  told : (size : ℕ) → (empty : Bool) → (pushes rejects pops : ℕ) → Reply A
  stopped : Reply A

-- A bounded queue that can be stopped, and counts its calls.
pub record Queue (A : Type 0) : Type 0 where
  pub items : List A
  pub is_stopped : Bool
  pub pushes : ℕ
  pub rejects : ℕ
  pub pops : ℕ

unfoldable pub get_spec : {A : Type 0} → Queue A → Option A × Queue A
get_spec q = elim q.items [
  | [] ↦ (none, q)
  | x ∷ xs ↦ (some x, record q { items = xs; pops = (q.pops + 1) % word64 })
]

module _ {A : Type 0} (c : ℕ) where
  -- The replies of the ring to a sequence of calls.
  unfoldable pub run : RingBuffer A → List (Call A) → List (Reply A)
  run r [] = []
  run r (put x ∷ calls) = let (b, r') = push c x r in put_was b ∷ run r' calls
  run r (get ∷ calls) = let (o, r') = pop c r in got o ∷ run r' calls
  run r (get_many max ∷ calls) = let (xs, r') = pop_batch c max r in got_many xs ∷ run r' calls
  run r (ask ∷ calls) =
      told (size r) (empty r) (get_push_count r) (get_push_rejects r) (get_pop_count r)
      ∷ run r calls
  run r (stop ∷ calls) = stopped ∷ run (shutdown r) calls

  unfoldable pub put_spec : A → Queue A → Bool × Queue A
  put_spec x q =
      if q.is_stopped
      then (false, q)
      else if leb c (length q.items + 1)
      then (false, record q { rejects = (q.rejects + 1) % word64 })
      else (true, record q { items = q.items ++ x ∷ []; pushes = (q.pushes + 1) % word64 })

  -- The replies of a queue of at most `c - 1` items.
  unfoldable pub run_spec : Queue A → List (Call A) → List (Reply A)
  run_spec q [] = []
  run_spec q (put x ∷ calls) = let (b, q') = put_spec x q in put_was b ∷ run_spec q' calls
  run_spec q (get ∷ calls) = let (o, q') = get_spec q in got o ∷ run_spec q' calls
  run_spec q (get_many max ∷ calls) =
      let (xs, rest) = pop_batch_spec max q.items in
      got_many xs ∷ run_spec (record q { items = rest; pops = (q.pops + length xs) % word64 }) calls
  run_spec q (ask ∷ calls) =
      told (length q.items) (length q.items == 0) q.pushes q.rejects q.pops ∷ run_spec q calls
  run_spec q (stop ∷ calls) = stopped ∷ run_spec (record q { is_stopped = true }) calls

-- The ring stands for the queue.
record Stands {A : Type 0} (c : ℕ) (r : RingBuffer A) (q : Queue A) : Type 0 where
  holds : Holds c r q.items
  flag : r.stop_flag ≡ q.is_stopped
  pushes : r.push_count ≡ q.pushes
  rejects : r.push_rejects ≡ q.rejects
  pops : r.pop_count ≡ q.pops

module _ {A : Type 0} (c : ℕ) where
  -- The same reply, and the ring still stands for the queue.
  abbrev Same : {B : Type 0} → B × RingBuffer A → B × Queue A → Type 0
  Same out spec = (out.0 ≡ spec.0) × Stands c out.1 spec.1

module _ {A : Type 0} {c : ℕ} (v : IsCapacity c) where
  put-Same :
      (r : RingBuffer A) (x : A) (q : Queue A) → Stands c r q → Same c (push c x r) (put_spec c x q)
  unfolding put_spec push_spec
  put-Same r x q s =
      let (answer, holds, flag) = push_lem v r x q.items s.holds in
      elim (Bool-cases q.is_stopped) [
        | inl dead ↦
            let still : put_spec c x q ≡ (false, q) = ground arith in
            subst₂ (Same c) (sym (push-stopped c r x (s.flag ∙ dead))) (sym still) (refl, s)
        | inr live ↦
            let up = s.flag ∙ live in
            let counts = push-Pushed c r x up in
            elim (Bool-cases (leb c (length q.items + 1))) [
              | inl full ↦
                  let same : push_spec c r.stop_flag x q.items ≡ (false, q.items) = ground arith in
                  let still : put_spec c x q
                      ≡ (false, record q { rejects = (q.rejects + 1) % word64 }) =
                    ground arith in
                  let (pushes, rejects, pops) =
                    subst (λ b. Pushed c b r (push c x r).1) (answer ∙ ap (λ o. o.0) same) counts in
                  subst (Same c (push c x r)) (sym still) (
                    answer ∙ ap (λ o. o.0) same,
                    record {
                      holds = subst (λ o. Holds c (push c x r).1 o.1) same holds;
                      flag = flag ∙ s.flag;
                      pushes = pushes ∙ s.pushes;
                      rejects = rejects ∙ ap (λ n. (n + 1) % word64) s.rejects;
                      pops = pops ∙ s.pops;
                    },
                  )
              | inr room ↦
                  let grown : push_spec c r.stop_flag x q.items ≡ (true, q.items ++ x ∷ []) =
                    ground arith in
                  let more : put_spec c x q ≡ (
                    true,
                    record q { items = q.items ++ x ∷ []; pushes = (q.pushes + 1) % word64 },
                  ) =
                    ground arith in
                  let (pushes, rejects, pops) =
                    subst (λ b. Pushed c b r (push c x r).1) (answer ∙ ap (λ o. o.0) grown)
                      counts in
                  subst (Same c (push c x r)) (sym more) (
                    answer ∙ ap (λ o. o.0) grown,
                    record {
                      holds = subst (λ o. Holds c (push c x r).1 o.1) grown holds;
                      flag = flag ∙ s.flag;
                      pushes = pushes ∙ ap (λ n. (n + 1) % word64) s.pushes;
                      rejects = rejects ∙ s.rejects;
                      pops = pops ∙ s.pops;
                    },
                  )
            ]
      ]

  get-Same :
      (r : RingBuffer A) (q : Queue A) (xs : List A)
      → q.items ≡ xs
      → Stands c r q
      → Same c (pop c r) (get_spec q)
  unfolding get_spec pop_spec
  get-Same r q [] e s =
      let (answer, holds, flag) = pop_lem v r [] (subst (Holds c r) e s.holds) in
      let (pushes, rejects, pops) = pop-counts c r in
      let spec : get_spec q ≡ (none, q) = cc in
      subst (Same c (pop c r)) (sym spec) (
        answer,
        record {
          holds = subst (Holds c (pop c r).1) (sym e) holds;
          flag = flag ∙ s.flag;
          pushes = pushes ∙ s.pushes;
          rejects = rejects ∙ s.rejects;
          pops = pops ∙ ap (popped r) answer ∙ s.pops;
        },
      )
  get-Same r q (x ∷ xs) e s =
      let (answer, holds, flag) = pop_lem v r (x ∷ xs) (subst (Holds c r) e s.holds) in
      let (pushes, rejects, pops) = pop-counts c r in
      let spec : get_spec q ≡ (some x, record q { items = xs; pops = (q.pops + 1) % word64 }) =
        cc in
      subst (Same c (pop c r)) (sym spec) (
        answer,
        record {
          holds = holds;
          flag = flag ∙ s.flag;
          pushes = pushes ∙ s.pushes;
          rejects = rejects ∙ s.rejects;
          pops = pops ∙ ap (popped r) answer ∙ ap (λ n. (n + 1) % word64) s.pops;
        },
      )

  run_replies_from :
      (calls : List (Call A)) (r : RingBuffer A) (q : Queue A)
      → Stands c r q
      → run c r calls ≡ run_spec c q calls
  unfolding run run_spec shutdown size empty get_push_count get_push_rejects get_pop_count
  run_replies_from [] r q s = refl
  run_replies_from (put x ∷ calls) r q s =
      let (answer, s') = put-Same r x q s in
      ap₂ ◌∷◌ (ap put_was answer) (run_replies_from calls (push c x r).1 (put_spec c x q).1 s')
  run_replies_from (get ∷ calls) r q s =
      let (answer, s') = get-Same r q q.items refl s in
      ap₂ ◌∷◌ (ap got answer) (run_replies_from calls (pop c r).1 (get_spec q).1 s')
  run_replies_from (get_many max ∷ calls) r q s =
      let (answer, holds, flag) = pop_batch_lem v max r q.items s.holds in
      let (pushes, rejects, pops) = pop_batch-Batched c max r s.holds.counts_in.1 in
      let q' : Queue A = record q {
        items = (pop_batch_spec max q.items).1;
        pops = (q.pops + length (pop_batch_spec max q.items).0) % word64;
      } in
      ap₂ ◌∷◌ (ap got_many answer) (
        run_replies_from calls (pop_batch c max r).1 q' (record {
          holds = holds;
          flag = flag ∙ s.flag;
          pushes = pushes ∙ s.pushes;
          rejects = rejects ∙ s.rejects;
          pops = pops ∙ ap₂ (λ n (l : List A). (n + length l) % word64) s.pops answer;
        }))
  run_replies_from (ask ∷ calls) r q s =
      let count = sym (length-Holds v r q.items s.holds) in
      let head : told (size r) (empty r) (get_push_count r) (get_push_rejects r) (get_pop_count r)
          ≡ told (length q.items) (length q.items == 0) q.pushes q.rejects q.pops =
        cc in
      ap₂ ◌∷◌ head (run_replies_from calls r q s)
  run_replies_from (stop ∷ calls) r q s =
      ap (λ l. stopped ∷ l)
        (run_replies_from calls (record r { stop_flag = true }) (record q { is_stopped = true })
          (record {
            holds = record {
              items = s.holds.items;
              bounded = s.holds.bounded;
              tail_in = s.holds.tail_in;
              head_in = s.holds.head_in;
              counted = s.holds.counted;
              counts_in = s.holds.counts_in;
            };
            flag = refl;
            pushes = s.pushes;
            rejects = s.rejects;
            pops = s.pops;
          }))

  -- For a positive capacity below 2^64 that divides 2^64, no sequence of calls of `push`, `pop`,
  -- `pop_batch` and `shutdown` and of questions for the size, emptiness and the three counters, on
  -- a new ring, however often its cursors wrap, can tell it from an empty queue that takes items
  -- up to the capacity less one, gives them back oldest first, takes none once it is stopped, and
  -- counts, modulo 2^64, the items taken, the items rejected because it is full, and the items
  -- given back.
  pub run_replies :
      (slots : ℕ → A) (calls : List (Call A))
      → run c (create slots) calls
        ≡ run_spec c
            (record { items = []; is_stopped = false; pushes = 0; rejects = 0; pops = 0 })
            calls
  unfolding create
  run_replies slots calls = run_replies_from calls (create slots) _ (record {
    holds = create_lem v slots;
    flag = refl;
    pushes = refl;
    rejects = refl;
    pops = refl;
  })
