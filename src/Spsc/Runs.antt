-- ===== src/Spsc/Runs.antt =====
-- Any sequence of calls on the ring, and on the queue that it stands for.
use sequitur.Prelude.{ℕ, ◌≡◌, refl, Bool, true, false, Option, List, [], ◌∷◌, ap, ap₂, ◌∙◌}
use sequitur.Ring.{IsCapacity}
use sequitur.Spsc.{SpscQueue, create, push, pop, shutdown}
use sequitur.Spsc.Refine.{Holds, push_spec, pop_spec, push_refines, pop_refines, create-Holds}

pub data Call (A : Type 0) : Type 0 where
  put : A → Call A
  get : Call A
  stop : Call A

pub data Reply (A : Type 0) : Type 0 where
  put_was : Bool → Reply A
  got : Option A → Reply A
  stopped : Reply A

module _ {A : Type 0} (c : ℕ) where
  -- The replies of the ring to a sequence of calls.
  unfoldable pub run : SpscQueue A → List (Call A) → List (Reply A)
  run q [] = []
  run q (put x ∷ calls) = let (b, q') = push c x q in put_was b ∷ run q' calls
  run q (get ∷ calls) = let (o, q') = pop c q in got o ∷ run q' calls
  run q (stop ∷ calls) = stopped ∷ run (shutdown q) calls

  -- The replies of a queue of at most `c` items that can be stopped.
  unfoldable pub run_spec : Bool → List A → List (Call A) → List (Reply A)
  run_spec flag xs [] = []
  run_spec flag xs (put x ∷ calls) =
      let (b, xs') = push_spec c flag x xs in put_was b ∷ run_spec flag xs' calls
  run_spec flag xs (get ∷ calls) = let (o, xs') = pop_spec xs in got o ∷ run_spec flag xs' calls
  run_spec flag xs (stop ∷ calls) = stopped ∷ run_spec true xs calls

module _ {A : Type 0} {c : ℕ} (v : IsCapacity c) where
  run_refines_from :
      (calls : List (Call A)) (q : SpscQueue A) (xs : List A)
      → Holds c q xs
      → run c q calls ≡ run_spec c q.stop_flag xs calls
  unfolding run run_spec shutdown
  run_refines_from [] q xs h = refl
  run_refines_from (put x ∷ calls) q xs h =
      let (answer, holds, flag) = push_refines v q x xs h in
      ap₂ ◌∷◌ (ap put_was answer) (
        run_refines_from calls (push c x q).1 (push_spec c q.stop_flag x xs).1 holds
        ∙ ap (λ f. run_spec c f (push_spec c q.stop_flag x xs).1 calls) flag)
  run_refines_from (get ∷ calls) q xs h =
      let (answer, holds, flag) = pop_refines v q xs h in
      ap₂ ◌∷◌ (ap got answer) (
        run_refines_from calls (pop c q).1 (pop_spec xs).1 holds
        ∙ ap (λ f. run_spec c f (pop_spec xs).1 calls) flag)
  run_refines_from (stop ∷ calls) q xs h =
      ap (λ l. stopped ∷ l)
        (run_refines_from calls (record q { stop_flag = true }) xs
          (record {
            items = h.items;
            bounded = h.bounded;
            behind = h.behind;
            tail_in = h.tail_in;
            head_in = h.head_in;
            cached_in = h.cached_in;
          }))

  -- For a positive capacity below 2^64 that divides 2^64, no sequence of calls of `push`, `pop`
  -- and `shutdown` on a new ring, however often its cursors wrap, can tell it from an empty queue
  -- that takes items up to the capacity, gives them back oldest first, and takes none once it is
  -- stopped.
  pub run_refines :
      (slots : ℕ → A) (calls : List (Call A))
      → run c (create slots) calls ≡ run_spec c false [] calls
  unfolding create
  run_refines slots calls = run_refines_from calls (create slots) [] (create-Holds v slots)
