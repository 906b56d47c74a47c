-- ===== src/RingBuffer/Tests.antt =====
-- The theorems on the ring at one of two slots, which holds at most one item.
use sequitur.Prelude.{ℕ, ◌+◌, List, [], ◌∷◌, refl, arith, false, ◌^◌, ◌≡◌}
use sequitur.Ring.{IsCapacity, pow-IsCapacity}
use sequitur.RingBuffer.{RingBuffer, push, pop, pop_batch, create}
use sequitur.RingBuffer.Refine.{Holds, push_spec, pop_spec, Agrees, push_lem, pop_lem}
use sequitur.RingBuffer.Runs.{Call, put, get, get_many, ask, stop, run, run_spec, run_replies}
use sequitur.RingBuffer.Batch.{pop_batch_spec, pop_batch_lem}

two_slots : IsCapacity (2 ^ 1)
two_slots = pow-IsCapacity 1 (omega arith)

-- One item, in slot 1.
abbrev one_item : RingBuffer ℕ
one_item = record {
  buffer = λ i. i + 40;
  head = 3;
  tail = 4;
  stop_flag = false;
  push_count = 4;
  push_rejects = 0;
  pop_count = 3;
}

one_item-Holds : Holds 2 one_item (41 ∷ [])
one_item-Holds = record {
  items = refl;
  bounded = omega arith;
  tail_in = omega arith;
  head_in = omega arith;
  counted = refl;
  counts_in = (omega arith, omega arith);
}

push_lem_example : Agrees 2 one_item (push 2 7 one_item) (push_spec 2 false 7 (41 ∷ []))
push_lem_example = push_lem two_slots one_item 7 (41 ∷ []) one_item-Holds

pop_lem_example : Agrees 2 one_item (pop 2 one_item) (pop_spec (41 ∷ []))
pop_lem_example = pop_lem two_slots one_item (41 ∷ []) one_item-Holds

pop_batch_example : Agrees 2 one_item (pop_batch 2 5 one_item) (pop_batch_spec 5 (41 ∷ []))
pop_batch_example = pop_batch_lem two_slots 5 one_item (41 ∷ []) one_item-Holds

abbrev calls : List (Call ℕ)
calls = put 1 ∷ put 2 ∷ ask ∷ get_many 5 ∷ get ∷ put 3 ∷ stop ∷ put 4 ∷ get ∷ ask ∷ []

run_replies_example :
    run 2 (create (λ _. 0)) calls
    ≡ run_spec 2
        (record { items = []; is_stopped = false; pushes = 0; rejects = 0; pops = 0 })
        calls
run_replies_example = run_replies two_slots (λ _. 0) calls
