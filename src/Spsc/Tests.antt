-- ===== src/Spsc/Tests.antt =====
-- The theorems on the queue at one of two slots, whose cursors are about to wrap.
use sequitur.Prelude.{ℕ, ◌+◌, List, [], ◌∷◌, refl, arith, ◌≡◌, false, ◌^◌}
use sequitur.Ring.{IsCapacity, pow-IsCapacity}
use sequitur.Spsc.{SpscQueue, create, push, pop}
use sequitur.Spsc.Refine.{Holds, push_spec, pop_spec, Agrees, push_refines, pop_refines}
use sequitur.Spsc.Runs.{Call, put, get, stop, run, run_spec, run_refines}

two_slots : IsCapacity (2 ^ 1)
two_slots = pow-IsCapacity 1 (omega arith)

-- One item, in slot 1, written just before the producer's cursor wrapped.
abbrev wrapped : SpscQueue ℕ
wrapped = record {
  head = 18446744073709551615;
  tail = 0;
  cached_head = 18446744073709551614;
  stop_flag = false;
  buffer = λ i. i + 40;
}

wrapped-Holds : Holds 2 wrapped (41 ∷ [])
wrapped-Holds = record {
  items = refl;
  bounded = omega arith;
  behind = omega arith;
  tail_in = omega arith;
  head_in = omega arith;
  cached_in = omega arith;
}

push_refines_example : Agrees 2 wrapped (push 2 7 wrapped) (push_spec 2 false 7 (41 ∷ []))
push_refines_example = push_refines two_slots wrapped 7 (41 ∷ []) wrapped-Holds

pop_refines_example : Agrees 2 wrapped (pop 2 wrapped) (pop_spec (41 ∷ []))
pop_refines_example = pop_refines two_slots wrapped (41 ∷ []) wrapped-Holds

abbrev calls : List (Call ℕ)
calls = put 1 ∷ put 2 ∷ put 3 ∷ get ∷ put 4 ∷ stop ∷ put 5 ∷ get ∷ get ∷ get ∷ []

run_refines_example : run 2 (create (λ _. 0)) calls ≡ run_spec 2 false [] calls
run_refines_example = run_refines two_slots (λ _. 0) calls
