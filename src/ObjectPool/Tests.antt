-- ===== src/ObjectPool/Tests.antt =====
-- The theorems on the pool at one of two slots.
use sequitur.Prelude.{List, [], ◌∷◌, refl, arith, some}
use sequitur.ObjectPool.{ObjectPool, create, acquire, release}
use sequitur.ObjectPool.Runs.{Call, take, give, ask, Obeys, run, run-Obeys}
use sequitur.ObjectPool.Slots.{IsPool, create-IsPool, AcquireCases, acquire_cases, release-IsPool}
use mathlib.Core.List.Perm

-- Slot 1 is in use.
abbrev half_used : ObjectPool
half_used = record {
  free_indices = λ i. i;
  free = 1;
  capacity = 2;
  used_count = 1;
  alloc_failures = 0;
  peak_usage = 1;
}

half_used-IsPool : IsPool half_used (1 ∷ [])
half_used-IsPool = record {
  slots = Perm.swap 1 0 [];
  total = refl;
  used = refl;
  small = omega arith;
  peak = (omega arith, omega arith);
}

create-IsPool_example : IsPool (create 2) []
create-IsPool_example = create-IsPool 2 (omega arith)

acquire_cases_example : AcquireCases half_used (1 ∷ []) (acquire half_used)
acquire_cases_example = acquire_cases half_used (1 ∷ []) half_used-IsPool

release-IsPool_example : IsPool (release (some 1) half_used) []
release-IsPool_example = release-IsPool half_used 1 [] half_used-IsPool

abbrev calls : List Call
calls = take ∷ take ∷ take ∷ give 1 ∷ ask ∷ take ∷ []

run-Obeys_example : Obeys 2 [] 0 0 calls (run (create 2) [] calls)
run-Obeys_example = run-Obeys 2 (omega arith) calls
