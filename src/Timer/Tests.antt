-- ===== src/Timer/Tests.antt =====
-- The timers, with a counter that is about to wrap.
use sequitur.Prelude.{[], ◌∷◌, ◌≡◌, refl, true, false, arith}
use sequitur.Timer.{Cycles, Code, work, both, timed, execute}
use sequitur.Timer.Scopes.{laps, after, execute_lem}

abbrev late : Cycles
late = record { clock = 18446744073709551610; bfr = λ i. 0; idx = 3 }

abbrev nested : Code
nested = timed (both (work 5) (both (timed (work 7)) (work 2)))

nested-laps : laps nested ≡ 7 ∷ 14 ∷ []
nested-laps = refl

execute_example :
    (execute true nested late ≡ after 14 (7 ∷ 14 ∷ []) late)
    × (execute false nested late ≡ after 14 [] late)
execute_example = execute_lem nested late (omega arith) (omega arith) (omega arith)
