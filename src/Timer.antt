-- ===== src/Timer.antt =====
-- include/sequitur/utils/Timer.hpp: a timer stores the cycles between its construction and its
-- destruction. `clock` is what `__rdtscp` reads, which wraps at `2 ^ 64`.
pub mod Scopes
mod Tests
use sequitur.Prelude.{ℕ, ◌+◌, ◌-◌, ◌%◌, Bool, if◌then◌else◌, update, word64}
use sequitur.Ring.{distance}

-- The counter, and what a timer's two pointers lead to.
pub record Cycles : Type 0 where
  pub clock : ℕ
  pub bfr : ℕ → ℕ
  pub idx : ℕ

-- The destructor, of a timer whose `start_cycles` are given; `telemetry` is `ENABLE_TELEMETRY`.
unfoldable pub destroy : (telemetry : Bool) → (start_cycles : ℕ) → Cycles → Cycles
destroy telemetry start_cycles s =
    if telemetry
    then record s {
      bfr = update s.bfr s.idx (distance s.clock start_cycles);
      idx = (s.idx + 1) % word64;
    }
    else s

-- Code that takes cycles, and scopes in it that have a timer.
pub data Code : Type 0 where
  work : (cycles : ℕ) → Code
  both : (first second : Code) → Code
  timed : (body : Code) → Code

-- The constructor reads the counter as the scope is entered, the destructor as it is left.
unfoldable pub execute : (telemetry : Bool) → Code → Cycles → Cycles
unfolding destroy
execute telemetry (work cycles) s = record s { clock = (s.clock + cycles) % word64 }
execute telemetry (both first second) s = execute telemetry second (execute telemetry first s)
execute telemetry (timed body) s = destroy telemetry s.clock (execute telemetry body s)
