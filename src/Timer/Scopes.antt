-- ===== src/Timer/Scopes.antt =====
-- What the timers of nested scopes record.
use sequitur.Prelude.{
  ℕ, ◌+◌, ◌%◌, ◌<◌, ◌≡◌, refl, true, false, List, [], ◌∷◌, ◌++◌, length, length-append, update,
  word64, arith, ap, ◌∙◌, sym,
}
use sequitur.Ring.{distance}
use sequitur.Timer.{Cycles, Code, work, both, timed, destroy, execute}

-- The cycles that the code takes.
abbrev pub cycles : Code → ℕ
cycles (work n) = n
cycles (both a b) = cycles a + cycles b
cycles (timed a) = cycles a

-- The cycles that each timed scope takes, a scope after those inside it.
abbrev pub laps : Code → List ℕ
laps (work n) = []
laps (both a b) = laps a ++ laps b
laps (timed a) = laps a ++ cycles a ∷ []

-- The buffer with a list written from the index `i` on.
abbrev pub write_all : (ℕ → ℕ) → ℕ → List ℕ → ℕ → ℕ
write_all f i [] = f
write_all f i (x ∷ xs) = write_all (update f i x) (i + 1) xs

write_all-append :
    (f : ℕ → ℕ) (i : ℕ) (xs ys : List ℕ)
    → write_all f i (xs ++ ys) ≡ write_all (write_all f i xs) (i + length xs) ys
write_all-append f i [] ys = ap (λ j. write_all f j ys) (omega arith)
write_all-append f i (x ∷ xs) ys =
    write_all-append (update f i x) (i + 1) xs ys
    ∙ ap (λ j. write_all (write_all (update f i x) (i + 1) xs) j ys) (omega arith)

-- The state after `n` cycles in which the laps `xs` have been recorded.
abbrev pub after : (n : ℕ) → List ℕ → Cycles → Cycles
after n xs s = record {
  clock = (s.clock + n) % word64;
  bfr = write_all s.bfr s.idx xs;
  idx = s.idx + length xs;
}

Cycles-cong : {s t : Cycles} → s.clock ≡ t.clock → s.bfr ≡ t.bfr → s.idx ≡ t.idx → s ≡ t
Cycles-cong p q r i = record { clock = p i; bfr = q i; idx = r i }

-- The destructor adds a lap.
destroy-after :
    (n : ℕ) (xs : List ℕ) (s : Cycles)
    → s.clock < word64
    → n < word64
    → s.idx + length xs + 1 < word64
    → destroy true s.clock (after n xs s) ≡ after n (xs ++ n ∷ []) s
unfolding destroy
destroy-after n xs s c small room =
    let lap : distance ((s.clock + n) % word64) s.clock ≡ n = omega arith in
    let next : (s.idx + length xs + 1) % word64 ≡ s.idx + length (xs ++ n ∷ []) =
      omega (arith, length-append xs (n ∷ [])) in
    Cycles-cong refl
      (ap (update (write_all s.bfr s.idx xs) (s.idx + length xs)) lap
        ∙ sym (write_all-append s.bfr s.idx xs (n ∷ [])))
      next

both-after :
    (m n : ℕ) (xs ys : List ℕ) (s : Cycles) → after n ys (after m xs s) ≡ after (m + n) (xs ++ ys) s
both-after m n xs ys s =
    Cycles-cong (omega arith) (sym (write_all-append s.bfr s.idx xs ys))
      (omega (arith, length-append xs ys))

pub execute-after :
    (c : Code) (s : Cycles)
    → s.clock < word64
    → cycles c < word64
    → s.idx + length (laps c) < word64
    → execute true c s ≡ after (cycles c) (laps c) s
unfolding execute
execute-after (work n) s clock small room = Cycles-cong refl refl (omega arith)
execute-after (both a b) s clock small room =
    let sizes = length-append (laps a) (laps b) in
    let first = execute-after a s clock (omega arith) (omega arith) in
    let mid = after (cycles a) (laps a) s in
    ap (execute true b) first
    ∙ execute-after b mid (omega arith) (omega arith) (omega arith)
    ∙ both-after (cycles a) (cycles b) (laps a) (laps b) s
execute-after (timed a) s clock small room =
    let sizes = length-append (laps a) (cycles a ∷ []) in
    ap (destroy true s.clock) (execute-after a s clock small (omega arith))
    ∙ destroy-after (cycles a) (laps a) s clock small (omega arith)

execute-silent :
    (c : Code) (s : Cycles)
    → s.clock < word64
    → execute false c s ≡ record s { clock = (s.clock + cycles c) % word64 }
unfolding execute destroy
execute-silent (work n) s clock = refl
execute-silent (both a b) s clock =
    let mid = record s { clock = (s.clock + cycles a) % word64 } in
    ap (execute false b) (execute-silent a s clock)
    ∙ execute-silent b mid (omega arith)
    ∙ Cycles-cong (omega arith) refl refl
execute-silent (timed a) s clock = execute-silent a s clock

-- Let code with nested timed scopes run while the counter may wrap once, so that it takes fewer
-- than 2^64 cycles in all, and let the index stay below 2^64. With telemetry the buffer then has
-- the cycles of each scope from the index on, a scope after those inside it, and else what it had,
-- and the index has advanced by the number of scopes; without telemetry neither changes. The
-- counter has advanced by the cycles, modulo 2^64.
pub execute_lem :
    (c : Code) (s : Cycles)
    → s.clock < word64
    → cycles c < word64
    → s.idx + length (laps c) < word64
    → (execute true c s ≡ after (cycles c) (laps c) s) × (execute false c s ≡ after (cycles c) [] s)
execute_lem c s clock small room = (
  execute-after c s clock small room,
  execute-silent c s clock ∙ Cycles-cong refl refl (omega arith),
)
