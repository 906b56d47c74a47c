-- ===== src/Engine/Sample.antt =====
-- Engines with one resting order, for the tests.
use mathlib.Core.List.{Mem, mem-cons_self}
use mathlib.Core.List.Perm
use mathlib.Core.Bool.{false≢true}
use sequitur.Prelude.{
  ℕ, ◌+◌, ◌≡◌, refl, ◌==◌, none, some, [], ◌∷◌, arith, update, Bool-cases, inl, inr, subst, sym,
}
use sequitur.ObjectPool.Slots.{IsPool}
use sequitur.Book.Sample.{ask, world, one_level-IsBook, one_ask}
use sequitur.Book.Level.{IsBook, total}
use sequitur.Engine.{MatchingEngine}
use sequitur.Engine.Submit.{IsHeld}

-- The order in slot 0 rests at price 5. `spare` slots are free.
abbrev pub engine : ℕ → MatchingEngine
engine spare = record {
  pool = record {
    free_indices = λ i. i + 1;
    free = spare;
    capacity = spare + 1;
    used_count = 1;
    alloc_failures = 0;
    peak_usage = 1;
  };
  world =
      world (update (λ _. none) 0 (some (ask 7 3)))
        (record { head = some 0; tail = some 0; volume = 3 });
  next_order_id = 2;
  total_orders = 1;
}

pub full-IsPool : IsPool (engine 0).pool (0 ∷ [])
full-IsPool = record {
  slots = Perm.refl _;
  total = refl;
  used = refl;
  small = omega arith;
  peak = (omega arith, omega arith);
}

pub roomy-IsPool : IsPool (engine 1).pool (0 ∷ [])
roomy-IsPool = record {
  slots = Perm.refl _;
  total = refl;
  used = refl;
  small = omega arith;
  peak = (omega arith, omega arith);
}

pub engine-IsBook : IsBook (engine 1).world one_ask
unfolding total
engine-IsBook = one_level-IsBook _ _ _ (record {
  head = refl;
  tail = refl;
  chain = (refl, refl, tt);
  fits = (refl, omega arith, tt);
  volume = refl;
})

pub one_ask-IsHeld : IsHeld one_ask (0 ∷ [])
one_ask-IsHeld p a le h = elim (Bool-cases (p == 5)) [
  | inl hit ↦ let at : a ≡ 0 = ground arith in subst (λ n. Mem n (0 ∷ [])) (sym at) mem-cons_self
  | inr miss ↦ absurd (false≢true (rw miss at h))
]
