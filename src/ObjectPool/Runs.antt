-- ===== src/ObjectPool/Runs.antt =====
-- Any sequence of calls on a new pool, by a client that gives back only slots that it holds.
use mathlib.Core.List.{Mem, Perm}
use mathlib.Core.List.Perm
use sequitur.Prelude.{
  ℕ, zero, suc, max, ◌+◌, ◌%◌, ◌<◌, ◌≡◌, refl, ap₂, Option, none, some, List, [], ◌∷◌, ap, ◌∙◌, sym,
  arith, length, word32, word64, inl, inr, subst, get_elem?, ◌⊎◌,
}
use sequitur.ObjectPool.{
  ObjectPool, create, acquire, release, get_used_count, get_alloc_failures, get_peak_usage,
  get_capacity,
}
use sequitur.ObjectPool.Slots.{IsPool, create-IsPool, acquire_cases, release-IsPool, IsPool-Perm}

pub data Call : Type 0 where
  take : Call
  -- The slot in hand at the place `k`, the last one taken first; none there is `nullptr`.
  give : (k : ℕ) → Call
  ask : Call

pub data Reply : Type 0 where
  taken : Option ℕ → Reply
  given : Reply
  told : (used failures peak capacity : ℕ) → Reply

-- The list without its element at the place `k`.
abbrev pub without : List ℕ → ℕ → List ℕ
without [] k = []
without (x ∷ xs) zero = xs
without (x ∷ xs) (suc k) = x ∷ without xs k

-- What the client holds after an `acquire`.
abbrev pub hold : Option ℕ → List ℕ → List ℕ
hold none held = held
hold (some i) held = i ∷ held

-- The replies of the pool to a client that holds the slots `held`.
unfoldable pub run : ObjectPool → List ℕ → List Call → List Reply
run p held [] = []
run p held (take ∷ calls) = let (o, p') = acquire p in taken o ∷ run p' (hold o held) calls
run p held (give k ∷ calls) = given ∷ run (release (get_elem? held k) p) (without held k) calls
run p held (ask ∷ calls) =
    told (get_used_count p) (get_alloc_failures p) (get_peak_usage p) (get_capacity p)
    ∷ run p held calls

-- What the replies may be, where the slots `held` are in use, `failures` calls have got none and
-- `peak` is the most slots that have been in use.
abbrev pub Obeys :
    (cap : ℕ) → (held : List ℕ) → (failures peak : ℕ) → List Call → List Reply → Type 0
Obeys cap held failures peak [] [] = Unit {0}
Obeys cap held failures peak (take ∷ calls) (taken none ∷ replies) =
    (length held ≡ cap) × Obeys cap held ((failures + 1) % word64) peak calls replies
Obeys cap held failures peak (take ∷ calls) (taken (some i) ∷ replies) =
    (i < cap)
    × (¬ Mem i held)
    × Obeys cap (i ∷ held) failures (max (length held + 1) peak) calls replies
Obeys cap held failures peak (give k ∷ calls) (given ∷ replies) =
    Obeys cap (without held k) failures peak calls replies
Obeys cap held failures peak (ask ∷ calls) (told u f p c ∷ replies) =
    (u ≡ length held)
    × (f ≡ failures)
    × (p ≡ peak)
    × (c ≡ cap)
    × Obeys cap held failures peak calls replies
Obeys cap held failures peak _ _ = ⊥

take_out :
    (xs : List ℕ) (k : ℕ)
    → ((get_elem? xs k ≡ none) × (without xs k ≡ xs))
      ⊎ ((i : ℕ) × (get_elem? xs k ≡ some i) × Perm xs (i ∷ without xs k))
take_out [] k = inl (refl, refl)
take_out (x ∷ xs) zero = inr (x, refl, Perm.refl _)
take_out (x ∷ xs) (suc k) = elim (take_out xs k) [
  | inl (e, same) ↦ inl (e, ap (λ l. x ∷ l) same)
  | inr (i, e, perm) ↦ inr (i, e, Perm.trans (Perm.cons x perm) (Perm.swap i x _))
]

record Stands (p : ObjectPool) (cap : ℕ) (held : List ℕ) (f m : ℕ) : Type 0 where
  pool : IsPool p held
  capacity : p.capacity ≡ cap
  failures : p.alloc_failures ≡ f
  peak : p.peak_usage ≡ m

release-Stands :
    (p : ObjectPool) (cap : ℕ) (held : List ℕ) (failures peak k : ℕ)
    → Stands p cap held failures peak
    → Stands (release (get_elem? held k) p) cap (without held k) failures peak
unfolding release
release-Stands p cap held failures peak k s = elim (take_out held k) [
  | inl (e, same) ↦ rw (e, same) s
  | inr (i, e, perm) ↦ rw e (record {
    pool =
        release-IsPool p i (without held k) (IsPool-Perm p held (i ∷ without held k) perm s.pool);
    capacity = s.capacity;
    failures = s.failures;
    peak = s.peak;
  })
]

calls-Obeys :
    (calls : List Call) (p : ObjectPool) (cap : ℕ) (held : List ℕ) (failures peak : ℕ)
    → Stands p cap held failures peak
    → Obeys cap held failures peak calls (run p held calls)
unfolding run
calls-Obeys [] p cap held failures peak s = tt
calls-Obeys (give k ∷ calls) p cap held failures peak s =
    calls-Obeys calls (release (get_elem? held k) p) cap (without held k) failures peak
      (release-Stands p cap held failures peak k s)
calls-Obeys (ask ∷ calls) p cap held failures peak s =
    (s.pool.used, s.failures, s.peak, s.capacity, calls-Obeys calls p cap held failures peak s)
calls-Obeys (take ∷ calls) p cap held failures peak s = elim (acquire_cases p held s.pool) [
  | inl (full, e) ↦
      subst
        (λ (out : Option ℕ × ObjectPool).
          Obeys cap held failures peak (take ∷ calls)
            (taken out.0 ∷ run out.1 (hold out.0 held) calls))
        (sym e)
        (
          full ∙ s.capacity,
          calls-Obeys calls (record p { alloc_failures = (p.alloc_failures + 1) % word64 }) cap held
              ((failures + 1) % word64) peak
              (record {
                pool = record {
                  slots = s.pool.slots;
                  total = s.pool.total;
                  used = s.pool.used;
                  small = s.pool.small;
                  peak = s.pool.peak;
                };
                capacity = s.capacity;
                failures = ap (λ n. (n + 1) % word64) s.failures;
                peak = s.peak;
              }),
        )
  | inr (i, room, e, a) ↦
      subst
        (λ (o : Option ℕ).
          Obeys cap held failures peak (take ∷ calls)
            (taken o ∷ run (acquire p).1 (hold o held) calls))
        (sym e)
        (
          omega (arith, a.in_pool, s.capacity),
          a.fresh,
          calls-Obeys calls (acquire p).1 cap (i ∷ held) failures (max (length held + 1) peak)
              (record {
                pool = a.pool;
                capacity = a.capacity ∙ s.capacity;
                failures = a.failures ∙ s.failures;
                peak = a.peak ∙ ap₂ (λ m n. max (m + 1) n) s.pool.used s.peak;
              }),
        )
]

-- For any sequence of calls of `acquire`, `release` and questions for the counters on a new pool,
-- of a capacity below 2^32, by a client that gives back only slots that it holds (or `nullptr`):
-- `acquire` answers none only if the client holds as many slots as the capacity, and otherwise a
-- slot of the pool that the client does not hold; the counters told are the number of slots held,
-- the number of failed calls modulo 2^64, the most slots held at once, and the capacity.
pub run-Obeys :
    (cap : ℕ)
    → cap < word32
    → (calls : List Call) → Obeys cap [] 0 0 calls (run (create cap) [] calls)
unfolding create
run-Obeys cap small calls =
    calls-Obeys calls (create cap) cap [] 0 0
      (record { pool = create-IsPool cap small; capacity = refl; failures = refl; peak = refl })
