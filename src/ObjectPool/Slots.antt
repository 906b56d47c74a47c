-- ===== src/ObjectPool/Slots.antt =====
-- Every slot of the pool is either free or handed out, and never both.
use mathlib.Core.Logic.Or
use native.Mathlib.Bridge.{le_prop}
use mathlib.Core.List.{
  Mem, Nodup, Perm, perm_middle, not-mem-nil, mem-cons, Nodup-nil, Nodup-cons, Nodup-append,
  mem-cons_self, mem-append_right,
}
use mathlib.Core.List.Perm
use sequitur.Prelude.{
  ℕ, zero, suc, ◌+◌, ◌%◌, ◌≤◌, ◌<◌, ◌≡◌, refl, Option, none, some, List, [], ◌∷◌, ◌++◌, append-nil,
  arith, length, length-Perm, max, ltb, ltb-lt, ltb-le, Bool-cases, update, update_self, update_ne,
  word32, word64, ap, ap₂, subst, sym, ◌∙◌, inl, inr, ◌⊎◌,
}
use native.Mathlib.Numerals.{add-one}
use sequitur.ObjectPool.{ObjectPool, create, take_top, acquire, release, raise_peak}

-- The `n` topmost entries, from index `n - 1` down.
abbrev pub stack : (ℕ → ℕ) → ℕ → List ℕ
stack f zero = []
stack f (suc n) = f n ∷ stack f n

-- `held` are the slots that have been handed out and not come back.
pub record IsPool (p : ObjectPool) (held : List ℕ) : Type 0 where
  pub slots : Perm (stack p.free_indices p.free ++ held) (stack (λ i. i) p.capacity)
  pub total : p.free + length held ≡ p.capacity
  pub used : p.used_count ≡ length held
  pub small : p.capacity < word32
  pub peak : (p.used_count ≤ p.peak_usage) × (p.peak_usage ≤ p.capacity)

stack-same : (f g : ℕ → ℕ) (n : ℕ) → ((i : ℕ) → i < n → f i ≡ g i) → stack f n ≡ stack g n
stack-same f g zero same = refl
stack-same f g (suc n) same =
    ap₂ ◌∷◌ (same n (omega arith)) (stack-same f g n (λ i h. same i (omega arith)))

lt_of_mem-stack : (n a : ℕ) → Mem a (stack (λ i. i) n) → a < n
lt_of_mem-stack zero a m = absurd (not-mem-nil m)
lt_of_mem-stack (suc n) a m =
    Or.elim le_prop (mem-cons.0 m) (λ e. omega arith)
      (λ r. let lt = lt_of_mem-stack n a r in omega arith)

stack-Nodup : (n : ℕ) → Nodup (stack (λ i. i) n)
stack-Nodup zero = Nodup-nil
stack-Nodup (suc n) =
    Nodup-cons.1 ((λ m. let lt = lt_of_mem-stack n n m in omega arith), stack-Nodup n)

-- In a new pool, of a capacity below 2^32, no slot is in use and every slot is free.
pub create-IsPool : (cap : ℕ) → cap < word32 → IsPool (create cap) []
unfolding create
create-IsPool cap small = record {
  slots =
      subst (λ l. Perm l (stack (λ i. i) cap))
        (sym (
          append-nil (stack (λ i. i % word32) cap)
          ∙ stack-same (λ i. i % word32) (λ i. i) cap (λ i h. omega arith)))
        (Perm.refl _);
  total = omega arith;
  used = refl;
  small = small;
  peak = (omega arith, omega arith);
}

raise_peak-eq-max : (used peak : ℕ) → raise_peak used peak ≡ max used peak
unfolding raise_peak
raise_peak-eq-max used peak = elim (Bool-cases (ltb peak used)) [
  | inl above ↦ let lt = ltb-lt peak used above in rw above (omega arith)
  | inr below ↦ let le = ltb-le peak used below in rw below (omega arith)
]

-- A slot that `acquire` has handed out: it is in the pool, it was not in use, and it now is.
pub record Acquired (p : ObjectPool) (held : List ℕ) (i : ℕ) (p' : ObjectPool) : Type 0 where
  pub in_pool : i < p.capacity
  pub fresh : ¬ Mem i held
  pub pool : IsPool p' (i ∷ held)
  pub capacity : p'.capacity ≡ p.capacity
  pub failures : p'.alloc_failures ≡ p.alloc_failures
  pub peak : p'.peak_usage ≡ max (p.used_count + 1) p.peak_usage

take_top-Acquired :
    (n : ℕ) (p : ObjectPool) (held : List ℕ)
    → p.free ≡ suc n
    → IsPool p held
    → Acquired p held (p.free_indices n) (take_top (suc n) p).1
unfolding take_top
take_top-Acquired n p held e v =
    let slots : Perm (p.free_indices n ∷ (stack p.free_indices n ++ held))
        (stack (λ i. i) p.capacity) =
      subst (λ k. Perm (stack p.free_indices k ++ held) (stack (λ i. i) p.capacity)) e v.slots in
    let whole : (p.used_count + 1) % word64 ≡ p.used_count + 1 =
      omega (arith, v.used, v.total, v.small) in
    let peak : raise_peak ((p.used_count + 1) % word64) p.peak_usage
        ≡ max (p.used_count + 1) p.peak_usage =
      ap (λ n. raise_peak n p.peak_usage) whole
      ∙ raise_peak-eq-max (p.used_count + 1) p.peak_usage in
    record {
      in_pool = lt_of_mem-stack p.capacity _ ((Perm.mem_iff slots).0 mem-cons_self);
      fresh = λ m.
          (Nodup-cons.0 (Perm.nodup (Perm.symm slots) (stack-Nodup p.capacity))).0
            (mem-append_right _ m);
      pool = record {
        slots = Perm.trans (perm_middle _ _) slots;
        total = omega (arith, v.total);
        used = omega (arith, v.used, v.total, v.small);
        small = v.small;
        peak = omega (arith, peak, v.peak, v.used, v.total, v.small);
      };
      capacity = refl;
      failures = refl;
      peak = peak;
    }

-- Either every slot is in use, and then the failure is counted and nothing else changes, or a slot is
-- handed out.
abbrev pub AcquireCases : ObjectPool → List ℕ → Option ℕ × ObjectPool → Type 0
AcquireCases p held out =
    ((length held ≡ p.capacity)
      × (out ≡ (none, record p { alloc_failures = (p.alloc_failures + 1) % word64 })))
    ⊎ ((i : ℕ) × (length held < p.capacity) × (out.0 ≡ some i) × Acquired p held i out.1)

-- On a pool whose slots `held` are in use and the others free: if all are in use, `acquire`
-- answers none and adds 1 to the failures (modulo 2^64) and changes nothing else; otherwise it
-- answers a slot of the pool that was not in use, the slots then in use are that one and `held`,
-- the failures stay, and the peak is the larger of the old one and the new number of slots in use.
pub acquire_cases :
    (p : ObjectPool) (held : List ℕ) → IsPool p held → AcquireCases p held (acquire p)
unfolding acquire
acquire_cases p held v = by_free p.free refl
  where
    by_free : (n : ℕ) → p.free ≡ n → AcquireCases p held (take_top p.free p)
    by_free zero e = inl (omega (arith, v.total), ap (λ n. take_top n p) e)
    by_free (suc n) e = inr (
      p.free_indices n,
      omega (arith, v.total),
      ap (λ m. (take_top m p).0) e,
      subst (λ m. Acquired p held (p.free_indices n) (take_top m p).1) (sym e)
          (take_top-Acquired n p held e v),
    )

-- On a pool whose slots `i` and `held` are in use and the others free, `release` of slot `i`
-- leaves the slots `held` in use and the others free.
pub release-IsPool :
    (p : ObjectPool) (i : ℕ) (held : List ℕ)
    → IsPool p (i ∷ held)
    → IsPool (release (some i) p) held
unfolding release
release-IsPool p i held v =
    let in_pool : i < p.capacity =
      lt_of_mem-stack p.capacity i
        ((Perm.mem_iff v.slots).0 (mem-append_right (stack p.free_indices p.free) mem-cons_self)) in
    let whole : i % word32 ≡ i = omega (arith, v.small) in
    let f = update p.free_indices p.free (i % word32) in
    let pushed : stack f (suc p.free) ≡ i ∷ stack p.free_indices p.free =
      ap₂ ◌∷◌ (update_self p.free_indices p.free _ ∙ whole) (
        stack-same f p.free_indices p.free
          (λ j h. update_ne p.free_indices p.free j _ (omega arith))) in
    record {
      slots =
          subst (λ l. Perm (l ++ held) (stack (λ j. j) p.capacity))
            (sym (ap (stack f) (add-one p.free) ∙ pushed))
            (Perm.trans (Perm.symm (perm_middle (stack p.free_indices p.free) held)) v.slots);
      total = omega (arith, v.total);
      used = omega (arith, v.used, v.total, v.small);
      small = v.small;
      peak = omega (arith, v.peak, v.used, v.total, v.small);
    }

-- The order of the slots in use does not matter.
pub IsPool-Perm : (p : ObjectPool) (xs ys : List ℕ) → Perm xs ys → IsPool p xs → IsPool p ys
IsPool-Perm p xs ys same v =
    let size = length-Perm same in
    record {
      slots = Perm.trans (Perm.append_left (stack p.free_indices p.free) (Perm.symm same)) v.slots;
      total = omega (arith, v.total);
      used = v.used ∙ size;
      small = v.small;
      peak = v.peak;
    }

-- No slot is in use twice.
pub IsPool-Nodup : (p : ObjectPool) (held : List ℕ) → IsPool p held → Nodup held
IsPool-Nodup p held v = (Nodup-append.0 (Perm.nodup (Perm.symm v.slots) (stack-Nodup p.capacity))).1
