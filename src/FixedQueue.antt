-- ===== src/FixedQueue.antt =====
-- include/sequitur/utils/FixedQueue.hpp: an array of `Capacity` slots and the number in use. The
-- source writes without a bounds check; a write past the array is undefined, and `push` is `none`.
use native.Mathlib.Nat.{add-zero}
use sequitur.Prelude.{
  ℕ, zero, suc, ◌+◌, ◌%◌, ◌<◌, ◌≡◌, refl, ap, List, [], ◌∷◌, ◌++◌, Option, none, some, arith, ltb,
  ◌==◌, if◌then◌else◌, length, get_elem?, update, word32, false, ◌∙◌,
}

pub record FixedQueue (A : Type 0) : Type 0 where
  pub slots : ℕ → A
  pub count : ℕ

module _ {A : Type 0} where
  -- A new queue: the slots hold whatever `T` is initialised to.
  unfoldable pub create : (ℕ → A) → FixedQueue A
  create slots = record { slots = slots; count = 0 }

  -- `data[count++] = item`
  unfoldable pub append : A → FixedQueue A → FixedQueue A
  append item q = record q { slots = update q.slots q.count item; count = (q.count + 1) % word32 }

  unfoldable pub push : ℕ → A → FixedQueue A → Option (FixedQueue A)
  push capacity item q = if ltb q.count capacity then some (append item q) else none

  unfoldable pub clear : FixedQueue A → FixedQueue A
  clear q = record q { count = 0 }

  unfoldable pub size : FixedQueue A → ℕ
  size q = q.count

  -- `operator[]`
  unfoldable pub at : ℕ → FixedQueue A → A
  at index q = q.slots index

  -- The `n` slots from `i` on.
  abbrev pub collect : (ℕ → A) → ℕ → ℕ → List A
  collect f i zero = []
  collect f i (suc n) = f i ∷ collect f (suc i) n

  -- What the iterators `begin()` and `end()` run through.
  unfoldable pub to_list : FixedQueue A → List A
  to_list q = collect q.slots 0 q.count

  collect-update :
      (f : ℕ → A) (x : A) (n i j : ℕ)
      → j ≡ i + n
      → collect (update f j x) i (suc n) ≡ collect f i n ++ (x ∷ [])
  collect-update f x zero i j e = let e' : j ≡ i = omega arith in ground arith
  collect-update f x (suc n) i j e =
      let ne : (i == j) ≡ false = ground arith in
      rw (ne, collect-update f x n (suc i) j (omega arith))

  length-collect : (f : ℕ → A) (n i : ℕ) → length (collect f i n) ≡ n
  length-collect f zero i = refl
  length-collect f (suc n) i = ap suc (length-collect f n (suc i))

  get_elem?-collect :
      (f : ℕ → A) (n i j : ℕ) → j < n → get_elem? (collect f i n) j ≡ some (f (i + j))
  get_elem?-collect f zero i j h = absurd (omega arith)
  get_elem?-collect f (suc n) i zero h = rw add-zero
  get_elem?-collect f (suc n) i (suc j) h =
      get_elem?-collect f n (suc i) j (omega arith) ∙ ap (λ m. some (f m)) (omega arith)

  pub to_list-append :
      (x : A) (q : FixedQueue A)
      → size q + 1 < word32
      → (to_list (append x q) ≡ to_list q ++ x ∷ []) × (size (append x q) ≡ size q + 1)
  unfolding to_list append size
  to_list-append x q h =
      let e : (q.count + 1) % word32 ≡ suc q.count = omega arith in
      (rw e (collect-update q.slots x q.count 0 q.count (omega arith)), omega arith)

  pub push-append :
      (capacity : ℕ) (x : A) (q : FixedQueue A)
      → size q < capacity
      → push capacity x q ≡ some (append x q)
  unfolding push size
  push-append capacity x q h = ground arith

  pub length-to_list : (q : FixedQueue A) → length (to_list q) ≡ size q
  unfolding to_list size
  length-to_list q = length-collect q.slots q.count 0
