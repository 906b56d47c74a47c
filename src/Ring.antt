-- ===== src/Ring.antt =====
-- What the ring buffers of include/sequitur/concurrency share: cursors that wrap at `2 ^ 64`, and an
-- array whose length is a power of 2, so that `x & Mask` is `x % capacity`.
use native.Mathlib.Nat.{
  add-zero, mod-mod_of_dvd, mod-add-mod, mod-eq_of_lt, mod-eq-sub-mod, mod-lt, dvd_of_mod-eq-zero,
}
use native.Mathlib.Decide.{dec_lt}
use Prim.Native.Nat.{◌∣◌}
use sequitur.Prelude.{
  ℕ, zero, suc, ◌+◌, ◌-◌, ◌%◌, ◌^◌, ◌<◌, ◌≡◌, refl, ◌≢◌, Bool, true, ◌&&◌, inl, inr, Bool-cases,
  ne_of_test, List, [], ◌∷◌, ◌++◌, arith, ◌==◌, ltb, length, update, update_self, update_ne, word64,
  ap, ap₂, sym, ◌∙◌,
}

-- `a - b` on `size_t`
abbrev pub distance : ℕ → ℕ → ℕ
distance a b = (a + word64 - b) % word64

-- What the `static_assert` on `Capacity` gives.
pub record IsCapacity (c : ℕ) : Type 0 where
  pub pos : 0 < c
  pub small : c < word64
  pub divides : c ∣ word64

is_size : ℕ → Bool
is_size n = (word64 % n == 0) && (ltb 0 n && ltb n word64)

all_sizes : ℕ → Bool
all_sizes zero = true
all_sizes (suc k) = is_size (2 ^ k) && all_sizes k

all_sizes-is_size : (n k : ℕ) → all_sizes n ≡ true → k < n → is_size (2 ^ k) ≡ true
unfolding all_sizes
all_sizes-is_size zero k e h = absurd (omega arith)
all_sizes-is_size (suc n) k e h = elim (Bool-cases (k == n)) [
  | inl hit ↦ let same : k ≡ n = ground arith in rw same (ground arith)
  | inr miss ↦ let ne = ne_of_test k n miss in all_sizes-is_size n k (ground arith) (omega arith)
]

is_size-IsCapacity : (n : ℕ) → is_size n ≡ true → IsCapacity n
unfolding is_size
is_size-IsCapacity n e =
    let whole : word64 % n ≡ 0 = ground arith in
    let pos : 0 < n = ground arith in
    record { pos = pos; small = ground arith; divides = dvd_of_mod-eq-zero n whole }

all_64_sizes : all_sizes 64 ≡ true
unfolding all_sizes is_size
all_64_sizes = refl

-- Every power of 2 that a `size_t` holds is a capacity.
pub pow-IsCapacity : (k : ℕ) → k < 64 → IsCapacity (2 ^ k)
pow-IsCapacity k h = is_size-IsCapacity (2 ^ k) (all_sizes-is_size 64 k all_64_sizes h)

module _ {A : Type 0} (c : ℕ) where
  -- The `n` items from cursor `h` on.
  abbrev pub window : (ℕ → A) → ℕ → ℕ → List A
  window f h zero = []
  window f h (suc n) = f (h % c) ∷ window f ((h + 1) % word64) n

  pub length-window : (f : ℕ → A) (h n : ℕ) → length (window f h n) ≡ n
  length-window f h zero = refl
  length-window f h (suc n) = ap suc (length-window f ((h + 1) % word64) n)

  pub window-suc :
      (f : ℕ → A) (h n : ℕ) → n ≢ 0 → window f h n ≡ f (h % c) ∷ window f ((h + 1) % word64) (n - 1)
  window-suc f h zero p = absurd (p refl)
  window-suc f h (suc n) p = ap (λ m. f (h % c) ∷ window f ((h + 1) % word64) m) (omega arith)

-- Fewer than `c` steps do not come back to a slot.
pub slot-ne : (c h d : ℕ) → 0 < d → d < c → h % c ≢ (h + d) % c
slot-ne c h d pos lt =
    let r : h % c < c = mod-lt h (omega arith) in
    let e : (h % c + d) % c ≡ (h + d) % c = mod-add-mod h c d in
    elim (dec_lt (h % c + d) c) [
      | yes p ↦ omega (arith, mod-eq_of_lt p)
      | no p ↦ omega (
        arith,
        mod-eq-sub-mod {n = h % c + d} {m = c} (omega arith),
        mod-eq_of_lt {n = h % c + d - c} {m = c} (omega arith),
      )
    ]

-- A wrapped cursor stands at the same slot.
pub wrap-slot : {c : ℕ} → IsCapacity c → (h : ℕ) → h % word64 % c ≡ h % c
wrap-slot {c} v h = mod-mod_of_dvd c h v.divides

next-slot : {c : ℕ} → IsCapacity c → (h n : ℕ) → (h + suc n) % c ≡ ((h + 1) % word64 + n) % c
next-slot {c} v h n =
    ap (λ m. m % c) (shift h n)
    ∙ sym (mod-add-mod (h + 1) c n)
    ∙ ap (λ m. (m + n) % c) (sym (wrap-slot v (h + 1)))
    ∙ mod-add-mod ((h + 1) % word64) c n
  where
    shift : (h n : ℕ) → h + suc n ≡ h + 1 + n
    shift h n = omega arith

-- Writing just past a window extends it by one item.
pub window-update :
    {A : Type 0} {c : ℕ}
    → IsCapacity c
    → (f : ℕ → A) (x : A) (n h i : ℕ) → n < c
    → i ≡ (h + n) % c
    → window c (update f i x) h (suc n) ≡ window c f h n ++ x ∷ []
window-update {c} v f x zero h i lt e =
    ap (λ y. y ∷ [])
      (ap (λ j. update f i x j) (sym (e ∙ ap (λ n. n % c) (add-zero h))) ∙ update_self f i x)
window-update {c} v f x (suc n) h i lt e =
    let ne : h % c ≢ i = λ k. slot-ne c h (suc n) (omega arith) lt (k ∙ e) in
    ap₂ ◌∷◌ (update_ne f i (h % c) x ne)
      (window-update v f x n ((h + 1) % word64) i (omega arith) (e ∙ next-slot v h n))

-- Writing just past a window leaves it as it is.
pub window-frame :
    {A : Type 0} {c : ℕ}
    → (f : ℕ → A) (x : A) (n h i : ℕ) → IsCapacity c
    → n < c
    → i ≡ (h + n) % c
    → window c (update f i x) h n ≡ window c f h n
window-frame f x zero h i v lt e = refl
window-frame {c = c} f x (suc n) h i v lt e =
    let ne : h % c ≢ i = λ k. slot-ne c h (suc n) (omega arith) lt (k ∙ e) in
    ap₂ ◌∷◌ (update_ne f i (h % c) x ne)
      (window-frame f x n ((h + 1) % word64) i v (omega arith) (e ∙ next-slot v h n))

-- A longer window ends with the item past the shorter one.
pub window-last :
    {A : Type 0} {c : ℕ}
    → (f : ℕ → A) (n h : ℕ) → IsCapacity c
    → window c f h (suc n) ≡ window c f h n ++ f ((h + n) % c) ∷ []
window-last {c = c} f zero h v = ap (λ j. f (j % c) ∷ []) (sym (add-zero h))
window-last {c = c} f (suc n) h v =
    ap (λ ys. f (h % c) ∷ ys)
      (window-last f n ((h + 1) % word64) v
        ∙ ap (λ j. window c f ((h + 1) % word64) n ++ f j ∷ []) (sym (next-slot v h n)))
