-- ===== src/Book/Chain.antt =====
-- Doubly linked lists of orders in memory: what the `prev_order` and `next_order` of a price level's
-- orders have to be for the level to hold a given list.
use sequitur.Prelude.{
  ℕ, ◌≡◌, refl, ◌≢◌, Bool, true, false, ◌||◌, Option, some, List, [], ◌∷◌, ◌++◌, arith, ◌==◌,
  update, update_self, update_ne, Bool-cases, inl, inr, sym, ap, ◌∙◌,
}
use mathlib.Core.Bool.{false≢true}
use sequitur.Market.{Ptr, Order}

-- A slot of the pool with the order in it. The links in the order are not looked at.
abbrev pub Cell : Type 0
Cell = ℕ × Order

abbrev pub has : ℕ → List Cell → Bool
has a [] = false
has a ((s, _) ∷ xs) = (a == s) || has a xs

abbrev pub linked : Order → Ptr → Ptr → Order
linked o p n = record o { prev_order = p; next_order = n }

-- The pointer to the first order of a list, or `end`.
abbrev pub first : Ptr → List Cell → Ptr
first end [] = end
first end ((s, _) ∷ _) = some s

abbrev pub last_slot : ℕ → List Cell → ℕ
last_slot d [] = d
last_slot d ((s, _) ∷ xs) = last_slot s xs

-- The pointer to the last order of a list, or `prev`.
abbrev pub last : Ptr → List Cell → Ptr
last prev [] = prev
last prev ((s, _) ∷ xs) = some (last_slot s xs)

abbrev pub Memory : Type 0
Memory = ℕ → Option Order

-- The orders `xs`, each in its own slot, are linked from behind `prev` to before `end`.
abbrev pub Chain : Memory → Ptr → Ptr → List Cell → Type 0
Chain m prev end [] = Unit {0}
Chain m prev end ((s, o) ∷ xs) =
    (m s ≡ some (linked o prev (first end xs))) × (has s xs ≡ false) × Chain m (some s) end xs

abbrev pub Disjoint : List Cell → List Cell → Type 0
Disjoint xs ys = (a : ℕ) → has a xs ≡ true → has a ys ≡ false

pub has-append : (a : ℕ) (xs ys : List Cell) → has a (xs ++ ys) ≡ (has a xs || has a ys)
has-append a [] ys = refl
has-append a (x ∷ xs) ys = ground (arith, has-append a xs ys)

pub first-append : (end : Ptr) (xs ys : List Cell) → first end (xs ++ ys) ≡ first (first end ys) xs
first-append end [] ys = refl
first-append end (x ∷ xs) ys = refl

pub last-some : (s : ℕ) (xs : List Cell) → last (some s) xs ≡ some (last_slot s xs)
last-some s [] = refl
last-some s (x ∷ xs) = refl

last_slot-append :
    (d : ℕ) (xs ys : List Cell) → last_slot d (xs ++ ys) ≡ last_slot (last_slot d xs) ys
last_slot-append d [] ys = refl
last_slot-append d ((s, _) ∷ xs) ys = last_slot-append s xs ys

pub last-append : (prev : Ptr) (xs ys : List Cell) → last prev (xs ++ ys) ≡ last (last prev xs) ys
last-append prev [] ys = refl
last-append prev ((s, _) ∷ xs) ys =
    ap some (last_slot-append s xs ys) ∙ sym (last-some (last_slot s xs) ys)

has-append_false :
    (a : ℕ) (xs ys : List Cell) → has a (xs ++ ys) ≡ false → (has a xs ≡ false) × (has a ys ≡ false)
has-append_false a [] ys h = (refl, h)
has-append_false a ((s, _) ∷ xs) ys h =
    let rest = has-append_false a xs ys (ground arith) in (ground arith, rest.1)

-- A chain survives a write to a slot that is not its own.
pub Chain-frame :
    (m : Memory) (prev end : Ptr) (xs : List Cell) (a : ℕ) (v : Option Order)
    → Chain m prev end xs
    → has a xs ≡ false
    → Chain (update m a v) prev end xs
Chain-frame m prev end [] a v c out = tt
Chain-frame m prev end ((s, o) ∷ xs) a v (e, new, c) out =
    (ground arith, new, Chain-frame m (some s) end xs a v c (ground arith))

pub Chain-append :
    (m : Memory) (prev end : Ptr) (xs ys : List Cell)
    → Chain m prev (first end ys) xs
    → Chain m (last prev xs) end ys
    → Disjoint xs ys
    → Chain m prev end (xs ++ ys)
Chain-append m prev end [] ys c d apart = d
Chain-append m prev end ((s, o) ∷ xs) ys (e, new, c) d apart = (
  rw first-append e,
  rw (has-append s xs ys, new) (apart s (ground arith)),
  Chain-append m (some s) end xs ys c (rw (last-some s xs) d) (λ a h. apart a (ground arith)),
)

pub Disjoint-symm : (xs ys : List Cell) → Disjoint xs ys → Disjoint ys xs
Disjoint-symm xs ys apart a h = elim (Bool-cases (has a xs)) [
  | inl hit ↦ absurd (false≢true (sym (apart a hit) ∙ h))
  | inr miss ↦ miss
]

-- A chain taken apart.
pub record Split (m : Memory) (prev end : Ptr) (xs ys : List Cell) : Type 0 where
  pub front : Chain m prev (first end ys) xs
  pub back : Chain m (last prev xs) end ys
  pub apart : Disjoint xs ys

Disjoint-cons :
    (s : ℕ) (o : Order) (xs ys : List Cell)
    → has s ys ≡ false
    → Disjoint xs ys
    → Disjoint ((s, o) ∷ xs) ys
Disjoint-cons s o xs ys new apart a h = elim (Bool-cases (has a xs)) [
  | inl old ↦ apart a old
  | inr no_more ↦ let e : a ≡ s = ground arith in rw e new
]

pub Chain-Split :
    (m : Memory) (prev end : Ptr) (xs ys : List Cell)
    → Chain m prev end (xs ++ ys)
    → Split m prev end xs ys
Chain-Split m prev end [] ys c = record { front = tt; back = c; apart = λ a h. cc }
Chain-Split m prev end ((s, o) ∷ xs) ys (e, new, c) =
    let rest = Chain-Split m (some s) end xs ys c in
    let (out, out') = has-append_false s xs ys new in
    record {
      front = (rw (← first-append end xs ys) e, out, rest.front);
      back = rw (← last-some s xs) rest.back;
      apart = Disjoint-cons s o xs ys out' rest.apart;
    }

pub has-last_slot : (s : ℕ) (o : Order) (xs : List Cell) → has (last_slot s xs) ((s, o) ∷ xs) ≡ true
has-last_slot s o [] = ground arith
has-last_slot s o ((t, p) ∷ xs) = ground (arith, has-last_slot t p xs)

-- The last order's `next_order` set: the chain has a new end.
pub Chain-set_end :
    (m : Memory) (prev end : Ptr) (s : ℕ) (o : Order) (xs : List Cell) (end' : Ptr)
    → Chain m prev end ((s, o) ∷ xs)
    → (t : Order) × (m (last_slot s xs) ≡ some t)
      × Chain
          (update m (last_slot s xs) (some (record t { next_order = end' })))
          prev
          end'
          ((s, o) ∷ xs)
Chain-set_end m prev end s o [] end' (e, new, c) =
    (linked o prev end, e, (update_self m s _, refl, tt))
Chain-set_end m prev end s o ((t, p) ∷ xs) end' (e, new, c) =
    let (q, at, rest) = Chain-set_end m (some s) end t p xs end' c in
    let ne : s ≢ last_slot t xs =
      λ k. false≢true (sym new ∙ ap (λ a. has a ((t, p) ∷ xs)) k ∙ has-last_slot t p xs) in
    (q, at, (update_ne m _ s _ ne ∙ e, new, rest))

-- The first order's `prev_order` set: the chain has a new start.
pub Chain-set_start :
    (m : Memory) (prev end : Ptr) (s : ℕ) (o : Order) (xs : List Cell) (prev' : Ptr)
    → Chain m prev end ((s, o) ∷ xs)
    → Chain (update m s (some (linked o prev' (first end xs)))) prev' end ((s, o) ∷ xs)
Chain-set_start m prev end s o xs prev' (e, new, c) =
    (update_self m s _, new, Chain-frame m (some s) end xs s _ c new)

-- A chain is the same in memory that agrees on its slots.
pub Chain-same :
    (m n : Memory) (prev end : Ptr) (xs : List Cell)
    → ((a : ℕ) → has a xs ≡ true → n a ≡ m a)
    → Chain m prev end xs
    → Chain n prev end xs
Chain-same m n prev end [] same c = tt
Chain-same m n prev end ((s, o) ∷ xs) same (e, new, c) = (
  same s (ground arith) ∙ e,
  new,
  Chain-same m n (some s) end xs (λ a h. same a (ground arith)) c,
)

pub ne_last :
    (i s : ℕ) (x : Order) (xs : List Cell) → has i ((s, x) ∷ xs) ≡ false → i ≢ last_slot s xs
ne_last i s x xs out k =
    false≢true (sym out ∙ ap (λ a. has a ((s, x) ∷ xs)) k ∙ has-last_slot s x xs)
