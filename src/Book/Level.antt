-- ===== src/Book/Level.antt =====
-- What memory, price levels and a list of orders for each price have to do with one another: the
-- abstract view of the book is a function from prices to the orders that rest there, oldest first.
use sequitur.Prelude.{
  ℕ, ◌+◌, ◌%◌, ◌≤◌, ◌<◌, ◌≡◌, refl, ◌≢◌, true, false, none, some, List, [], ◌∷◌, ◌++◌, arith, ◌==◌,
  update, update_self, word32, Bool-cases, inl, inr, update_ne, ne_of_test, sym, ◌∙◌, ap, subst,
}
use mathlib.Core.Bool.{false≢true}
use sequitur.Market.{Ptr, Order, PriceLevel, max_price_ticks}
use sequitur.Machine.{World}
use sequitur.Book.Chain.{Cell, Memory, Chain, has, first, last, linked, Chain-frame}

-- Every order of a list is at price `p`, and its quantity is a `uint32_t`.
abbrev pub Fits : ℕ → List Cell → Type 0
Fits p [] = Unit {0}
Fits p ((_, o) ∷ xs) = (o.price ≡ p) × (o.quantity < word32) × Fits p xs

-- The quantity that a list of orders asks for.
unfoldable pub total : List Cell → ℕ
total [] = 0
total ((_, o) ∷ xs) = o.quantity + total xs

pub total-append : (xs ys : List Cell) → total (xs ++ ys) ≡ total xs + total ys
unfolding total
total-append [] ys = omega arith
total-append (x ∷ xs) ys = omega (arith, total-append xs ys)

pub total_one : (s : ℕ) (o : Order) → total ((s, o) ∷ []) ≡ o.quantity
unfolding total
total_one s o = omega arith

pub total-cons : (s : ℕ) (o : Order) (xs : List Cell) → total ((s, o) ∷ xs) ≡ o.quantity + total xs
unfolding total
total-cons s o xs = refl

pub Fits-append : (p : ℕ) (xs ys : List Cell) → Fits p xs → Fits p ys → Fits p (xs ++ ys)
Fits-append p [] ys f g = g
Fits-append p ((s, o) ∷ xs) ys f g = (f.0, f.1, Fits-append p xs ys f.2 g)

-- The level at price `p` holds exactly the orders `xs`, in this order.
pub record IsLevel (m : Memory) (p : ℕ) (pl : PriceLevel) (xs : List Cell) : Type 0 where
  pub head : pl.head ≡ first none xs
  pub tail : pl.tail ≡ last none xs
  pub chain : Chain m none none xs
  pub fits : Fits p xs
  pub volume : pl.volume ≡ total xs % word32

abbrev pub Levels : Type 0
Levels = ℕ → List Cell

-- The book holds the orders `ls p` at each price `p`.
abbrev pub IsBook : World → Levels → Type 0
IsBook w ls = (p : ℕ) → p ≤ max_price_ticks → IsLevel w.orders p (w.book.levels p) (ls p)

-- The slot holds no resting order.
abbrev pub IsOut : ℕ → Levels → Type 0
IsOut i ls = (p : ℕ) → p ≤ max_price_ticks → has i (ls p) ≡ false

pub IsLevel-frame :
    {m : Memory} {p : ℕ} {pl : PriceLevel} {xs : List Cell} (a : ℕ) (o : Order)
    → IsLevel m p pl xs
    → has a xs ≡ false
    → IsLevel (update m a (some o)) p pl xs
IsLevel-frame {m} {xs} a o v out = record {
  head = v.head;
  tail = v.tail;
  chain = Chain-frame m none none xs a (some o) v.chain out;
  fits = v.fits;
  volume = v.volume;
}

-- A slot out of the level is freed.
pub IsLevel-free :
    {m : Memory} {p : ℕ} {pl : PriceLevel} {xs : List Cell} (a : ℕ)
    → IsLevel m p pl xs
    → has a xs ≡ false
    → IsLevel (update m a none) p pl xs
IsLevel-free {m} {xs} a v out = record {
  head = v.head;
  tail = v.tail;
  chain = Chain-frame m none none xs a none v.chain out;
  fits = v.fits;
  volume = v.volume;
}

pub price_of_has :
    (m : Memory) (prev end : Ptr) (p : ℕ) (xs : List Cell) (a : ℕ) (o : Order)
    → Chain m prev end xs
    → Fits p xs
    → m a ≡ some o
    → has a xs ≡ true
    → o.price ≡ p
price_of_has m prev end p [] a o c f e h = absurd (false≢true h)
price_of_has m prev end p ((s, q) ∷ xs) a o (e', new, c) f e h = elim (Bool-cases (a == s)) [
  | inl hit ↦
      let same : a ≡ s = ground arith in
      let at : some o ≡ some (linked q prev (first end xs)) = sym e ∙ ap m same ∙ e' in ground arith
  | inr miss ↦ price_of_has m (some s) end p xs a o c f.2 e (ground arith)
]

-- A write to another price's level changes nothing.
pub IsLevel-other :
    {m : Memory} {q : ℕ} {xs : List Cell} (pls : ℕ → PriceLevel) (p : ℕ) (pl : PriceLevel)
    → q ≢ p
    → IsLevel m q (pls q) xs
    → IsLevel m q (update pls p pl q) xs
IsLevel-other {m} {q} {xs} pls p pl ne v =
    subst (λ l. IsLevel m q l xs) (sym (update_ne pls p q pl ne)) v

-- An order of one price rests at no other.
pub not_has_of_price :
    {m : Memory} {p : ℕ} {pl : PriceLevel} {xs : List Cell} (a : ℕ) (o : Order)
    → IsLevel m p pl xs
    → m a ≡ some o
    → o.price ≢ p
    → has a xs ≡ false
not_has_of_price {m} {p} {xs} a o v e ne = elim (Bool-cases (has a xs)) [
  | inl h ↦ absurd (ne (price_of_has m none none p xs a o v.chain v.fits e h))
  | inr h ↦ h
]

-- A book stays one when the orders of one price change.
pub IsBook-update :
    (m : Memory) (pls : ℕ → PriceLevel) (ls : Levels) (p : ℕ) (pl : PriceLevel) (xs : List Cell)
    → IsLevel m p pl xs
    → ((q : ℕ) → q ≤ max_price_ticks → q ≢ p → IsLevel m q (pls q) (ls q))
    → (q : ℕ) → q ≤ max_price_ticks
    → IsLevel m q (update pls p pl q) (update ls p xs q)
IsBook-update m pls ls p pl xs here there q h = elim (Bool-cases (q == p)) [
  | inl hit ↦ let same : p ≡ q = ground arith in rw hit (subst (λ r. IsLevel m r pl xs) same here)
  | inr miss ↦ rw miss (there q h (ne_of_test q p miss))
]

abbrev pub IsFrame : World → ℕ → Levels → Type 0
IsFrame w p ls = (q : ℕ) → q ≤ max_price_ticks → q ≢ p → IsLevel w.orders q (w.book.levels q) (ls q)

-- From `w` to `w'` memory has changed at orders of price `p` only, and of the rest at most the head
-- and the tail of that price's level.
pub record Touched (w : World) (p : ℕ) (ls : Levels) (w' : World) : Type 0 where
  pub frame : IsFrame w' p ls
  pub others : (a : ℕ) → has a (ls p) ≡ false → w'.orders a ≡ w.orders a
  pub volume : (w'.book.levels p).volume ≡ (w.book.levels p).volume
  pub rest : w' ≡ record w { orders = w'.orders; book = record w.book { levels = w'.book.levels } }

module _ (w : World) (p : ℕ) (ls : Levels) (frame : IsFrame w p ls) where
  pub modify-Touched :
      (t : ℕ) (y z : Order)
      → w.orders t ≡ some y
      → y.price ≡ p
      → has t (ls p) ≡ true
      → Touched w p ls (record w { orders = update w.orders t (some z) })
  modify-Touched t y z e price inside = record {
    frame = λ q h ne.
        let v = frame q h ne in
        IsLevel-frame t z v (not_has_of_price t y v e (λ k. ne (sym k ∙ price)));
    others = λ a out.
        update_ne w.orders t a (some z)
          (λ k. false≢true (sym out ∙ ap (λ b. has b (ls p)) k ∙ inside));
    volume = refl;
    rest = refl;
  }

  pub set_level-Touched :
      (pl : PriceLevel)
      → pl.volume ≡ (w.book.levels p).volume
      → Touched w p ls (record w { book = record w.book { levels = update w.book.levels p pl } })
  set_level-Touched pl e = record {
    frame = λ q h ne. IsLevel-other w.book.levels p pl ne (frame q h ne);
    others = λ a out. refl;
    volume = ap (λ l. l.volume) (update_self w.book.levels p pl) ∙ e;
    rest = refl;
  }

pub Touched-trans :
    {u v w : World} {p : ℕ} {ls : Levels} → Touched u p ls v → Touched v p ls w → Touched u p ls w
Touched-trans {w} s t = record {
  frame = t.frame;
  others = λ a out. t.others a out ∙ s.others a out;
  volume = t.volume ∙ s.volume;
  rest =
      t.rest
      ∙ ap
          (λ (x : World). record x {
            orders = w.orders;
            book = record x.book { levels = w.book.levels };
          })
          s.rest;
}

pub Fits-Split : (p : ℕ) (xs ys : List Cell) → Fits p (xs ++ ys) → Fits p xs × Fits p ys
Fits-Split p [] ys f = (tt, f)
Fits-Split p ((s, o) ∷ xs) ys (price, small, f) =
    let (g, h) = Fits-Split p xs ys f in ((price, small, g), h)
