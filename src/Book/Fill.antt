-- ===== src/Book/Fill.antt =====
-- Price-time priority on lists, with no pointers: what a taker does to the resting orders that it
-- meets, given in the order in which it meets them.
use sequitur.Prelude.{
  ℕ, ◌≢◌, ◌≤◌, ◌<◌, false, Bool-cases, inl, inr, leb-le, leb-lt, length, ◌+◌, ◌-◌, ◌≡◌, refl, List,
  [], ◌∷◌, ◌++◌, arith, leb, ◌==◌, if◌then◌else◌, min,
}
use sequitur.Market.{Order, Trade}
use sequitur.Book.Chain.{Cell}
use sequitur.Book.Level.{total, total-cons}

abbrev pub trade_with : ℕ → ℕ → Order → Trade
trade_with taker quantity o = record {
  maker_id = o.trader_id;
  taker_id = taker;
  price = o.price;
  quantity = quantity;
}

-- The trades of a taker that asks for `q`.
unfoldable pub fills : ℕ → ℕ → List Cell → List Trade
fills taker q [] = []
fills taker q ((s, o) ∷ xs) =
    if q == 0 then [] else trade_with taker (min q o.quantity) o ∷ fills taker (q - o.quantity) xs

-- The resting orders that are left, the last one met perhaps in part.
unfoldable pub remaining : ℕ → List Cell → List Cell
remaining q [] = []
remaining q ((s, o) ∷ xs) =
    let rest = remaining (q - o.quantity) xs in
    if q == 0
    then (s, o) ∷ xs
    else if leb o.quantity q
    then rest
    else (s, record o { quantity = o.quantity - q }) ∷ xs

-- The slots of the orders that are filled, in that order.
unfoldable pub filled : ℕ → List Cell → List ℕ
filled q [] = []
filled q ((s, o) ∷ xs) =
    let rest = filled (q - o.quantity) xs in
    if q == 0 then [] else if leb o.quantity q then s ∷ rest else []

pub fills-le : (taker q : ℕ) (xs : List Cell) → length (fills taker q xs) ≤ length xs
unfolding fills
fills-le taker q [] = omega arith
fills-le taker q ((s, o) ∷ xs) = ground (arith, fills-le taker (q - o.quantity) xs)

pub fills-zero : (taker : ℕ) (xs : List Cell) → fills taker 0 xs ≡ []
unfolding fills
fills-zero taker [] = refl
fills-zero taker ((s, o) ∷ xs) = refl

pub remaining-zero : (xs : List Cell) → remaining 0 xs ≡ xs
unfolding remaining
remaining-zero [] = refl
remaining-zero ((s, o) ∷ xs) = refl

pub filled-zero : (xs : List Cell) → filled 0 xs ≡ []
unfolding filled
filled-zero [] = refl
filled-zero ((s, o) ∷ xs) = refl

-- A level after one trade with a taker that asks for `q`.
unfoldable pub reduced : ℕ → ℕ → Order → List Cell → List Cell
reduced q s o rs = if leb o.quantity q then rs else (s, record o { quantity = o.quantity - q }) ∷ rs

-- The first trade, and then the rest of the trades with what it left.
module _ (q s : ℕ) (o : Order) (rs met : List Cell) (pos : q ≢ 0) where
  pub fills-reduced :
      (taker : ℕ)
      → fills taker q ((s, o) ∷ rs ++ met)
        ≡ trade_with taker (min q o.quantity) o
          ∷ fills taker (q - min q o.quantity) (reduced q s o rs ++ met)
  unfolding fills reduced
  fills-reduced taker = elim (Bool-cases (leb o.quantity q)) [
    | inl full ↦
        let n : (q == 0) ≡ false = ground arith in
        let e : q - min q o.quantity ≡ q - o.quantity = ground arith in rw (n, full, e)
    | inr part ↦
        let n : (q == 0) ≡ false = ground arith in
        let e : q - min q o.quantity ≡ 0 = ground arith in
        let e' : q - o.quantity ≡ 0 = ground arith in
        rw (n, part, e, e', fills-zero taker (rs ++ met))
  ]

  pub remaining-reduced :
      remaining q ((s, o) ∷ rs ++ met) ≡ remaining (q - min q o.quantity) (reduced q s o rs ++ met)
  unfolding remaining reduced
  remaining-reduced = elim (Bool-cases (leb o.quantity q)) [
    | inl full ↦
        let n : (q == 0) ≡ false = ground arith in
        let e : q - min q o.quantity ≡ q - o.quantity = ground arith in rw (n, full, e)
    | inr part ↦
        let n : (q == 0) ≡ false = ground arith in
        let e : q - min q o.quantity ≡ 0 = ground arith in rw (n, part, e)
  ]

  pub filled-reduced :
      filled q ((s, o) ∷ rs ++ met)
      ≡ (if leb o.quantity q then s ∷ [] else [])
        ++ filled (q - min q o.quantity) (reduced q s o rs ++ met)
  unfolding filled reduced
  filled-reduced = elim (Bool-cases (leb o.quantity q)) [
    | inl full ↦
        let n : (q == 0) ≡ false = ground arith in
        let e : q - min q o.quantity ≡ q - o.quantity = ground arith in rw (n, full, e)
    | inr part ↦
        let n : (q == 0) ≡ false = ground arith in
        let e : q - min q o.quantity ≡ 0 = ground arith in rw (n, part, e)
  ]

  -- What the taker is left with, and what has been traded, come to the same.
  pub total-reduced :
      (q - min q o.quantity - total (reduced q s o rs ++ met) ≡ q - total ((s, o) ∷ rs ++ met))
      × (min q o.quantity + min (q - min q o.quantity) (total (reduced q s o rs ++ met))
          ≡ min q (total ((s, o) ∷ rs ++ met)))
  unfolding reduced
  total-reduced = elim (Bool-cases (leb o.quantity q)) [
    | inl full ↦
        let le : o.quantity ≤ q = leb-le _ _ full in
        rw full
          (omega (arith, total-cons s o (rs ++ met)), omega (arith, total-cons s o (rs ++ met)))
    | inr part ↦
        let lt : q < o.quantity = leb-lt _ _ part in
        let o' : Order = record o { quantity = o.quantity - q } in
        rw part (
          omega (arith, total-cons s o (rs ++ met), total-cons s o' (rs ++ met)),
          omega (arith, total-cons s o (rs ++ met), total-cons s o' (rs ++ met)),
        )
  ]

  pub length-reduced : length (reduced q s o rs ++ met) ≤ length ((s, o) ∷ rs ++ met)
  unfolding reduced
  length-reduced = elim (Bool-cases (leb o.quantity q)) [
    | inl full ↦ rw full (omega arith)
    | inr part ↦ rw part (omega arith)
  ]
