-- ===== src/Book/Resting/Room.antt =====
-- Fuel and room enough for what an order reaches.
use sequitur.Prelude.{
  ℕ, suc, ◌+◌, ◌-◌, ◌≤◌, ◌≡◌, refl, inl, inr, ◌&&◌, List, [], ◌∷◌, ◌++◌, arith, leb, ◌==◌, length,
  length-append, length-Perm, Bool-cases, ap,
}
use sequitur.Market.{Order, max_price_ticks}
use sequitur.Machine.{OrderBook}
use sequitur.Book.Chain.{Cell}
use sequitur.Book.Level.{Levels}
use sequitur.Book.Buy.{asks}
use sequitur.Book.Sell.{bids}
use sequitur.Book.Cross.{reach, crossing, crossing_buy, crossing_sell, crossing_none}
use sequitur.Book.Resting.{slots, resting, bids-Perm, resting-split}

length-slots : (xs : List Cell) → length (slots xs) ≡ length xs
length-slots [] = refl
length-slots (x ∷ xs) = ap suc (length-slots xs)

-- A range of prices holds no more orders than the book.
length-range :
    (ls : Levels) (lo n : ℕ)
    → lo + n ≤ max_price_ticks + 1
    → length (slots (asks ls lo n)) ≤ length (resting ls)
length-range ls lo n h =
    let m = max_price_ticks + 1 - (lo + n) in
    let low = slots (asks ls 0 lo) in
    let mid = slots (asks ls lo n) in
    let high = slots (asks ls (lo + n) m) in
    omega (
      arith,
      ap length (resting-split ls lo n m (omega arith)),
      length-append low (mid ++ high),
      length-append mid high,
    )

-- An order crosses no more orders than rest in the book, and reaches no more prices than there are.
pub length-crossing :
    (b : OrderBook) (c : Order) (ls : Levels)
    → c.price ≤ max_price_ticks
    → b.best_bid ≤ max_price_ticks
    → length (crossing b c ls) ≤ length (resting ls)
length-crossing b c ls in_range bid = elim (Bool-cases (c.side == 0 && leb b.best_ask c.price)) [
  | inl buy ↦
      let n = c.price + 1 - b.best_ask in
      let side : c.side ≡ 0 = ground arith in
      let near : b.best_ask ≤ c.price = ground arith in
      let met = ap length (crossing_buy b c ls side) in
      omega (arith, length-slots (asks ls b.best_ask n), length-range ls b.best_ask n (omega arith))
  | inr no_buy ↦ elim (Bool-cases (c.side == 1 && leb c.price b.best_bid)) [
    | inl sell ↦
        let n = b.best_bid + 1 - c.price in
        let side : c.side ≡ 1 = ground arith in
        let near : c.price ≤ b.best_bid = ground arith in
        let met = ap length (crossing_sell b c ls side) in
        let lo : b.best_bid + 1 - n ≡ c.price = omega arith in
        omega (
          arith,
          length-slots (bids ls b.best_bid n),
          length-Perm (bids-Perm ls n b.best_bid (omega arith)),
          length-range ls (b.best_bid + 1 - n) n (omega arith),
        )
    | inr no_sell ↦ omega (arith, ap length (crossing_none b c ls no_buy no_sell))
  ]
]

pub reach_le :
    (b : OrderBook) (c : Order)
    → c.price ≤ max_price_ticks
    → b.best_bid ≤ max_price_ticks
    → reach b c ≤ max_price_ticks + 1
unfolding reach
reach_le b c in_range bid = ground arith
