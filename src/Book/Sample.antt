-- ===== src/Book/Sample.antt =====
-- A book with orders at price 5, for the tests.
use sequitur.Prelude.{ℕ, refl, none, some, List, [], ◌∷◌, arith, update}
use sequitur.FixedQueue
use sequitur.Market.{Order, Trade, PriceLevel}
use sequitur.Machine.{World}
use sequitur.Book.Chain.{Cell, Memory}
use sequitur.Book.Level.{IsLevel, Levels, IsBook, IsBook-update, total}

abbrev pub blank_trade : Trade
blank_trade = record { maker_id = 0; taker_id = 0; price = 0; quantity = 0 }

-- A sell order at price 5.
abbrev pub ask : ℕ → ℕ → Order
ask trader quantity = record {
  id = 1;
  instrument_id = 0;
  trader_id = trader;
  price = 5;
  quantity = quantity;
  executed_quantity = 0;
  prev_order = none;
  next_order = none;
  side = 1;
  type = 0;
}

abbrev pub bid : Order
bid = record (ask 9 2) { side = 0 }

abbrev pub no_levels : Levels
no_levels _ = []

abbrev pub one_level : List Cell → Levels
one_level xs = update no_levels 5 xs

-- A world with the given memory and the given level at price 5, which is the best ask.
abbrev pub world : Memory → PriceLevel → World
world m pl = record {
  orders = m;
  book = record {
    levels = update (λ _. record { head = none; tail = none; volume = 0 }) 5 pl;
    best_bid = 0;
    best_ask = 5;
    total_trades = 0;
    total_volume = 0;
  };
  exec_q = FixedQueue.create (λ _. blank_trade);
  trash_q = FixedQueue.create (λ _. none);
}

pub one_level-IsBook :
    (m : Memory) (pl : PriceLevel) (xs : List Cell)
    → IsLevel m 5 pl xs
    → IsBook (world m pl) (one_level xs)
unfolding total
one_level-IsBook m pl xs v =
    IsBook-update m _ no_levels 5 pl xs v
      (λ q h ne. record { head = refl; tail = refl; chain = tt; fits = tt; volume = refl })

-- One ask rests in slot 0, and slot 1 holds an order that is not in the book.
abbrev pub incoming_at : Order → World
incoming_at c =
    world (update (update (λ _. none) 0 (some (ask 7 3))) 1 (some c))
      (record { head = some 0; tail = some 0; volume = 3 })

abbrev pub one_ask : Levels
one_ask = one_level ((0, ask 7 3) ∷ [])

pub one_ask-IsBook : (c : Order) → IsBook (incoming_at c) one_ask
unfolding total
one_ask-IsBook c = one_level-IsBook _ _ _ (record {
  head = refl;
  tail = refl;
  chain = (refl, refl, tt);
  fits = (refl, omega arith, tt);
  volume = refl;
})
