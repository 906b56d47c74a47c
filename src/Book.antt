-- ===== src/Book.antt =====
-- `class OrderBook` of include/sequitur/core/OrderBook.hpp.
pub mod Chain
pub mod Level
pub mod Insert
pub mod Remove
pub mod Fill
pub mod Execute
pub mod Sweep
pub mod Buy
pub mod Sell
pub mod Cross
pub mod Match
pub mod Uncrossed
pub mod Resting
pub mod RoundTrip
pub mod Sample
mod Tests
use sequitur.Prelude.{
  ℕ, zero, suc, ◌+◌, ◌-◌, ◌%◌, Option, none, some, ◌&&◌, ltb, leb, ◌==◌, if◌then◌else◌, min, max,
  word32, word64,
}
use sequitur.Market.{Ptr, Order, Trade, PriceLevel, max_price_ticks}
use sequitur.Machine.{
  OrderBook, Cmd, out_of_fuel, pure, ◌>>=◌, ◌>>◌, load, modify, get_book, set_book, get_level,
  set_level, push_exec, push_trash,
}

-- `new OrderBook()`
unfoldable pub create : OrderBook
create = record {
  levels = λ _. record { head = none; tail = none; volume = 0 };
  best_bid = 0;
  best_ask = max_price_ticks;
  total_trades = 0;
  total_volume = 0;
}

-- `uint32_t` subtraction
abbrev pub sub32 : ℕ → ℕ → ℕ
sub32 a b = (a + word32 - b) % word32

-- The first test of `insert_order`: link the order behind the level's tail, or as its only order.
unfoldable pub link_order : Ptr → ℕ → Cmd (Unit {0})
link_order order price = do
  pl ← get_level price
  elim pl.head [
    | none ↦ do
      set_level price (λ l. record l { head = order; tail = order })
      modify order (λ o. record o { prev_order = none })
      modify order (λ o. record o { next_order = none })
    | some _ ↦ do
      modify pl.tail (λ o. record o { next_order = order })
      modify order (λ o. record o { prev_order = pl.tail })
      set_level price (λ l. record l { tail = order })
      modify order (λ o. record o { next_order = none })
  ]

-- The last test of `insert_order`. A side that is neither 0 nor 1 moves neither price.
unfoldable pub raise_best : ℕ → ℕ → OrderBook → OrderBook
raise_best side price b =
    if side == 0
    then record b { best_bid = max price b.best_bid }
    else if side == 1
    then record b { best_ask = min price b.best_ask }
    else b

unfoldable pub insert_order : Ptr → Cmd (Unit {0})
unfolding link_order raise_best
insert_order order = do
  o ← load order
  link_order order o.price
  linked ← load order
  set_level o.price (λ l. record l { volume = (l.volume + linked.quantity) % word32 })
  set_book (raise_best linked.side o.price)

-- The first test of `remove_order`, on the order's fields: what leads to the order leads past it.
unfoldable pub unlink_prev : Order → Cmd (Unit {0})
unlink_prev o = elim o.prev_order [
  | none ↦ set_level o.price (λ l. record l { head = o.next_order })
  | some before ↦ modify (some before) (λ p. record p { next_order = o.next_order })
]

-- The second test of `remove_order`
unfoldable pub unlink_next : Order → Cmd (Unit {0})
unlink_next o = elim o.next_order [
  | none ↦ set_level o.price (λ l. record l { tail = o.prev_order })
  | some after ↦ modify (some after) (λ n. record n { prev_order = o.prev_order })
]

unfoldable pub remove_order : Ptr → Cmd (Unit {0})
unfolding unlink_prev unlink_next
remove_order order = do
  o ← load order
  unlink_prev o
  unlink_next o
  set_level o.price (λ l. record l { volume = sub32 l.volume o.quantity })

-- The two lines `total_trades++` and `total_volume += trade_quantity`
unfoldable pub count_trade : ℕ → OrderBook → OrderBook
count_trade quantity b = record b {
  total_trades = (b.total_trades + 1) % word64;
  total_volume = (b.total_volume + quantity) % word64;
}

-- The part that the two loops of `match_order` share: one trade between `incoming` and the first
-- order of the level at `price`.
unfoldable pub execute : Ptr → ℕ → Ptr → Cmd (Unit {0})
unfolding remove_order count_trade
execute incoming price resting = do
  taker ← load incoming
  maker ← load resting
  let trade_quantity = min taker.quantity maker.quantity
  set_book (count_trade trade_quantity)
  push_exec (record {
    maker_id = maker.trader_id;
    taker_id = taker.trader_id;
    price = maker.price;
    quantity = trade_quantity;
  })
  modify incoming (λ o. record o { quantity = o.quantity - trade_quantity })
  modify resting (λ o. record o { quantity = o.quantity - trade_quantity })
  set_level price (λ l. record l { volume = sub32 l.volume trade_quantity })
  left ← load resting
  if left.quantity == 0 then push_trash resting >> remove_order resting else pure tt

-- The loop of a buy order. The fuel bounds its rounds.
unfoldable pub match_buy : ℕ → Ptr → Cmd (Unit {0})
unfolding execute
match_buy zero incoming = λ _. out_of_fuel
match_buy (suc fuel) incoming = do
  o ← load incoming
  b ← get_book
  if ltb 0 o.quantity && leb b.best_ask o.price
      then (do
        pl ← get_level b.best_ask
        elim pl.head [
          | none ↦
              (if b.best_ask == max_price_ticks then pure tt else (do
                set_book (λ c. record c { best_ask = c.best_ask + 1 })
                match_buy fuel incoming))
          | some resting ↦ execute incoming b.best_ask (some resting) >> match_buy fuel incoming
        ])
      else pure tt

-- The loop of a sell order
unfoldable pub match_sell : ℕ → Ptr → Cmd (Unit {0})
unfolding execute
match_sell zero incoming = λ _. out_of_fuel
match_sell (suc fuel) incoming = do
  o ← load incoming
  b ← get_book
  if ltb 0 o.quantity && leb o.price b.best_bid
      then (do
        pl ← get_level b.best_bid
        elim pl.head [
          | none ↦
              (if b.best_bid == 0 then pure tt else (do
                set_book (λ c. record c { best_bid = c.best_bid - 1 })
                match_sell fuel incoming))
          | some resting ↦ execute incoming b.best_bid (some resting) >> match_sell fuel incoming
        ])
      else pure tt

-- The two loops of `match_order`, each behind its test.
unfoldable pub cross : ℕ → Ptr → Order → OrderBook → Cmd (Unit {0})
unfolding match_buy match_sell
cross fuel incoming o b =
    if o.side == 0 && leb b.best_ask o.price
    then match_buy fuel incoming
    else if o.side == 1 && leb o.price b.best_bid
    then match_sell fuel incoming
    else pure tt

unfoldable pub match_order : ℕ → Ptr → Cmd (Unit {0})
unfolding cross insert_order
match_order fuel incoming = do
  o ← load incoming
  b ← get_book
  cross fuel incoming o b
  left ← load incoming
  if ltb 0 left.quantity then insert_order incoming else pure tt
