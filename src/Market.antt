-- ===== src/Market.antt =====
-- include/sequitur/core/Order.hpp, Trade.hpp, and the `PriceLevel` of OrderBook.hpp. An `Order *`
-- points into the object pool: it is the number of a pool slot, or `none` for `nullptr`.
use sequitur.Prelude.{ℕ, Option, none}

abbrev pub Ptr : Type 0
Ptr = Option ℕ

-- `struct Order`, less its padding.
pub record Order : Type 0 where
  pub id : ℕ
  pub instrument_id : ℕ
  pub trader_id : ℕ
  pub price : ℕ
  pub quantity : ℕ
  pub executed_quantity : ℕ
  pub prev_order : Ptr
  pub next_order : Ptr
  pub side : ℕ
  pub type : ℕ

-- `T()`: every field is zero.
unfoldable pub blank : Order
blank = record {
  id = 0;
  instrument_id = 0;
  trader_id = 0;
  price = 0;
  quantity = 0;
  executed_quantity = 0;
  prev_order = none;
  next_order = none;
  side = 0;
  type = 0;
}

pub record Trade : Type 0 where
  pub maker_id : ℕ
  pub taker_id : ℕ
  pub price : ℕ
  pub quantity : ℕ

pub record PriceLevel : Type 0 where
  pub head : Ptr
  pub tail : Ptr
  pub volume : ℕ

-- Prices index the book's array of `max_price_ticks + 1` levels.
abbrev pub max_price_ticks : ℕ
max_price_ticks = 1000000

-- The capacity of the `ExecutionQueue` and of the `GarbageQueue`.
abbrev pub queue_capacity : ℕ
queue_capacity = 10000
