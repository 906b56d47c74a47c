-- ===== src/Machine.antt =====
-- The state that `OrderBook::match_order` works on, and commands that read and write it. A command
-- faults where the source's behaviour is undefined: a null or dangling `Order *`, a price beyond the
-- array of levels, a full `FixedQueue`.
pub mod Returns
use sequitur.Prelude.{ℕ, Option, none, some, leb, if◌then◌else◌, update}
use sequitur.FixedQueue
use sequitur.FixedQueue.{FixedQueue}
use sequitur.Market.{Ptr, Order, Trade, PriceLevel, max_price_ticks, queue_capacity}

-- The data members of `class OrderBook`.
pub record OrderBook : Type 0 where
  pub levels : ℕ → PriceLevel
  pub best_bid : ℕ
  pub best_ask : ℕ
  pub total_trades : ℕ
  pub total_volume : ℕ

-- `orders` is the memory of the pool: `none` where no object lives.
pub record World : Type 0 where
  pub orders : ℕ → Option Order
  pub book : OrderBook
  pub exec_q : FixedQueue Trade
  pub trash_q : FixedQueue Ptr

pub data Outcome (A : Type 0) : Type 0 where
  ok : A → World → Outcome A
  fault : Outcome A
  out_of_fuel : Outcome A

abbrev pub Cmd : Type 0 → Type 0
Cmd A = World → Outcome A

abbrev pub pure : {A : Type 0} → A → Cmd A
pure a w = ok a w

module _ {A B : Type 0} where
  abbrev pub and_then : Outcome A → (A → Cmd B) → Outcome B
  and_then (ok a w) k = k a w
  and_then fault k = fault
  and_then out_of_fuel k = out_of_fuel

  infixl 5 ◌>>=◌ ◌>>◌
  abbrev pub ◌>>=◌ : Cmd A → (A → Cmd B) → Cmd B
  m >>= k = λ w. and_then (m w) k

  abbrev pub ◌>>◌ : Cmd A → Cmd B → Cmd B
  m >> n = m >>= λ _. n

-- A read of `*p`
unfoldable pub load : Ptr → Cmd Order
load none w = fault
load (some i) w = elim (w.orders i) [ none ↦ fault | some o ↦ ok o w ]

-- A write through `p->...`
unfoldable pub modify : Ptr → (Order → Order) → Cmd (Unit {0})
modify none f w = fault
modify (some i) f w = elim (w.orders i) [
  | none ↦ fault
  | some o ↦ ok tt (record w { orders = update w.orders i (some (f o)) })
]

unfoldable pub get_book : Cmd OrderBook
get_book w = ok w.book w

unfoldable pub set_book : (OrderBook → OrderBook) → Cmd (Unit {0})
set_book f w = ok tt (record w { book = f w.book })

-- A read of `book[price]`
unfoldable pub get_level : ℕ → Cmd PriceLevel
get_level price w = if leb price max_price_ticks then ok (w.book.levels price) w else fault

-- A write through a `PriceLevel &` to `book[price]`
unfoldable pub set_level : ℕ → (PriceLevel → PriceLevel) → Cmd (Unit {0})
set_level price f w =
    if leb price max_price_ticks
    then ok tt (record w {
      book = record w.book { levels = update w.book.levels price (f (w.book.levels price)) };
    })
    else fault

unfoldable pub push_exec : Trade → Cmd (Unit {0})
push_exec t w = elim (FixedQueue.push queue_capacity t w.exec_q) [
  | none ↦ fault
  | some q ↦ ok tt (record w { exec_q = q })
]

unfoldable pub push_trash : Ptr → Cmd (Unit {0})
push_trash p w = elim (FixedQueue.push queue_capacity p w.trash_q) [
  | none ↦ fault
  | some q ↦ ok tt (record w { trash_q = q })
]
