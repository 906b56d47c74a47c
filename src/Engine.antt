-- ===== src/Engine.antt =====
-- `class MatchingEngine` of core/MatchingEngine.cpp and include/sequitur/core/MatchingEngine.hpp. The
-- objects of its pool are the `orders` of its `World`.
pub mod Release
pub mod Finish
pub mod Submit
pub mod Invariant
pub mod Idle
pub mod Session
pub mod Sample
mod Tests
use sequitur.Prelude.{
  ℕ, ◌+◌, ◌%◌, Bool, true, false, Option, none, some, List, [], ◌∷◌, ◌==◌, if◌then◌else◌, update,
  word64,
}
use sequitur.FixedQueue
use sequitur.FixedQueue.{FixedQueue}
use sequitur.Market.{Ptr, Order, Trade, blank}
use sequitur.Machine.{World, Outcome, ok, fault, out_of_fuel, Cmd, ◌>>◌, modify}
use sequitur.ObjectPool
use sequitur.ObjectPool.{ObjectPool}
use sequitur.Book
use sequitur.Book.{match_order}

pub record MatchingEngine : Type 0 where
  pub pool : ObjectPool
  pub world : World
  pub next_order_id : ℕ
  pub total_orders : ℕ

-- What a call of `submit_order` comes to: its result and the engine after it, if it has one.
pub data Answer : Type 0 where
  answered : Bool → MatchingEngine → Answer
  faulted : Answer
  starved : Answer

-- The constructor. The arguments are what the arrays of the two queues hold at first.
unfoldable pub create : (ℕ → Trade) → (ℕ → Ptr) → ℕ → MatchingEngine
create exec_slots trash_slots pool_capacity = record {
  pool = ObjectPool.create pool_capacity;
  world = record {
    orders = λ _. none;
    book = Book.create;
    exec_q = FixedQueue.create exec_slots;
    trash_q = FixedQueue.create trash_slots;
  };
  next_order_id = 1;
  total_orders = 0;
}

-- `pool.release(order)`: the object dies, and its slot is free.
unfoldable pub release_order : Ptr → MatchingEngine → MatchingEngine
release_order none e = e
release_order (some i) e = record e {
  pool = ObjectPool.release (some i) e.pool;
  world = record e.world { orders = update e.world.orders i none };
}

-- The loop over `trash_q`
unfoldable pub release_all : List Ptr → MatchingEngine → MatchingEngine
release_all [] e = e
release_all (dead_order ∷ ps) e = release_all ps (release_order dead_order e)

unfoldable pub empty_trash : MatchingEngine → MatchingEngine
unfolding release_all
empty_trash e =
    let e' = release_all (FixedQueue.to_list e.world.trash_q) e in
    record e' { world = record e'.world { trash_q = FixedQueue.clear e'.world.trash_q } }

-- The object that `acquire` constructs in slot `i`, and the two counters of the engine.
unfoldable pub enter : ℕ → ObjectPool → MatchingEngine → MatchingEngine
enter i pool e = record e {
  pool = pool;
  world = record e.world { orders = update e.world.orders i (some blank) };
  next_order_id = (e.next_order_id + 1) % word64;
  total_orders = (e.total_orders + 1) % word64;
}

unfoldable pub fill_in : (side price quantity trader_id id : ℕ) → Order → Order
fill_in side price quantity trader_id id o = record o {
  side = side;
  price = price;
  quantity = quantity;
  trader_id = trader_id;
  id = id;
}

-- The last test of `submit_order`
unfoldable pub close : ℕ → MatchingEngine → Answer
unfolding release_order
close i e = elim (e.world.orders i) [
  | none ↦ faulted
  | some o ↦ answered true (if o.quantity == 0 then release_order (some i) e else e)
]

-- What `submit_order` does once the book has the order.
unfoldable pub finish : ℕ → MatchingEngine → Outcome (Unit {0}) → Answer
unfolding close empty_trash
finish i e (ok _ w) = close i (empty_trash (record e { world = w }))
finish i e fault = faulted
finish i e out_of_fuel = starved

-- `submit_order` from its first test on: `acquire` has answered the pair.
unfoldable pub submit_acquired :
    ℕ → (side price quantity trader_id : ℕ) → Ptr × ObjectPool → MatchingEngine → Answer
unfolding enter fill_in finish
submit_acquired fuel side price quantity trader_id (none, pool) e =
    answered false (record e { pool = pool })
submit_acquired fuel side price quantity trader_id (some i, pool) e =
    let e' = enter i pool e in
    finish i e' (
      (modify (some i) (fill_in side price quantity trader_id e.next_order_id)
          >> match_order fuel (some i))
        e'.world)

unfoldable pub submit_order : ℕ → (side price quantity trader_id : ℕ) → MatchingEngine → Answer
unfolding submit_acquired
submit_order fuel side price quantity trader_id e =
    submit_acquired fuel side price quantity trader_id (ObjectPool.acquire e.pool) e

unfoldable pub clear_execution_queue : MatchingEngine → MatchingEngine
clear_execution_queue e = record e {
  world = record e.world { exec_q = FixedQueue.clear e.world.exec_q };
}

-- The accessors.
abbrev pub get_execution_queue : MatchingEngine → FixedQueue Trade
get_execution_queue e = e.world.exec_q

abbrev pub get_total_orders : MatchingEngine → ℕ
get_total_orders e = e.total_orders

abbrev pub get_total_trades : MatchingEngine → ℕ
get_total_trades e = e.world.book.total_trades

abbrev pub get_pool_used : MatchingEngine → ℕ
get_pool_used e = ObjectPool.get_used_count e.pool

abbrev pub get_pool_failures : MatchingEngine → ℕ
get_pool_failures e = ObjectPool.get_alloc_failures e.pool

abbrev pub get_pool_peak : MatchingEngine → ℕ
get_pool_peak e = ObjectPool.get_peak_usage e.pool

abbrev pub get_pool_capacity : MatchingEngine → ℕ
get_pool_capacity e = ObjectPool.get_capacity e.pool
