-- ===== src/Engine/Release.antt =====
-- `MatchingEngine::submit_order` gives orders back to the pool.
use sequitur.Prelude.{
  ℕ, zero, suc, ◌+◌, ◌-◌, ◌≤◌, ◌≡◌, refl, ◌≢◌, Bool, true, false, inl, inr, none, some, List, [],
  ◌∷◌, arith, ◌==◌, if◌then◌else◌, leb, max, update_ne, Bool-cases, ◌∙◌,
}
use sequitur.Market.{Order, max_price_ticks}
use sequitur.Machine.{OrderBook}
use sequitur.ObjectPool
use sequitur.Book.Chain.{Cell, has, has-append}
use sequitur.Book.Level.{Levels, IsOut}
use sequitur.Book.Fill.{filled}
use sequitur.Book.Sweep.{pointers}
use sequitur.Book.Buy.{asks}
use sequitur.Book.Sell.{bids}
use sequitur.Book.Cross.{reach, crossing}
use sequitur.Engine.{MatchingEngine, answered, release_order, release_all, close}

-- An order out of the book is not among those that it meets.
has-asks :
    (i : ℕ) (ls : Levels) (lo n : ℕ)
    → IsOut i ls
    → lo + n ≤ max lo (max_price_ticks + 1)
    → has i (asks ls lo n) ≡ false
unfolding asks
has-asks i ls lo zero out h = refl
has-asks i ls lo (suc n) out h =
    rw (has-append i (ls lo) (asks ls (lo + 1) n), out lo (omega arith))
      (has-asks i ls (lo + 1) n out (omega arith))

has-bids :
    (i : ℕ) (ls : Levels) (hi n : ℕ)
    → IsOut i ls
    → hi ≤ max_price_ticks
    → has i (bids ls hi n) ≡ false
unfolding bids
has-bids i ls hi zero out h = refl
has-bids i ls hi (suc n) out h =
    rw (has-append i (ls hi) (bids ls (hi - 1) n), out hi h)
      (has-bids i ls (hi - 1) n out (omega arith))

pub has-crossing :
    (i : ℕ) (ls : Levels) (b : OrderBook) (c : Order)
    → IsOut i ls
    → c.price ≤ max_price_ticks
    → b.best_bid ≤ max_price_ticks
    → has i (crossing b c ls) ≡ false
unfolding crossing reach
has-crossing i ls b c out in_range bid = elim (Bool-cases (c.side == 0)) [
  | inl buy ↦ rw buy (has-asks i ls b.best_ask (c.price + 1 - b.best_ask) out (omega arith))
  | inr no_buy ↦ elim (Bool-cases (c.side == 1)) [
    | inl sell ↦ rw (no_buy, sell) (has-bids i ls b.best_bid (b.best_bid + 1 - c.price) out bid)
    | inr no_sell ↦ rw (no_buy, no_sell) refl
  ]
]

-- From `e` to `e'` slots have been released, and nothing else.
pub record OnlyReleased (e e' : MatchingEngine) : Type 0 where
  pub rest : e' ≡ record e { pool = e'.pool; world = record e.world { orders = e'.world.orders } }
  pub failures : e'.pool.alloc_failures ≡ e.pool.alloc_failures
  pub peak : e'.pool.peak_usage ≡ e.pool.peak_usage

-- The trash that `match_order` leaves does not hold slot `i`.
pub release_all-OnlyReleased :
    (i q : ℕ) (met : List Cell) (e : MatchingEngine)
    → has i met ≡ false
    → OnlyReleased e (release_all (pointers (filled q met)) e)
      × ((release_all (pointers (filled q met)) e).world.orders i ≡ e.world.orders i)
unfolding release_all release_order filled ObjectPool.release
release_all-OnlyReleased i q [] e out = (record { rest = refl; failures = refl; peak = refl }, refl)
release_all-OnlyReleased i q ((s, o) ∷ met) e out = elim (Bool-cases (q == 0)) [
  | inl done ↦ rw done (record { rest = refl; failures = refl; peak = refl }, refl)
  | inr more ↦ elim (Bool-cases (leb o.quantity q)) [
    | inr part ↦ rw (more, part) (record { rest = refl; failures = refl; peak = refl }, refl)
    | inl full ↦
        let ne : i ≢ s = ground arith in
        let (r, there) =
          release_all-OnlyReleased i (q - o.quantity) met (release_order (some s) e)
            (ground arith) in
        rw (more, full)
          (
            record { rest = r.rest; failures = r.failures; peak = r.peak },
            there ∙ update_ne e.world.orders s i none ne,
          )
  ]
]

pub release_order-OnlyReleased :
    (i : ℕ) (b : Bool) (e : MatchingEngine)
    → OnlyReleased e (if b then release_order (some i) e else e)
unfolding release_order ObjectPool.release
release_order-OnlyReleased i true e = record { rest = refl; failures = refl; peak = refl }
release_order-OnlyReleased i false e = record { rest = refl; failures = refl; peak = refl }

pub close_lem :
    (i : ℕ) (e : MatchingEngine) (o : Order)
    → e.world.orders i ≡ some o
    → close i e ≡ answered true (if o.quantity == 0 then release_order (some i) e else e)
unfolding close
close_lem i e o at = rw (close, at) refl
