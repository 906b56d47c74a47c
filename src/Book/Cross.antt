-- ===== src/Book/Cross.antt =====
-- The two loops of `OrderBook::match_order` behind their tests: which orders an incoming one crosses,
-- and that it trades with exactly those.
use sequitur.Prelude.{
  ℕ, ◌+◌, ◌-◌, ◌≤◌, ◌<◌, ◌≡◌, refl, ◌⊎◌, inl, inr, Bool, true, false, ◌&&◌, some, List, [], arith,
  leb, ◌==◌, if◌then◌else◌, length, Bool-cases, ap,
}
use sequitur.FixedQueue
use sequitur.Market.{Order, max_price_ticks, queue_capacity}
use sequitur.Machine.{World, OrderBook}
use sequitur.Machine.Returns
use sequitur.Machine.Returns.{Returns, returns, load-step}
use sequitur.Book.{cross}
use sequitur.Book.Chain.{Cell}
use sequitur.Book.Level.{Levels, IsBook, IsOut, total}
use sequitur.Book.Fill.{remaining}
use sequitur.Book.Sweep.{Swept, Swept-none}
use sequitur.Book.Buy.{asks, Bought}
use sequitur.Book.Buy.Rounds.{match_buy-Bought}
use sequitur.Book.Sell.{bids, Sold}
use sequitur.Book.Sell.Rounds.{match_sell-Sold}

-- How many prices an order reaches on the other side.
unfoldable pub reach : OrderBook → Order → ℕ
reach b c =
    if c.side == 0
    then c.price + 1 - b.best_ask
    else if c.side == 1
    then b.best_bid + 1 - c.price
    else 0

-- The resting orders that an order crosses, best price first, and at one price oldest first.
unfoldable pub crossing : OrderBook → Order → Levels → List Cell
unfolding reach
crossing b c ls =
    if c.side == 0
    then asks ls b.best_ask (reach b c)
    else if c.side == 1
    then bids ls b.best_bid (reach b c)
    else []

-- Is this one of the prices?
unfoldable pub is_crossed : OrderBook → Order → ℕ → Bool
is_crossed b c p =
    if c.side == 0
    then leb b.best_ask p && leb p c.price
    else if c.side == 1
    then leb c.price p && leb p b.best_bid
    else false

module _ (b : OrderBook) (c : Order) where
  pub crossing_buy :
      (ls : Levels) → c.side ≡ 0 → crossing b c ls ≡ asks ls b.best_ask (c.price + 1 - b.best_ask)
  unfolding crossing
  crossing_buy ls buy = let test : (c.side == 0) ≡ true = ground arith in rw test

  pub crossing_sell :
      (ls : Levels) → c.side ≡ 1 → crossing b c ls ≡ bids ls b.best_bid (b.best_bid + 1 - c.price)
  unfolding crossing
  crossing_sell ls sell =
      let test : (c.side == 0) ≡ false = ground arith in
      let test' : (c.side == 1) ≡ true = ground arith in rw (test, test')

  reach_buy : c.side ≡ 0 → reach b c ≡ c.price + 1 - b.best_ask
  unfolding reach
  reach_buy buy = let test : (c.side == 0) ≡ true = ground arith in rw test

  reach_sell : c.side ≡ 1 → reach b c ≡ b.best_bid + 1 - c.price
  unfolding reach
  reach_sell sell =
      let test : (c.side == 0) ≡ false = ground arith in
      let test' : (c.side == 1) ≡ true = ground arith in rw (test, test')

  -- An order that is kept out of both loops crosses nothing.
  pub crossing_none :
      (ls : Levels)
      → (c.side == 0 && leb b.best_ask c.price) ≡ false
      → (c.side == 1 && leb c.price b.best_bid) ≡ false
      → crossing b c ls ≡ []
  unfolding crossing asks bids
  crossing_none ls no_buy no_sell = elim (Bool-cases (c.side == 0)) [
    | inl buy ↦ let far : c.price + 1 - b.best_ask ≡ 0 = ground arith in rw (buy, far)
    | inr other ↦ elim (Bool-cases (c.side == 1)) [
      | inl sell ↦ let far : b.best_bid + 1 - c.price ≡ 0 = ground arith in rw (other, sell, far)
      | inr neither ↦ rw (other, neither)
    ]
  ]

-- What the loops leave behind.
pub record Crossed (w : World) (ls : Levels) (i : ℕ) (c : Order) (w' : World) : Type 0 where
  pub kept : Levels
  pub book : IsBook w' kept
  pub out : IsOut i kept
  pub swept : Swept w i c (crossing w.book c ls) w'
  pub left : crossing w.book c kept ≡ remaining c.quantity (crossing w.book c ls)
  pub others : (p : ℕ) → is_crossed w.book c p ≡ false → kept p ≡ ls p
  pub bid_falls : w'.book.best_bid ≤ w.book.best_bid
  pub ask_rises : w.book.best_ask ≤ w'.book.best_ask
  pub cleared_asks : (p : ℕ) → w.book.best_ask ≤ p → p < w'.book.best_ask → kept p ≡ []
  pub cleared_bids : (p : ℕ) → p ≤ w.book.best_bid → w'.book.best_bid < p → kept p ≡ []
  pub stop_buy :
      c.side ≡ 0
      → (c.quantity - total (crossing w.book c ls) ≡ 0)
        ⊎ (c.price < w'.book.best_ask)
        ⊎ ((w'.book.best_ask ≡ max_price_ticks) × (kept max_price_ticks ≡ []))
  pub stop_sell :
      c.side ≡ 1
      → (c.quantity - total (crossing w.book c ls) ≡ 0)
        ⊎ (w'.book.best_bid < c.price)
        ⊎ ((w'.book.best_bid ≡ 0) × (kept 0 ≡ []))

module _ (fuel : ℕ) (w : World) (ls : Levels) (i : ℕ) (c : Order) (b : IsBook w ls)
    (out : IsOut i ls) (e : w.orders i ≡ some c) (in_range : c.price ≤ max_price_ticks)
    (bid_in_range : w.book.best_bid ≤ max_price_ticks)
    (enough : reach w.book c + length (crossing w.book c ls) < fuel)
    (space : FixedQueue.size w.exec_q + length (crossing w.book c ls) ≤ queue_capacity)
    (space' : FixedQueue.size w.trash_q + length (crossing w.book c ls) ≤ queue_capacity) where
  Bought-Crossed :
      (w' : World)
      → c.side ≡ 0
      → w.book.best_ask ≤ c.price
      → Bought w ls i c w.book.best_ask (c.price + 1 - w.book.best_ask) w'
      → Crossed w ls i c w'
  unfolding is_crossed
  Bought-Crossed w' buy near x = record {
    kept = x.levels;
    book = x.book;
    out = x.out;
    swept = rw (crossing_buy w.book c ls buy) x.swept;
    left = rw (crossing_buy w.book c x.levels buy, crossing_buy w.book c ls buy) x.left;
    others = λ p h. x.others p (elim (Bool-cases (leb w.book.best_ask p)) [
      | inl above ↦ inr (ground arith)
      | inr below ↦ inl (ground arith)
    ]);
    bid_falls = omega (arith, x.best_bid);
    ask_rises = x.rises;
    cleared_asks = x.cleared;
    cleared_bids = λ p h k. absurd (omega (arith, x.best_bid));
    stop_buy = λ _. rw (crossing_buy w.book c ls buy) x.stop;
    stop_sell = λ k. absurd (omega arith);
  }

  Sold-Crossed :
      (w' : World)
      → c.side ≡ 1
      → c.price ≤ w.book.best_bid
      → Sold w ls i c w.book.best_bid (w.book.best_bid + 1 - c.price) w'
      → Crossed w ls i c w'
  unfolding is_crossed
  Sold-Crossed w' sell near x = record {
    kept = x.levels;
    book = x.book;
    out = x.out;
    swept = rw (crossing_sell w.book c ls sell) x.swept;
    left = rw (crossing_sell w.book c x.levels sell, crossing_sell w.book c ls sell) x.left;
    others = λ p h. x.others p (elim (Bool-cases (leb p w.book.best_bid)) [
      | inl below ↦ inr (ground arith)
      | inr above ↦ inl (ground arith)
    ]);
    bid_falls = x.falls;
    ask_rises = omega (arith, x.best_ask);
    cleared_asks = λ p h k. absurd (omega (arith, x.best_ask));
    cleared_bids = x.cleared;
    stop_buy = λ k. absurd (omega arith);
    stop_sell = λ _. rw (crossing_sell w.book c ls sell) x.stop;
  }

  none-Crossed :
      (c.side == 0 && leb w.book.best_ask c.price) ≡ false
      → (c.side == 1 && leb c.price w.book.best_bid) ≡ false
      → Crossed w ls i c w
  unfolding remaining
  none-Crossed no_buy no_sell =
      let nothing = crossing_none w.book c ls no_buy no_sell in
      record {
        kept = ls;
        book = b;
        out = out;
        swept = Swept-none w i c _ e (inr nothing);
        left = rw nothing;
        others = λ p h. refl;
        bid_falls = omega arith;
        ask_rises = omega arith;
        cleared_asks = λ p h k. absurd (omega arith);
        cleared_bids = λ p h k. absurd (omega arith);
        stop_buy = λ buy. inr (inl (ground arith));
        stop_sell = λ sell. inr (inl (ground arith));
      }

  pub cross-Crossed : Returns (λ _ w'. Crossed w ls i c w') (cross fuel (some i) c w.book w)
  unfolding cross
  cross-Crossed = elim (Bool-cases (c.side == 0 && leb w.book.best_ask c.price)) [
    | inl buy ↦
        let side : c.side ≡ 0 = ground arith in
        let near : w.book.best_ask ≤ c.price = ground arith in
        let met = ap length (crossing_buy w.book c ls side) in
        let prices = reach_buy w.book c side in
        rw buy (
          Returns.mono
            (match_buy-Bought i fuel (c.price + 1 - w.book.best_ask) w ls c b out e in_range
              (omega arith) (omega arith) (inr (omega arith, omega arith, omega arith)))
            λ _ w' x. Bought-Crossed w' side near x)
    | inr no_buy ↦ elim (Bool-cases (c.side == 1 && leb c.price w.book.best_bid)) [
      | inl sell ↦
          let side : c.side ≡ 1 = ground arith in
          let near : c.price ≤ w.book.best_bid = ground arith in
          let met = ap length (crossing_sell w.book c ls side) in
          let prices = reach_sell w.book c side in
          rw (no_buy, sell)
            (Returns.mono
              (match_sell-Sold i fuel (w.book.best_bid + 1 - c.price) w ls c b out e bid_in_range
                (omega arith) (omega arith) (inr (omega arith, omega arith, omega arith)))
              λ _ w' x. Sold-Crossed w' side near x)
      | inr no_sell ↦ rw (no_buy, no_sell) (returns (none-Crossed no_buy no_sell))
    ]
  ]
