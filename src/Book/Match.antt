-- ===== src/Book/Match.antt =====
-- `OrderBook::match_order` as a whole: it trades by price-time priority with every resting order
-- that the incoming one crosses, and what is left of that joins the book.
use sequitur.Prelude.{
  ℕ, ◌+◌, ◌-◌, ◌%◌, ◌≤◌, ◌<◌, ◌≡◌, refl, inl, inr, Bool, true, false, none, some, [], ◌∷◌, ◌++◌,
  arith, ltb, ◌==◌, if◌then◌else◌, length, min, update, word32, word64, Bool-cases, ◌∙◌, ap,
}
use sequitur.FixedQueue
use sequitur.Market.{Order, max_price_ticks, queue_capacity}
use sequitur.Machine.{World, OrderBook, get_book}
use sequitur.Machine.Returns
use sequitur.Machine.Returns.{Returns, returns, load-step}
use sequitur.Book.{raise_best, match_order}
use sequitur.Book.Chain.{linked, last}
use sequitur.Book.Level.{Levels, IsBook, IsOut, total}
use sequitur.Book.Fill.{fills, remaining, filled}
use sequitur.Book.Sweep.{pointers}
use sequitur.Book.Cross.{reach, crossing, is_crossed, Crossed, cross-Crossed}
use sequitur.Book.Insert.{insert_order_lem}

-- The order `c` in slot `i` joins the back of its price, if it still asks for something.
unfoldable pub settle : ℕ → Order → Levels → Levels
settle i c ls = if c.quantity == 0 then ls else update ls c.price (ls c.price ++ (i, c) ∷ [])

-- The state between the loops and the insertion, and what the insertion adds.
pub record Settled (w : World) (ls : Levels) (i : ℕ) (c : Order) (w' : World) : Type 0 where
  pub mid : World
  pub crossed : Crossed w ls i c mid
  pub book :
      IsBook w'
        (settle i (record c { quantity = c.quantity - total (crossing w.book c ls) }) crossed.kept)
  pub rest : w' ≡ record mid {
    orders = w'.orders;
    book =
        record (if c.quantity - total (crossing w.book c ls) == 0
          then mid.book
          else raise_best c.side c.price mid.book) { levels = w'.book.levels };
  }

module _ (fuel : ℕ) (w : World) (ls : Levels) (i : ℕ) (c : Order) (b : IsBook w ls)
    (out : IsOut i ls) (e : w.orders i ≡ some c) (in_range : c.price ≤ max_price_ticks)
    (small : c.quantity < word32) (bid_in_range : w.book.best_bid ≤ max_price_ticks)
    (enough : reach w.book c + length (crossing w.book c ls) < fuel)
    (space : FixedQueue.size w.exec_q + length (crossing w.book c ls) ≤ queue_capacity)
    (space' : FixedQueue.size w.trash_q + length (crossing w.book c ls) ≤ queue_capacity) where
  pub match_order-Settled :
      Returns
        (λ _ w'.
          Settled w ls i c w'
          × ((o : Order) × (w'.orders i ≡ some o)
              × (o.quantity ≡ c.quantity - total (crossing w.book c ls))))
        (match_order fuel (some i) w)
  unfolding match_order get_book settle
  match_order-Settled =
      let rest = c.quantity - total (crossing w.book c ls) in
      let c' : Order = record c { quantity = rest } in
      load-step i _ _ e (
        Returns.bind (cross-Crossed fuel w ls i c b out e in_range bid_in_range enough space space')
          λ _ mid x. load-step i _ _ x.swept.taker (elim (Bool-cases (rest == 0)) [
            | inl done ↦
                let test : ltb 0 rest ≡ false = ground arith in
                rw test (
                  returns (
                    record { mid = mid; crossed = x; book = rw done x.book; rest = rw done },
                    (c', x.swept.taker, refl),
                  ))
            | inr more ↦
                let test : ltb 0 rest ≡ true = ground arith in
                rw test (
                  Returns.mono
                    (insert_order_lem mid x.kept i c' x.book in_range (omega arith) x.out
                      x.swept.taker)
                    λ _ w' y. (
                      record {
                        mid = mid;
                        crossed = x;
                        book = rw more y.book;
                        rest = rw more y.rest;
                      },
                      (linked c' (last none (x.kept c.price)) none, y.at, refl),
                    ))
          ]))

-- What `match_order` does with the order `c` in slot `i`, in a book that holds `ls`.
pub record Matched (w : World) (ls : Levels) (i : ℕ) (c : Order) (w' : World) : Type 0 where
  pub kept : Levels
  pub book :
      IsBook w' (settle i (record c { quantity = c.quantity - total (crossing w.book c ls) }) kept)
  pub left : crossing w.book c kept ≡ remaining c.quantity (crossing w.book c ls)
  pub others : (p : ℕ) → is_crossed w.book c p ≡ false → kept p ≡ ls p
  pub exec :
      FixedQueue.to_list w'.exec_q
      ≡ FixedQueue.to_list w.exec_q ++ fills c.trader_id c.quantity (crossing w.book c ls)
  pub trash :
      FixedQueue.to_list w'.trash_q
      ≡ FixedQueue.to_list w.trash_q ++ pointers (filled c.quantity (crossing w.book c ls))
  pub trades :
      w'.book.total_trades % word64
      ≡ (w.book.total_trades + length (fills c.trader_id c.quantity (crossing w.book c ls)))
        % word64
  pub volume :
      w'.book.total_volume % word64
      ≡ (w.book.total_volume + min c.quantity (total (crossing w.book c ls))) % word64
  pub taker :
      (o : Order) × (w'.orders i ≡ some o)
      × (o.quantity ≡ c.quantity - total (crossing w.book c ls))

raise_best-totals :
    (done : Bool) (side price : ℕ) (b : OrderBook)
    → ((if done then b else raise_best side price b).total_trades ≡ b.total_trades)
      × ((if done then b else raise_best side price b).total_volume ≡ b.total_volume)
unfolding raise_best
raise_best-totals done side price b = ground arith

pub Settled-Matched :
    (w : World) (ls : Levels) (i : ℕ) (c : Order) (w' : World)
    → Settled w ls i c w'
    → (o : Order) × (w'.orders i ≡ some o)
      × (o.quantity ≡ c.quantity - total (crossing w.book c ls))
    → Matched w ls i c w'
Settled-Matched w ls i c w' s taker =
    let x = s.crossed in
    let (trades, volume) =
      raise_best-totals (c.quantity - total (crossing w.book c ls) == 0) c.side c.price
        s.mid.book in
    record {
      kept = x.kept;
      book = s.book;
      left = x.left;
      others = x.others;
      exec = ap (λ (v : World). FixedQueue.to_list v.exec_q) s.rest ∙ x.swept.exec;
      trash = ap (λ (v : World). FixedQueue.to_list v.trash_q) s.rest ∙ x.swept.trash;
      trades =
          ap (λ n. n % word64) (ap (λ (v : World). v.book.total_trades) s.rest ∙ trades)
          ∙ x.swept.trades;
      volume =
          ap (λ n. n % word64) (ap (λ (v : World). v.book.total_volume) s.rest ∙ volume)
          ∙ x.swept.volume;
      taker = taker;
    }

-- Let the book hold the orders `ls`, let slot `i` hold the order `c` and be no resting order's,
-- let the price of `c` and the best bid be at most the highest price and the quantity of `c` a
-- `uint32_t`; let the fuel exceed the number of prices that `c` reaches and of orders there, and
-- let each of the two queues have space for as many entries as there are orders there. Then
-- `match_order` returns without a fault. The trades and the filled orders that it appends to the
-- queues and the orders that it leaves at the prices in reach are those of price-time priority;
-- prices out of reach keep their orders; what is left of `c` is in slot `i`, and if it is more
-- than zero it is the last order of its price; the two counters grow, modulo 2^64, by the number
-- of trades and the quantity traded.
pub match_order_lem :
    (fuel : ℕ) (w : World) (ls : Levels) (i : ℕ) (c : Order)
    → IsBook w ls
    → IsOut i ls
    → w.orders i ≡ some c
    → c.price ≤ max_price_ticks
    → c.quantity < word32
    → w.book.best_bid ≤ max_price_ticks
    → reach w.book c + length (crossing w.book c ls) < fuel
    → FixedQueue.size w.exec_q + length (crossing w.book c ls) ≤ queue_capacity
    → FixedQueue.size w.trash_q + length (crossing w.book c ls) ≤ queue_capacity
    → Returns (λ _ w'. Matched w ls i c w') (match_order fuel (some i) w)
match_order_lem fuel w ls i c b out e in_range small bid enough space space' =
    Returns.mono (match_order-Settled fuel w ls i c b out e in_range small bid enough space space')
      λ _ w' (s, taker). Settled-Matched w ls i c w' s taker
