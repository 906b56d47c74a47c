-- ===== src/Book/Buy.antt =====
-- The loop of `match_order` for a buy order: the orders of the prices from the best ask up to its own,
-- and what the loop leaves of them.
pub mod Rounds
use sequitur.Prelude.{
  ℕ, zero, suc, ◌+◌, ◌-◌, ◌≤◌, ◌<◌, ◌≡◌, refl, ◌≢◌, ◌⊎◌, inl, inr, true, false, ◌&&◌, none, some,
  List, [], ◌∷◌, ◌++◌, arith, ltb, leb, ◌==◌, if◌then◌else◌, length, min, update, update_self,
  update_ne, Bool-cases, List-cases, sym, ◌∙◌, ap, ap₂, subst, ne_of_test,
}
use sequitur.FixedQueue
use sequitur.Market.{Order, max_price_ticks, queue_capacity}
use sequitur.Machine.{World, pure, ◌>>◌, get_book, set_book}
use sequitur.Machine.Returns
use sequitur.Machine.Returns.{Returns, returns, load-step, get_level-step}
use sequitur.Book.{count_trade, execute, match_buy}
use sequitur.Book.Chain.{Cell, first}
use sequitur.Book.Level.{Levels, IsBook, IsOut, total}
use sequitur.Book.Fill.{remaining, reduced, remaining-reduced, remaining-zero, total-reduced}
use sequitur.Book.Execute.{Executed, execute_lem, IsOut-reduced}
use sequitur.Book.Sweep.{Swept, Swept-none, Swept-step, Room, Room-step}

-- The orders at the `n` prices from `lo` up.
unfoldable pub asks : Levels → ℕ → ℕ → List Cell
asks ls lo zero = []
asks ls lo (suc n) = ls lo ++ asks ls (lo + 1) n

asks-update_below :
    (ls : Levels) (p : ℕ) (xs : List Cell) (lo n : ℕ)
    → p < lo
    → asks (update ls p xs) lo n ≡ asks ls lo n
unfolding asks
asks-update_below ls p xs lo zero h = refl
asks-update_below ls p xs lo (suc n) h =
    ap₂ ◌++◌ (update_ne ls p lo xs (omega arith))
      (asks-update_below ls p xs (lo + 1) n (omega arith))

pub asks-update_first :
    (ls : Levels) (p : ℕ) (xs : List Cell) (n : ℕ)
    → asks (update ls p xs) p (suc n) ≡ xs ++ asks ls (p + 1) n
unfolding asks
asks-update_first ls p xs n =
    ap₂ ◌++◌ (update_self ls p xs) (asks-update_below ls p xs (p + 1) n (omega arith))

-- What the loop leaves behind, when the best ask was `ask` and `n` prices were in reach.
pub record Bought (w : World) (ls : Levels) (i : ℕ) (c : Order) (ask n : ℕ) (w' : World)
    : Type 0 where
  pub levels : Levels
  pub book : IsBook w' levels
  pub out : IsOut i levels
  pub swept : Swept w i c (asks ls ask n) w'
  pub left : asks levels ask n ≡ remaining c.quantity (asks ls ask n)
  pub others : (p : ℕ) → (p < ask) ⊎ (ask + n ≤ p) → levels p ≡ ls p
  pub best_bid : w'.book.best_bid ≡ w.book.best_bid
  pub rises : ask ≤ w'.book.best_ask
  pub cleared : (p : ℕ) → ask ≤ p → p < w'.book.best_ask → levels p ≡ []
  pub stop :
      (c.quantity - total (asks ls ask n) ≡ 0)
      ⊎ (c.price < w'.book.best_ask)
      ⊎ ((w'.book.best_ask ≡ max_price_ticks) × (levels max_price_ticks ≡ []))

module _ (i : ℕ) where
  pub Bought-none :
      (w : World) (ls : Levels) (c : Order) (ask n : ℕ)
      → w.book.best_ask ≡ ask
      → IsBook w ls
      → IsOut i ls
      → w.orders i ≡ some c
      → (c.quantity ≡ 0) ⊎ (asks ls ask n ≡ [])
      → (c.quantity ≡ 0)
        ⊎ (c.price < w.book.best_ask)
        ⊎ ((w.book.best_ask ≡ max_price_ticks) × (ls max_price_ticks ≡ []))
      → Bought w ls i c ask n w
  unfolding remaining
  Bought-none w ls c ask n at b out e nothing stop = record {
    levels = ls;
    book = b;
    out = out;
    swept = Swept-none w i c _ e nothing;
    left = elim nothing [ inl q ↦ rw (q, remaining-zero) | inr no_orders ↦ rw no_orders ];
    others = λ p h. refl;
    best_bid = refl;
    rises = omega arith;
    cleared = λ p h k. absurd (omega arith);
    stop = elim stop [ inl q ↦ inl (omega arith) | inr r ↦ inr r ];
  }

  -- The best ask has moved on from a price with no orders.
  pub Bought-empty :
      (w : World) (ls : Levels) (c : Order) (ask n : ℕ) (w' : World)
      → ls ask ≡ []
      → Bought (record w { book = record w.book { best_ask = ask + 1 } }) ls i c (ask + 1) n w'
      → Bought w ls i c ask (suc n) w'
  unfolding asks
  Bought-empty w ls c ask n w' here x =
      let met : asks ls ask (suc n) ≡ asks ls (ask + 1) n =
        ap (λ l. l ++ asks ls (ask + 1) n) here in
      let still : x.levels ask ≡ [] = x.others ask (inl (omega arith)) ∙ here in
      record {
        levels = x.levels;
        book = x.book;
        out = x.out;
        swept = rw met (record {
          taker = x.swept.taker;
          exec = x.swept.exec;
          trash = x.swept.trash;
          trades = x.swept.trades;
          volume = x.swept.volume;
        });
        left = rw (met, still) x.left;
        others =
            λ p h. x.others p (elim h [ inl k ↦ inl (omega arith) | inr k ↦ inr (omega arith) ]);
        best_bid = x.best_bid;
        rises = omega (arith, x.rises);
        cleared = λ p h k. elim (Bool-cases (p == ask)) [
          | inl hit ↦ let same : ask ≡ p = ground arith in subst (λ r. x.levels r ≡ []) same still
          | inr miss ↦ x.cleared p (omega (arith, ne_of_test p ask miss)) k
        ];
        stop = rw met x.stop;
      }

  -- After one trade.
  pub Bought-trade :
      (w : World) (ls : Levels) (c : Order) (ask n s : ℕ) (o : Order) (rs : List Cell)
      (mid w' : World)
      → c.quantity ≢ 0
      → ls ask ≡ (s, o) ∷ rs
      → FixedQueue.size w.exec_q < queue_capacity
      → FixedQueue.size w.trash_q < queue_capacity
      → Executed w ls i c ask s o rs mid
      → Bought mid
          (update ls ask (reduced c.quantity s o rs))
          i
          (record c { quantity = c.quantity - min c.quantity o.quantity })
          ask
          (suc n)
          w'
      → Bought w ls i c ask (suc n) w'
  unfolding asks count_trade
  Bought-trade w ls c ask n s o rs mid w' pos here room room' x y =
      let rest = asks ls (ask + 1) n in
      let met : asks ls ask (suc n) ≡ (s, o) ∷ rs ++ rest = ap (λ l. l ++ rest) here in
      let met' = asks-update_first ls ask (reduced c.quantity s o rs) n in
      record {
        levels = y.levels;
        book = y.book;
        out = y.out;
        swept =
            rw met
              (Swept-step w ls i c ask s o rs rest pos mid x room room' w' (rw met' at y.swept));
        left = y.left ∙ rw (met, met') (sym (remaining-reduced c.quantity s o rs rest pos));
        others = λ p h. y.others p h ∙ update_ne ls ask p _ (omega arith);
        best_bid = y.best_bid ∙ ap (λ (v : World). v.book.best_bid) x.rest;
        rises = y.rises;
        cleared = y.cleared;
        stop = rw (met, ← (total-reduced c.quantity s o rs rest pos).0) (rw met' at y.stop);
      }
