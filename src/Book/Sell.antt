-- ===== src/Book/Sell.antt =====
-- The loop of `match_order` for a sell order: the orders of the prices from the best bid down to its
-- own, and what the loop leaves of them.
pub mod Rounds
use sequitur.Prelude.{
  ℕ, zero, suc, ◌+◌, ◌-◌, ◌≤◌, ◌<◌, ◌≡◌, refl, ◌≢◌, ◌⊎◌, inl, inr, true, false, ◌&&◌, none, some,
  List, [], ◌∷◌, ◌++◌, arith, ltb, leb, ◌==◌, if◌then◌else◌, length, min, update, update_self,
  update_ne, Bool-cases, List-cases, sym, ◌∙◌, ap, ap₂, subst, ne_of_test,
}
use sequitur.FixedQueue
use sequitur.Market.{Order, max_price_ticks, queue_capacity}
use sequitur.Machine.{World, pure, ◌>>◌, get_book, set_book}
use sequitur.Machine.Returns
use sequitur.Machine.Returns.{Returns, returns, load-step, get_level-step}
use sequitur.Book.{count_trade, execute, match_sell}
use sequitur.Book.Chain.{Cell, first}
use sequitur.Book.Level.{Levels, IsBook, IsOut, total}
use sequitur.Book.Fill.{remaining, reduced, remaining-reduced, remaining-zero, total-reduced}
use sequitur.Book.Execute.{Executed, execute_lem, IsOut-reduced}
use sequitur.Book.Sweep.{Swept, Swept-none, Swept-step, Room, Room-step}

-- The orders at the `n` prices from `hi` down.
unfoldable pub bids : Levels → ℕ → ℕ → List Cell
bids ls hi zero = []
bids ls hi (suc n) = ls hi ++ bids ls (hi - 1) n

bids-update_above :
    (ls : Levels) (p : ℕ) (xs : List Cell) (hi n : ℕ)
    → (hi < p) ⊎ (n ≡ 0)
    → bids (update ls p xs) hi n ≡ bids ls hi n
unfolding bids
bids-update_above ls p xs hi zero h = refl
bids-update_above ls p xs hi (suc n) h =
    ap₂ ◌++◌ (update_ne ls p hi xs (omega arith))
      (bids-update_above ls p xs (hi - 1) n (inl (omega arith)))

pub bids-update_first :
    (ls : Levels) (p : ℕ) (xs : List Cell) (n : ℕ)
    → n ≤ p
    → bids (update ls p xs) p (suc n) ≡ xs ++ bids ls (p - 1) n
unfolding bids
bids-update_first ls p xs n h =
    ap₂ ◌++◌ (update_self ls p xs) (bids-update_above ls p xs (p - 1) n first_or_none)
  where
    first_or_none : (p - 1 < p) ⊎ (n ≡ 0)
    first_or_none = elim (Bool-cases (n == 0)) [
      | inl none_more ↦ inr (ground arith)
      | inr more ↦ let ne = ne_of_test n 0 more in inl (omega arith)
    ]

-- What the loop leaves behind, when the best bid was `bid` and `n` prices were in reach.
pub record Sold (w : World) (ls : Levels) (i : ℕ) (c : Order) (bid n : ℕ) (w' : World)
    : Type 0 where
  pub levels : Levels
  pub book : IsBook w' levels
  pub out : IsOut i levels
  pub swept : Swept w i c (bids ls bid n) w'
  pub left : bids levels bid n ≡ remaining c.quantity (bids ls bid n)
  pub others : (p : ℕ) → (bid < p) ⊎ (p + n ≤ bid) → levels p ≡ ls p
  pub best_ask : w'.book.best_ask ≡ w.book.best_ask
  pub falls : w'.book.best_bid ≤ bid
  pub cleared : (p : ℕ) → p ≤ bid → w'.book.best_bid < p → levels p ≡ []
  pub stop :
      (c.quantity - total (bids ls bid n) ≡ 0)
      ⊎ (w'.book.best_bid < c.price)
      ⊎ ((w'.book.best_bid ≡ 0) × (levels 0 ≡ []))

module _ (i : ℕ) where
  pub Sold-none :
      (w : World) (ls : Levels) (c : Order) (bid n : ℕ)
      → w.book.best_bid ≡ bid
      → IsBook w ls
      → IsOut i ls
      → w.orders i ≡ some c
      → (c.quantity ≡ 0) ⊎ (bids ls bid n ≡ [])
      → (c.quantity ≡ 0) ⊎ (w.book.best_bid < c.price) ⊎ ((w.book.best_bid ≡ 0) × (ls 0 ≡ []))
      → Sold w ls i c bid n w
  unfolding remaining
  Sold-none w ls c bid n at b out e nothing stop = record {
    levels = ls;
    book = b;
    out = out;
    swept = Swept-none w i c _ e nothing;
    left = elim nothing [ inl q ↦ rw (q, remaining-zero) | inr no_orders ↦ rw no_orders ];
    others = λ p h. refl;
    best_ask = refl;
    falls = omega arith;
    cleared = λ p h k. absurd (omega arith);
    stop = elim stop [ inl q ↦ inl (omega arith) | inr r ↦ inr r ];
  }

  -- The best bid has moved on from a price with no orders.
  pub Sold-empty :
      (w : World) (ls : Levels) (c : Order) (bid n : ℕ) (w' : World)
      → 0 < bid
      → ls bid ≡ []
      → Sold (record w { book = record w.book { best_bid = bid - 1 } }) ls i c (bid - 1) n w'
      → Sold w ls i c bid (suc n) w'
  unfolding bids
  Sold-empty w ls c bid n w' pos here x =
      let met : bids ls bid (suc n) ≡ bids ls (bid - 1) n =
        ap (λ l. l ++ bids ls (bid - 1) n) here in
      let still : x.levels bid ≡ [] = x.others bid (inl (omega arith)) ∙ here in
      record {
        levels = x.levels;
        book = x.book;
        out = x.out;
        swept = rw met (record {
          taker = x.swept.taker;
          exec = x.swept.exec;
          trash = x.swept.trash;
          trades = x.swept.trades;
          volume = x.swept.volume;
        });
        left = rw (met, still) x.left;
        others =
            λ p h. x.others p (elim h [ inl k ↦ inl (omega arith) | inr k ↦ inr (omega arith) ]);
        best_ask = x.best_ask;
        falls = omega (arith, x.falls);
        cleared = λ p h k. elim (Bool-cases (p == bid)) [
          | inl hit ↦ let same : bid ≡ p = ground arith in subst (λ r. x.levels r ≡ []) same still
          | inr miss ↦ x.cleared p (omega (arith, ne_of_test p bid miss)) k
        ];
        stop = rw met x.stop;
      }

  -- After one trade.
  pub Sold-trade :
      (w : World) (ls : Levels) (c : Order) (bid n s : ℕ) (o : Order) (rs : List Cell)
      (mid w' : World)
      → n ≤ bid
      → c.quantity ≢ 0
      → ls bid ≡ (s, o) ∷ rs
      → FixedQueue.size w.exec_q < queue_capacity
      → FixedQueue.size w.trash_q < queue_capacity
      → Executed w ls i c bid s o rs mid
      → Sold mid
          (update ls bid (reduced c.quantity s o rs))
          i
          (record c { quantity = c.quantity - min c.quantity o.quantity })
          bid
          (suc n)
          w'
      → Sold w ls i c bid (suc n) w'
  unfolding bids count_trade
  Sold-trade w ls c bid n s o rs mid w' depth pos here room room' x y =
      let rest = bids ls (bid - 1) n in
      let met : bids ls bid (suc n) ≡ (s, o) ∷ rs ++ rest = ap (λ l. l ++ rest) here in
      let met' = bids-update_first ls bid (reduced c.quantity s o rs) n depth in
      record {
        levels = y.levels;
        book = y.book;
        out = y.out;
        swept =
            rw met
              (Swept-step w ls i c bid s o rs rest pos mid x room room' w' (rw met' at y.swept));
        left = y.left ∙ rw (met, met') (sym (remaining-reduced c.quantity s o rs rest pos));
        others = λ p h. y.others p h ∙ update_ne ls bid p _ (omega arith);
        best_ask = y.best_ask ∙ ap (λ (v : World). v.book.best_ask) x.rest;
        falls = y.falls;
        cleared = y.cleared;
        stop = rw (met, ← (total-reduced c.quantity s o rs rest pos).0) (rw met' at y.stop);
      }
