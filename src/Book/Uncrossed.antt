-- ===== src/Book/Uncrossed.antt =====
-- The best bid stays below the best ask over `OrderBook::match_order`.
use sequitur.Prelude.{
  ℕ, ◌+◌, ◌-◌, ◌≤◌, ◌<◌, ◌≡◌, refl, ◌≢◌, ◌⊎◌, inl, inr, true, false, some, [], ◌∷◌, ◌++◌, arith,
  ◌==◌, if◌then◌else◌, length, update, update_ne, word32, Bool-cases, ne_of_test, sym, ◌∙◌, ap,
  subst₂, leb,
}
use sequitur.FixedQueue
use sequitur.Market.{Order, max_price_ticks, queue_capacity}
use sequitur.Machine.{World, OrderBook}
use sequitur.Machine.Returns
use sequitur.Machine.Returns.{Returns}
use sequitur.Book.{raise_best, match_order}
use sequitur.Book.Level.{Levels, IsBook, IsOut, total}
use sequitur.Book.Cross.{reach, crossing, is_crossed, Crossed}
use sequitur.Book.Match.{settle, Settled, match_order-Settled}

-- The best bid is below the best ask, and no order rests between them.
pub record IsUncrossed (bid ask : ℕ) (ls : Levels) : Type 0 where
  pub apart : bid < ask
  pub gap : (p : ℕ) → bid < p → p < ask → ls p ≡ []

is_crossed-gap :
    (b : OrderBook) (c : Order) (p : ℕ) → b.best_bid < p → p < b.best_ask → is_crossed b c p ≡ false
unfolding is_crossed
is_crossed-gap b c p above below = ground arith

Crossed-IsUncrossed :
    (w : World) (ls : Levels) (i : ℕ) (c : Order) (mid : World)
    → IsUncrossed w.book.best_bid w.book.best_ask ls
    → (x : Crossed w ls i c mid) → IsUncrossed mid.book.best_bid mid.book.best_ask x.kept
Crossed-IsUncrossed w ls i c mid u x = record {
  apart = omega (arith, u.apart, x.bid_falls, x.ask_rises);
  gap = λ p above below. elim (Bool-cases (leb w.book.best_ask p)) [
    | inl high ↦ x.cleared_asks p (ground arith) below
    | inr low ↦ elim (Bool-cases (leb p w.book.best_bid)) [
      | inl deep ↦ x.cleared_bids p (ground arith) above
      | inr inside ↦
          let over : w.book.best_bid < p = ground arith in
          let under : p < w.book.best_ask = ground arith in
          x.others p (is_crossed-gap w.book c p over under) ∙ u.gap p over under
    ]
  ];
}

module _ (w : World) (ls : Levels) (i : ℕ) (c : Order) (low : 0 < c.price)
    (high : c.price < max_price_ticks) (u : IsUncrossed w.book.best_bid w.book.best_ask ls) where
  -- What is left of the order joins its price.
  insert-IsUncrossed :
      (mid : World) (x : Crossed w ls i c mid) (d : Order)
      → d.price ≡ c.price
      → (c.side ≡ 0) ⊎ (c.side ≡ 1)
      → c.quantity - total (crossing w.book c ls) ≢ 0
      → IsUncrossed
          (raise_best c.side c.price mid.book).best_bid
          (raise_best c.side c.price mid.book).best_ask
          (update x.kept c.price (x.kept c.price ++ (i, d) ∷ []))
  unfolding raise_best
  insert-IsUncrossed mid x d e (inl buy) left =
      let v = Crossed-IsUncrossed w ls i c mid u x in
      let test : (c.side == 0) ≡ true = ground arith in
      let above : c.price < mid.book.best_ask = elim (x.stop_buy buy) [
        | inl filled ↦ absurd (left filled)
        | inr (inl near) ↦ near
        | inr (inr (end, _)) ↦ omega arith
      ] in
      rw test (record {
        apart = omega (arith, v.apart, above);
        gap = λ p over under.
            update_ne x.kept c.price p _ (omega arith) ∙ v.gap p (omega arith) under;
      })
  insert-IsUncrossed mid x d e (inr sell) left =
      let v = Crossed-IsUncrossed w ls i c mid u x in
      let test : (c.side == 0) ≡ false = ground arith in
      let test' : (c.side == 1) ≡ true = ground arith in
      let below : mid.book.best_bid < c.price = elim (x.stop_sell sell) [
        | inl filled ↦ absurd (left filled)
        | inr (inl near) ↦ near
        | inr (inr (end, _)) ↦ omega arith
      ] in
      rw (test, test')
        (record {
          apart = omega (arith, v.apart, below);
          gap = λ p over under.
              update_ne x.kept c.price p _ (omega arith) ∙ v.gap p over (omega arith);
        })

  pub Settled-IsUncrossed :
      (w' : World)
      → (c.side ≡ 0) ⊎ (c.side ≡ 1)
      → (s : Settled w ls i c w')
      → IsUncrossed w'.book.best_bid w'.book.best_ask (
          settle i
            (record c { quantity = c.quantity - total (crossing w.book c ls) })
            s.crossed.kept)
  unfolding settle
  Settled-IsUncrossed w' side s =
      let rest = c.quantity - total (crossing w.book c ls) in
      let left : Order = record c { quantity = rest } in
      let kept = s.crossed.kept in
      let after = update kept c.price (kept c.price ++ (i, left) ∷ []) in
      let bid = ap (λ (v : World). v.book.best_bid) s.rest in
      let ask = ap (λ (v : World). v.book.best_ask) s.rest in
      subst₂ (λ x y. IsUncrossed x y (if rest == 0 then kept else after)) (sym bid) (sym ask)
        (elim (Bool-cases (rest == 0)) [
          | inl done ↦ rw done (Crossed-IsUncrossed w ls i c s.mid u s.crossed)
          | inr more ↦
              rw more (insert-IsUncrossed s.mid s.crossed left refl side (ne_of_test rest 0 more))
        ])

-- What `match_order` leaves: a book that is not crossed.
pub record Uncrossed (w' : World) : Type 0 where
  pub levels : Levels
  pub book : IsBook w' levels
  pub uncrossed : IsUncrossed w'.book.best_bid w'.book.best_ask levels

-- Let the book hold the orders `ls`, with the best bid below the best ask and no order at a price
-- between them; let slot `i` hold the order `c` and be no resting order's, let `c` be a buy or a
-- sell (side 0 or 1) at a price strictly between 0 and the highest price, with a `uint32_t`
-- quantity, and let the best bid be at most the highest price; let the fuel and the space in the
-- queues be enough for what `c` reaches. Then `match_order` returns, and again the best bid is
-- below the best ask and no order rests at a price between them.
pub match_order-IsUncrossed :
    (fuel : ℕ) (w : World) (ls : Levels) (i : ℕ) (c : Order)
    → IsBook w ls
    → IsUncrossed w.book.best_bid w.book.best_ask ls
    → IsOut i ls
    → w.orders i ≡ some c
    → (c.side ≡ 0) ⊎ (c.side ≡ 1)
    → 0 < c.price
    → c.price < max_price_ticks
    → c.quantity < word32
    → w.book.best_bid ≤ max_price_ticks
    → reach w.book c + length (crossing w.book c ls) < fuel
    → FixedQueue.size w.exec_q + length (crossing w.book c ls) ≤ queue_capacity
    → FixedQueue.size w.trash_q + length (crossing w.book c ls) ≤ queue_capacity
    → Returns (λ _ w'. Uncrossed w') (match_order fuel (some i) w)
match_order-IsUncrossed fuel w ls i c b u out e side low high small bid enough space space' =
    Returns.mono
      (match_order-Settled fuel w ls i c b out e (omega arith) small bid enough space space')
      λ _ w' (s, _). record {
        levels = _;
        book = s.book;
        uncrossed = Settled-IsUncrossed w ls i c low high u w' side s;
      }
