-- ===== src/Book/Sell/Rounds.antt =====
-- The rounds of the loop of `match_order` for a sell order, and how they end.
use sequitur.Prelude.{
  ℕ, zero, suc, ◌+◌, ◌-◌, ◌≤◌, ◌<◌, ◌≡◌, refl, ◌≢◌, inl, inr, true, false, ◌&&◌, none, some, List,
  [], ◌∷◌, ◌++◌, arith, ltb, leb, ◌==◌, if◌then◌else◌, length, min, update, Bool-cases, List-cases,
  sym, ◌∙◌, ap, subst, ne_of_test,
}
use sequitur.FixedQueue
use sequitur.Market.{Order, max_price_ticks, queue_capacity}
use sequitur.Machine.{World, pure, ◌>>◌, get_book, set_book}
use sequitur.Machine.Returns
use sequitur.Machine.Returns.{Returns, returns, load-step, get_level-step}
use sequitur.Book.{count_trade, execute, match_sell}
use sequitur.Book.Chain.{Cell, first}
use sequitur.Book.Level.{Levels, IsBook, IsOut}
use sequitur.Book.Fill.{reduced}
use sequitur.Book.Execute.{execute_lem, IsOut-reduced}
use sequitur.Book.Sweep.{Room, Room-step}
use sequitur.Book.Sell.{bids, Sold, Sold-none, Sold-empty, Sold-trade, bids-update_first}

module _ (i : ℕ) where
  -- The statement of `match_sell-Sold` at one amount of fuel.
  abbrev pub Works : ℕ → Type 0
  Works fuel =
      (n : ℕ) (w : World) (ls : Levels) (c : Order)
      → IsBook w ls
      → IsOut i ls
      → w.orders i ≡ some c
      → w.book.best_bid ≤ max_price_ticks
      → c.price + n ≡ w.book.best_bid + 1
      → 0 < fuel
      → Room w fuel c.quantity n (bids ls w.book.best_bid n)
      → Returns (λ _ w'. Sold w ls i c w.book.best_bid n w') (match_sell fuel (some i) w)

  module _ (f n : ℕ) (w : World) (ls : Levels) (c : Order) (works : Works f) (b : IsBook w ls)
      (out : IsOut i ls) (e : w.orders i ≡ some c) (in_range : w.book.best_bid ≤ max_price_ticks)
      (reach : c.price + suc n ≡ w.book.best_bid + 1) (pos : c.quantity ≢ 0)
      (room : Room w (suc f) c.quantity (suc n) (bids ls w.book.best_bid (suc n))) where
    -- One round at a price with no orders.
    skip :
        ls w.book.best_bid ≡ []
        → Returns
            (λ _ w'. Sold w ls i c w.book.best_bid (suc n) w')
            ((if w.book.best_bid == 0
                then pure tt
                else set_book (λ d. record d { best_bid = d.best_bid - 1 })
                  >> match_sell f (some i))
              w)
    unfolding bids set_book
    skip here =
        let bid = w.book.best_bid in
        let met : bids ls bid (suc n) ≡ bids ls (bid - 1) n =
          ap (λ l. l ++ bids ls (bid - 1) n) here in
        elim (Bool-cases (bid == 0)) [
          | inl top ↦
              let same : bid ≡ 0 = ground arith in
              let last_one : n ≡ 0 = omega arith in
              rw top (
                returns (
                  Sold-none i w ls c bid (suc n) refl b out e
                    (inr (met ∙ ap (bids ls (bid - 1)) last_one))
                    (inr (inr (same, subst (λ r. ls r ≡ []) same here)))))
          | inr lower ↦
              let ne = ne_of_test bid 0 lower in
              rw lower (
                Returns.mono
                  (works n (record w { book = record w.book { best_bid = bid - 1 } }) ls c b out e
                    (omega arith) (omega arith) (omega arith)
                    (elim room [
                      | inl q ↦ inl q
                      | inr (enough, space, space') ↦ inr (
                        omega (arith, ap length met),
                        omega (arith, ap length met),
                        omega (arith, ap length met),
                      )
                    ]))
                  λ _ w' x. Sold-empty i w ls c bid n w' (omega arith) here x)
        ]

    -- One round with a trade.
    trade :
        (s : ℕ) (o : Order) (rs : List Cell)
        → ls w.book.best_bid ≡ (s, o) ∷ rs
        → Returns
            (λ _ w'. Sold w ls i c w.book.best_bid (suc n) w')
            ((execute (some i) w.book.best_bid (some s) >> match_sell f (some i)) w)
    unfolding bids count_trade
    trade s o rs here =
        let bid = w.book.best_bid in
        let rest = bids ls (bid - 1) n in
        let ls' : Levels = update ls bid (reduced c.quantity s o rs) in
        let c' : Order = record c { quantity = c.quantity - min c.quantity o.quantity } in
        let met : bids ls bid (suc n) ≡ (s, o) ∷ rs ++ rest = ap (λ l. l ++ rest) here in
        let near : bid ≤ max_price_ticks = omega arith in
        let fits : FixedQueue.size w.exec_q < queue_capacity = omega (arith, ap length met) in
        let fits' : FixedQueue.size w.trash_q < queue_capacity = omega (arith, ap length met) in
        Returns.bind (execute_lem w ls i c bid s o rs b out e near here fits fits') λ _ mid x.
          let same : mid.book.best_bid ≡ bid = ap (λ (v : World). v.book.best_bid) x.rest in
          let left : Room mid f c'.quantity (suc n) (bids ls' bid (suc n)) =
            rw (bids-update_first ls bid (reduced c.quantity s o rs) n (omega arith))
              (Room-step w ls i c bid s o rs rest pos mid x fits fits' f n (rw met at room)) in
          Returns.mono
            (works (suc n) mid ls' c' x.book
              (IsOut-reduced ls i c.quantity bid s o rs near out here) x.taker (omega arith)
              (omega arith) (omega arith)
              (subst (λ a. Room mid f c'.quantity (suc n) (bids ls' a (suc n))) (sym same) left))
            λ _ w' y.
              Sold-trade i w ls c bid n s o rs mid w' (omega arith) pos here fits fits' x
                (subst (λ a. Sold mid ls' i c' a (suc n) w') same y)

  pub match_sell-Sold : (fuel : ℕ) → Works fuel
  unfolding match_sell get_book set_book count_trade bids
  match_sell-Sold zero n w ls c b out e in_range reach fuel room = absurd (omega arith)
  match_sell-Sold (suc f) zero w ls c b out e in_range reach fuel room =
      let test : (ltb 0 c.quantity && leb c.price w.book.best_bid) ≡ false = ground arith in
      load-step i _ _ e (
        rw test (
          returns (
            Sold-none i w ls c w.book.best_bid 0 refl b out e (inr refl)
              (inr (inl (omega arith))))))
  match_sell-Sold (suc f) (suc n) w ls c b out e in_range reach fuel room =
      let bid = w.book.best_bid in
      let near : bid ≤ max_price_ticks = omega arith in
      load-step i _ _ e (elim (Bool-cases (ltb 0 c.quantity)) [
        | inr none_left ↦
            let q : c.quantity ≡ 0 = ground arith in
            let test : (ltb 0 c.quantity && leb c.price bid) ≡ false = ground arith in
            rw test (returns (Sold-none i w ls c bid (suc n) refl b out e (inl q) (inl q)))
        | inl more ↦
            let pos : c.quantity ≢ 0 = ground arith in
            let test : (ltb 0 c.quantity && leb c.price bid) ≡ true = ground arith in
            rw test (
              get_level-step bid _ _ near (elim (List-cases (ls bid)) [
                | inl here ↦
                    let head : (w.book.levels bid).head ≡ none =
                      (b bid near).head ∙ ap (first none) here in
                    rw head
                      (skip f n w ls c (match_sell-Sold f) b out e in_range reach pos room here)
                | inr ((s, o), rs, here) ↦
                    let head : (w.book.levels bid).head ≡ some s =
                      (b bid near).head ∙ ap (first none) here in
                    rw head (
                      trade f n w ls c (match_sell-Sold f) b out e in_range reach pos room s o rs
                        here)
              ]))
      ])
