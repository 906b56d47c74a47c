-- ===== src/Book/Buy/Rounds.antt =====
-- The rounds of the loop of `match_order` for a buy order, and how they end.
use sequitur.Prelude.{
  ℕ, zero, suc, ◌+◌, ◌-◌, ◌≤◌, ◌<◌, ◌≡◌, refl, ◌≢◌, inl, inr, true, false, ◌&&◌, none, some, List,
  [], ◌∷◌, ◌++◌, arith, ltb, leb, ◌==◌, if◌then◌else◌, length, min, update, Bool-cases, List-cases,
  sym, ◌∙◌, ap, subst,
}
use sequitur.FixedQueue
use sequitur.Market.{Order, max_price_ticks, queue_capacity}
use sequitur.Machine.{World, pure, ◌>>◌, get_book, set_book}
use sequitur.Machine.Returns
use sequitur.Machine.Returns.{Returns, returns, load-step, get_level-step}
use sequitur.Book.{count_trade, execute, match_buy}
use sequitur.Book.Chain.{Cell, first}
use sequitur.Book.Level.{Levels, IsBook, IsOut}
use sequitur.Book.Fill.{reduced}
use sequitur.Book.Execute.{execute_lem, IsOut-reduced}
use sequitur.Book.Sweep.{Room, Room-step}
use sequitur.Book.Buy.{asks, Bought, Bought-none, Bought-empty, Bought-trade, asks-update_first}

module _ (i : ℕ) where
  -- The statement of `match_buy-Bought` at one amount of fuel.
  abbrev pub Works : ℕ → Type 0
  Works fuel =
      (n : ℕ) (w : World) (ls : Levels) (c : Order)
      → IsBook w ls
      → IsOut i ls
      → w.orders i ≡ some c
      → c.price ≤ max_price_ticks
      → w.book.best_ask + n ≡ c.price + 1
      → 0 < fuel
      → Room w fuel c.quantity n (asks ls w.book.best_ask n)
      → Returns (λ _ w'. Bought w ls i c w.book.best_ask n w') (match_buy fuel (some i) w)

  module _ (f n : ℕ) (w : World) (ls : Levels) (c : Order) (works : Works f) (b : IsBook w ls)
      (out : IsOut i ls) (e : w.orders i ≡ some c) (in_range : c.price ≤ max_price_ticks)
      (reach : w.book.best_ask + suc n ≡ c.price + 1) (pos : c.quantity ≢ 0)
      (room : Room w (suc f) c.quantity (suc n) (asks ls w.book.best_ask (suc n))) where
    -- One round at a price with no orders.
    skip :
        ls w.book.best_ask ≡ []
        → Returns
            (λ _ w'. Bought w ls i c w.book.best_ask (suc n) w')
            ((if w.book.best_ask == max_price_ticks
                then pure tt
                else set_book (λ d. record d { best_ask = d.best_ask + 1 }) >> match_buy f (some i))
              w)
    unfolding asks set_book
    skip here =
        let ask = w.book.best_ask in
        let met : asks ls ask (suc n) ≡ asks ls (ask + 1) n =
          ap (λ l. l ++ asks ls (ask + 1) n) here in
        elim (Bool-cases (ask == max_price_ticks)) [
          | inl top ↦
              let same : ask ≡ max_price_ticks = ground arith in
              let last_one : n ≡ 0 = omega arith in
              rw top (
                returns (
                  Bought-none i w ls c ask (suc n) refl b out e
                    (inr (met ∙ ap (asks ls (ask + 1)) last_one))
                    (inr (inr (same, subst (λ r. ls r ≡ []) same here)))))
          | inr lower ↦ rw lower (
              Returns.mono
                (works n (record w { book = record w.book { best_ask = ask + 1 } }) ls c b out e
                  in_range (omega arith) (omega arith)
                  (elim room [
                    | inl q ↦ inl q
                    | inr (enough, space, space') ↦ inr (
                      omega (arith, ap length met),
                      omega (arith, ap length met),
                      omega (arith, ap length met),
                    )
                  ]))
                λ _ w' x. Bought-empty i w ls c ask n w' here x)
        ]

    -- One round with a trade.
    trade :
        (s : ℕ) (o : Order) (rs : List Cell)
        → ls w.book.best_ask ≡ (s, o) ∷ rs
        → Returns
            (λ _ w'. Bought w ls i c w.book.best_ask (suc n) w')
            ((execute (some i) w.book.best_ask (some s) >> match_buy f (some i)) w)
    unfolding asks count_trade
    trade s o rs here =
        let ask = w.book.best_ask in
        let rest = asks ls (ask + 1) n in
        let ls' : Levels = update ls ask (reduced c.quantity s o rs) in
        let c' : Order = record c { quantity = c.quantity - min c.quantity o.quantity } in
        let met : asks ls ask (suc n) ≡ (s, o) ∷ rs ++ rest = ap (λ l. l ++ rest) here in
        let near : ask ≤ max_price_ticks = omega arith in
        let fits : FixedQueue.size w.exec_q < queue_capacity = omega (arith, ap length met) in
        let fits' : FixedQueue.size w.trash_q < queue_capacity = omega (arith, ap length met) in
        Returns.bind (execute_lem w ls i c ask s o rs b out e near here fits fits') λ _ mid x.
          let same : mid.book.best_ask ≡ ask = ap (λ (v : World). v.book.best_ask) x.rest in
          let left : Room mid f c'.quantity (suc n) (asks ls' ask (suc n)) =
            rw (asks-update_first ls ask (reduced c.quantity s o rs) n)
              (Room-step w ls i c ask s o rs rest pos mid x fits fits' f n (rw met at room)) in
          Returns.mono
            (works (suc n) mid ls' c' x.book
              (IsOut-reduced ls i c.quantity ask s o rs near out here) x.taker in_range
              (ap (λ a. a + suc n) same ∙ reach) (omega arith)
              (subst (λ a. Room mid f c'.quantity (suc n) (asks ls' a (suc n))) (sym same) left))
            λ _ w' y.
              Bought-trade i w ls c ask n s o rs mid w' pos here fits fits' x
                (subst (λ a. Bought mid ls' i c' a (suc n) w') same y)

  pub match_buy-Bought : (fuel : ℕ) → Works fuel
  unfolding match_buy get_book set_book count_trade asks
  match_buy-Bought zero n w ls c b out e in_range reach fuel room = absurd (omega arith)
  match_buy-Bought (suc f) zero w ls c b out e in_range reach fuel room =
      let test : (ltb 0 c.quantity && leb w.book.best_ask c.price) ≡ false = ground arith in
      load-step i _ _ e (
        rw test (
          returns (
            Bought-none i w ls c w.book.best_ask 0 refl b out e (inr refl)
              (inr (inl (omega arith))))))
  match_buy-Bought (suc f) (suc n) w ls c b out e in_range reach fuel room =
      let ask = w.book.best_ask in
      let near : ask ≤ max_price_ticks = omega arith in
      load-step i _ _ e (elim (Bool-cases (ltb 0 c.quantity)) [
        | inr none_left ↦
            let q : c.quantity ≡ 0 = ground arith in
            let test : (ltb 0 c.quantity && leb ask c.price) ≡ false = ground arith in
            rw test (returns (Bought-none i w ls c ask (suc n) refl b out e (inl q) (inl q)))
        | inl more ↦
            let pos : c.quantity ≢ 0 = ground arith in
            let test : (ltb 0 c.quantity && leb ask c.price) ≡ true = ground arith in
            rw test (
              get_level-step ask _ _ near (elim (List-cases (ls ask)) [
                | inl here ↦
                    let head : (w.book.levels ask).head ≡ none =
                      (b ask near).head ∙ ap (first none) here in
                    rw head
                      (skip f n w ls c (match_buy-Bought f) b out e in_range reach pos room here)
                | inr ((s, o), rs, here) ↦
                    let head : (w.book.levels ask).head ≡ some s =
                      (b ask near).head ∙ ap (first none) here in
                    rw head (
                      trade f n w ls c (match_buy-Bought f) b out e in_range reach pos room s o rs
                        here)
              ]))
      ])
