-- ===== src/Book/Execute.antt =====
-- One trade of `OrderBook::match_order`, between the incoming order and the first of a level.
use sequitur.Prelude.{
  ℕ, ◌-◌, ◌≤◌, ◌<◌, ◌≡◌, ◌≢◌, true, false, none, some, List, [], ◌∷◌, arith, leb, ◌==◌,
  if◌then◌else◌, min, update, update_self, update_ne, update-update, Bool-cases, inl, inr, sym, ◌∙◌,
  ap, subst,
}
use sequitur.FixedQueue
use sequitur.Market.{Order, max_price_ticks, queue_capacity}
use sequitur.Machine.{World, set_book}
use sequitur.Machine.Returns
use sequitur.Machine.Returns.{
  Returns, returns, load-step, modify-step, set_level-step, push_exec-step, push_trash-step,
}
use sequitur.Book.{sub32, count_trade, remove_order, execute}
use sequitur.Book.Chain.{Cell, has, first, linked, Chain-frame}
use sequitur.Book.Level.{
  total-cons, IsLevel, Levels, IsBook, IsOut, IsLevel-frame, not_has_of_price, IsBook-update,
}
use sequitur.Book.Remove.{remove_order_lem}
use sequitur.Book.Fill.{trade_with, reduced}

pub IsBook-out :
    (w : World) {ls : Levels} (i : ℕ) (c : Order)
    → IsBook w ls
    → IsOut i ls
    → IsBook (record w { orders = update w.orders i (some c) }) ls
IsBook-out w i c b out p h = IsLevel-frame i c (b p h) (out p h)

-- The first order of a level, and the level's volume, less `t`.
shrink-IsBook :
    (w : World) (ls : Levels) (p s : ℕ) (o : Order) (rs : List Cell) (t : ℕ)
    → IsBook w ls
    → p ≤ max_price_ticks
    → ls p ≡ (s, o) ∷ rs
    → t ≤ o.quantity
    → IsBook
        (record w {
          orders =
              update w.orders s
                (some (record (linked o none (first none rs)) { quantity = o.quantity - t }));
          book = record w.book {
            levels =
                update w.book.levels p
                  (record (w.book.levels p) { volume = sub32 (w.book.levels p).volume t });
          };
        })
        (update ls p ((s, record o { quantity = o.quantity - t }) ∷ rs))
shrink-IsBook w ls p s o rs t b in_range here le =
    let v : IsLevel w.orders p (w.book.levels p) ((s, o) ∷ rs) =
      subst (IsLevel w.orders p (w.book.levels p)) here (b p in_range) in
    let (e, new, c) = v.chain in
    let (price, small, f) = v.fits in
    let o' : Order = record o { quantity = o.quantity - t } in
    IsBook-update _ w.book.levels ls p _ ((s, o') ∷ rs)
      (record {
        head = v.head;
        tail = v.tail;
        chain = (update_self w.orders s _, new, Chain-frame w.orders (some s) none rs s _ c new);
        fits = (price, omega arith, f);
        volume = rw v.volume (omega (arith, total-cons s o rs, total-cons s o' rs));
      })
      (λ q h ne.
        IsLevel-frame s _ (b q h)
          (not_has_of_price s (linked o none (first none rs)) (b q h) e (λ k. ne (sym k ∙ price))))

-- What `execute` leaves behind. `c` is the incoming order, in slot `i`; `(s, o)` is the first order
-- at price `p`.
pub record Executed (w : World) (ls : Levels) (i : ℕ) (c : Order) (p s : ℕ) (o : Order)
    (rs : List Cell) (w' : World) : Type 0 where
  pub book : IsBook w' (update ls p (reduced c.quantity s o rs))
  pub taker : w'.orders i ≡ some (record c { quantity = c.quantity - min c.quantity o.quantity })
  pub rest : w' ≡ record w {
    orders = w'.orders;
    book = record (count_trade (min c.quantity o.quantity) w.book) { levels = w'.book.levels };
    exec_q = FixedQueue.append (trade_with c.trader_id (min c.quantity o.quantity) o) w.exec_q;
    trash_q = if leb o.quantity c.quantity then FixedQueue.append (some s) w.trash_q else w.trash_q;
  }

module _ (w : World) (ls : Levels) (i : ℕ) (c : Order) (b : IsBook w ls) (out : IsOut i ls)
    (e : w.orders i ≡ some c) (s : ℕ) (o : Order) (rs : List Cell)
    (in_range : o.price ≤ max_price_ticks) (here : ls o.price ≡ (s, o) ∷ rs)
    (room : FixedQueue.size w.exec_q < queue_capacity)
    (room' : FixedQueue.size w.trash_q < queue_capacity) where
  taken : ℕ
  taken = min c.quantity o.quantity

  left : Order
  unfolding taken
  left = record o { quantity = o.quantity - taken }

  level : IsLevel w.orders o.price (w.book.levels o.price) ((s, o) ∷ rs)
  level = subst (IsLevel w.orders o.price (w.book.levels o.price)) here (b o.price in_range)

  absent : has i ((s, o) ∷ rs) ≡ false
  absent = subst (λ xs. has i xs ≡ false) here (out o.price in_range)

  ne_taker : s ≢ i
  ne_taker = let no_taker : has i ((s, o) ∷ rs) ≡ false = absent in ground arith

  -- The state after the level's volume has been written.
  traded : World
  unfolding taken count_trade
  traded = record w {
    orders =
        update (update w.orders i (some (record c { quantity = c.quantity - taken }))) s
          (some (record (linked o none (first none rs)) { quantity = o.quantity - taken }));
    book = record (count_trade taken w.book) {
      levels =
          update w.book.levels o.price (record (w.book.levels o.price) {
            volume = sub32 (w.book.levels o.price).volume taken;
          });
    };
    exec_q = FixedQueue.append (trade_with c.trader_id taken o) w.exec_q;
  }

  traded-IsBook : IsBook traded (update ls o.price ((s, left) ∷ rs))
  unfolding traded left
  traded-IsBook =
      let c' : Order = record c { quantity = c.quantity - taken } in
      shrink-IsBook (record w { orders = update w.orders i (some c') }) ls o.price s o rs taken
        (IsBook-out w i c' b out) in_range here (omega arith)

  traded-taker : traded.orders i ≡ some (record c { quantity = c.quantity - taken })
  unfolding traded
  traded-taker =
      update_ne (update w.orders i _) s i _ (λ k. ne_taker (sym k)) ∙ update_self w.orders i _

  partial-Executed : leb o.quantity c.quantity ≡ false → Executed w ls i c o.price s o rs traded
  unfolding traded left reduced
  partial-Executed part =
      let all : taken ≡ c.quantity = ground arith in
      let short : (s, left) ∷ rs ≡ reduced c.quantity s o rs =
        rw part (ap (λ n. (s, record o { quantity = o.quantity - n }) ∷ rs) all) in
      record {
        book = subst (λ xs. IsBook traded (update ls o.price xs)) short traded-IsBook;
        taker = traded-taker;
        rest = rw part;
      }

  full-Executed :
      leb o.quantity c.quantity ≡ true
      → Returns
          (λ _ w'. Executed w ls i c o.price s o rs w')
          (remove_order (some s) (record traded { trash_q = FixedQueue.append (some s) w.trash_q }))
  unfolding traded left reduced
  full-Executed full =
      let ls' : Levels = update ls o.price ((s, left) ∷ rs) in
      let w' : World = record traded { trash_q = FixedQueue.append (some s) w.trash_q } in
      let v =
        subst (IsLevel w'.orders o.price (w'.book.levels o.price))
          (update_self ls o.price ((s, left) ∷ rs)) (traded-IsBook o.price in_range) in
      Returns.mono
        (remove_order_lem w' ls' [] s left rs in_range (update_self ls o.price _)
          (λ q h _. traded-IsBook q h) v)
        λ _ fin r. record {
          book = rw full (subst (IsBook fin) (update-update ls o.price ((s, left) ∷ rs) rs) r.book);
          taker =
              r.others i (
                subst (λ xs. has i xs ≡ false) (sym (update_self ls o.price ((s, left) ∷ rs)))
                  absent)
              ∙ traded-taker;
          rest = rw full r.rest;
        }

  pub execute-Executed :
      Returns (λ _ w'. Executed w ls i c o.price s o rs w') (execute (some i) o.price (some s) w)
  unfolding execute set_book traded
  execute-Executed = load-step i _ _ e (
      load-step s _ _ level.chain.0 (
        push_exec-step _ _ _ room (
          modify-step i _ _ _ e (
            modify-step s _ _ _ (update_ne w.orders i s _ ne_taker ∙ level.chain.0) (
              set_level-step o.price _ _ _ in_range (
                load-step s _ _ (update_self (update w.orders i _) s _)
                  (elim (Bool-cases (leb o.quantity c.quantity)) [
                    | inl full ↦
                        let done : (o.quantity - taken == 0) ≡ true = ground arith in
                        rw done (push_trash-step _ _ _ room' (full-Executed full))
                    | inr part ↦
                        let some_left : (o.quantity - taken == 0) ≡ false = ground arith in
                        rw some_left (returns (partial-Executed part))
                  ])))))))

-- The same where the price is given: an order at the head of a level has the level's price.
pub execute_lem :
    (w : World) (ls : Levels) (i : ℕ) (c : Order) (p s : ℕ) (o : Order) (rs : List Cell)
    → IsBook w ls
    → IsOut i ls
    → w.orders i ≡ some c
    → p ≤ max_price_ticks
    → ls p ≡ (s, o) ∷ rs
    → FixedQueue.size w.exec_q < queue_capacity
    → FixedQueue.size w.trash_q < queue_capacity
    → Returns (λ _ w'. Executed w ls i c p s o rs w') (execute (some i) p (some s) w)
execute_lem w ls i c p s o rs b out e in_range here room room' =
    let v = subst (IsLevel w.orders p (w.book.levels p)) here (b p in_range) in
    let price : o.price ≡ p = v.fits.0 in
    subst (λ r. Returns (λ _ w'. Executed w ls i c r s o rs w') (execute (some i) r (some s) w))
      price
      (execute-Executed w ls i c b out e s o rs
        (subst (λ r. r ≤ max_price_ticks) (sym price) in_range) (ap ls price ∙ here) room room')

pub IsOut-reduced :
    (ls : Levels) (i q p s : ℕ) (o : Order) (rs : List Cell)
    → p ≤ max_price_ticks
    → IsOut i ls
    → ls p ≡ (s, o) ∷ rs
    → IsOut i (update ls p (reduced q s o rs))
unfolding reduced
IsOut-reduced ls i q p s o rs in_range out here r h =
    let old : has i ((s, o) ∷ rs) ≡ false = subst (λ xs. has i xs ≡ false) here (out p in_range) in
    elim (Bool-cases (r == p)) [ inl hit ↦ rw hit (ground arith) | inr miss ↦ rw miss (out r h) ]
