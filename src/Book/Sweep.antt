-- ===== src/Book/Sweep.antt =====
-- What both loops of `match_order` do: the incoming order meets the orders `met`, in this order, and
-- trades with them by price-time priority (`Book.Fill`).
use mathlib.Core.List.{map, map-append}
use sequitur.Prelude.{
  ℕ, suc, ◌+◌, ◌-◌, ◌%◌, ◌≤◌, ◌<◌, ◌≡◌, ◌≢◌, ◌⊎◌, inl, inr, some, List, [], ◌∷◌, ◌++◌, append_assoc,
  append-nil, arith, leb, if◌then◌else◌, min, length, word64, Bool-cases, leb-lt, sym, ◌∙◌, ap,
}
use sequitur.FixedQueue
use sequitur.FixedQueue.{FixedQueue}
use sequitur.Market.{Ptr, Order, Trade, queue_capacity}
use sequitur.Machine.{World}
use sequitur.Book.{count_trade}
use sequitur.Book.Chain.{Cell}
use sequitur.Book.Level.{Levels, total}
use sequitur.Book.Fill.{
  fills, filled, reduced, fills-reduced, filled-reduced, total-reduced, trade_with, fills-zero,
  filled-zero,
}
use sequitur.Book.Execute.{Executed}

abbrev pub pointers : List ℕ → List Ptr
pointers = map (λ s. some s)

-- From `w` to `w'` the taker `c`, in slot `i`, has traded with all that it could of `met`.
pub record Swept (w : World) (i : ℕ) (c : Order) (met : List Cell) (w' : World) : Type 0 where
  pub taker : w'.orders i ≡ some (record c { quantity = c.quantity - total met })
  pub exec :
      FixedQueue.to_list w'.exec_q ≡ FixedQueue.to_list w.exec_q ++ fills c.trader_id c.quantity met
  pub trash :
      FixedQueue.to_list w'.trash_q
      ≡ FixedQueue.to_list w.trash_q ++ pointers (filled c.quantity met)
  pub trades :
      w'.book.total_trades % word64
      ≡ (w.book.total_trades + length (fills c.trader_id c.quantity met)) % word64
  pub volume :
      w'.book.total_volume % word64 ≡ (w.book.total_volume + min c.quantity (total met)) % word64

-- Fuel for the loop and space in the two queues, unless the order is filled: `n` prices are to be
-- visited, and the orders there are `met`.
abbrev pub Room : World → (fuel q n : ℕ) → List Cell → Type 0
Room w fuel q n met =
    (q ≡ 0)
    ⊎ ((n + length met < fuel)
        × (FixedQueue.size w.exec_q + length met ≤ queue_capacity)
        × (FixedQueue.size w.trash_q + length met ≤ queue_capacity))

pub Swept-none :
    (w : World) (i : ℕ) (c : Order) (met : List Cell)
    → w.orders i ≡ some c
    → (c.quantity ≡ 0) ⊎ (met ≡ [])
    → Swept w i c met w
unfolding total fills filled
Swept-none w i c met e (inl q) = record {
  taker = e ∙ ap (λ n. some (record c { quantity = n })) (omega arith);
  exec = rw (q, fills-zero) (sym (append-nil _));
  trash = rw (q, filled-zero) (sym (append-nil _));
  trades = rw (q, fills-zero) (omega arith);
  volume = rw q (omega arith);
}
Swept-none w i c met e (inr no_orders) = rw no_orders (record {
  taker = e ∙ ap (λ n. some (record c { quantity = n })) (omega arith);
  exec = sym (append-nil _);
  trash = sym (append-nil _);
  trades = omega arith;
  volume = omega arith;
})

module _ (w : World) (ls : Levels) (i : ℕ) (c : Order) (p s : ℕ) (o : Order) (rs met : List Cell)
    (pos : c.quantity ≢ 0) where
  abbrev pub next_taker : Order
  next_taker = record c { quantity = c.quantity - min c.quantity o.quantity }

  module _ (mid : World) (x : Executed w ls i c p s o rs mid)
      (room : FixedQueue.size w.exec_q < queue_capacity)
      (room' : FixedQueue.size w.trash_q < queue_capacity) where
    trade : Trade
    trade = trade_with c.trader_id (min c.quantity o.quantity) o

    mid_exec :
        (FixedQueue.to_list mid.exec_q ≡ FixedQueue.to_list w.exec_q ++ trade ∷ [])
        × (FixedQueue.size mid.exec_q ≡ FixedQueue.size w.exec_q + 1)
    unfolding trade
    mid_exec =
        let e : mid.exec_q ≡ FixedQueue.append trade w.exec_q =
          ap (λ (v : World). v.exec_q) x.rest in
        rw e (FixedQueue.to_list-append trade w.exec_q (omega arith))

    mid_trash :
        (FixedQueue.to_list mid.trash_q
          ≡ FixedQueue.to_list w.trash_q
            ++ pointers (if leb o.quantity c.quantity then s ∷ [] else []))
        × (FixedQueue.size mid.trash_q
            ≡ FixedQueue.size w.trash_q + (if leb o.quantity c.quantity then 1 else 0))
    mid_trash =
        let e = ap (λ (v : World). v.trash_q) x.rest in
        elim (Bool-cases (leb o.quantity c.quantity)) [
          | inl full ↦ rw (e, full) (FixedQueue.to_list-append (some s) w.trash_q (omega arith))
          | inr part ↦ rw (e, part) (sym (append-nil _), omega arith)
        ]

    mid_totals :
        (mid.book.total_trades ≡ (w.book.total_trades + 1) % word64)
        × (mid.book.total_volume ≡ (w.book.total_volume + min c.quantity o.quantity) % word64)
    unfolding count_trade
    mid_totals = (
      ap (λ (v : World). v.book.total_trades) x.rest,
      ap (λ (v : World). v.book.total_volume) x.rest,
    )

    pub Room-step :
        (fuel n : ℕ)
        → Room w (suc fuel) c.quantity (suc n) ((s, o) ∷ rs ++ met)
        → Room mid fuel next_taker.quantity (suc n) (reduced c.quantity s o rs ++ met)
    unfolding reduced
    Room-step fuel n (inl q) = absurd (pos q)
    Room-step fuel n (inr (enough, space, space')) =
        let (_, size) = mid_exec in
        let (_, size') = mid_trash in
        elim (Bool-cases (leb o.quantity c.quantity)) [
          | inl full ↦
              let size'' : FixedQueue.size mid.trash_q ≡ FixedQueue.size w.trash_q + 1 =
                rw full at size' in
              rw full (inr (omega arith, omega arith, omega arith))
          | inr part ↦ let lt : c.quantity < o.quantity = leb-lt _ _ part in inl (omega arith)
        ]

    pub Swept-step :
        (w' : World)
        → Swept mid i next_taker (reduced c.quantity s o rs ++ met) w'
        → Swept w i c ((s, o) ∷ rs ++ met) w'
    unfolding trade
    Swept-step w' r =
        let rest = reduced c.quantity s o rs ++ met in
        let q = next_taker.quantity in
        let (left, volume) = total-reduced c.quantity s o rs met pos in
        let (trades, total_volume) = mid_totals in
        record {
          taker = r.taker ∙ ap (λ n. some (record c { quantity = n })) left;
          exec =
              r.exec
              ∙ ap (λ l. l ++ fills c.trader_id q rest) mid_exec.0
              ∙ append_assoc (FixedQueue.to_list w.exec_q) (trade ∷ []) (fills c.trader_id q rest)
              ∙ ap (λ l. FixedQueue.to_list w.exec_q ++ l)
                  (sym (fills-reduced c.quantity s o rs met pos c.trader_id));
          trash =
              r.trash
              ∙ ap (λ l. l ++ pointers (filled q rest)) mid_trash.0
              ∙ append_assoc (FixedQueue.to_list w.trash_q) _ (pointers (filled q rest))
              ∙ ap (λ l. FixedQueue.to_list w.trash_q ++ l)
                  (sym (map-append _ _ _)
                    ∙ ap pointers (sym (filled-reduced c.quantity s o rs met pos)));
          trades =
              rw (fills-reduced c.quantity s o rs met pos c.trader_id, r.trades, trades)
                (omega arith);
          volume = r.volume ∙ rw (← volume, total_volume) (omega arith);
        }
