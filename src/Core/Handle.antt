-- ===== src/Core/Handle.antt =====
-- What one round of the core thread does with a packet, from the ingress ring to the egress queue.
use sequitur.Prelude.{
  ℕ, max, ◌+◌, ◌%◌, ◌≤◌, ◌<◌, ◌≡◌, refl, ◌≢◌, ◌⊎◌, true, false, List, [], ◌∷◌, ◌++◌, arith, ◌==◌,
  length, word32, word64, Bool-cases, inl, inr, sym, ◌∙◌, ap, subst,
}
use sequitur.FixedQueue
use sequitur.Market.{Order, blank, max_price_ticks, queue_capacity}
use sequitur.Spsc.Refine.{Holds}
use sequitur.ObjectPool.Slots.{IsPool}
use sequitur.Book.Level.{Levels, IsBook}
use sequitur.Book.Fill.{fills}
use sequitur.Book.Cross.{reach, crossing}
use sequitur.Packets.{IngressPacket, EgressPacket, new_order, order_rejected}
use sequitur.Engine.{MatchingEngine, answered, submit_order, clear_execution_queue, fill_in}
use sequitur.Engine.Submit.{IsHeld, submit_order_lem, submit_order_exhausted}
use sequitur.Core.{
  CoreThread, finished, egress_capacity, reports, rejected, submit_packet, reply, handle,
}
use sequitur.Core.Send.{reply_lem}
use sequitur.Core.Reports.{Reported, Echoes, reports-Reported, length-reports}

pub submit_packet-new :
    (fuel : ℕ) (packet : IngressPacket) (e : MatchingEngine)
    → (packet.type == new_order) ≡ true
    → submit_packet fuel packet e
      ≡ submit_order fuel packet.side packet.price packet.quantity packet.trader_id e
unfolding submit_packet
submit_packet-new fuel packet e new = rw new refl

pub submit_packet-other :
    (fuel : ℕ) (packet : IngressPacket) (e : MatchingEngine)
    → (packet.type == new_order) ≡ false
    → submit_packet fuel packet e ≡ answered false e
unfolding submit_packet
submit_packet-other fuel packet e other = rw other refl

-- What a round does with a new order `o` that has been accepted, in a book that holds `ls`.
pub record Handled (packet late : IngressPacket) (o : Order) (c : CoreThread) (ls : Levels)
    (xs : List EgressPacket) (c' : CoreThread) : Type 0 where
  pub sent : List EgressPacket
  pub reported :
      Reported packet late (fills o.trader_id o.quantity (crossing c.engine.world.book o ls)) sent
  pub egress : Holds egress_capacity c'.egress_queue (xs ++ sent)
  pub live : c'.egress_queue.stop_flag ≡ false
  pub exec : FixedQueue.size c'.engine.world.exec_q ≡ 0
  pub trash : FixedQueue.size c'.engine.world.trash_q ≡ 0
  pub orders : c'.engine.total_orders ≡ (c.engine.total_orders + 1) % word64
  pub read : c'.current_read ≡ c.current_read + 1

abbrev pub order_of : IngressPacket → CoreThread → Order
order_of packet c =
    fill_in packet.side packet.price packet.quantity packet.trader_id c.engine.next_order_id blank

module _ (fuel limit elapsed : ℕ) (packet late : IngressPacket) (c : CoreThread)
    (xs : List EgressPacket) (h : Holds egress_capacity c.egress_queue xs)
    (live : c.egress_queue.stop_flag ≡ false) (held : List ℕ) (v : IsPool c.engine.pool held) where
  -- Let the egress queue hold the packets `xs` and not be stopped, let the slots `held` of the
  -- pool be in use and fewer than its capacity, let the book hold the orders `ls`, all in slots in
  -- use, and both of the engine's queues be empty; let the packet be a new order whose price, like
  -- the best bid, is at most the highest price, and whose quantity is a `uint32_t`; let the fuel
  -- and the engine's queues be enough for what the order reaches, and let the egress queue have
  -- room for one packet for each trade, and for one at least. Then a round that finds the packet
  -- finishes, whatever its slot holds once it is given back. The egress queue then holds `xs` and
  -- behind them, for each trade of price-time priority in order, a fill report with the packet's
  -- order id and the trade's maker, taker, price and quantity, or if there is no trade one
  -- acceptance with the packet's order id and side, and the price and quantity that the slot holds
  -- after it is given back; the engine's two queues are empty again, and the number of orders
  -- (modulo 2^64) and the read index are one more.
  pub handle-new_order :
      (ls : Levels)
      → packet.type ≡ new_order
      → length held < c.engine.pool.capacity
      → IsBook c.engine.world ls
      → IsHeld ls held
      → packet.price ≤ max_price_ticks
      → packet.quantity < word32
      → c.engine.world.book.best_bid ≤ max_price_ticks
      → FixedQueue.size c.engine.world.exec_q ≡ 0
      → FixedQueue.size c.engine.world.trash_q ≡ 0
      → reach c.engine.world.book (order_of packet c)
          + length (crossing c.engine.world.book (order_of packet c) ls)
        < fuel
      → length (crossing c.engine.world.book (order_of packet c) ls) ≤ queue_capacity
      → length xs
          + max 1 (
              length (
                fills packet.trader_id packet.quantity
                  (crossing c.engine.world.book (order_of packet c) ls)))
        ≤ egress_capacity
      → (c' : CoreThread) × (handle fuel limit elapsed packet late c ≡ finished c')
        × Handled packet late (order_of packet c) c ls xs c'
  unfolding handle clear_execution_queue FixedQueue.size FixedQueue.clear FixedQueue.to_list fill_in
  handle-new_order ls new room b resting in_range small bid no_trades clean enough space
        egress_space =
      let (e, answer, x) =
        submit_order_lem fuel packet.side packet.price packet.quantity packet.trader_id c.engine ls
          held v room b resting in_range small bid clean enough (omega (arith, no_trades, space))
          space in
      let test : (packet.type == new_order) ≡ true = ground arith in
      let trades =
        fills packet.trader_id packet.quantity
          (crossing c.engine.world.book (order_of packet c) ls) in
      let made : FixedQueue.to_list e.world.exec_q ≡ trades =
        x.exec ∙ ap (λ n. FixedQueue.collect c.engine.world.exec_q.slots 0 n ++ trades) no_trades in
      let (c', e', r) = reply_lem limit elapsed packet late c xs h live true e (
        subst (λ ts. length xs + length (reports packet late true ts) ≤ egress_capacity) (sym made)
          (omega (arith, length-reports packet late trades, egress_space))) in
      (
        c',
        ap (λ a. reply limit elapsed packet late a c) (submit_packet-new fuel packet c.engine test)
            ∙ ap (λ a. reply limit elapsed packet late a c) answer
            ∙ e',
        record {
          sent = reports packet late true trades;
          reported = reports-Reported packet late trades;
          egress =
              subst
                (λ ts. Holds egress_capacity c'.egress_queue (xs ++ reports packet late true ts))
                made r.egress;
          live = r.live;
          exec = ap (λ (d : MatchingEngine). FixedQueue.size d.world.exec_q) r.engine;
          trash = ap (λ (d : MatchingEngine). FixedQueue.size d.world.trash_q) r.engine ∙ x.trash;
          orders = ap (λ (d : MatchingEngine). d.total_orders) r.engine ∙ x.total_orders;
          read = r.read;
        },
      )

  -- Let the egress queue hold fewer packets than its capacity, `xs`, and not be stopped, and let
  -- the slots `held` of the pool be in use. If the packet is no new order, or every slot of the
  -- pool is in use, then a round that finds it finishes, whatever its slot in the ring holds once
  -- it is given back: the egress queue holds `xs` and behind them one rejection with the packet's
  -- order id and side, and the price and quantity that the slot holds after it is given back; the
  -- book and the number of orders are as before, and the read index is one more.
  pub handle-rejected :
      (packet.type ≢ new_order) ⊎ (length held ≡ c.engine.pool.capacity)
      → length xs < egress_capacity
      → (c' : CoreThread) × (handle fuel limit elapsed packet late c ≡ finished c')
        × ((p : EgressPacket) × Echoes order_rejected packet late p
            × Holds egress_capacity c'.egress_queue (xs ++ p ∷ []))
        × (c'.engine.world.book ≡ c.engine.world.book)
        × (c'.engine.total_orders ≡ c.engine.total_orders)
        × (c'.current_read ≡ c.current_read + 1)
  unfolding handle clear_execution_queue reports rejected
  handle-rejected why room = elim (Bool-cases (packet.type == new_order)) [
    | inr other ↦
        let (c', e', r) =
          reply_lem limit elapsed packet late c xs h live false c.engine (omega arith) in
        (
          c',
          ap (λ a. reply limit elapsed packet late a c)
                (submit_packet-other fuel packet c.engine other)
              ∙ e',
          (rejected packet late, (refl, refl, refl, refl, refl), r.egress),
          ap (λ (d : MatchingEngine). d.world.book) r.engine,
          ap (λ (d : MatchingEngine). d.total_orders) r.engine,
          r.read,
        )
    | inl new ↦
        let full : length held ≡ c.engine.pool.capacity = elim why [
          | inl n ↦ absurd (n (ground arith))
          | inr f ↦ f
        ] in
        let e : MatchingEngine = record c.engine {
          pool = record c.engine.pool {
            alloc_failures = (c.engine.pool.alloc_failures + 1) % word64;
          };
        } in
        let (c', e', r) = reply_lem limit elapsed packet late c xs h live false e (omega arith) in
        (
          c',
          ap (λ a. reply limit elapsed packet late a c) (submit_packet-new fuel packet c.engine new)
              ∙ ap (λ a. reply limit elapsed packet late a c)
                  (submit_order_exhausted fuel packet.side packet.price packet.quantity
                    packet.trader_id c.engine held v full)
              ∙ e',
          (rejected packet late, (refl, refl, refl, refl, refl), r.egress),
          ap (λ (d : MatchingEngine). d.world.book) r.engine,
          ap (λ (d : MatchingEngine). d.total_orders) r.engine,
          r.read,
        )
  ]
