-- ===== src/Core/Session.antt =====
-- Any sequence of packets that the core thread finds, while the publisher keeps the egress queue empty.
use sequitur.Prelude.{
  ℕ, max, ◌+◌, ◌≤◌, ◌<◌, ◌≡◌, refl, Bool, true, false, List, [], ◌∷◌, ◌++◌, arith, ◌==◌, ltb,
  length, Bool-cases, inl, inr, sym, ◌∙◌, ap, subst, eq_of_test,
}
use mathlib.Core.List.{map}
use sequitur.FixedQueue
use sequitur.Market.{Trade, max_price_ticks, queue_capacity}
use sequitur.Spsc.Refine.{Holds}
use sequitur.Packets.{IngressPacket, EgressPacket, new_order}
use sequitur.Engine.{MatchingEngine, answered, clear_execution_queue}
use sequitur.Engine.Idle.{Request, IsRequest, IsIdle, submit_order-bounded, clear-IsIdle}
use sequitur.Book.Resting.{resting}
use sequitur.Core.{
  CoreThread, finished, egress_capacity, reports, rejected, accepted, fill, reply, handle,
}
use sequitur.Core.Send.{reply_lem}
use sequitur.Core.Reports.{length-reports}
use sequitur.Core.Handle.{submit_packet-new, submit_packet-other}

-- The order that a packet asks for.
abbrev pub request : IngressPacket → Request
request packet = record {
  side = packet.side;
  price = packet.price;
  quantity = packet.quantity;
  trader_id = packet.trader_id;
}

-- The core thread between two rounds, with a pool of `cap` slots.
pub record IsReady (cap : ℕ) (c : CoreThread) (xs : List EgressPacket) : Type 0 where
  pub engine : IsIdle cap c.engine
  pub egress : Holds egress_capacity c.egress_queue xs
  pub live : c.egress_queue.stop_flag ≡ false

-- What a packet gets where at most `n` orders rest: at least one report, all with its order id, and
-- at most one for each resting order, or one.
abbrev pub AllBear : ℕ → List EgressPacket → Type 0
AllBear id [] = Unit {0}
AllBear id (p ∷ ps) = (p.client_order_id ≡ id) × AllBear id ps

abbrev pub Answers : ℕ → IngressPacket → List EgressPacket → Type 0
Answers n packet ps = (0 < length ps) × (length ps ≤ max 1 n) × AllBear packet.client_order_id ps

map-AllBear :
    (packet : IngressPacket) (ts : List Trade)
    → AllBear packet.client_order_id (map (fill packet) ts)
unfolding fill
map-AllBear packet [] = tt
map-AllBear packet (t ∷ ts) = (refl, map-AllBear packet ts)

reports-AllBear :
    (packet late : IngressPacket) (b : Bool) (ts : List Trade)
    → AllBear packet.client_order_id (reports packet late b ts)
unfolding reports rejected accepted
reports-AllBear packet late false ts = (refl, tt)
reports-AllBear packet late true [] = (refl, tt)
reports-AllBear packet late true (t ∷ ts) = map-AllBear packet (t ∷ ts)

reports-Answers :
    (n : ℕ) (packet late : IngressPacket) (b : Bool) (ts : List Trade)
    → length ts ≤ n
    → Answers n packet (reports packet late b ts)
unfolding reports rejected
reports-Answers n packet late false ts few = (omega arith, omega arith, (refl, tt))
reports-Answers n packet late true ts few = (
  omega (arith, length-reports packet late ts),
  omega (arith, length-reports packet late ts),
  reports-AllBear packet late true ts,
)

-- A round from `c` to `c'` that answers the packet, where at most `n` orders rest before it.
pub record Served (cap n : ℕ) (packet : IngressPacket) (xs : List EgressPacket) (c' : CoreThread)
    : Type 0 where
  pub sent : List EgressPacket
  pub answers : Answers n packet sent
  pub ready : IsReady cap c' (xs ++ sent)
  pub few : length (resting ready.engine.levels) ≤ n + 1

module _ (fuel n limit : ℕ) (enough : max_price_ticks + 1 + n < fuel) (fits : n ≤ queue_capacity)
    {cap : ℕ} (elapsed : ℕ) (packet late : IngressPacket) (c : CoreThread) (xs : List EgressPacket)
    (v : IsReady cap c xs) (room : length xs + max 1 n ≤ egress_capacity) where
  reply-Served :
      (b : Bool) (e : MatchingEngine) (idle : IsIdle cap (clear_execution_queue e))
      → length (resting idle.levels) ≤ n + 1
      → length (FixedQueue.to_list e.world.exec_q) ≤ n
      → (c' : CoreThread) × (reply limit elapsed packet late (answered b e) c ≡ finished c')
        × Served cap n packet xs c'
  reply-Served b e idle few trades =
      let ts = FixedQueue.to_list e.world.exec_q in
      let a = reports-Answers n packet late b ts trades in
      let (c', done, r) =
        reply_lem limit elapsed packet late c xs v.egress v.live b e (omega (arith, a.1)) in
      let (idle', few') =
        subst (λ (d : MatchingEngine). (i : IsIdle cap d) × (length (resting i.levels) ≤ n + 1))
          (sym r.engine) (idle, few) in
      (
        c',
        done,
        record {
          sent = reports packet late b ts;
          answers = a;
          ready = record { engine = idle'; egress = r.egress; live = r.live };
          few = few';
        },
      )

  pub handle-Served :
      (packet.type ≡ new_order → IsRequest (request packet))
      → length (resting v.engine.levels) ≤ n
      → (c' : CoreThread) × (handle fuel limit elapsed packet late c ≡ finished c')
        × Served cap n packet xs c'
  unfolding handle
  handle-Served q few = elim (Bool-cases (packet.type == new_order)) [
    | inr other ↦
        let (idle, same) =
          clear-IsIdle c.engine v.engine.levels v.engine.engine v.engine.uncrossed
            v.engine.capacity in
        let none_traded = FixedQueue.length-to_list c.engine.world.exec_q ∙ v.engine.exec in
        let (c', done, s) =
          reply-Served false c.engine idle (omega (arith, ap (λ l. length (resting l)) same))
            (omega (arith, none_traded)) in
        (
          c',
          ap (λ a. reply limit elapsed packet late a c)
                (submit_packet-other fuel packet c.engine other)
              ∙ done,
          s,
        )
    | inl new ↦
        let (e, idle, answer, trades, more) =
          submit_order-bounded fuel n enough fits c.engine (request packet) v.engine few
            (q (eq_of_test packet.type new_order new)) in
        let (c', done, s) =
          reply-Served (ltb (length (resting v.engine.levels)) cap) e idle (omega arith)
            (omega arith) in
        (
          c',
          ap (λ a. reply limit elapsed packet late a c)
                (submit_packet-new fuel packet c.engine new ∙ answer)
              ∙ done,
          s,
        )
  ]
