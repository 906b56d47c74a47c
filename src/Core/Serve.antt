-- ===== src/Core/Serve.antt =====
-- The core thread and a publisher that empties the egress queue after each round.
use sequitur.Prelude.{
  ℕ, zero, suc, ◌+◌, ◌≤◌, ◌<◌, ◌≡◌, refl, false, Option, none, some, List, [], ◌∷◌, arith, length,
  ◌∙◌, ap,
}
use sequitur.Ring.{pow-IsCapacity}
use sequitur.Market.{max_price_ticks}
use sequitur.Spsc.{SpscQueue}
use sequitur.Spsc
use sequitur.Spsc.Refine.{Holds, pop_refines, pop_spec}
use sequitur.Packets.{IngressPacket, EgressPacket, new_order}
use sequitur.Book.Resting.{resting}
use sequitur.Engine.Idle.{IsRequest}
use sequitur.Core.{CoreThread, finished, stalled, undefined, unfinished, egress_capacity, handle}
use sequitur.Core.Session.{request, IsReady, Answers, handle-Served}

-- What the publisher pops until the queue is empty.
unfoldable pub take_all : ℕ → SpscQueue EgressPacket → List EgressPacket × SpscQueue EgressPacket
take_all zero q = ([], q)
take_all (suc n) q =
    let (item, q') = Spsc.pop egress_capacity q in
    elim item [ none ↦ ([], q') | some p ↦ let (ps, q'') = take_all n q' in (p ∷ ps, q'') ]

pub take_all_lem :
    (n : ℕ) (q : SpscQueue EgressPacket) (xs : List EgressPacket)
    → Holds egress_capacity q xs
    → q.stop_flag ≡ false
    → length xs ≤ n
    → ((take_all n q).0 ≡ xs)
      × Holds egress_capacity (take_all n q).1 []
      × ((take_all n q).1.stop_flag ≡ false)
unfolding take_all pop_spec
take_all_lem zero q [] h live le = (refl, h, live)
take_all_lem zero q (x ∷ xs) h live le = absurd (omega arith)
take_all_lem (suc n) q [] h live le =
    let (e, h', flag) = pop_refines (pow-IsCapacity 13 (omega arith)) q [] h in
    rw (take_all, e) (refl, h', flag ∙ live)
take_all_lem (suc n) q (x ∷ xs) h live le =
    let (e, h', flag) = pop_refines (pow-IsCapacity 13 (omega arith)) q (x ∷ xs) h in
    let (f, h'', live') =
      take_all_lem n (Spsc.pop egress_capacity q).1 xs h' (flag ∙ live) (omega arith) in
    rw (take_all, e) (ap (λ ys. x ∷ ys) f, h'', live')

-- A packet that the thread finds, with the cycles that its round takes and what the packet's slot
-- holds when it is read for the report.
pub record Found : Type 0 where
  pub elapsed : ℕ
  pub packet : IngressPacket
  pub late : IngressPacket

-- The packets that the thread finds, and for each what the publisher then pops. `none` is a round
-- that does not finish.
unfoldable pub serve :
    (fuel limit : ℕ) → List Found → CoreThread → Option (List (List EgressPacket) × CoreThread)
serve fuel limit [] c = some ([], c)
serve fuel limit (f ∷ found) c = elim (handle fuel limit f.elapsed f.packet f.late c) [
  | finished c' ↦
      let (out, q) = take_all egress_capacity c'.egress_queue in
      elim (serve fuel limit found (record c' { egress_queue = q })) [
        | none ↦ none
        | some (outs, d) ↦ some (out ∷ outs, d)
      ]
  | stalled ↦ none
  | undefined ↦ none
  | unfinished ↦ none
]

-- What the source does not check of a packet.
abbrev pub AllValid : List Found → Type 0
AllValid [] = Unit {0}
AllValid (f ∷ found) = (f.packet.type ≡ new_order → IsRequest (request f.packet)) × AllValid found

-- Each packet is answered, in order, where at most `n` orders rest before the first.
abbrev pub Answered : (n : ℕ) → List Found → List (List EgressPacket) → Type 0
Answered n [] [] = Unit {0}
Answered n [] (out ∷ outs) = ⊥
Answered n (f ∷ found) [] = ⊥
Answered n (f ∷ found) (out ∷ outs) = Answers n f.packet out × Answered (n + 1) found outs

module _ (fuel limit : ℕ) (enough : max_price_ticks + 1 + egress_capacity < fuel) {cap : ℕ} where
  serve_from :
      (n : ℕ) (found : List Found) (c : CoreThread)
      → (v : IsReady cap c []) → length (resting v.engine.levels) ≤ n
      → n + length found ≤ egress_capacity
      → AllValid found
      → (outs : List (List EgressPacket)) × (d : CoreThread) × (serve fuel limit found c
          ≡ some (outs, d))
        × Answered n found outs
        × IsReady cap d []
  unfolding serve
  serve_from n [] c v few room q = ([], c, refl, tt, v)
  serve_from n (f ∷ found) c v few room (q, qs) =
      let (c', done, s) =
        handle-Served fuel n limit (omega arith) (omega arith) f.elapsed f.packet f.late c [] v
          (omega arith) q few in
      let (took, empty, live) =
        take_all_lem egress_capacity c'.egress_queue s.sent s.ready.egress s.ready.live
          (omega (arith, s.answers.1)) in
      let next : CoreThread = record c' {
        egress_queue = (take_all egress_capacity c'.egress_queue).1;
      } in
      let v' : IsReady cap next [] = record {
        engine = s.ready.engine;
        egress = empty;
        live = live;
      } in
      let (outs, d, rest, answers, ready) =
        serve_from (n + 1) found next v' s.few (omega arith) qs in
      (
        s.sent ∷ outs,
        d,
        rw (serve, done, rest) (ap (λ out. some (out ∷ outs, d)) took),
        (s.answers, answers),
        ready,
      )

  -- Let the core thread, with a pool of any capacity, stand between two rounds: the slots of the
  -- pool in use are exactly those of the resting orders, the best bid is below the best ask with
  -- no order between them, and the execution, the trash and the egress queue are empty, the egress
  -- queue not stopped. Let the resting orders and the packets to come be at most 8192 together,
  -- the capacity of the egress queue, and let the fuel exceed it and the number of prices
  -- together. Let each packet that is a new order be a buy or a sell (side 0 or 1) at a price
  -- strictly between 0 and the highest price with a `uint32_t` quantity; other packets, and what a
  -- slot holds once it is given back, are arbitrary. Then the packets are served, with the egress
  -- queue emptied after each round: no round faults, stalls or runs out of fuel; for each packet,
  -- in order, the publisher gets at least one report, and at most as many as orders rested at
  -- first and packets came before it, or one, all with the packet's order id; and the thread again
  -- stands between two rounds.
  pub serve_lem :
      (found : List Found) (c : CoreThread) (v : IsReady cap c [])
      → length (resting v.engine.levels) + length found ≤ egress_capacity
      → AllValid found
      → (outs : List (List EgressPacket)) × (d : CoreThread) × (serve fuel limit found c
          ≡ some (outs, d))
        × Answered (length (resting v.engine.levels)) found outs
        × IsReady cap d []
  serve_lem found c v room q =
      serve_from (length (resting v.engine.levels)) found c v (omega arith) room q
