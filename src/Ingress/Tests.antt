-- ===== src/Ingress/Tests.antt =====
-- Two packets go through the ingress ring, whose indexes stand at 65535.
use sequitur.Prelude.{inr, none, ◌≡◌, refl, [], ◌∷◌, arith}
use sequitur.Packets.{IngressPacket, EgressPacket, new_order, order_accepted}
use sequitur.Book.Sample.{blank_trade}
use sequitur.Engine
use sequitur.Engine.{MatchingEngine}
use sequitur.Engine.Idle.{IsRequest, create-IsIdle}
use sequitur.Core.Reports.{Echoes}
use sequitur.Core.Session.{request}
use sequitur.Ingress.{
  Shared, Pipeline, call, load_read, load_write, pass, store, publish, find, copy, submit, release,
  create, Reach, start, later,
}
use sequitur.Ingress.Stale.{accepted_alone, stale_report}

abbrev buy : IngressPacket
buy = record {
  type = new_order;
  side = 0;
  instrument_id = 1;
  trader_id = 2;
  quantity = 10;
  price = 100;
  client_order_id = 7;
}

abbrev sell : IngressPacket
sell = record buy { side = 1; price = 200; quantity = 3; client_order_id = 8 }

abbrev memory : Shared
memory = record {
  ingress_read_idx = 65535;
  ingress_write_idx = 65535;
  ingress_ring_buffer = λ _. buy;
}

-- A new engine.
abbrev engine : MatchingEngine
engine = Engine.create (λ _. blank_trade) (λ _. none) 1000000

sell-IsRequest : IsRequest (request sell)
sell-IsRequest = record {
  side = inr refl;
  low = omega arith;
  high = omega arith;
  small = omega arith;
}

record Reached : Type 0 where
  pub state : Pipeline
  pub reached : Reach 1000100 engine memory state

-- The second packet is put in while the first one is handled.
handling : Reached
unfolding create
handling =
    let (between, none_rest) = create-IsIdle (λ _. blank_trade) (λ _. none) 1000000 (omega arith) in
    let (e, answer, no_trades) =
      accepted_alone 1000100 engine sell (omega arith) (omega arith) between none_rest refl
        sell-IsRequest in
    let a0 = later start (call sell refl) in
    let a1 = later a0 (load_read refl) in
    let a2 = later a1 (load_write refl) in
    let a3 = later a2 (pass refl (λ h. omega (arith, h))) in
    let a4 = later a3 (store refl) in
    let a5 = later a4 (publish refl) in
    let b0 = later a5 (find refl (λ h. omega (arith, h))) in
    let b1 = later b0 (copy refl) in
    let c0 = later b1 (call buy refl) in
    let c1 = later c0 (load_read refl) in
    let b2 = later c1 (submit refl answer) in
    record { state = _; reached = later b2 (release refl) }

handling-lists : (handling.state.enqueued ≡ sell ∷ []) × (handling.state.submitted ≡ sell ∷ [])
unfolding handling create
handling-lists = (refl, refl)

stale_report_example :
    (s : Pipeline) × (r : EgressPacket) × Reach 1000100 engine memory s
    × (s.submitted ≡ sell ∷ [])
    × (s.sent ≡ r ∷ [])
    × Echoes order_accepted sell buy r
stale_report_example =
    stale_report 1000100 (omega arith) (λ _. blank_trade) (λ _. none) 1000000 (omega arith)
      (omega arith) memory sell buy refl sell-IsRequest refl
