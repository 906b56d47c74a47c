-- ===== src/Core/Tests.antt =====
-- The theorems on the core thread at the engines of `Engine.Sample`.
use sequitur.Prelude.{false, ap, length, ℕ, ◌≡◌, refl, List, [], ◌∷◌, arith, inl, inr, none, some}
use sequitur.Engine
use sequitur.Book.Resting.{resting}
use sequitur.Engine.Idle.{IsRequest, create-IsIdle}
use sequitur.Book.Sample.{blank_trade}
use sequitur.Core.Session.{request, IsReady}
use sequitur.Core.Serve.{Found, serve, Answered, serve_lem}
use sequitur.FixedQueue
use sequitur.Ring.{pow-IsCapacity}
use sequitur.Spsc
use sequitur.Spsc.Refine.{Holds, create-Holds}
use sequitur.Packets.{IngressPacket, EgressPacket, MetricsPacket, order_rejected}
use sequitur.Book.Sample.{one_ask}
use sequitur.Book.Buy.{asks}
use sequitur.Book.Fill.{fills}
use sequitur.Book.Cross.{reach, crossing}
use sequitur.Engine.{fill_in}
use sequitur.Engine.Sample.{engine, full-IsPool, roomy-IsPool, engine-IsBook, one_ask-IsHeld}
use sequitur.Core.{CoreThread, finished, egress_capacity, handle, reports}
use sequitur.Core.Reports.{Echoes}
use sequitur.Core.Handle.{Handled, order_of, handle-new_order, handle-rejected}

abbrev blank_report : EgressPacket
blank_report = record {
  type = 0;
  side = 0;
  instrument_id = 0;
  client_order_id = 0;
  maker_id = 0;
  taker_id = 0;
  match_price = 0;
  match_quantity = 0;
  leaves_quantity = 0;
}

abbrev blank_metrics : MetricsPacket
blank_metrics = record {
  type = 0;
  latency_cycles = 0;
  total_orders = 0;
  total_trades = 0;
  pool_used = 0;
  pool_failures = 0;
  pool_peak = 0;
  pool_capacity = 0;
}

abbrev thread : ℕ → CoreThread
thread spare = record {
  engine = engine spare;
  egress_queue = Spsc.create (λ _. blank_report);
  metrics_queue = Spsc.create (λ _. blank_metrics);
  current_read = 1;
  iteration_counter = 63;
  rolling_cycles_sum = 6400;
}

-- A buy of 2 at price 5.
abbrev buy : IngressPacket
buy = record {
  type = 1;
  side = 0;
  instrument_id = 1;
  trader_id = 9;
  quantity = 2;
  price = 5;
  client_order_id = 77;
}

abbrev unknown : IngressPacket
unknown = record buy { type = 7; price = 2000000 }

new_queue-live : (Spsc.create (λ _. blank_report)).stop_flag ≡ false
unfolding Spsc.create
new_queue-live = refl

-- What the slot holds once the gateway has used it again.
abbrev overwritten : IngressPacket
overwritten = record buy { price = 8; quantity = 3; client_order_id = 78 }

empty-Holds : Holds egress_capacity (Spsc.create (λ _. blank_report)) []
empty-Holds = create-Holds (pow-IsCapacity 13 (omega arith)) (λ _. blank_report)

handle-new_order_example :
    (c' : CoreThread) × (handle 3 2 100 buy overwritten (thread 1) ≡ finished c')
    × Handled buy overwritten (order_of buy (thread 1)) (thread 1) one_ask [] c'
unfolding reach crossing asks FixedQueue.size FixedQueue.create fill_in fills reports Spsc.create
handle-new_order_example =
    handle-new_order 3 2 100 buy overwritten (thread 1) [] empty-Holds refl (0 ∷ []) roomy-IsPool
      one_ask refl (omega arith) engine-IsBook one_ask-IsHeld (omega arith) (omega arith)
      (omega arith) refl refl (omega arith) (omega arith) (omega arith)

handle-rejected_example :
    (c' : CoreThread) × (handle 3 2 100 buy overwritten (thread 0) ≡ finished c')
    × ((p : EgressPacket) × Echoes order_rejected buy overwritten p
        × Holds egress_capacity c'.egress_queue (p ∷ []))
    × (c'.engine.world.book ≡ (engine 0).world.book)
    × (c'.engine.total_orders ≡ 1)
    × (c'.current_read ≡ 2)
unfolding Spsc.create
handle-rejected_example =
    handle-rejected 3 2 100 buy overwritten (thread 0) [] empty-Holds refl (0 ∷ []) full-IsPool
      (inr refl) (omega arith)

-- The program's core thread, with a pool of 1000000 orders, before its first round, and three packets:
-- a buy, a packet of no known type whose price is beyond the book, and the buy again. The gateway
-- writes another packet over the first one before it is reported.
abbrev new_thread : CoreThread
new_thread = record {
  engine = Engine.create (λ _. blank_trade) (λ _. none) 1000000;
  egress_queue = Spsc.create (λ _. blank_report);
  metrics_queue = Spsc.create (λ _. blank_metrics);
  current_read = 0;
  iteration_counter = 0;
  rolling_cycles_sum = 0;
}

abbrev new_thread-IsReady : IsReady 1000000 new_thread []
new_thread-IsReady = record {
  engine = (create-IsIdle (λ _. blank_trade) (λ _. none) 1000000 (omega arith)).0;
  egress = empty-Holds;
  live = new_queue-live;
}

no_orders : resting new_thread-IsReady.engine.levels ≡ []
no_orders = (create-IsIdle (λ _. blank_trade) (λ _. none) 1000000 (omega arith)).1

abbrev found : List Found
found =
    record { elapsed = 100; packet = buy; late = overwritten }
    ∷ record { elapsed = 90; packet = unknown; late = unknown }
    ∷ record { elapsed = 110; packet = buy; late = buy }
    ∷ []

buy-IsRequest : IsRequest (request buy)
buy-IsRequest = record {
  side = inl refl;
  low = omega arith;
  high = omega arith;
  small = omega arith;
}

serve_lem_example :
    (outs : List (List EgressPacket)) × (d : CoreThread) × (serve 1010000 950000 found new_thread
      ≡ some (outs, d))
    × Answered (length (resting new_thread-IsReady.engine.levels)) found outs
    × IsReady 1000000 d []
serve_lem_example =
    serve_lem 1010000 950000 (omega arith) found new_thread new_thread-IsReady
      (omega (arith, ap length no_orders))
      ((λ e. buy-IsRequest), ((λ e. absurd (omega (arith, e))), ((λ e. buy-IsRequest), tt)))
