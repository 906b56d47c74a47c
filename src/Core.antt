-- ===== src/Core.antt =====
-- The core thread of src/main.cpp, one round at a time. A push on a full egress queue waits for the
-- publisher thread: a round that has to is `stalled`.
pub mod Send
pub mod Reports
pub mod Handle
pub mod Session
pub mod Serve
mod Tests
use mathlib.Core.List.{map}
use sequitur.Prelude.{
  ℕ, ◌+◌, ◌/◌, ◌%◌, Bool, true, false, Option, none, some, List, [], ◌∷◌, ◌||◌, ltb, leb, ◌==◌,
  if◌then◌else◌, word64,
}
use sequitur.FixedQueue
use sequitur.Market.{Trade}
use sequitur.Packets.{
  IngressPacket, EgressPacket, MetricsPacket, new_order, order_accepted, order_rejected,
  order_filled, order_processed, backpressure_detected,
}
use sequitur.Spsc.{SpscQueue, push}
use sequitur.Engine.{
  MatchingEngine, Answer, answered, faulted, starved, submit_order, clear_execution_queue,
  get_execution_queue, get_total_orders, get_total_trades, get_pool_used, get_pool_failures,
  get_pool_peak, get_pool_capacity,
}

-- The locals of the thread, and the two queues that it writes.
pub record CoreThread : Type 0 where
  pub engine : MatchingEngine
  pub egress_queue : SpscQueue EgressPacket
  pub metrics_queue : SpscQueue MetricsPacket
  pub current_read : ℕ
  pub iteration_counter : ℕ
  pub rolling_cycles_sum : ℕ

pub data Round : Type 0 where
  finished : CoreThread → Round
  stalled : Round
  undefined : Round
  unfinished : Round

abbrev pub egress_capacity : ℕ
egress_capacity = 8192

abbrev pub metrics_capacity : ℕ
metrics_capacity = 4096

abbrev pub batch_window : ℕ
batch_window = 64

abbrev pub ring_size : ℕ
ring_size = 65536

-- `packet` is a reference to a slot of the ingress ring. In what follows the argument `packet` is what
-- the slot holds until the read index is stored, and `late` what it holds when its price and quantity
-- are read for a report, after that store: the gateway may have written there in between.

-- `reject_packet`
unfoldable pub rejected : (packet late : IngressPacket) → EgressPacket
rejected packet late = record {
  type = order_rejected;
  side = packet.side;
  instrument_id = packet.instrument_id;
  client_order_id = packet.client_order_id;
  maker_id = 0;
  taker_id = 0;
  match_price = late.price;
  match_quantity = late.quantity;
  leaves_quantity = 0;
}

-- `report_packet`
unfoldable pub accepted : (packet late : IngressPacket) → EgressPacket
accepted packet late = record {
  type = order_accepted;
  side = packet.side;
  instrument_id = packet.instrument_id;
  client_order_id = packet.client_order_id;
  maker_id = packet.trader_id;
  taker_id = 0;
  match_price = late.price;
  match_quantity = late.quantity;
  leaves_quantity = 0;
}

-- `fill_packet`
unfoldable pub fill : IngressPacket → Trade → EgressPacket
fill packet trade = record {
  type = order_filled;
  side = packet.side;
  instrument_id = packet.instrument_id;
  client_order_id = packet.client_order_id;
  maker_id = trade.maker_id;
  taker_id = trade.taker_id;
  match_price = trade.price;
  match_quantity = trade.quantity;
  leaves_quantity = 0;
}

-- The packets that a round sends. The trades are those of the execution queue.
unfoldable pub reports : (packet late : IngressPacket) → Bool → List Trade → List EgressPacket
unfolding rejected accepted fill
reports packet late false trades = rejected packet late ∷ []
reports packet late true [] = accepted packet late ∷ []
reports packet late true (trade ∷ trades) = map (fill packet) (trade ∷ trades)

-- The pushes of these packets, `none` where one has to wait.
unfoldable pub send_all :
    List EgressPacket → SpscQueue EgressPacket → Option (SpscQueue EgressPacket)
send_all [] q = some q
send_all (packet ∷ packets) q =
    let (sent, q') = push egress_capacity packet q in
    let rest = send_all packets q' in if sent then rest else none

-- `m_packet`. `limit` is what the source computes in floating point, 0.95 of the pool's capacity.
unfoldable pub measure : (limit : ℕ) → CoreThread → MetricsPacket
measure limit c = record {
  type =
      if ltb 0 (get_pool_failures c.engine) || leb limit (get_pool_used c.engine)
      then backpressure_detected
      else order_processed;
  latency_cycles = c.rolling_cycles_sum / batch_window;
  total_orders = get_total_orders c.engine;
  total_trades = get_total_trades c.engine;
  pool_used = get_pool_used c.engine;
  pool_failures = get_pool_failures c.engine;
  pool_peak = get_pool_peak c.engine;
  pool_capacity = get_pool_capacity c.engine;
}

-- The end of a round: every `batch_window` rounds a packet of metrics is sent, or lost if there is no
-- room for it.
unfoldable pub count_round : (limit elapsed_cycles : ℕ) → CoreThread → CoreThread
unfolding measure
count_round limit elapsed_cycles c =
    let c' : CoreThread = record c {
      rolling_cycles_sum = (c.rolling_cycles_sum + elapsed_cycles) % word64;
      iteration_counter = (c.iteration_counter + 1) % word64;
    } in
    if leb batch_window c'.iteration_counter
    then record c' {
      metrics_queue = (push metrics_capacity (measure limit c') c'.metrics_queue).1;
      iteration_counter = 0;
      rolling_cycles_sum = 0;
    }
    else c'

unfoldable pub submit_packet : ℕ → IngressPacket → MatchingEngine → Answer
submit_packet fuel packet e =
    if packet.type == new_order
    then submit_order fuel packet.side packet.price packet.quantity packet.trader_id e
    else answered false e

-- What a round does once the packet has been submitted.
unfoldable pub reply :
    (limit elapsed_cycles : ℕ) → (packet late : IngressPacket) → Answer → CoreThread → Round
unfolding reports send_all count_round
reply limit elapsed_cycles packet late (answered was_accepted e) c =
    elim (send_all (reports packet late was_accepted (FixedQueue.to_list (get_execution_queue e)))
      c.egress_queue) [
        | none ↦ stalled
        | some q ↦ finished (
            count_round limit elapsed_cycles (record c {
              engine = clear_execution_queue e;
              egress_queue = q;
              current_read = c.current_read + 1;
            }))
      ]
reply limit elapsed_cycles packet late faulted c = undefined
reply limit elapsed_cycles packet late starved c = unfinished

unfoldable pub handle :
    ℕ → (limit elapsed_cycles : ℕ) → (packet late : IngressPacket) → CoreThread → Round
unfolding submit_packet reply
handle fuel limit elapsed_cycles packet late c =
    reply limit elapsed_cycles packet late (submit_packet fuel packet c.engine) c

-- A round of the thread's loop: `current_write` is what the gateway has published.
unfoldable pub round :
    ℕ
    → (limit elapsed_cycles : ℕ) → (ℕ → IngressPacket)
    → (late : IngressPacket) → (current_write : ℕ) → CoreThread
    → Round
unfolding handle
round fuel limit elapsed_cycles ingress_ring_buffer late current_write c =
    if c.current_read == current_write
    then finished c
    else handle fuel limit elapsed_cycles (ingress_ring_buffer (c.current_read % ring_size)) late c
