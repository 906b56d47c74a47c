-- ===== src/Ingress.antt =====
-- The ingress ring in shared memory: `Enqueue` of the gateway (gateway/shm.go), and the work of the core
-- thread of src/main.cpp on a packet, from its slot to its reports, interleaved in any order. The core
-- thread holds a reference to the slot, and reads it again for a report after it has given it back,
-- the price and the quantity in two steps. Before that it reads several fields in one step. The
-- indexes are `int64_t`, and taken not to reach `2 ^ 63`.
pub mod Invariant
pub mod Send
pub mod Delivery
pub mod Stale
mod Tests
use sequitur.Prelude.{
  ℕ, Bool, ◌==◌, if◌then◌else◌, ◌+◌, ◌-◌, ◌%◌, ◌≡◌, ◌≢◌, List, [], ◌∷◌, ◌++◌, update,
}
use sequitur.FixedQueue
use sequitur.Packets.{IngressPacket, EgressPacket, new_order}
use sequitur.Engine.{MatchingEngine, answered, clear_execution_queue, get_execution_queue}
use sequitur.Core.{ring_size, submit_packet, reports}

-- The ingress half of the shared memory.
pub record Shared : Type 0 where
  pub ingress_read_idx : ℕ
  pub ingress_write_idx : ℕ
  pub ingress_ring_buffer : ℕ → IngressPacket

-- Where the gateway stands in `Enqueue`, with its locals.
pub data Gateway : Type 0 where
  idle : Gateway
  called : (packet : IngressPacket) → Gateway
  read_loaded : (packet : IngressPacket) → (curr_read : ℕ) → Gateway
  loaded : (packet : IngressPacket) → (curr_read curr_write : ℕ) → Gateway
  roomy : (packet : IngressPacket) → (curr_write : ℕ) → Gateway
  stored : (packet : IngressPacket) → (curr_write : ℕ) → Gateway

-- Where the core thread stands with a packet. `named` is the slot when its side, instrument, trader
-- and order id are copied, `seen` the slot when its type, side, price and quantity are read to submit
-- it, `accepted` whether the engine took an order; `slot` is where the reference points. `priced` has
-- read the price for a report; where the reports are fills, which name neither the packet's price nor
-- its quantity, what it has read is not used.
pub data Handler : Type 0 where
  polling : Handler
  found : (slot : ℕ) → Handler
  copied : (slot : ℕ) → (named : IngressPacket) → Handler
  answering : (slot : ℕ) → (named seen : IngressPacket) → (accepted : Bool) → Handler
  released : (slot : ℕ) → (named seen : IngressPacket) → (accepted : Bool) → Handler
  priced : (slot : ℕ) → (named seen : IngressPacket) → (accepted : Bool) → (price : ℕ) → Handler

-- A packet whose reports are sent.
pub record Handled : Type 0 where
  pub named : IngressPacket
  pub seen : IngressPacket

-- The order that a packet is, if it is one.
abbrev pub order_in : IngressPacket → List IngressPacket
order_in packet = if packet.type == new_order then packet ∷ [] else []

-- The two threads and the engine, with a record of the past: the packets that `Enqueue` has taken,
-- those whose slot the core thread has given back, the orders for which it has called
-- `submit_order`, the packets whose reports are sent, and the reports. The egress queue, on which a
-- push waits for room, is left out: a report counts as sent as it is pushed.
pub record Pipeline : Type 0 where
  pub shared : Shared
  pub current_read : ℕ
  pub gateway : Gateway
  pub handler : Handler
  pub engine : MatchingEngine
  pub enqueued : List IngressPacket
  pub given_back : List IngressPacket
  pub submitted : List IngressPacket
  pub handled : List Handled
  pub sent : List EgressPacket

module _ (fuel : ℕ) where
  pub data Step (s : Pipeline) : Pipeline → Type 0 where
    call :
        (packet : IngressPacket) → s.gateway ≡ idle → Step s (record s { gateway = called packet })
    load_read :
        {packet : IngressPacket}
        → s.gateway ≡ called packet
        → Step s (record s { gateway = read_loaded packet s.shared.ingress_read_idx })
    load_write :
        {packet : IngressPacket} {r : ℕ}
        → s.gateway ≡ read_loaded packet r
        → Step s (record s { gateway = loaded packet r s.shared.ingress_write_idx })
    full :
        {packet : IngressPacket} {r w : ℕ}
        → s.gateway ≡ loaded packet r w
        → w - r ≡ ring_size
        → Step s (record s { gateway = idle })
    pass :
        {packet : IngressPacket} {r w : ℕ}
        → s.gateway ≡ loaded packet r w
        → w - r ≢ ring_size
        → Step s (record s { gateway = roomy packet w })
    store :
        {packet : IngressPacket} {w : ℕ}
        → s.gateway ≡ roomy packet w
        → Step s (record s {
          shared = record s.shared {
            ingress_ring_buffer = update s.shared.ingress_ring_buffer (w % ring_size) packet;
          };
          gateway = stored packet w;
        })
    publish :
        {packet : IngressPacket} {w : ℕ}
        → s.gateway ≡ stored packet w
        → Step s (record s {
          shared = record s.shared { ingress_write_idx = w + 1 };
          gateway = idle;
          enqueued = s.enqueued ++ packet ∷ [];
        })
    find :
        s.handler ≡ polling
        → s.current_read ≢ s.shared.ingress_write_idx
        → Step s (record s { handler = found (s.current_read % ring_size) })
    copy :
        {k : ℕ}
        → s.handler ≡ found k
        → Step s (record s { handler = copied k (s.shared.ingress_ring_buffer k) })
    -- The call returns; a call that is undefined has no step.
    submit :
        {k : ℕ} {x : IngressPacket} {accepted : Bool} {e : MatchingEngine}
        → s.handler ≡ copied k x
        → submit_packet fuel
            (record (s.shared.ingress_ring_buffer k) { trader_id = x.trader_id })
            s.engine
          ≡ answered accepted e
        → Step s (record s {
          handler = answering k x (s.shared.ingress_ring_buffer k) accepted;
          engine = e;
          submitted = s.submitted ++ order_in (s.shared.ingress_ring_buffer k);
        })
    release :
        {k : ℕ} {x y : IngressPacket} {accepted : Bool}
        → s.handler ≡ answering k x y accepted
        → Step s (record s {
          shared = record s.shared { ingress_read_idx = s.current_read + 1 };
          current_read = s.current_read + 1;
          handler = released k x y accepted;
          given_back = s.given_back ++ y ∷ [];
        })
    read_price :
        {k : ℕ} {x y : IngressPacket} {accepted : Bool}
        → s.handler ≡ released k x y accepted
        → Step s
            (record s { handler = priced k x y accepted (s.shared.ingress_ring_buffer k).price })
    -- The quantity is read, the reports are sent, and the execution queue is cleared.
    report :
        {k : ℕ} {x y : IngressPacket} {accepted : Bool} {price : ℕ}
        → s.handler ≡ priced k x y accepted price
        → Step s (record s {
          handler = polling;
          engine = clear_execution_queue s.engine;
          handled = s.handled ++ record { named = x; seen = y } ∷ [];
          sent =
              s.sent
              ++ reports x
                  (record (s.shared.ingress_ring_buffer k) { price = price })
                  accepted
                  (FixedQueue.to_list (get_execution_queue s.engine));
        })

-- Before the threads start.
unfoldable pub create : MatchingEngine → Shared → Pipeline
create engine shared = record {
  shared = shared;
  current_read = shared.ingress_read_idx;
  gateway = idle;
  handler = polling;
  engine = engine;
  enqueued = [];
  given_back = [];
  submitted = [];
  handled = [];
  sent = [];
}

pub data Reach (fuel : ℕ) (engine : MatchingEngine) (shared : Shared) : Pipeline → Type 0 where
  start : Reach fuel engine shared (create engine shared)
  later : {s t : Pipeline} → Reach fuel engine shared s → Step fuel s t → Reach fuel engine shared t
