-- ===== src/Egress.antt =====
-- src/main.cpp, the egress publisher thread, between the core thread and the gateway's `Dequeue`
-- (gateway/shm.go): what the three threads do to the egress queue and to the ring in shared memory,
-- interleaved in any order. The indexes of the ring are `int64_t`, and taken not to reach `2 ^ 63`.
pub mod Span
pub mod Invariant
pub mod Moves
pub mod Receive
pub mod Delivery
mod Tests
use sequitur.Prelude.{
  ℕ, ◌+◌, ◌-◌, ◌%◌, ◌≡◌, ◌≢◌, Bool, true, false, Option, none, some, List, [], ◌∷◌, ◌++◌, leb,
  update,
}
use sequitur.Packets.{EgressPacket}
use sequitur.Spsc.{SpscQueue}
use sequitur.Spsc
use sequitur.Core.{ring_size, egress_capacity}

-- The egress half of the shared memory.
pub record Shared : Type 0 where
  pub egress_read_idx : ℕ
  pub egress_write_idx : ℕ
  pub egress_ring_buffer : ℕ → EgressPacket

-- Where the publisher stands in its loop, with its packet and what it last read of the read index.
pub data Publisher : Type 0 where
  polling : Publisher
  holding : (packet : EgressPacket) → Publisher
  looking : (packet : EgressPacket) → (current_read : ℕ) → Publisher
  ready : (packet : EgressPacket) → Publisher
  stored : (packet : EgressPacket) → Publisher

-- Where the gateway stands in `Dequeue`.
pub data Gateway : Type 0 where
  idle : Gateway
  seen : (curr_read curr_write : ℕ) → Gateway
  copied : (curr_read : ℕ) → (packet : EgressPacket) → Gateway

-- The threads, with a record of the past: the packets that the core thread has pushed, and those
-- that `Dequeue` has returned.
pub record Pipeline : Type 0 where
  pub engine_active : Bool
  pub egress_queue : SpscQueue EgressPacket
  pub shared : Shared
  pub current_write : ℕ
  pub publisher : Publisher
  pub gateway : Gateway
  pub sent : List EgressPacket
  pub received : List EgressPacket

pub data Step (s : Pipeline) : Pipeline → Type 0 where
  -- The core thread's push succeeds.
  push :
      (packet : EgressPacket)
      → (Spsc.push egress_capacity packet s.egress_queue).0 ≡ true
      → Step s (record s {
        egress_queue = (Spsc.push egress_capacity packet s.egress_queue).1;
        sent = s.sent ++ packet ∷ [];
      })
  -- `signal_handler`
  signal : Step s (record s { engine_active = false })
  pop :
      {packet : EgressPacket}
      → s.publisher ≡ polling
      → (Spsc.pop egress_capacity s.egress_queue).0 ≡ some packet
      → Step s (record s {
        egress_queue = (Spsc.pop egress_capacity s.egress_queue).1;
        publisher = holding packet;
      })
  load :
      {packet : EgressPacket}
      → s.publisher ≡ holding packet
      → Step s (record s { publisher = looking packet s.shared.egress_read_idx })
  spin :
      {packet : EgressPacket} {r : ℕ}
      → s.publisher ≡ looking packet r
      → leb ring_size (s.current_write - r) ≡ true
      → s.engine_active ≡ true
      → Step s (record s { publisher = looking packet s.shared.egress_read_idx })
  give_up :
      {packet : EgressPacket} {r : ℕ}
      → s.publisher ≡ looking packet r
      → leb ring_size (s.current_write - r) ≡ true
      → s.engine_active ≡ false
      → Step s (record s { publisher = ready packet })
  enter :
      {packet : EgressPacket} {r : ℕ}
      → s.publisher ≡ looking packet r
      → leb ring_size (s.current_write - r) ≡ false
      → Step s (record s { publisher = ready packet })
  store :
      {packet : EgressPacket}
      → s.publisher ≡ ready packet
      → Step s (record s {
        shared = record s.shared {
          egress_ring_buffer =
              update s.shared.egress_ring_buffer (s.current_write % ring_size) packet;
        };
        publisher = stored packet;
      })
  advance :
      {packet : EgressPacket}
      → s.publisher ≡ stored packet
      → Step s (record s {
        shared = record s.shared { egress_write_idx = s.current_write + 1 };
        current_write = s.current_write + 1;
        publisher = polling;
      })
  look :
      s.gateway ≡ idle
      → Step s (record s { gateway = seen s.shared.egress_read_idx s.shared.egress_write_idx })
  none_there : {r w : ℕ} → s.gateway ≡ seen r w → r ≡ w → Step s (record s { gateway = idle })
  copy :
      {r w : ℕ}
      → s.gateway ≡ seen r w
      → r ≢ w
      → Step s (record s { gateway = copied r (s.shared.egress_ring_buffer (r % ring_size)) })
  deliver :
      {r : ℕ} {packet : EgressPacket}
      → s.gateway ≡ copied r packet
      → Step s (record s {
        shared = record s.shared { egress_read_idx = r + 1 };
        gateway = idle;
        received = s.received ++ packet ∷ [];
      })

-- Before the threads start: an empty queue, and a ring that has been read up to its end.
unfoldable pub create : (ℕ → EgressPacket) → Shared → Pipeline
create slots shared = record {
  engine_active = true;
  egress_queue = Spsc.create slots;
  shared = shared;
  current_write = shared.egress_write_idx;
  publisher = polling;
  gateway = idle;
  sent = [];
  received = [];
}

pub data Reach (start : Pipeline) : Pipeline → Type 0 where
  at_start : Reach start start
  later : {s t : Pipeline} → Reach start s → Step s t → Reach start t
