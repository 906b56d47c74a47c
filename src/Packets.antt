-- ===== src/Packets.antt =====
-- include/sequitur/core/IngressPacket.hpp, EgressPacket.hpp and MetricsPacket.hpp, less the padding.
-- A packet's type is a byte, which shared memory may hold with any value.
use sequitur.Prelude.{ℕ}

pub record IngressPacket : Type 0 where
  pub type : ℕ
  pub side : ℕ
  pub instrument_id : ℕ
  pub trader_id : ℕ
  pub quantity : ℕ
  pub price : ℕ
  pub client_order_id : ℕ

-- The values of `PacketType`
abbrev pub new_order : ℕ
new_order = 1

abbrev pub cancel_order : ℕ
cancel_order = 2

-- The values of `EgressType` that the program sends
abbrev pub order_accepted : ℕ
order_accepted = 1

abbrev pub order_rejected : ℕ
order_rejected = 2

abbrev pub order_filled : ℕ
order_filled = 4

pub record EgressPacket : Type 0 where
  pub type : ℕ
  pub side : ℕ
  pub instrument_id : ℕ
  pub client_order_id : ℕ
  pub maker_id : ℕ
  pub taker_id : ℕ
  pub match_price : ℕ
  pub match_quantity : ℕ
  pub leaves_quantity : ℕ

-- The values of `MetricsUpdateType`
abbrev pub order_processed : ℕ
order_processed = 1

abbrev pub backpressure_detected : ℕ
backpressure_detected = 2

pub record MetricsPacket : Type 0 where
  pub type : ℕ
  pub latency_cycles : ℕ
  pub total_orders : ℕ
  pub total_trades : ℕ
  pub pool_used : ℕ
  pub pool_failures : ℕ
  pub pool_peak : ℕ
  pub pool_capacity : ℕ
