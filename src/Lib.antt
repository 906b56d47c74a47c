-- ===== src/Lib.antt =====
-- Verification of sequitur, a limit-order matching engine.
--
-- The program: a gateway puts packets into shared memory; the core thread of `src/main.cpp` hands
-- each new order to `MatchingEngine::submit_order`, which takes an order object from the
-- `ObjectPool`, has the `OrderBook` match it, and gives the filled orders back; its trades go out
-- through an `SPSCQueue`.
--
-- Which file models which part:
-- - Market: `Order` (include/sequitur/core/Order.hpp), `Trade` (include/sequitur/core/Trade.hpp) and
--   `PriceLevel`. An `Order *` is the number of a slot of the pool, or `none` for `nullptr`.
-- - FixedQueue: include/sequitur/utils/FixedQueue.hpp.
-- - Machine: the state that `OrderBook` works on (the memory of the pool, the book and the two
--   queues) and the reads and writes of it. A null or dangling pointer, a price beyond the array of
--   levels and a push on a full queue are undefined in the source and a `fault` here.
-- - Book: `insert_order`, `remove_order` and `match_order` of include/sequitur/core/OrderBook.hpp.
--   Book.Chain and Book.Level say when memory and levels hold given lists of orders; Book.Fill is
--   price-time priority on lists; Book.Buy and Book.Sell, with their Rounds, are the two loops, and Book.Cross and
--   Book.Match put them together. Book.RoundTrip is about an insertion and its removal,
--   Book.Uncrossed about the two best prices, Book.Resting about the slots of the resting orders.
-- - ObjectPool: include/sequitur/memory/ObjectPool.hpp, its free slots and its counters.
--   ObjectPool.Runs is about any sequence of calls.
-- - Engine: `MatchingEngine` of include/sequitur/core/MatchingEngine.hpp and
--   src/core/MatchingEngine.cpp. Engine.Finish and Engine.Submit are about one order,
--   Engine.Invariant, Engine.Idle and Engine.Session about any sequence of orders from a new engine on.
-- - Packets, Core: the packets of include/sequitur/core, and one round of the core thread of
--   src/main.cpp. What the source computes in floating point and reads from the cycle counter are
--   arguments. A round in which the egress queue is full, where the source spins, is `stalled`.
--   The packet is a reference into the ring: a round takes what its slot holds until it is given back,
--   and, apart from that, what it holds when it is read for a report.
--   Core.Session and Core.Serve are about a sequence of packets, with a publisher that takes all
--   reports after each.
-- - Egress: the publisher thread of src/main.cpp between the egress queue and the gateway's `Dequeue`
--   (gateway/shm.go), as a step relation. Egress.Span is about the packets in the ring,
--   Egress.Invariant says what holds between the steps until the signal, Egress.Moves and
--   Egress.Receive show that each step keeps it.
-- - Ingress: the gateway's `Enqueue` (gateway/shm.go) and the core thread's work on a packet, from the
--   slot of the ingress ring to the reports, with the engine, as a step relation. Ingress.Invariant says what holds between the steps and Ingress.Send
--   that each step keeps it; Ingress.Delivery and Ingress.Stale are about what is submitted and
--   what is reported.
-- - Layout: the sizes of the packets and where src/main.cpp puts the indexes and the rings in the
--   shared memory.
-- - Ring, Spsc, RingBuffer: include/sequitur/concurrency/SPSCQueue.hpp and RingBuffer.hpp, with
--   cursors that wrap at 2^64, one call at a time. Spsc.Threads is the producer and the consumer of
--   SPSCQueue interleaved in any order, one access of shared memory a step; Spsc.Threads.Produce and
--   Spsc.Threads.Consume show that each step keeps Spsc.Threads.Invariant. RingBuffer.Threads is
--   the same for RingBuffer. Spsc.Runs and
--   RingBuffer.Runs are about any sequence of calls, RingBuffer.Counts about the counters.
-- - Timer: include/sequitur/utils/Timer.hpp, with scopes nested in any way.
-- - Mpsc: include/sequitur/concurrency/MPSCQueue.hpp as a step relation: any number of producers and
--   the consumer, interleaved in any order, one access of shared memory a step. Mpsc.Invariant says
--   what holds between the steps; Mpsc.Steps, Mpsc.Publish and Mpsc.Consume show that each step
--   keeps it, Mpsc.Reached that it holds in every reachable state.
-- - Metrics: a round of `logging_loop` of src/utils/MetricsWorker.cpp. Metrics.Message is the buffer
--   of the report, Metrics.Text and Metrics.Report its text, Metrics.Counts and Metrics.Drain what is
--   counted, Metrics.Ranks the percentiles, Metrics.Round a whole round, Metrics.Turns and
--   Metrics.Loop any number of rounds next to the core thread's pushes. `double` and
--   `std::to_chars` are parameters, and the clock is an argument.
--
-- Integers are natural numbers, reduced modulo 2^32 or 2^64 where the source's types wrap. The two
-- loops of `match_order` run on fuel, one unit a round: each round passes one price or trades with
-- one order, so that the prices and the orders in reach bound the rounds. The inner loop of the
-- telemetry runs on fuel as well, one unit a packet.
--
-- Not modelled: memory orders weaker than sequential consistency; the cycle counter itself; starting,
-- prioritising and joining threads, `MetricsWorker::shutdown`, and the log file; the process setup
-- and teardown of src/main.cpp; the rest of the gateway in Go and the client. The indexes of the rings in shared
-- memory are `int64_t` in the source, and taken not to reach 2^63.
pub mod Prelude
pub mod FixedQueue
pub mod Market
pub mod Machine
pub mod Book
pub mod ObjectPool
pub mod Ring
pub mod Spsc
pub mod Timer
pub mod RingBuffer
pub mod Mpsc
pub mod Metrics
pub mod Engine
pub mod Packets
pub mod Core
pub mod Egress
pub mod Ingress
pub mod Layout
