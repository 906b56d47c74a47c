-- ===== src/Mpsc.antt =====
-- include/sequitur/concurrency/MPSCQueue.hpp: many producers and one consumer, interleaved in any
-- order, one access of shared memory at a time. Atomics are sequentially consistent. `Capacity` is a
-- power of 2, so that `x & Mask` is `x % capacity`; `size_t` wraps at `2 ^ 64`.
pub mod Invariant
pub mod Steps
pub mod Publish
pub mod Consume
pub mod Reached
pub mod Safety
pub mod Progress
pub mod Tests
use sequitur.Prelude.{
  ℕ, suc, ◌+◌, ◌%◌, ◌^◌, ◌≡◌, ◌≢◌, Bool, true, false, ltb, ◌==◌, if◌then◌else◌, update, word64,
}

abbrev pub capacity : ℕ
capacity = 2048

-- The cells are two arrays: `sequence`, and `packets` for `data`.
pub record MpscQueue (A : Type 0) : Type 0 where
  pub sequence : ℕ → ℕ
  pub packets : ℕ → A
  pub tail : ℕ
  pub head : ℕ
  pub stop_flag : Bool

-- `diff < 0`: the order of `intptr_t`.
abbrev pub is_behind : ℕ → ℕ → Bool
is_behind seq t = ltb ((seq + 2 ^ 63) % word64) ((t + 2 ^ 63) % word64)

-- Where a producer stands in `push`, with its locals.
pub data Producer (A : Type 0) : Type 0 where
  resting : Producer A
  entered : (packet : A) → Producer A
  running : (packet : A) → Producer A
  looping : (packet : A) → (t : ℕ) → Producer A
  compared : (packet : A) → (t seq : ℕ) → Producer A
  claimed : (packet : A) → (t : ℕ) → Producer A
  written : (packet : A) → (t : ℕ) → Producer A

-- Where the consumer stands in `pop`, with its locals.
pub data Consumer (A : Type 0) : Type 0 where
  waiting : Consumer A
  at : (h : ℕ) → Consumer A
  examined : (h seq : ℕ) → Consumer A
  moved : (h : ℕ) → Consumer A
  copied : (h : ℕ) → (packet : A) → Consumer A

-- The queue and its threads, with a record of the past: `log` has the packet of each ticket that a
-- compare-exchange has handed out, `out` the packets that `pop` has returned, in this order.
pub record System (A : Type 0) : Type 0 where
  pub queue : MpscQueue A
  pub producers : ℕ → Producer A
  pub consumer : Consumer A
  pub tickets : ℕ
  pub log : ℕ → A
  pub taken : ℕ
  pub out : ℕ → A

module _ {A : Type 0} where
  -- The steps of `push` that change nothing shared.
  pub data ProducerMove (q : MpscQueue A) : Producer A → Producer A → Type 0 where
    call : {x : A} → ProducerMove q resting (entered x)
    stopped : {x : A} → q.stop_flag ≡ true → ProducerMove q (entered x) resting
    proceed : {x : A} → q.stop_flag ≡ false → ProducerMove q (entered x) (running x)
    load_tail : {x : A} → ProducerMove q (running x) (looping x q.tail)
    load_sequence :
        {x : A} {t : ℕ} → ProducerMove q (looping x t) (compared x t (q.sequence (t % capacity)))
    -- A weak compare-exchange may fail at any time, and then loads the tail.
    lose : {x : A} {t seq : ℕ} → seq ≡ t → ProducerMove q (compared x t seq) (looping x q.tail)
    full : {x : A} {t seq : ℕ} → is_behind seq t ≡ true → ProducerMove q (compared x t seq) resting
    retry :
        {x : A} {t seq : ℕ}
        → seq ≢ t
        → is_behind seq t ≡ false
        → ProducerMove q (compared x t seq) (looping x q.tail)

  -- The steps of `pop` that change nothing shared.
  pub data ConsumerMove (q : MpscQueue A) : Consumer A → Consumer A → Type 0 where
    load_head : ConsumerMove q waiting (at q.head)
    examine : {h : ℕ} → ConsumerMove q (at h) (examined h (q.sequence (h % capacity)))
    empty : {h seq : ℕ} → seq ≢ (h + 1) % word64 → ConsumerMove q (examined h seq) waiting
    copy : {h : ℕ} → ConsumerMove q (moved h) (copied h (q.packets (h % capacity)))

  pub data Step (s : System A) : System A → Type 0 where
    produce :
        (i : ℕ) {p : Producer A}
        → ProducerMove s.queue (s.producers i) p
        → Step s (record s { producers = update s.producers i p })
    -- The compare-exchange succeeds.
    claim :
        (i : ℕ) {x : A} {t seq : ℕ}
        → s.producers i ≡ compared x t seq
        → seq ≡ t
        → s.queue.tail ≡ t
        → Step s (record s {
          queue = record s.queue { tail = (t + 1) % word64 };
          producers = update s.producers i (claimed x t);
          tickets = s.tickets + 1;
          log = update s.log s.tickets x;
        })
    write :
        (i : ℕ) {x : A} {t : ℕ}
        → s.producers i ≡ claimed x t
        → Step s (record s {
          queue = record s.queue { packets = update s.queue.packets (t % capacity) x };
          producers = update s.producers i (written x t);
        })
    publish :
        (i : ℕ) {x : A} {t : ℕ}
        → s.producers i ≡ written x t
        → Step s (record s {
          queue = record s.queue {
            sequence = update s.queue.sequence (t % capacity) ((t + 1) % word64);
          };
          producers = update s.producers i resting;
        })
    consume :
        {c : Consumer A} → ConsumerMove s.queue s.consumer c → Step s (record s { consumer = c })
    advance :
        {h seq : ℕ}
        → s.consumer ≡ examined h seq
        → seq ≡ (h + 1) % word64
        → Step s
            (record s { queue = record s.queue { head = (h + 1) % word64 }; consumer = moved h })
    release :
        {h : ℕ} {x : A}
        → s.consumer ≡ copied h x
        → Step s (record s {
          queue = record s.queue {
            sequence = update s.queue.sequence (h % capacity) ((h + capacity) % word64);
          };
          consumer = waiting;
          taken = s.taken + 1;
          out = update s.out s.taken x;
        })
    shutdown : Step s (record s { queue = record s.queue { stop_flag = true } })

  -- A new queue. The arguments are what its cells, the log and the output hold at first.
  unfoldable pub create : (ℕ → A) → System A
  create blank = record {
    queue = record { sequence = λ i. i; packets = blank; tail = 0; head = 0; stop_flag = false };
    producers = λ _. resting;
    consumer = waiting;
    tickets = 0;
    log = blank;
    taken = 0;
    out = blank;
  }

  pub data Reach (blank : ℕ → A) : System A → Type 0 where
    start : Reach blank (create blank)
    later : {s t : System A} → Reach blank s → Step s t → Reach blank t

  -- `empty`, where `q` is the queue when the tail is loaded and `q'` the queue when the head is.
  unfoldable pub is_empty : (q q' : MpscQueue A) → Bool
  is_empty q q' = q.tail == q'.head
