-- ===== src/RingBuffer/Threads.antt =====
-- include/sequitur/concurrency/RingBuffer.hpp: the producer and the consumer, interleaved in any
-- order, one access of shared memory at a time. Atomics are sequentially consistent.
pub mod Invariant
pub mod Produce
pub mod Consume
pub mod Safety
mod Tests
use sequitur.Prelude.{
  ℕ, ◌+◌, ◌%◌, ◌≡◌, ◌≢◌, Bool, true, false, List, [], ◌∷◌, ◌++◌, ◌==◌, update, word64,
}
use sequitur.RingBuffer.{RingBuffer}
use sequitur.RingBuffer

-- Where the producer stands in `push`, with its locals.
pub data Producer (A : Type 0) : Type 0 where
  resting : Producer A
  entered : (item : A) → Producer A
  live : (item : A) → Producer A
  loaded : (item : A) → (t : ℕ) → Producer A
  measured : (item : A) → (t h : ℕ) → Producer A
  rejecting : Producer A
  roomy : (item : A) → (t : ℕ) → Producer A
  stored : (item : A) → (t : ℕ) → Producer A
  published : Producer A

-- Where the consumer stands in `pop`, with its locals.
pub data Consumer (A : Type 0) : Type 0 where
  waiting : Consumer A
  at : (h : ℕ) → Consumer A
  seen : (h t : ℕ) → Consumer A
  copied : (h : ℕ) → (item : A) → Consumer A
  moved : Consumer A

-- The ring and its two threads, with a record of the past: the items of the pushes that have
-- advanced the tail, and of the pops that have advanced the head.
pub record Threads (A : Type 0) : Type 0 where
  pub ring : RingBuffer A
  pub producer : Producer A
  pub consumer : Consumer A
  pub sent : List A
  pub received : List A

module _ {A : Type 0} (c : ℕ) where
  pub data Step (s : Threads A) : Threads A → Type 0 where
    call : (item : A) → s.producer ≡ resting → Step s (record s { producer = entered item })
    stopped :
        {item : A}
        → s.producer ≡ entered item
        → s.ring.stop_flag ≡ true
        → Step s (record s { producer = resting })
    proceed :
        {item : A}
        → s.producer ≡ entered item
        → s.ring.stop_flag ≡ false
        → Step s (record s { producer = live item })
    load_tail :
        {item : A}
        → s.producer ≡ live item
        → Step s (record s { producer = loaded item s.ring.tail })
    see_head :
        {item : A} {t : ℕ}
        → s.producer ≡ loaded item t
        → Step s (record s { producer = measured item t s.ring.head })
    full :
        {item : A} {t h : ℕ}
        → s.producer ≡ measured item t h
        → ((t + 1) % word64 % c == h % c) ≡ true
        → Step s (record s { producer = rejecting })
    count_reject :
        s.producer ≡ rejecting
        → Step s (record s {
          ring = record s.ring { push_rejects = (s.ring.push_rejects + 1) % word64 };
          producer = resting;
        })
    pass :
        {item : A} {t h : ℕ}
        → s.producer ≡ measured item t h
        → ((t + 1) % word64 % c == h % c) ≡ false
        → Step s (record s { producer = roomy item t })
    store :
        {item : A} {t : ℕ}
        → s.producer ≡ roomy item t
        → Step s (record s {
          ring = record s.ring { buffer = update s.ring.buffer (t % c) item };
          producer = stored item t;
        })
    advance_tail :
        {item : A} {t : ℕ}
        → s.producer ≡ stored item t
        → Step s (record s {
          ring = record s.ring { tail = (t + 1) % word64 };
          producer = published;
          sent = s.sent ++ item ∷ [];
        })
    count_push :
        s.producer ≡ published
        → Step s (record s {
          ring = record s.ring { push_count = (s.ring.push_count + 1) % word64 };
          producer = resting;
        })
    load_head : s.consumer ≡ waiting → Step s (record s { consumer = at s.ring.head })
    see_tail : {h : ℕ} → s.consumer ≡ at h → Step s (record s { consumer = seen h s.ring.tail })
    none_there :
        {h t : ℕ} → s.consumer ≡ seen h t → h ≡ t → Step s (record s { consumer = waiting })
    copy :
        {h t : ℕ}
        → s.consumer ≡ seen h t
        → h ≢ t
        → Step s (record s { consumer = copied h (s.ring.buffer (h % c)) })
    advance_head :
        {h : ℕ} {item : A}
        → s.consumer ≡ copied h item
        → Step s (record s {
          ring = record s.ring { head = (h + 1) % word64 };
          consumer = moved;
          received = s.received ++ item ∷ [];
        })
    count_pop :
        s.consumer ≡ moved
        → Step s (record s {
          ring = record s.ring { pop_count = (s.ring.pop_count + 1) % word64 };
          consumer = waiting;
        })
    shutdown : Step s (record s { ring = record s.ring { stop_flag = true } })

  unfoldable pub create : (ℕ → A) → Threads A
  create slots = record {
    ring = RingBuffer.create slots;
    producer = resting;
    consumer = waiting;
    sent = [];
    received = [];
  }

  pub data Reach (slots : ℕ → A) : Threads A → Type 0 where
    start : Reach slots (create slots)
    later : {s t : Threads A} → Reach slots s → Step s t → Reach slots t
