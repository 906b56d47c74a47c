-- ===== src/Spsc/Threads.antt =====
-- include/sequitur/concurrency/SPSCQueue.hpp: the producer and the consumer, interleaved in any
-- order, one access of shared memory at a time. Atomics are sequentially consistent.
pub mod Invariant
pub mod Produce
pub mod Consume
pub mod Safety
mod Tests
use sequitur.Prelude.{
  ℕ, ◌+◌, ◌%◌, ◌≡◌, ◌≢◌, Bool, true, false, List, [], ◌∷◌, ◌++◌, leb, update, word64,
}
use sequitur.Ring.{distance}
use sequitur.Spsc.{SpscQueue}
use sequitur.Spsc

-- Where the producer stands in `push`, with its locals.
pub data Producer (A : Type 0) : Type 0 where
  resting : Producer A
  entered : (item : A) → Producer A
  live : (item : A) → Producer A
  loaded : (item : A) → (t : ℕ) → Producer A
  synced : (item : A) → (t : ℕ) → Producer A
  roomy : (item : A) → (t : ℕ) → Producer A
  stored : (item : A) → (t : ℕ) → Producer A

-- Where the consumer stands in `pop`, with its locals.
pub data Consumer (A : Type 0) : Type 0 where
  waiting : Consumer A
  at : (h : ℕ) → Consumer A
  seen : (h t : ℕ) → Consumer A
  copied : (h : ℕ) → (item : A) → Consumer A

-- The queue and its two threads, with a record of the past: the items of the pushes that answered
-- true, and of the pops.
pub record Threads (A : Type 0) : Type 0 where
  pub queue : SpscQueue A
  pub producer : Producer A
  pub consumer : Consumer A
  pub sent : List A
  pub received : List A

module _ {A : Type 0} (c : ℕ) where
  pub data Step (s : Threads A) : Threads A → Type 0 where
    call : (item : A) → s.producer ≡ resting → Step s (record s { producer = entered item })
    stopped :
        {item : A}
        → s.producer ≡ entered item
        → s.queue.stop_flag ≡ true
        → Step s (record s { producer = resting })
    proceed :
        {item : A}
        → s.producer ≡ entered item
        → s.queue.stop_flag ≡ false
        → Step s (record s { producer = live item })
    load_tail :
        {item : A}
        → s.producer ≡ live item
        → Step s (record s { producer = loaded item s.queue.tail })
    -- The first test, on the shadow cursor.
    skip :
        {item : A} {t : ℕ}
        → s.producer ≡ loaded item t
        → leb c (distance t s.queue.cached_head) ≡ false
        → Step s (record s { producer = roomy item t })
    sync :
        {item : A} {t : ℕ}
        → s.producer ≡ loaded item t
        → leb c (distance t s.queue.cached_head) ≡ true
        → Step s (record s {
          queue = record s.queue { cached_head = s.queue.head };
          producer = synced item t;
        })
    full :
        {item : A} {t : ℕ}
        → s.producer ≡ synced item t
        → leb c (distance t s.queue.cached_head) ≡ true
        → Step s (record s { producer = resting })
    pass :
        {item : A} {t : ℕ}
        → s.producer ≡ synced item t
        → leb c (distance t s.queue.cached_head) ≡ false
        → Step s (record s { producer = roomy item t })
    store :
        {item : A} {t : ℕ}
        → s.producer ≡ roomy item t
        → Step s (record s {
          queue = record s.queue { buffer = update s.queue.buffer (t % c) item };
          producer = stored item t;
        })
    advance_tail :
        {item : A} {t : ℕ}
        → s.producer ≡ stored item t
        → Step s (record s {
          queue = record s.queue { tail = (t + 1) % word64 };
          producer = resting;
          sent = s.sent ++ item ∷ [];
        })
    load_head : s.consumer ≡ waiting → Step s (record s { consumer = at s.queue.head })
    see_tail : {h : ℕ} → s.consumer ≡ at h → Step s (record s { consumer = seen h s.queue.tail })
    none_there :
        {h t : ℕ} → s.consumer ≡ seen h t → h ≡ t → Step s (record s { consumer = waiting })
    copy :
        {h t : ℕ}
        → s.consumer ≡ seen h t
        → h ≢ t
        → Step s (record s { consumer = copied h (s.queue.buffer (h % c)) })
    advance_head :
        {h : ℕ} {item : A}
        → s.consumer ≡ copied h item
        → Step s (record s {
          queue = record s.queue { head = (h + 1) % word64 };
          consumer = waiting;
          received = s.received ++ item ∷ [];
        })
    shutdown : Step s (record s { queue = record s.queue { stop_flag = true } })

  unfoldable pub create : (ℕ → A) → Threads A
  create slots = record {
    queue = Spsc.create slots;
    producer = resting;
    consumer = waiting;
    sent = [];
    received = [];
  }

  pub data Reach (slots : ℕ → A) : Threads A → Type 0 where
    start : Reach slots (create slots)
    later : {s t : Threads A} → Reach slots s → Step s t → Reach slots t
