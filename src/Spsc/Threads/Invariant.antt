-- ===== src/Spsc/Threads/Invariant.antt =====
-- What holds of the ring and its two threads in every state.
use sequitur.Prelude.{ℕ, ◌+◌, ◌%◌, ◌≤◌, ◌<◌, ◌≡◌, refl, ◌≢◌, List, ◌++◌, word64, arith, ap, ◌∙◌}
use sequitur.Ring.{IsCapacity, distance, window, wrap-slot, slot-ne}
use sequitur.Spsc.{SpscQueue}
use sequitur.Spsc
use sequitur.Spsc.Threads.{
  Producer, loaded, synced, roomy, stored, Consumer, waiting, at, seen, copied, Threads, create,
}

module _ {A : Type 0} (c : ℕ) where
  -- The items between the two cursors.
  abbrev pub in_queue : SpscQueue A → List A
  in_queue q = window c q.buffer q.head (distance q.tail q.head)

  -- What the locals of the producer and of the consumer say about the ring.
  abbrev pub Producing : SpscQueue A → Producer A → Type 0
  Producing q (loaded x t) = t ≡ q.tail
  Producing q (synced x t) = t ≡ q.tail
  Producing q (roomy x t) = (t ≡ q.tail) × (distance q.tail q.cached_head < c)
  Producing q (stored x t) =
      (t ≡ q.tail) × (distance q.tail q.cached_head < c) × (q.buffer (t % c) ≡ x)
  Producing q _ = Unit {0}

  abbrev pub Consuming : SpscQueue A → Consumer A → Type 0
  Consuming q waiting = Unit {0}
  Consuming q (at h) = h ≡ q.head
  Consuming q (seen h t) = (h ≡ q.head) × (t < word64) × (distance t h ≤ distance q.tail h)
  Consuming q (copied h x) = (h ≡ q.head) × (0 < distance q.tail h) × (q.buffer (h % c) ≡ x)

  pub record Inv (s : Threads A) : Type 0 where
    pub bounded : distance s.queue.tail s.queue.head ≤ c
    pub behind : distance s.queue.tail s.queue.head ≤ distance s.queue.tail s.queue.cached_head
    pub tail_in : s.queue.tail < word64
    pub head_in : s.queue.head < word64
    pub cached_in : s.queue.cached_head < word64
    pub flow : s.sent ≡ s.received ++ in_queue s.queue
    pub producing : Producing s.queue s.producer
    pub consuming : Consuming s.queue s.consumer

  pub create-Inv : (slots : ℕ → A) → Inv (create c slots)
  unfolding create Spsc.create
  create-Inv slots = record {
    bounded = omega arith;
    behind = omega arith;
    tail_in = omega arith;
    head_in = omega arith;
    cached_in = omega arith;
    flow = refl;
    producing = tt;
    consuming = tt;
  }

-- The tail's slot, from the head on.
pub tail-slot :
    {c : ℕ}
    → (tail head : ℕ) → IsCapacity c
    → tail < word64
    → head < word64
    → tail % c ≡ (head + distance tail head) % c
tail-slot {c} tail head v tail_in head_in =
    ap (λ m. m % c) around ∙ wrap-slot v (head + distance tail head)
  where
    around : tail ≡ (head + distance tail head) % word64
    around = omega (arith, tail_in, head_in)

-- The next slot to write is not the next to read.
pub head-ne-tail :
    {c : ℕ}
    → (tail head : ℕ) → IsCapacity c
    → tail < word64
    → head < word64
    → 0 < distance tail head
    → distance tail head < c
    → head % c ≢ tail % c
head-ne-tail {c} tail head v tail_in head_in pos lt e =
    slot-ne c head (distance tail head) pos lt (e ∙ tail-slot tail head v tail_in head_in)
