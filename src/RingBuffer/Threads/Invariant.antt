-- ===== src/RingBuffer/Threads/Invariant.antt =====
-- What holds of the ring and its two threads in every state.
use native.Mathlib.Nat.{add-mod_right}
use sequitur.Prelude.{
  Bool, ℕ, ◌+◌, ◌%◌, ◌≤◌, ◌<◌, ◌≡◌, refl, List, ◌++◌, length, word64, arith, ap, ◌∙◌,
}
use sequitur.Ring.{IsCapacity, distance, window, wrap-slot}
use sequitur.RingBuffer.{RingBuffer}
use sequitur.RingBuffer
use sequitur.RingBuffer.Threads.{
  Producer, resting, entered, live, rejecting, loaded, measured, roomy, stored, published, Consumer,
  waiting, at, seen, copied, moved, Threads, create,
}

-- The additions to `push_count` and to `pop_count` that are still to come.
abbrev pub owed_push : {A : Type 0} → Producer A → ℕ
owed_push published = 1
owed_push _ = 0

abbrev pub owed_pop : {A : Type 0} → Consumer A → ℕ
owed_pop moved = 1
owed_pop _ = 0

module _ {A : Type 0} (c : ℕ) where
  -- The items between the two cursors.
  abbrev pub in_ring : RingBuffer A → List A
  in_ring q = window c q.buffer q.head (distance q.tail q.head)

  -- What the locals of the producer and of the consumer say about the ring.
  abbrev pub Producing : RingBuffer A → Producer A → Type 0
  Producing q (loaded x t) = t ≡ q.tail
  Producing q (measured x t h) =
      (t ≡ q.tail) × (h < word64) × (distance t q.head ≤ distance t h) × (distance t h < c)
  Producing q (roomy x t) = (t ≡ q.tail) × (distance q.tail q.head + 1 < c)
  Producing q (stored x t) =
      (t ≡ q.tail) × (distance q.tail q.head + 1 < c) × (q.buffer (t % c) ≡ x)
  Producing q _ = Unit {0}

  abbrev pub Consuming : RingBuffer A → Consumer A → Type 0
  Consuming q (at h) = h ≡ q.head
  Consuming q (seen h t) = (h ≡ q.head) × (t < word64) × (distance t h ≤ distance q.tail h)
  Consuming q (copied h x) = (h ≡ q.head) × (0 < distance q.tail h) × (q.buffer (h % c) ≡ x)
  Consuming q _ = Unit {0}

  pub record Inv (s : Threads A) : Type 0 where
    pub bounded : distance s.ring.tail s.ring.head < c
    pub tail_in : s.ring.tail < word64
    pub head_in : s.ring.head < word64
    pub flow : s.sent ≡ s.received ++ in_ring s.ring
    pub pushes : (s.ring.push_count + owed_push s.producer) % word64 ≡ length s.sent % word64
    pub pops : (s.ring.pop_count + owed_pop s.consumer) % word64 ≡ length s.received % word64
    pub producing : Producing s.ring s.producer
    pub consuming : Consuming s.ring s.consumer

  pub create-Inv : IsCapacity c → (slots : ℕ → A) → Inv (create c slots)
  unfolding create RingBuffer.create
  create-Inv v slots = record {
    bounded = omega (arith, v.pos);
    tail_in = omega arith;
    head_in = omega arith;
    flow = refl;
    pushes = refl;
    pops = refl;
    producing = tt;
    consuming = tt;
  }

-- The locals do not speak of the flag and the counters.
aside-Producing :
    {A : Type 0} (c : ℕ) (q : RingBuffer A) (b : Bool) (m n k : ℕ) (p : Producer A)
    → Producing c q p
    → Producing c (record q { stop_flag = b; push_count = m; push_rejects = n; pop_count = k }) p
aside-Producing c q b m n k resting f = tt
aside-Producing c q b m n k (entered x) f = tt
aside-Producing c q b m n k (live x) f = tt
aside-Producing c q b m n k (loaded x t) f = f
aside-Producing c q b m n k (measured x t h) f = f
aside-Producing c q b m n k rejecting f = tt
aside-Producing c q b m n k (roomy x t) f = f
aside-Producing c q b m n k (stored x t) f = f
aside-Producing c q b m n k published f = tt

aside-Consuming :
    {A : Type 0} (c : ℕ) (q : RingBuffer A) (b : Bool) (m n k : ℕ) (d : Consumer A)
    → Consuming c q d
    → Consuming c (record q { stop_flag = b; push_count = m; push_rejects = n; pop_count = k }) d
aside-Consuming c q b m n k waiting f = tt
aside-Consuming c q b m n k (at h) f = f
aside-Consuming c q b m n k (seen h t) f = f
aside-Consuming c q b m n k (copied h x) f = f
aside-Consuming c q b m n k moved f = tt

-- A step on the flag or a counter.
pub aside-Inv :
    {A : Type 0} {c : ℕ} {s : Threads A} (v : Inv c s) (b : Bool) (m n k : ℕ) (p : Producer A)
    → (d : Consumer A) → Producing c s.ring p
    → Consuming c s.ring d
    → (m + owed_push p) % word64 ≡ length s.sent % word64
    → (k + owed_pop d) % word64 ≡ length s.received % word64
    → Inv c (record s {
      ring = record s.ring { stop_flag = b; push_count = m; push_rejects = n; pop_count = k };
      producer = p;
      consumer = d;
    })
aside-Inv {A} {c} {s} v b m n k p d f g pushes pops = record {
  bounded = v.bounded;
  tail_in = v.tail_in;
  head_in = v.head_in;
  flow = v.flow;
  pushes = pushes;
  pops = pops;
  producing = aside-Producing c s.ring b m n k p f;
  consuming = aside-Consuming c s.ring b m n k d g;
}

-- The slot after a full ring's last is the first again.
pub next-slot :
    {c : ℕ}
    → (t h : ℕ) → IsCapacity c
    → t < word64
    → h < word64
    → distance t h + 1 ≡ c
    → (t + 1) % word64 % c ≡ h % c
next-slot {c} t h v t_in h_in e = ap (λ m. m % c) around ∙ wrap-slot v (h + c) ∙ add-mod_right h c
  where
    around : (t + 1) % word64 ≡ (h + c) % word64
    around = omega (arith, t_in, h_in, e)
