-- ===== src/Mpsc/Invariant.antt =====
-- What holds of the queue and its threads in every state.
use sequitur.Prelude.{ℕ, ◌+◌, ◌%◌, ◌^◌, ◌≤◌, ◌<◌, ◌≡◌, ◌⊎◌, Option, none, some}
use sequitur.Mpsc.{
  capacity, Producer, looping, compared, claimed, written, Consumer, waiting, at, examined, moved,
  copied, System,
}

module _ {A : Type 0} where
  -- The ticket that a producer holds.
  abbrev pub ticket : Producer A → Option ℕ
  ticket (claimed _ t) = some t
  ticket (written _ t) = some t
  ticket _ = none

  -- Is the consumer past its store to `head_`, and not yet at its store to the cell?
  abbrev pub moving : Consumer A → ℕ
  moving (moved _) = 1
  moving (copied _ _) = 1
  moving _ = 0

  -- What the locals of a producer say about the queue.
  abbrev pub Producing : System A → Producer A → Type 0
  Producing s (looping _ t) = t ≤ s.tickets
  Producing s (compared _ t seq) = (t ≤ s.tickets) × (seq ≤ s.queue.sequence (t % capacity))
  Producing s (claimed x t) =
      (s.taken ≤ t) × (t < s.tickets) × (s.queue.sequence (t % capacity) ≡ t) × (s.log t ≡ x)
  Producing s (written x t) =
      (s.taken ≤ t)
      × (t < s.tickets)
      × (s.queue.sequence (t % capacity) ≡ t)
      × (s.log t ≡ x)
      × (s.queue.packets (t % capacity) ≡ x)
  Producing s _ = Unit {0}

  abbrev pub IsPublished : System A → ℕ → Type 0
  IsPublished s t =
      (t < s.tickets)
      × (s.queue.sequence (t % capacity) ≡ t + 1)
      × (s.queue.packets (t % capacity) ≡ s.log t)

  abbrev pub Consuming : System A → Consumer A → Type 0
  Consuming s waiting = Unit {0}
  Consuming s (at h) = h ≡ s.taken
  Consuming s (examined h seq) =
      (h ≡ s.taken) × (seq ≡ h + 1 → s.queue.sequence (h % capacity) ≡ h + 1)
  Consuming s (moved h) = (h ≡ s.taken) × IsPublished s h
  Consuming s (copied h x) = (h ≡ s.taken) × IsPublished s h × (x ≡ s.log h)

  -- The tickets from `taken` on, as many as there are cells, each have a cell of their own: its
  -- sequence is the ticket until the packet is published, and then one more.
  pub record Inv (s : System A) : Type 0 where
    pub bound : s.tickets + capacity < 2 ^ 63
    pub tail : s.queue.tail ≡ s.tickets
    pub head : s.queue.head ≡ s.taken + moving s.consumer
    pub order : (s.taken ≤ s.tickets) × (s.tickets ≤ s.taken + capacity)
    pub cells :
        (t : ℕ)
        → s.taken ≤ t
        → t < s.taken + capacity
        → (s.queue.sequence (t % capacity) ≡ t) ⊎ IsPublished s t
    pub producing : (i : ℕ) → Producing s (s.producers i)
    pub distinct :
        (i j t : ℕ) → ticket (s.producers i) ≡ some t → ticket (s.producers j) ≡ some t → i ≡ j
    pub owed :
        (t : ℕ)
        → s.taken ≤ t
        → t < s.tickets
        → s.queue.sequence (t % capacity) ≡ t
        → (i : ℕ) × (ticket (s.producers i) ≡ some t)
    pub consuming : Consuming s s.consumer
    pub returned : (t : ℕ) → t < s.taken → s.out t ≡ s.log t
