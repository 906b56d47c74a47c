-- ===== src/Spsc.antt =====
-- include/sequitur/concurrency/SPSCQueue.hpp: the single-producer, single-consumer ring, one call
-- at a time. Its `static_assert` makes `Capacity` a power of 2, so that `x & Mask` is
-- `x % capacity`. The cursors are `size_t` and wrap at `2 ^ 64`.
pub mod Refine
pub mod Runs
pub mod Threads
mod Tests
use sequitur.Prelude.{
  ℕ, ◌+◌, ◌%◌, Bool, true, false, Option, none, some, leb, ◌==◌, if◌then◌else◌, update, word64,
}
use sequitur.Ring.{distance}

pub record SpscQueue (A : Type 0) : Type 0 where
  pub buffer : ℕ → A
  pub tail : ℕ
  pub head : ℕ
  pub cached_head : ℕ
  pub stop_flag : Bool

module _ {A : Type 0} where
  -- A new queue: the slots hold whatever `T` is initialised to.
  unfoldable pub create : (ℕ → A) → SpscQueue A
  create slots = record { buffer = slots; tail = 0; head = 0; cached_head = 0; stop_flag = false }

  -- The write of the slot and the advance of the tail.
  unfoldable pub publish : ℕ → A → SpscQueue A → SpscQueue A
  publish capacity item q = record q {
    buffer = update q.buffer (q.tail % capacity) item;
    tail = (q.tail + 1) % word64;
  }

  -- `push`: the second test reads `head_` anew, and keeps it as the shadow cursor.
  unfoldable pub push : ℕ → A → SpscQueue A → Bool × SpscQueue A
  unfolding publish
  push capacity item q =
      if q.stop_flag
      then (false, q)
      else if leb capacity (distance q.tail q.cached_head)
      then (let synced = record q { cached_head = q.head } in
          if leb capacity (distance q.tail q.head)
          then (false, synced)
          else (true, publish capacity item synced))
      else (true, publish capacity item q)

  -- `pop`: `none` where it returns false and leaves `out_item` alone.
  unfoldable pub pop : ℕ → SpscQueue A → Option A × SpscQueue A
  pop capacity q =
      if q.head == q.tail
      then (none, q)
      else (some (q.buffer (q.head % capacity)), record q { head = (q.head + 1) % word64 })

  unfoldable pub empty : SpscQueue A → Bool
  empty q = q.tail == q.head

  unfoldable pub shutdown : SpscQueue A → SpscQueue A
  shutdown q = record q { stop_flag = true }
