-- ===== src/RingBuffer.antt =====
-- include/sequitur/concurrency/RingBuffer.hpp, one call at a time. `Mask` is `Capacity - 1` for a
-- power of 2, so that `x & Mask` is `x % capacity`; the cursors and the counters wrap at `2 ^ 64`.
pub mod Refine
pub mod Counts
pub mod Batch
pub mod Runs
pub mod Threads
mod Tests
use sequitur.Prelude.{
  ℕ, zero, suc, ◌+◌, ◌%◌, Bool, true, false, Option, none, some, List, [], ◌∷◌, ◌==◌, if◌then◌else◌,
  update, word64,
}
use sequitur.Ring.{distance}

pub record RingBuffer (A : Type 0) : Type 0 where
  pub buffer : ℕ → A
  pub head : ℕ
  pub tail : ℕ
  pub stop_flag : Bool
  pub push_count : ℕ
  pub push_rejects : ℕ
  pub pop_count : ℕ

module _ {A : Type 0} where
  unfoldable pub create : (ℕ → A) → RingBuffer A
  create slots = record {
    buffer = slots;
    head = 0;
    tail = 0;
    stop_flag = false;
    push_count = 0;
    push_rejects = 0;
    pop_count = 0;
  }

  unfoldable pub push : ℕ → A → RingBuffer A → Bool × RingBuffer A
  push capacity item r =
      if r.stop_flag
      then (false, r)
      else if (r.tail + 1) % word64 % capacity == r.head % capacity
      then (false, record r { push_rejects = (r.push_rejects + 1) % word64 })
      else (
        true,
        record r {
          buffer = update r.buffer (r.tail % capacity) item;
          tail = (r.tail + 1) % word64;
          push_count = (r.push_count + 1) % word64;
        },
      )

  -- `none` where `pop` returns false and leaves `out_item` alone.
  unfoldable pub pop : ℕ → RingBuffer A → Option A × RingBuffer A
  pop capacity r = if r.head == r.tail then (none, r) else (
    some (r.buffer (r.head % capacity)),
    record r { head = (r.head + 1) % word64; pop_count = (r.pop_count + 1) % word64 },
  )

  -- What `pop_batch` appends to the batch; its result is their number. The loop's bound is `max`.
  unfoldable pub pop_batch : ℕ → ℕ → RingBuffer A → List A × RingBuffer A
  pop_batch capacity zero r = ([], r)
  pop_batch capacity (suc max) r =
      let (item, r') = pop capacity r in
      elim item [
        | none ↦ ([], r')
        | some x ↦ let (xs, r'') = pop_batch capacity max r' in (x ∷ xs, r'')
      ]

  unfoldable pub size : RingBuffer A → ℕ
  size r = distance r.tail r.head

  unfoldable pub empty : RingBuffer A → Bool
  unfolding size
  empty r = size r == 0

  unfoldable pub shutdown : RingBuffer A → RingBuffer A
  shutdown r = record r { stop_flag = true }

  unfoldable pub get_push_count : RingBuffer A → ℕ
  get_push_count r = r.push_count

  unfoldable pub get_push_rejects : RingBuffer A → ℕ
  get_push_rejects r = r.push_rejects

  unfoldable pub get_pop_count : RingBuffer A → ℕ
  get_pop_count r = r.pop_count
