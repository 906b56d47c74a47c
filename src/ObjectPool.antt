-- ===== src/ObjectPool.antt =====
-- include/sequitur/memory/ObjectPool.hpp: the stack of free slots and the counters. The objects
-- themselves are in the `orders` of `Machine.World`. A pointer into the pool is its slot's number.
pub mod Slots
pub mod Runs
mod Tests
use sequitur.Prelude.{
  ℕ, zero, suc, ◌+◌, ◌-◌, ◌%◌, Option, none, some, ltb, if◌then◌else◌, update, word32, word64,
}
use sequitur.Market.{Ptr}

-- `free` is the source's `top + 1`, so that the empty stack's `top`, which is -1, is `free` 0.
pub record ObjectPool : Type 0 where
  pub free_indices : ℕ → ℕ
  pub free : ℕ
  pub capacity : ℕ
  pub used_count : ℕ
  pub alloc_failures : ℕ
  pub peak_usage : ℕ

-- The constructor. `free_indices[i] = i` stores a `size_t` as a `uint32_t`.
unfoldable pub create : ℕ → ObjectPool
create cap = record {
  free_indices = λ i. i % word32;
  free = cap;
  capacity = cap;
  used_count = 0;
  alloc_failures = 0;
  peak_usage = 0;
}

-- The loop on `peak_usage`: one thread allocates, so that its exchange meets no other writer.
unfoldable pub raise_peak : ℕ → ℕ → ℕ
raise_peak used peak = if ltb peak used then used else peak

-- `top--`, and the counters
unfoldable pub take_top : ℕ → ObjectPool → Option ℕ × ObjectPool
unfolding raise_peak
take_top zero p = (none, record p { alloc_failures = (p.alloc_failures + 1) % word64 })
take_top (suc n) p = (
  some (p.free_indices n),
  record p {
    free = n;
    used_count = (p.used_count + 1) % word64;
    peak_usage = raise_peak ((p.used_count + 1) % word64) p.peak_usage;
  },
)

unfoldable pub acquire : ObjectPool → Option ℕ × ObjectPool
unfolding take_top
acquire p = take_top p.free p

unfoldable pub release : Ptr → ObjectPool → ObjectPool
release none p = p
release (some idx) p = record p {
  used_count = (p.used_count + word64 - 1) % word64;
  free_indices = update p.free_indices p.free (idx % word32);
  free = p.free + 1;
}

abbrev pub get_used_count : ObjectPool → ℕ
get_used_count p = p.used_count

abbrev pub get_alloc_failures : ObjectPool → ℕ
get_alloc_failures p = p.alloc_failures

abbrev pub get_peak_usage : ObjectPool → ℕ
get_peak_usage p = p.peak_usage

abbrev pub get_capacity : ObjectPool → ℕ
get_capacity p = p.capacity
