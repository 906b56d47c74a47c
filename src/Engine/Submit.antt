-- ===== src/Engine/Submit.antt =====
-- `MatchingEngine::submit_order`: what it answers, and what it does to the queues and the counters.
use mathlib.Core.List.{Mem}
use sequitur.Prelude.{
  ℕ, ◌+◌, ◌%◌, ◌≤◌, ◌<◌, ◌≡◌, true, false, inl, inr, some, List, arith, length, update_self, word32,
  word64, Bool-cases, sym, ap, subst,
}
use sequitur.FixedQueue
use sequitur.Market.{Order, blank, max_price_ticks, queue_capacity}
use sequitur.Machine.Returns.{modify-step}
use sequitur.ObjectPool
use sequitur.ObjectPool.Slots.{IsPool, Acquired, acquire_cases}
use sequitur.Book.Chain.{has}
use sequitur.Book.Level.{Levels, IsBook, IsOut}
use sequitur.Book.Execute.{IsBook-out}
use sequitur.Book.Cross.{reach, crossing}
use sequitur.Book.Match.{match_order-Settled}
use sequitur.Engine.Release.{has-crossing}
use sequitur.Engine.Finish.{Submitted, Finished, start, finish_lem}
use sequitur.Engine.{MatchingEngine, answered, enter, fill_in, submit_acquired, submit_order}

-- If every slot of the pool is in use, `submit_order` answers false: it adds 1 to the pool's failures
-- (modulo 2^64), and the book, the queues, the order ids and the number of orders stay as they are.
pub submit_order_exhausted :
    (fuel side price quantity trader_id : ℕ) (e : MatchingEngine) (held : List ℕ)
    → IsPool e.pool held
    → length held ≡ e.pool.capacity
    → submit_order fuel side price quantity trader_id e
      ≡ answered false (record e {
        pool = record e.pool { alloc_failures = (e.pool.alloc_failures + 1) % word64 };
      })
unfolding submit_order submit_acquired
submit_order_exhausted fuel side price quantity trader_id e held v full =
    elim (acquire_cases e.pool held v) [
      | inl (_, failed) ↦
          ap (λ out. submit_acquired fuel side price quantity trader_id out e) failed
      | inr (i, room, _, _) ↦ absurd (omega arith)
    ]

-- The orders of the book are in slots that are in use.
abbrev pub IsHeld : Levels → List ℕ → Type 0
IsHeld ls held = (p a : ℕ) → p ≤ max_price_ticks → has a (ls p) ≡ true → Mem a held

fresh-IsOut : (ls : Levels) (held : List ℕ) (i : ℕ) → IsHeld ls held → ¬ Mem i held → IsOut i ls
fresh-IsOut ls held i h fresh p le = elim (Bool-cases (has i (ls p))) [
  | inl inside ↦ absurd (fresh (h p i le inside))
  | inr outside ↦ outside
]

-- The order of a call, once it is filled in.
abbrev pub order_of : (side price quantity trader_id : ℕ) → MatchingEngine → Order
order_of side price quantity trader_id e =
    fill_in side price quantity trader_id e.next_order_id blank

module _ (fuel side price quantity trader_id : ℕ) (e : MatchingEngine) (ls : Levels) (held : List ℕ)
    (v : IsPool e.pool held) (room : length held < e.pool.capacity) (b : IsBook e.world ls)
    (resting : IsHeld ls held) (in_range : price ≤ max_price_ticks) (small : quantity < word32)
    (bid_in_range : e.world.book.best_bid ≤ max_price_ticks)
    (clean : FixedQueue.size e.world.trash_q ≡ 0) where
  abbrev incoming : Order
  incoming = order_of side price quantity trader_id e

  pub submit_order-Finished :
      reach e.world.book incoming + length (crossing e.world.book incoming ls) < fuel
      → FixedQueue.size e.world.exec_q + length (crossing e.world.book incoming ls) ≤ queue_capacity
      → length (crossing e.world.book incoming ls) ≤ queue_capacity
      → (i : ℕ) × Acquired e.pool held i (ObjectPool.acquire e.pool).1
        × Finished e ls i incoming
            (ObjectPool.acquire e.pool).1
            (submit_order fuel side price quantity trader_id e)
  unfolding submit_order submit_acquired enter fill_in
  submit_order-Finished enough space space' = elim (acquire_cases e.pool held v) [
    | inl (full, _) ↦ absurd (omega arith)
    | inr (i, _, got, a) ↦
        let out = fresh-IsOut ls held i resting a.fresh in
        let pool = (ObjectPool.acquire e.pool).1 in
        let entered = (enter i pool e).world in
        let f =
          finish_lem e ls i incoming pool
            (has-crossing i ls e.world.book incoming out in_range bid_in_range) clean a.failures
            a.peak
            (modify-step i (fill_in side price quantity trader_id e.next_order_id) entered _
              (update_self e.world.orders i (some blank))
              (match_order-Settled fuel (start e i incoming pool) ls i incoming
                (IsBook-out entered i incoming (IsBook-out e.world i blank b out) out) out
                (update_self entered.orders i (some incoming)) in_range small bid_in_range enough
                space (omega (arith, clean, space')))) in
        (
          i,
          a,
          subst (Finished e ls i incoming pool)
              (sym (ap (λ o. submit_acquired fuel side price quantity trader_id (o, pool) e) got))
              f,
        )
  ]

  -- Let the slots `held` of the pool be in use, and fewer than its capacity; let the book hold the
  -- orders `ls`, all in slots in use, and the best bid be at most the highest price; let the new
  -- order's price be at most the highest price, its quantity a `uint32_t`, and the trash queue
  -- empty; let the fuel and the space in the queues be enough for the orders that the new one
  -- reaches. Then `submit_order` answers true. The trades of price-time priority are behind the
  -- others in the execution queue, the trash queue is empty, the next id and the number of orders
  -- are one more (modulo 2^64), the book's two counters have grown by the trades, and the pool
  -- counts no failure and the peak of one more slot in use.
  pub submit_order_lem :
      reach e.world.book incoming + length (crossing e.world.book incoming ls) < fuel
      → FixedQueue.size e.world.exec_q + length (crossing e.world.book incoming ls) ≤ queue_capacity
      → length (crossing e.world.book incoming ls) ≤ queue_capacity
      → (e' : MatchingEngine) × (submit_order fuel side price quantity trader_id e
          ≡ answered true e')
        × Submitted e ls incoming e'
  submit_order_lem enough space space' =
      let (i, _, f) = submit_order-Finished enough space space' in (_, f.answer, f.submitted)
