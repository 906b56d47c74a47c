-- ===== src/Engine/Idle.antt =====
-- The engine between two orders, and what one order does to it.
use sequitur.Prelude.{
  ℕ, ◌+◌, ◌-◌, ◌%◌, ◌≤◌, ◌<◌, ◌≡◌, refl, ◌⊎◌, inl, inr, true, false, [], arith, length,
  length-append, word32, word64, Bool-cases, sym, ◌∙◌, ap, subst, leb, ltb, leb-le, leb-lt,
}
use sequitur.FixedQueue
use sequitur.Market.{Ptr, Trade, max_price_ticks, queue_capacity}
use sequitur.ObjectPool
use sequitur.ObjectPool.Slots.{IsPool, Acquired, create-IsPool}
use sequitur.Book
use sequitur.Book.Level.{Levels, total}
use sequitur.Book.Cross.{crossing}
use sequitur.Book.Match.{settle}
use sequitur.Book.Fill.{fills, fills-le}
use sequitur.Book.Uncrossed.{IsUncrossed, Settled-IsUncrossed}
use sequitur.Book.Resting.{resting, mem-resting, resting-nil}
use sequitur.Book.Resting.Room.{length-crossing, reach_le}
use sequitur.Engine.{
  MatchingEngine, Answer, answered, fill_in, enter, submit_order, clear_execution_queue, create,
}
use sequitur.Engine.Submit.{order_of, submit_order-Finished, submit_order_exhausted}
use sequitur.Engine.Finish.{start, Finished, closed}
use sequitur.Machine.{OrderBook}
use sequitur.Engine.Invariant.{IsEngine, closed-IsEngine, length-settled}

-- The arguments of a call of `submit_order`.
pub record Request : Type 0 where
  pub side : ℕ
  pub price : ℕ
  pub quantity : ℕ
  pub trader_id : ℕ

-- What the source does not check of an order: a side, a price strictly inside the range of the book,
-- a quantity of 32 bits.
pub record IsRequest (r : Request) : Type 0 where
  pub side : (r.side ≡ 0) ⊎ (r.side ≡ 1)
  pub low : 0 < r.price
  pub high : r.price < max_price_ticks
  pub small : r.quantity < word32

-- The engine between two orders, with a pool of `cap` slots.
pub record IsIdle (cap : ℕ) (e : MatchingEngine) : Type 0 where
  pub levels : Levels
  pub engine : IsEngine e levels
  pub uncrossed : IsUncrossed e.world.book.best_bid e.world.book.best_ask levels
  pub exec : FixedQueue.size e.world.exec_q ≡ 0
  pub capacity : e.pool.capacity ≡ cap

pub clear-IsIdle :
    {cap : ℕ} (e : MatchingEngine) (ls : Levels)
    → IsEngine e ls
    → IsUncrossed e.world.book.best_bid e.world.book.best_ask ls
    → e.pool.capacity ≡ cap
    → (idle : IsIdle cap (clear_execution_queue e)) × (idle.levels ≡ ls)
unfolding clear_execution_queue FixedQueue.size FixedQueue.clear
clear-IsIdle e ls v u c = (
  record {
    levels = ls;
    engine = record { pool = v.pool; book = v.book; bid = v.bid; trash = v.trash };
    uncrossed = u;
    exec = refl;
    capacity = c;
  },
  refl,
)

-- What an accepted order leaves.
no_trades :
    {cap : ℕ} (e : MatchingEngine) → IsIdle cap e → length (FixedQueue.to_list e.world.exec_q) ≡ 0
no_trades e v = FixedQueue.length-to_list e.world.exec_q ∙ v.exec

Finished-IsIdle :
    {cap : ℕ} (e : MatchingEngine) (r : Request) (v : IsIdle cap e)
    → IsRequest r
    → (i : ℕ) → Acquired e.pool (resting v.levels) i (ObjectPool.acquire e.pool).1
    → {ans : Answer}
    → Finished e v.levels i
        (order_of r.side r.price r.quantity r.trader_id e)
        (ObjectPool.acquire e.pool).1
        ans
    → (e' : MatchingEngine) × (idle : IsIdle cap (clear_execution_queue e')) × (ans
        ≡ answered true e')
      × (length (FixedQueue.to_list e'.world.exec_q)
          ≤ length
              (crossing e.world.book (order_of r.side r.price r.quantity r.trader_id e) v.levels))
      × (length (resting idle.levels) ≤ length (resting v.levels) + 1)
unfolding fill_in enter
Finished-IsIdle e r v q i a f =
    let ls = v.levels in
    let c = order_of r.side r.price r.quantity r.trader_id e in
    let pool = (ObjectPool.acquire e.pool).1 in
    let e' = closed i f.left (record (enter i pool e) { world = f.world }) in
    let after =
      settle i (record c { quantity = c.quantity - total (crossing e.world.book c ls) })
        f.settled.crossed.kept in
    let (engine, book, kept) =
      closed-IsEngine e ls i c f.world f.settled a.pool (omega (arith, q.high)) v.engine.bid f.left
        f.rest f.trash in
    let uncrossed =
      subst (λ (o : OrderBook). IsUncrossed o.best_bid o.best_ask after) (sym book)
        (Settled-IsUncrossed (start e i c pool) ls i c q.low q.high v.uncrossed f.world q.side
          f.settled) in
    let (idle, same) = clear-IsIdle e' after engine uncrossed (kept ∙ a.capacity ∙ v.capacity) in
    let settled =
      length-settled e ls i c f.world f.settled a.pool (omega (arith, q.high)) v.engine.bid in
    (
      e',
      idle,
      f.answer,
      omega (
        arith,
        ap length f.submitted.exec,
        length-append (FixedQueue.to_list e.world.exec_q)
            (fills c.trader_id c.quantity (crossing e.world.book c ls)),
        fills-le c.trader_id c.quantity (crossing e.world.book c ls),
        no_trades e v,
      ),
      subst (λ l. length (resting l) ≤ length (resting ls) + 1) (sym same) settled,
    )

-- At most `n` orders rest.
module _ (fuel n : ℕ) (enough : max_price_ticks + 1 + n < fuel) (fits : n ≤ queue_capacity)
    {cap : ℕ} where
  pub submit_order-bounded :
      (e : MatchingEngine) (r : Request)
      → (v : IsIdle cap e) → length (resting v.levels) ≤ n
      → IsRequest r
      → (e' : MatchingEngine) × (idle : IsIdle cap (clear_execution_queue e')) × (submit_order fuel
            r.side r.price r.quantity r.trader_id e
          ≡ answered (ltb (length (resting v.levels)) cap) e')
        × (length (FixedQueue.to_list e'.world.exec_q) ≤ length (resting v.levels))
        × (length (resting idle.levels) ≤ length (resting v.levels) + 1)
  unfolding fill_in enter
  submit_order-bounded e r v few q =
      let ls = v.levels in
      let capacity = v.capacity in
      let total = v.engine.pool.total in
      elim (Bool-cases (leb cap (length (resting ls)))) [
        | inl test ↦
            let full : length (resting ls) ≡ e.pool.capacity =
              omega (arith, leb-le cap (length (resting ls)) test) in
            let no : ltb (length (resting ls)) cap ≡ false = ground arith in
            let p = v.engine.pool in
            let e' : MatchingEngine = record e {
              pool = record e.pool { alloc_failures = (e.pool.alloc_failures + 1) % word64 };
            } in
            let (idle, same) =
              clear-IsIdle e' ls
                (record {
                  pool = record {
                    slots = p.slots;
                    total = p.total;
                    used = p.used;
                    small = p.small;
                    peak = p.peak;
                  };
                  book = v.engine.book;
                  bid = v.engine.bid;
                  trash = v.engine.trash;
                })
                v.uncrossed capacity in
            (
              e',
              idle,
              submit_order_exhausted fuel r.side r.price r.quantity r.trader_id e (resting ls) p
                    full
                  ∙ ap (λ b. answered b e') (sym no),
              omega (arith, no_trades e v),
              omega (arith, ap (λ l. length (resting l)) same),
            )
        | inr test ↦
            let room : length (resting ls) < e.pool.capacity =
              omega (arith, leb-lt cap (length (resting ls)) test) in
            let yes : ltb (length (resting ls)) cap ≡ true = ground arith in
            let c = order_of r.side r.price r.quantity r.trader_id e in
            let bid = v.engine.bid in
            let met = length-crossing e.world.book c ls (omega (arith, q.high)) bid in
            let far = reach_le e.world.book c (omega (arith, q.high)) bid in
            let (i, a, f) =
              submit_order-Finished fuel r.side r.price r.quantity r.trader_id e ls (resting ls)
                v.engine.pool room v.engine.book (mem-resting ls) (omega (arith, q.high)) q.small
                bid v.engine.trash (omega arith) (omega (arith, v.exec)) (omega arith) in
            let (e', idle, answer, trades, more) = Finished-IsIdle e r v q i a f in
            (e', idle, answer ∙ ap (λ b. answered b e') (sym yes), omega (arith, trades, met), more)
      ]

pub create-IsIdle :
    (exec_slots : ℕ → Trade) (trash_slots : ℕ → Ptr) (cap : ℕ)
    → cap < word32
    → (idle : IsIdle cap (create exec_slots trash_slots cap)) × (resting idle.levels ≡ [])
unfolding create FixedQueue.create FixedQueue.size Book.create total ObjectPool.create
create-IsIdle exec_slots trash_slots cap small = (
  record {
    levels = λ _. [];
    engine = record {
      pool = subst (IsPool (ObjectPool.create cap)) (sym resting-nil) (create-IsPool cap small);
      book = λ p h. record { head = refl; tail = refl; chain = tt; fits = tt; volume = refl };
      bid = omega arith;
      trash = refl;
    };
    uncrossed = record { apart = omega arith; gap = λ p above below. refl };
    exec = refl;
    capacity = refl;
  },
  resting-nil,
)
