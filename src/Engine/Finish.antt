-- ===== src/Engine/Finish.antt =====
-- `MatchingEngine::submit_order`, once the order is in a slot.
use sequitur.Prelude.{
  ℕ, ◌+◌, ◌-◌, ◌%◌, ◌≡◌, true, false, some, ◌++◌, ◌==◌, if◌then◌else◌, length, min, max, update,
  word64, sym, ◌∙◌, ap, subst,
}
use sequitur.FixedQueue
use sequitur.Market.{Order}
use sequitur.Machine.{World, Outcome, ok}
use sequitur.Machine.Returns.{Returns, returns}
use sequitur.ObjectPool
use sequitur.Book.Chain.{has}
use sequitur.Book.Level.{Levels, total}
use sequitur.Book.Fill.{fills, filled}
use sequitur.Book.Sweep.{pointers}
use sequitur.Book.Cross.{crossing}
use sequitur.Book.Match.{Settled, Settled-Matched}
use sequitur.Engine.Release.{
  OnlyReleased, release_all-OnlyReleased, release_order-OnlyReleased, close_lem,
}
use sequitur.Engine.{
  MatchingEngine, Answer, answered, release_order, release_all, empty_trash, enter, close, finish,
}

-- What `submit_order` does with the order `c` when it answers true, in a book that holds `ls`.
pub record Submitted (e : MatchingEngine) (ls : Levels) (c : Order) (e' : MatchingEngine)
    : Type 0 where
  pub exec :
      FixedQueue.to_list e'.world.exec_q
      ≡ FixedQueue.to_list e.world.exec_q
        ++ fills c.trader_id c.quantity (crossing e.world.book c ls)
  pub trash : FixedQueue.size e'.world.trash_q ≡ 0
  pub next_order_id : e'.next_order_id ≡ (e.next_order_id + 1) % word64
  pub total_orders : e'.total_orders ≡ (e.total_orders + 1) % word64
  pub trades :
      e'.world.book.total_trades % word64
      ≡ (e.world.book.total_trades
          + length (fills c.trader_id c.quantity (crossing e.world.book c ls)))
        % word64
  pub volume :
      e'.world.book.total_volume % word64
      ≡ (e.world.book.total_volume + min c.quantity (total (crossing e.world.book c ls))) % word64
  pub failures : e'.pool.alloc_failures ≡ e.pool.alloc_failures
  pub peak : e'.pool.peak_usage ≡ max (e.pool.used_count + 1) e.pool.peak_usage

-- The world of the book, when it gets the order `c` in slot `i`.
abbrev pub start : MatchingEngine → ℕ → Order → ObjectPool.ObjectPool → World
start e i c pool = record (enter i pool e).world {
  orders = update (enter i pool e).world.orders i (some c);
}

-- The engine at the end of `submit_order`, when `o` is what is left of the order in slot `i`.
unfoldable pub closed : ℕ → Order → MatchingEngine → MatchingEngine
closed i o e =
    let swept = empty_trash e in if o.quantity == 0 then release_order (some i) swept else swept

-- A run of `submit_order` in which the pool has given slot `i` for the order `c`.
pub record Finished (e : MatchingEngine) (ls : Levels) (i : ℕ) (c : Order)
    (pool : ObjectPool.ObjectPool) (a : Answer) : Type 0 where
  pub world : World
  pub settled : Settled (start e i c pool) ls i c world
  pub left : Order
  pub at : world.orders i ≡ some left
  pub rest : left.quantity ≡ c.quantity - total (crossing e.world.book c ls)
  pub trash :
      FixedQueue.to_list world.trash_q ≡ pointers (filled c.quantity (crossing e.world.book c ls))
  pub answer : a ≡ answered true (closed i left (record (enter i pool e) { world = world }))
  pub submitted : Submitted e ls c (closed i left (record (enter i pool e) { world = world }))

module _ (e : MatchingEngine) (ls : Levels) (i : ℕ) (c : Order) (pool : ObjectPool.ObjectPool)
    (out : has i (crossing e.world.book c ls) ≡ false) (clean : FixedQueue.size e.world.trash_q ≡ 0)
    (failures : pool.alloc_failures ≡ e.pool.alloc_failures)
    (peak : pool.peak_usage ≡ max (e.pool.used_count + 1) e.pool.peak_usage) where
  finish-Finished :
      (w' : World)
      → Settled (start e i c pool) ls i c w'
      → ((o : Order) × (w'.orders i ≡ some o)
          × (o.quantity ≡ c.quantity - total (crossing e.world.book c ls)))
      → Finished e ls i c pool (finish i (enter i pool e) (ok tt w'))
  unfolding enter finish close empty_trash closed FixedQueue.to_list FixedQueue.size
      FixedQueue.clear
  finish-Finished w' s (o, at, rest) =
      let m = Settled-Matched (start e i c pool) ls i c w' s (o, at, rest) in
      let trash : FixedQueue.to_list w'.trash_q
          ≡ pointers (filled c.quantity (crossing e.world.book c ls)) =
        m.trash
        ∙ ap
            (λ n.
              FixedQueue.collect e.world.trash_q.slots 0 n
              ++ pointers (filled c.quantity (crossing e.world.book c ls)))
            clean in
      let before : MatchingEngine = record (enter i pool e) { world = w' } in
      let after = release_all (FixedQueue.to_list w'.trash_q) before in
      let (r, there) : OnlyReleased before after × (after.world.orders i ≡ w'.orders i) =
        subst
          (λ l.
            OnlyReleased before (release_all l before)
            × ((release_all l before).world.orders i ≡ w'.orders i))
          (sym trash)
          (release_all-OnlyReleased i c.quantity (crossing e.world.book c ls) before out) in
      let swept = empty_trash before in
      let last = release_order-OnlyReleased i (o.quantity == 0) swept in
      let e' = if o.quantity == 0 then release_order (some i) swept else swept in
      let whole : e' ≡ record before {
        pool = e'.pool;
        world = record w' { orders = e'.world.orders; trash_q = FixedQueue.clear w'.trash_q };
      } =
        last.rest
        ∙ ap
            (λ (x : MatchingEngine). record x {
              pool = e'.pool;
              world = record x.world {
                orders = e'.world.orders;
                trash_q = FixedQueue.clear x.world.trash_q;
              };
            })
            r.rest in
      record {
        world = w';
        settled = s;
        left = o;
        at = at;
        rest = rest;
        trash = trash;
        answer = close_lem i swept o (there ∙ at);
        submitted = record {
          exec = ap (λ (x : MatchingEngine). FixedQueue.to_list x.world.exec_q) whole ∙ m.exec;
          trash = ap (λ (x : MatchingEngine). FixedQueue.size x.world.trash_q) whole;
          next_order_id = ap (λ (x : MatchingEngine). x.next_order_id) whole;
          total_orders = ap (λ (x : MatchingEngine). x.total_orders) whole;
          trades = ap (λ (x : MatchingEngine). x.world.book.total_trades % word64) whole ∙ m.trades;
          volume = ap (λ (x : MatchingEngine). x.world.book.total_volume % word64) whole ∙ m.volume;
          failures = last.failures ∙ r.failures ∙ failures;
          peak = last.peak ∙ r.peak ∙ peak;
        };
      }

  pub finish_lem :
      {r : Outcome (Unit {0})}
      → Returns
          (λ _ w'.
            Settled (start e i c pool) ls i c w'
            × ((o : Order) × (w'.orders i ≡ some o)
                × (o.quantity ≡ c.quantity - total (crossing e.world.book c ls))))
          r
      → Finished e ls i c pool (finish i (enter i pool e) r)
  finish_lem (returns (s, taker)) = finish-Finished _ s taker
