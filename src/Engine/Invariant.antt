-- ===== src/Engine/Invariant.antt =====
-- The slots of the pool that are in use are those of the resting orders: `submit_order` neither leaks
-- a slot nor frees one that an order rests in.
use mathlib.Core.List.{Mem, Nodup-append, perm_middle, perm-cons, mem-cons_self, mem-cons_of_mem}
use mathlib.Core.List.Perm
use sequitur.Prelude.{
  ℕ, ◌+◌, length, length-append, length-Perm, ◌-◌, ◌≤◌, ◌≡◌, refl, true, Bool, inl, inr, some, List,
  [], ◌∷◌, ◌++◌, arith, ◌==◌, if◌then◌else◌, Bool-cases, sym, ◌∙◌, ap, subst,
}
use sequitur.FixedQueue
use sequitur.Market.{Order, max_price_ticks}
use sequitur.Machine.{World, OrderBook}
use sequitur.ObjectPool
use sequitur.ObjectPool.Slots.{IsPool, IsPool-Perm, IsPool-Nodup, release-IsPool}
use sequitur.Book.{raise_best}
use sequitur.Book.Level.{Levels, IsBook, IsOut, IsLevel-free, total}
use sequitur.Book.Fill.{filled}
use sequitur.Book.Sweep.{pointers}
use sequitur.Book.Cross.{crossing}
use sequitur.Book.Match.{settle, Settled}
use sequitur.Book.Resting.{resting, resting-IsOut}
use sequitur.Book.Resting.Crossing.{crossing-Perm, settle-Perm}
use sequitur.Engine.{MatchingEngine, release_order, release_all, empty_trash, enter}
use sequitur.Engine.Finish.{start, closed}

-- The engine between two calls, when its book holds the orders `ls`.
pub record IsEngine (e : MatchingEngine) (ls : Levels) : Type 0 where
  pub pool : IsPool e.pool (resting ls)
  pub book : IsBook e.world ls
  pub bid : e.world.book.best_bid ≤ max_price_ticks
  pub trash : FixedQueue.size e.world.trash_q ≡ 0

release_order-IsBook :
    (e : MatchingEngine) (ls : Levels) (i : ℕ)
    → IsBook e.world ls
    → IsOut i ls
    → IsBook (release_order (some i) e).world ls
unfolding release_order
release_order-IsBook e ls i b out p h = IsLevel-free i (b p h) (out p h)

release_all-IsBook :
    (d held : List ℕ) (e : MatchingEngine) (ls : Levels)
    → IsPool e.pool (d ++ held)
    → IsBook e.world ls
    → ((a : ℕ) → Mem a d → IsOut a ls)
    → IsPool (release_all (pointers d) e).pool held
      × IsBook (release_all (pointers d) e).world ls
      × ((release_all (pointers d) e).world.book ≡ e.world.book)
      × ((release_all (pointers d) e).pool.capacity ≡ e.pool.capacity)
unfolding release_all release_order ObjectPool.release
release_all-IsBook [] held e ls v b out = (v, b, refl, refl)
release_all-IsBook (s ∷ d) held e ls v b out =
    let first = release_order (some s) e in
    release_all-IsBook d held first ls (release-IsPool e.pool s (d ++ held) v)
      (release_order-IsBook e ls s b (out s mem-cons_self)) (λ a m. out a (mem-cons_of_mem s m))

raised_bid :
    (done : Bool) (side price : ℕ) (b : OrderBook)
    → price ≤ max_price_ticks
    → b.best_bid ≤ max_price_ticks
    → (if done then b else raise_best side price b).best_bid ≤ max_price_ticks
unfolding raise_best
raised_bid done side price b h k = ground arith

module _ (e : MatchingEngine) (ls : Levels) (i : ℕ) (c : Order) (w : World)
    (s : Settled (start e i c (ObjectPool.acquire e.pool).1) ls i c w)
    (v : IsPool (ObjectPool.acquire e.pool).1 (i ∷ resting ls))
    (in_range : c.price ≤ max_price_ticks) (bid : e.world.book.best_bid ≤ max_price_ticks) where
  abbrev left : Order
  left = record c { quantity = c.quantity - total (crossing e.world.book c ls) }

  abbrev gone : List ℕ
  gone = filled c.quantity (crossing e.world.book c ls)

  abbrev after : Levels
  after = settle i left s.crossed.kept

  -- The filled orders, the incoming one, and the orders that are kept.
  slots_after : IsPool (ObjectPool.acquire e.pool).1 (gone ++ i ∷ resting s.crossed.kept)
  unfolding enter
  slots_after =
      let kept = resting s.crossed.kept in
      let same =
        crossing-Perm e.world.book c ls s.crossed.kept in_range bid s.crossed.left
          s.crossed.others in
      IsPool-Perm _ (i ∷ resting ls) (gone ++ i ∷ kept)
        (Perm.trans ((perm-cons i).1 (Perm.symm same)) (Perm.symm (perm_middle gone kept))) v

  gone-IsOut : (a : ℕ) → Mem a gone → IsOut a after
  gone-IsOut a m =
      let kept = resting s.crossed.kept in
      let apart = (Nodup-append.0 (IsPool-Nodup _ (gone ++ i ∷ kept) slots_after)).2 in
      resting-IsOut after a (λ inside.
        apart a m (among ((Perm.mem_iff (settle-Perm s.crossed.kept i left in_range)).1 inside)))
    where
      among :
          Mem a (if left.quantity == 0 then resting s.crossed.kept else i ∷ resting s.crossed.kept)
          → Mem a (i ∷ resting s.crossed.kept)
      among h = elim (Bool-cases (left.quantity == 0)) [
        | inl done ↦ mem-cons_of_mem i (rw done at h)
        | inr more ↦ rw more at h
      ]

  filled-IsOut : (left.quantity == 0) ≡ true → IsOut i after
  unfolding settle
  filled-IsOut done = rw done s.crossed.out

  -- At most one order more rests.
  pub length-settled : length (resting after) ≤ length (resting ls) + 1
  length-settled =
      let size = length-Perm (settle-Perm s.crossed.kept i left in_range) in
      let slots = length-append gone (i ∷ resting s.crossed.kept) in
      let total = slots_after.total in
      let before = v.total in
      elim (Bool-cases (left.quantity == 0)) [
        | inl done ↦ let n = rw done at size in omega arith
        | inr more ↦ let n = rw more at size in omega arith
      ]

  -- The engine that `submit_order` leaves, whose book is that of `w`.
  pub closed-IsEngine :
      (o : Order)
      → o.quantity ≡ left.quantity
      → FixedQueue.to_list w.trash_q ≡ pointers gone
      → let e' = closed i o (record (enter i (ObjectPool.acquire e.pool).1 e) { world = w }) in
        IsEngine e' after
        × (e'.world.book ≡ w.book)
        × (e'.pool.capacity ≡ (ObjectPool.acquire e.pool).1.capacity)
  unfolding ObjectPool.release enter closed empty_trash FixedQueue.size FixedQueue.clear
      release_order
  closed-IsEngine o rest trash =
      let before : MatchingEngine = record (enter i (ObjectPool.acquire e.pool).1 e) {
        world = w;
      } in
      let (v', b', same, capacity) =
        subst
          (λ l.
            IsPool (release_all l before).pool (i ∷ resting s.crossed.kept)
            × IsBook (release_all l before).world after
            × ((release_all l before).world.book ≡ w.book)
            × ((release_all l before).pool.capacity ≡ (ObjectPool.acquire e.pool).1.capacity))
          (sym trash)
          (release_all-IsBook gone (i ∷ resting s.crossed.kept) before after slots_after s.book
            gone-IsOut) in
      let swept = empty_trash before in
      let joined = settle-Perm s.crossed.kept i left in_range in
      let test : (o.quantity == 0) ≡ (left.quantity == 0) = ap (λ n. n == 0) rest in
      let bid' : w.book.best_bid ≤ max_price_ticks =
        subst (λ n. n ≤ max_price_ticks) (sym (ap (λ (x : World). x.book.best_bid) s.rest))
          (raised_bid (left.quantity == 0) c.side c.price s.mid.book in_range
            (omega (arith, s.crossed.bid_falls, bid))) in
      let bid'' : swept.world.book.best_bid ≤ max_price_ticks =
        subst (λ (x : OrderBook). x.best_bid ≤ max_price_ticks) (sym same) bid' in
      elim (Bool-cases (left.quantity == 0)) [
        | inl done ↦
            subst
              (λ t.
                IsEngine (if t then release_order (some i) swept else swept) after
                × ((if t then release_order (some i) swept else swept).world.book ≡ w.book)
                × ((if t then release_order (some i) swept else swept).pool.capacity
                    ≡ (ObjectPool.acquire e.pool).1.capacity))
              (sym (test ∙ done))
              (
                record {
                  pool =
                      IsPool-Perm _ (resting s.crossed.kept) (resting after) (rw done at joined)
                        (release-IsPool swept.pool i (resting s.crossed.kept) v');
                  book = release_order-IsBook swept after i b' (filled-IsOut done);
                  bid = bid'';
                  trash = refl;
                },
                same,
                capacity,
              )
        | inr more ↦
            subst
              (λ t.
                IsEngine (if t then release_order (some i) swept else swept) after
                × ((if t then release_order (some i) swept else swept).world.book ≡ w.book)
                × ((if t then release_order (some i) swept else swept).pool.capacity
                    ≡ (ObjectPool.acquire e.pool).1.capacity))
              (sym (test ∙ more))
              (
                record {
                  pool =
                      IsPool-Perm _ (i ∷ resting s.crossed.kept) (resting after) (rw more at joined)
                        v';
                  book = b';
                  bid = bid'';
                  trash = refl;
                },
                same,
                capacity,
              )
      ]
