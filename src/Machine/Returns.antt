-- ===== src/Machine/Returns.antt =====
-- Total correctness of a command: no fault, enough fuel, and a postcondition; and what each command
-- does where it does not fault.
use sequitur.Prelude.{ℕ, ◌≤◌, ◌<◌, ◌≡◌, some, arith, update, true, leb}
use sequitur.FixedQueue
use sequitur.Market.{Ptr, Order, Trade, PriceLevel, max_price_ticks, queue_capacity}
use sequitur.Machine.{
  World, Outcome, ok, Cmd, and_then, load, modify, get_level, set_level, push_exec, push_trash,
}

pub data Returns {A : Type 0} (P : A → World → Type 0) : Outcome A → Type 0 where
  returns : {a : A} {w : World} → P a w → Returns P (ok a w)

module _ {A : Type 0} {P : A → World → Type 0} where
  pub bind :
      {B : Type 0} {Q : B → World → Type 0} {r : Outcome A} {k : A → Cmd B}
      → Returns P r
      → ((a : A) (w : World) → P a w → Returns Q (k a w))
      → Returns Q (and_then r k)
  bind (returns p) next = next _ _ p

  pub mono :
      {Q : A → World → Type 0} {r : Outcome A}
      → Returns P r
      → ((a : A) (w : World) → P a w → Q a w)
      → Returns Q r
  mono (returns p) weaken = returns (weaken _ _ p)

-- Each rule runs one command: `k` is what comes after it.
module _ {B : Type 0} {P : B → World → Type 0} where
  pub load-step :
      (i : ℕ) {o : Order} (w : World) (k : Order → Cmd B)
      → w.orders i ≡ some o
      → Returns P (k o w)
      → Returns P (and_then (load (some i) w) k)
  unfolding load
  load-step i w k e r = rw (load, e) r

  pub modify-step :
      (i : ℕ) {o : Order} (f : Order → Order) (w : World) (k : Unit {0} → Cmd B)
      → w.orders i ≡ some o
      → Returns P (k tt (record w { orders = update w.orders i (some (f o)) }))
      → Returns P (and_then (modify (some i) f w) k)
  unfolding modify
  modify-step i f w k e r = rw (modify, e) r

  pub get_level-step :
      (p : ℕ) (w : World) (k : PriceLevel → Cmd B)
      → p ≤ max_price_ticks
      → Returns P (k (w.book.levels p) w)
      → Returns P (and_then (get_level p w) k)
  unfolding get_level
  get_level-step p w k h r =
      let e : leb p max_price_ticks ≡ true = ground arith in rw (get_level, e) r

  pub set_level-step :
      (p : ℕ) (f : PriceLevel → PriceLevel) (w : World) (k : Unit {0} → Cmd B)
      → p ≤ max_price_ticks
      → Returns P (
          k tt (record w {
            book = record w.book { levels = update w.book.levels p (f (w.book.levels p)) };
          }))
      → Returns P (and_then (set_level p f w) k)
  unfolding set_level
  set_level-step p f w k h r =
      let e : leb p max_price_ticks ≡ true = ground arith in rw (set_level, e) r

  pub push_exec-step :
      (t : Trade) (w : World) (k : Unit {0} → Cmd B)
      → FixedQueue.size w.exec_q < queue_capacity
      → Returns P (k tt (record w { exec_q = FixedQueue.append t w.exec_q }))
      → Returns P (and_then (push_exec t w) k)
  unfolding push_exec
  push_exec-step t w k h r = rw (push_exec, FixedQueue.push-append queue_capacity t w.exec_q h) r

  pub push_trash-step :
      (p : Ptr) (w : World) (k : Unit {0} → Cmd B)
      → FixedQueue.size w.trash_q < queue_capacity
      → Returns P (k tt (record w { trash_q = FixedQueue.append p w.trash_q }))
      → Returns P (and_then (push_trash p w) k)
  unfolding push_trash
  push_trash-step p w k h r = rw (push_trash, FixedQueue.push-append queue_capacity p w.trash_q h) r

pub modify-last :
    {P : Unit {0} → World → Type 0} (i : ℕ) {o : Order} (f : Order → Order) (w : World)
    → w.orders i ≡ some o
    → P tt (record w { orders = update w.orders i (some (f o)) })
    → Returns P (modify (some i) f w)
unfolding modify
modify-last i f w e r = rw (modify, e) (returns r)

pub set_level-last :
    {P : Unit {0} → World → Type 0} (p : ℕ) (f : PriceLevel → PriceLevel) (w : World)
    → p ≤ max_price_ticks
    → P tt (record w {
      book = record w.book { levels = update w.book.levels p (f (w.book.levels p)) };
    })
    → Returns P (set_level p f w)
unfolding set_level
set_level-last p f w h r =
    let e : leb p max_price_ticks ≡ true = ground arith in rw (set_level, e) (returns r)
