-- ===== src/Engine/Tests.antt =====
-- The theorems on the engine, at a pool of one slot and at one of two.
use sequitur.Prelude.{
  List, length, ltb, some, none, inl, inr, ◌+◌, ◌%◌, ◌≡◌, refl, false, true, [], ◌∷◌, arith, word64,
}
use sequitur.FixedQueue
use sequitur.Market.{blank}
use sequitur.Book.Sample.{one_ask}
use sequitur.Book.Buy.{asks}
use sequitur.Book.Cross.{reach, crossing}
use sequitur.Engine.{MatchingEngine, answered, submit_order, fill_in, create, clear_execution_queue}
use sequitur.Engine.Submit.{submit_order_exhausted, submit_order_lem}
use sequitur.Engine.Finish.{Submitted}
use sequitur.Engine.Idle.{Request, IsIdle, create-IsIdle}
use sequitur.Engine.Session.{submit_all, submit_all_lem, submit_order-IsIdle}
use sequitur.Book.Sample.{blank_trade}
use sequitur.Book.Resting.{resting}
use sequitur.Engine.Sample.{engine, full-IsPool, roomy-IsPool, engine-IsBook, one_ask-IsHeld}

submit_order_exhausted_example :
    submit_order 3 0 5 2 9 (engine 0)
    ≡ answered false
        (record (engine 0) { pool = record (engine 0).pool { alloc_failures = (0 + 1) % word64 } })
submit_order_exhausted_example =
    submit_order_exhausted 3 0 5 2 9 (engine 0) (0 ∷ []) full-IsPool refl

submit_order_example :
    (e' : MatchingEngine) × (submit_order 3 0 5 2 9 (engine 1) ≡ answered true e')
    × Submitted (engine 1) one_ask (fill_in 0 5 2 9 2 blank) e'
unfolding reach crossing asks FixedQueue.size FixedQueue.create fill_in
submit_order_example =
    submit_order_lem 3 0 5 2 9 (engine 1) one_ask (0 ∷ []) roomy-IsPool (omega arith) engine-IsBook
      one_ask-IsHeld (omega arith) (omega arith) (omega arith) refl (omega arith) (omega arith)
      (omega arith)

abbrev requests : List Request
requests =
    record { side = 1; price = 5; quantity = 3; trader_id = 7 }
    ∷ record { side = 0; price = 6; quantity = 2; trader_id = 9 }
    ∷ record { side = 0; price = 4; quantity = 1; trader_id = 8 }
    ∷ []

submit_all_example :
    (e' : MatchingEngine) × (submit_all 1000100 requests (create (λ _. blank_trade) (λ _. none) 2)
      ≡ some e')
    × IsIdle 2 e'
submit_all_example =
    submit_all_lem 1000100 2 (omega arith) (omega arith) (λ _. blank_trade) (λ _. none) requests
      (
        record { side = inr refl; low = omega arith; high = omega arith; small = omega arith },
        (
          record { side = inl refl; low = omega arith; high = omega arith; small = omega arith },
          (
            record { side = inl refl; low = omega arith; high = omega arith; small = omega arith },
            tt,
          ),
        ),
      )

new_engine-IsIdle : IsIdle 2 (create (λ _. blank_trade) (λ _. none) 2)
new_engine-IsIdle = (create-IsIdle (λ _. blank_trade) (λ _. none) 2 (omega arith)).0

submit_order-IsIdle_example :
    (e' : MatchingEngine) × (submit_order 1000100 1 5 3 7 (create (λ _. blank_trade) (λ _. none) 2)
      ≡ answered (ltb (length (resting new_engine-IsIdle.levels)) 2) e')
    × IsIdle 2 (clear_execution_queue e')
submit_order-IsIdle_example =
    submit_order-IsIdle 1000100 2 (omega arith) (omega arith)
      (create (λ _. blank_trade) (λ _. none) 2)
      (record { side = 1; price = 5; quantity = 3; trader_id = 7 }) new_engine-IsIdle
      (record { side = inr refl; low = omega arith; high = omega arith; small = omega arith })
