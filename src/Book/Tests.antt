-- ===== src/Book/Tests.antt =====
-- The theorems on `OrderBook` at a book with orders at price 5.
use sequitur.Prelude.{
  update_ne, refl, none, some, List, [], ◌∷◌, arith, ◌==◌, update, Bool-cases, inl, inr, ◌≤◌, ◌≡◌,
  ℕ,
}
use sequitur.FixedQueue
use sequitur.Machine.{World, ◌>>◌}
use sequitur.Machine.Returns.{Returns}
use sequitur.Book.{insert_order, remove_order, match_order}
use sequitur.Book.Chain.{Cell, linked}
use sequitur.Book.Level.{IsLevel, IsBook, IsOut, total}
use sequitur.Book.RoundTrip.{insert-remove}
use sequitur.Market.{max_price_ticks}
use sequitur.Book.Sample.{
  ask, bid, one_level, world, one_level-IsBook, incoming_at, one_ask, one_ask-IsBook,
}
use sequitur.Book.Buy.{asks}
use sequitur.Book.Cross.{reach, crossing}
use sequitur.Book.Remove.{Removed, remove_order_lem}
use sequitur.Book.Uncrossed.{Uncrossed, match_order-IsUncrossed}
use sequitur.Book.Match.{Matched, match_order_lem}

one_ask-IsOut : IsOut 1 one_ask
one_ask-IsOut p h = elim (Bool-cases (p == 5)) [ inl hit ↦ rw hit refl | inr miss ↦ rw miss refl ]

match_order_example :
    Returns
      (λ _ w'. Matched (incoming_at bid) one_ask 1 bid w')
      (match_order 3 (some 1) (incoming_at bid))
unfolding reach crossing asks FixedQueue.size FixedQueue.create
match_order_example =
    match_order_lem 3 (incoming_at bid) one_ask 1 bid (one_ask-IsBook bid) one_ask-IsOut refl
      (omega arith) (omega arith) (omega arith) (omega arith) (omega arith) (omega arith)

-- Three asks rest at price 5.
abbrev three : List Cell
three = (0, ask 7 3) ∷ (1, ask 8 4) ∷ (2, ask 9 5) ∷ []

abbrev three_asks : World
three_asks =
    world
      (update
        (update (update (λ _. none) 0 (some (linked (ask 7 3) none (some 1)))) 1
          (some (linked (ask 8 4) (some 0) (some 2))))
        2 (some (linked (ask 9 5) (some 1) none)))
      (record { head = some 0; tail = some 2; volume = 12 })

three-IsLevel : IsLevel three_asks.orders 5 (three_asks.book.levels 5) three
unfolding total
three-IsLevel = record {
  head = refl;
  tail = refl;
  chain = (refl, refl, (refl, refl, (refl, refl, tt)));
  fits = (refl, omega arith, (refl, omega arith, (refl, omega arith, tt)));
  volume = refl;
}

remove_order_example :
    Returns
      (λ _ w'. Removed three_asks 5 (one_level three) ((0, ask 7 3) ∷ (2, ask 9 5) ∷ []) w')
      (remove_order (some 1) three_asks)
remove_order_example =
    remove_order_lem three_asks (one_level three) ((0, ask 7 3) ∷ []) 1 (ask 8 4)
      ((2, ask 9 5) ∷ []) (omega arith) refl
      (λ q h ne. one_level-IsBook three_asks.orders _ three three-IsLevel q h) three-IsLevel

match_order-IsUncrossed_example :
    Returns (λ _ w'. Uncrossed w') (match_order 3 (some 1) (incoming_at bid))
unfolding reach crossing asks FixedQueue.size FixedQueue.create
match_order-IsUncrossed_example =
    match_order-IsUncrossed 3 (incoming_at bid) one_ask 1 bid (one_ask-IsBook bid)
      (record {
        apart = omega arith;
        gap = λ p over under. update_ne (λ _. []) 5 p _ (omega arith);
      })
      one_ask-IsOut refl (inl refl) (omega arith) (omega arith) (omega arith) (omega arith)
      (omega arith) (omega arith) (omega arith)

insert-remove_example :
    Returns
      (λ _ w'.
        IsBook w' one_ask
        × ((p : ℕ)
            → p ≤ max_price_ticks
            → w'.book.levels p ≡ (incoming_at (ask 8 4)).book.levels p))
      ((insert_order (some 1) >> remove_order (some 1)) (incoming_at (ask 8 4)))
insert-remove_example =
    insert-remove (incoming_at (ask 8 4)) one_ask 1 (ask 8 4) (one_ask-IsBook (ask 8 4))
      (omega arith) (omega arith) one_ask-IsOut refl
