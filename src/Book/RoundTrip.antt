-- ===== src/Book/RoundTrip.antt =====
-- include/sequitur/core/OrderBook.hpp: `remove_order` takes back what `insert_order` does.
use sequitur.Prelude.{
  ℕ, ◌≤◌, ◌<◌, ◌≡◌, refl, some, List, [], ◌∷◌, ◌++◌, append-nil, update, update_self, word32, sym,
  ◌∙◌, ap, subst, ◌==◌, Bool-cases, inl, inr, eq_of_test,
}
use sequitur.Market.{Order, PriceLevel, max_price_ticks}
use sequitur.Machine.{World, ◌>>◌}
use sequitur.Machine.Returns.{Returns}
use sequitur.Machine.Returns
use sequitur.Book.{insert_order, remove_order}
use sequitur.Book.Chain.{Cell, Memory}
use sequitur.Book.Level.{IsLevel, Levels, IsBook, IsOut}
use sequitur.Book.Insert.{insert_order_lem}
use sequitur.Book.Remove.{remove_order_lem}

-- A level is fixed by its orders.
level_of_orders :
    {m m' : Memory} (p : ℕ) (pl pl' : PriceLevel) (xs : List Cell)
    → IsLevel m p pl xs
    → IsLevel m' p pl' xs
    → pl' ≡ pl
level_of_orders p pl pl' xs v v' = cc (v.head, v'.head, v.tail, v'.tail, v.volume, v'.volume)

back_again :
    (ls : Levels) (p : ℕ) (ys : List Cell) (q : ℕ) → update (update ls p ys) p (ls p ++ []) q ≡ ls q
back_again ls p ys q = elim (Bool-cases (q == p)) [
  | inl hit ↦ rw hit (append-nil (ls p) ∙ ap ls (sym (eq_of_test q p hit)))
  | inr miss ↦ rw miss refl
]

module _ (w : World) (ls : Levels) (i : ℕ) (o : Order) (b : IsBook w ls)
    (in_range : o.price ≤ max_price_ticks) (small : o.quantity < word32) (out : IsOut i ls) where
  -- Let the book hold the orders `ls`, let slot `i` hold the order `o` and be no resting order's,
  -- and let the price of `o` be at most the highest price and its quantity a `uint32_t`. Then
  -- `insert_order` and then `remove_order` on slot `i` return without a fault, the book again
  -- holds the orders of `ls`, and the head, the tail and the volume of every level are what they
  -- were.
  pub insert-remove :
      w.orders i ≡ some o
      → Returns
          (λ _ w'.
            IsBook w' ls × ((p : ℕ) → p ≤ max_price_ticks → w'.book.levels p ≡ w.book.levels p))
          ((insert_order (some i) >> remove_order (some i)) w)
  insert-remove e = Returns.bind (insert_order_lem w ls i o b in_range small out e) λ _ mid l.
      let p = o.price in
      let ys = ls p ++ (i, o) ∷ [] in
      let ls' = update ls p ys in
      let here = update_self ls p ys in
      Returns.mono
        (remove_order_lem mid ls' (ls p) i o [] in_range here (λ q h ne. l.book q h)
          (subst (IsLevel mid.orders p (mid.book.levels p)) here (l.book p in_range)))
        λ _ w' r.
          let book : IsBook w' ls = λ q h.
            subst (IsLevel w'.orders q (w'.book.levels q)) (back_again ls p ys q) (r.book q h) in
          (
            book,
            λ q h. level_of_orders q (w.book.levels q) (w'.book.levels q) (ls q) (b q h) (book q h),
          )
