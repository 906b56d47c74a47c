-- ===== src/Book/Insert.antt =====
-- `OrderBook::insert_order`: the order joins the back of its price level.
use sequitur.Prelude.{
  ℕ, ◌+◌, ◌%◌, ◌≤◌, ◌<◌, ◌≡◌, refl, ◌≢◌, false, none, some, List, [], ◌∷◌, ◌++◌, arith, ◌==◌,
  update, update_self, update_ne, word32, Bool-cases, inl, inr, sym, ◌∙◌, ap,
}
use mathlib.Core.Bool.{false≢true}
use sequitur.Market.{Order, PriceLevel, max_price_ticks}
use sequitur.Machine.{World, OrderBook, set_book}
use sequitur.Machine.Returns
use sequitur.Machine.Returns.{
  Returns, returns, load-step, modify-step, modify-last, get_level-step, set_level-step,
}
use sequitur.Book.{link_order, raise_best, insert_order}
use sequitur.Book.Chain.{
  Cell, Memory, Chain, Disjoint, has, first, last, last_slot, linked, last-append, Chain-frame,
  Chain-append, Chain-set_end, has-last_slot, ne_last,
}
use sequitur.Book.Level.{
  total-append, Fits-append, IsLevel, Levels, IsBook, IsOut, IsLevel-frame, not_has_of_price,
  IsLevel-other, price_of_has, IsBook-update, total_one,
}

-- What `link_order` leaves behind: the order is the last of its level, whose volume is still the old
-- one, and no other level has changed.
record Linked (w : World) (i : ℕ) (o : Order) (xs : List Cell) (w' : World) : Type 0 where
  at : w'.orders i ≡ some (linked o (last none xs) none)
  chain : Chain w'.orders none none (xs ++ (i, o) ∷ [])
  head : (w'.book.levels o.price).head ≡ first none (xs ++ (i, o) ∷ [])
  tail : (w'.book.levels o.price).tail ≡ some i
  volume : (w'.book.levels o.price).volume ≡ (w.book.levels o.price).volume
  frame :
      (q : ℕ) (ys : List Cell)
      → q ≢ o.price
      → IsLevel w.orders q (w.book.levels q) ys
      → has i ys ≡ false
      → IsLevel w'.orders q (w'.book.levels q) ys
  rest : w' ≡ record w { orders = w'.orders; book = record w.book { levels = w'.book.levels } }

one-Disjoint : (i : ℕ) (o : Order) (xs : List Cell) → has i xs ≡ false → Disjoint xs ((i, o) ∷ [])
one-Disjoint i o xs out a h = elim (Bool-cases (a == i)) [
  | inl hit ↦
      let same : a ≡ i = ground arith in
      absurd (false≢true (sym out ∙ ap (λ b. has b xs) (sym same) ∙ h))
  | inr miss ↦ rw miss
]

module _ (w : World) (i : ℕ) (o : Order) (e : w.orders i ≡ some o)
    (in_range : o.price ≤ max_price_ticks) where
  link_order-Linked :
      (xs : List Cell)
      → IsLevel w.orders o.price (w.book.levels o.price) xs
      → has i xs ≡ false
      → Returns (λ _ w'. Linked w i o xs w') (link_order (some i) o.price w)
  unfolding link_order
  link_order-Linked [] v out =
      let half : Memory = update w.orders i (some (record o { prev_order = none })) in
      get_level-step o.price _ _ in_range (
        rw v.head (
          set_level-step o.price _ _ _ in_range (
            modify-step i _ _ _ e (
              modify-last i _ _ (update_self w.orders i _) (record {
                at = update_self half i _;
                chain = (update_self half i _, refl, tt);
                head = ap (λ l. l.head) (update_self w.book.levels o.price _);
                tail = ap (λ l. l.tail) (update_self w.book.levels o.price _);
                volume = ap (λ l. l.volume) (update_self w.book.levels o.price _);
                frame = λ q ys ne l out'.
                    IsLevel-other w.book.levels o.price _ ne
                      (IsLevel-frame i _ (IsLevel-frame i _ l out') out');
                rest = refl;
              })))))
  link_order-Linked ((s, x) ∷ xs) v out =
      let t = last_slot s xs in
      let (y, at, c) = Chain-set_end w.orders none none s x xs (some i) v.chain in
      let back : Memory = update w.orders t (some (record y { next_order = some i })) in
      let half : Memory = update back i (some (record o { prev_order = some t })) in
      let ne : i ≢ t = ne_last i s x xs out in
      let y_price : y.price ≡ o.price =
        price_of_has w.orders none none o.price ((s, x) ∷ xs) t y v.chain v.fits at
          (has-last_slot s x xs) in
      get_level-step o.price _ _ in_range (
        rw (v.head, v.tail)
          (modify-step t _ _ _ at (
            modify-step i _ _ _ (update_ne w.orders t i _ ne ∙ e) (
              set_level-step o.price _ _ _ in_range (
                modify-last i _ _ (update_self back i _) (record {
                  at = update_self half i _;
                  chain =
                      Chain-append _ none none ((s, x) ∷ xs) ((i, o) ∷ [])
                        (Chain-frame _ none (some i) ((s, x) ∷ xs) i _
                          (Chain-frame _ none (some i) ((s, x) ∷ xs) i _ c out) out)
                        (update_self half i _, refl, tt) (one-Disjoint i o ((s, x) ∷ xs) out);
                  head = ap (λ l. l.head) (update_self w.book.levels o.price _) ∙ v.head;
                  tail = ap (λ l. l.tail) (update_self w.book.levels o.price _);
                  volume = ap (λ l. l.volume) (update_self w.book.levels o.price _);
                  frame = λ q ys ne' l out'.
                      let apart = not_has_of_price t y l at (λ k. ne' (sym k ∙ y_price)) in
                      IsLevel-other w.book.levels o.price _ ne' (
                        IsLevel-frame i _ (IsLevel-frame i _ (IsLevel-frame t _ l apart) out')
                          out');
                  rest = refl;
                }))))))

-- What `insert_order` leaves behind.
pub record Inserted (w : World) (ls : Levels) (i : ℕ) (o : Order) (w' : World) : Type 0 where
  pub book : IsBook w' (update ls o.price (ls o.price ++ (i, o) ∷ []))
  pub at : w'.orders i ≡ some (linked o (last none (ls o.price)) none)
  pub rest : w' ≡ record w {
    orders = w'.orders;
    book = record (raise_best o.side o.price w.book) { levels = w'.book.levels };
  }

raise_best-levels :
    (side price : ℕ) (b : OrderBook) (pls : ℕ → PriceLevel)
    → raise_best side price (record b { levels = pls })
      ≡ record (raise_best side price b) { levels = pls }
unfolding raise_best
raise_best-levels side price b pls = ground arith

module _ (w : World) (ls : Levels) (i : ℕ) (o : Order) (b : IsBook w ls)
    (in_range : o.price ≤ max_price_ticks) (small : o.quantity < word32) (out : IsOut i ls) where
  Linked-Inserted :
      (mid : World)
      → Linked w i o (ls o.price) mid
      → Inserted w ls i o (record mid {
        book = raise_best o.side o.price (record mid.book {
          levels = update mid.book.levels o.price (record (mid.book.levels o.price) {
            volume = ((mid.book.levels o.price).volume + o.quantity) % word32;
          });
        });
      })
  Linked-Inserted mid l =
      let p = o.price in
      let xs = ls p ++ (i, o) ∷ [] in
      let pls = mid.book.levels in
      let old = b p in_range in
      let pl : PriceLevel = record (pls p) { volume = ((pls p).volume + o.quantity) % word32 } in
      let level : IsLevel mid.orders p pl xs = record {
        head = l.head;
        tail = l.tail ∙ sym (last-append none (ls p) ((i, o) ∷ []));
        chain = l.chain;
        fits = Fits-append p (ls p) ((i, o) ∷ []) old.fits (refl, small, tt);
        volume =
            rw (l.volume, old.volume)
              (omega (arith, total-append (ls p) ((i, o) ∷ []), total_one i o));
      } in
      rw raise_best-levels (record {
        book =
            IsBook-update mid.orders pls ls p pl xs level
              (λ q h ne. l.frame q (ls q) ne (b q h) (out q h));
        at = l.at;
        rest =
            ap
              (λ (u : World). record u {
                orders = mid.orders;
                book = record (raise_best o.side p u.book) { levels = update pls p pl };
              })
              l.rest
            ∙ ap
                (λ (c : OrderBook). record w {
                  orders = mid.orders;
                  book = record c { levels = update pls p pl };
                })
                (raise_best-levels o.side p w.book pls);
      })

  pub insert_order_lem :
      w.orders i ≡ some o → Returns (λ _ w'. Inserted w ls i o w') (insert_order (some i) w)
  unfolding insert_order set_book
  insert_order_lem e = load-step i _ _ e (
      Returns.bind
        (link_order-Linked w i o e in_range (ls o.price) (b o.price in_range)
          (out o.price in_range))
        λ _ mid l.
          load-step i _ _ l.at
            (set_level-step o.price _ _ _ in_range (returns (Linked-Inserted mid l))))
