-- ===== src/Book/Remove.antt =====
-- `OrderBook::remove_order`: the order leaves its price level, wherever in it it stands.
use sequitur.Prelude.{
  ℕ, ◌≤◌, ◌<◌, ◌≡◌, refl, true, false, none, some, List, [], ◌∷◌, ◌++◌, arith, update, update_self,
  update_ne, word32, sym, ◌∙◌, ap,
}
use sequitur.Market.{Order, max_price_ticks}
use sequitur.Machine.{World}
use sequitur.Machine.Returns
use sequitur.Machine.Returns.{Returns, returns, load-step, modify-last, set_level-last}
use sequitur.Book.{sub32, unlink_prev, unlink_next, remove_order}
use sequitur.Book.Chain.{
  Cell, Chain, Disjoint, has, first, last, last_slot, linked, has-append, first-append,
  Chain-append, Chain-Split, Chain-set_end, Chain-set_start, has-last_slot, ne_last, Chain-same,
  Disjoint-symm, last-append, last-some,
}
use sequitur.Book.Level.{
  Fits, total-append, IsLevel, Levels, IsBook, IsFrame, Touched, modify-Touched, set_level-Touched,
  price_of_has, IsBook-update, Touched-trans, Fits-Split, Fits-append, total-cons,
}

module _ (p : ℕ) (ls : Levels) (in_range : p ≤ max_price_ticks) (w : World)
    (frame : IsFrame w p ls) where
  -- What a test of `remove_order` leaves behind, when it changes the orders `xs` at most.
  record Unlinked (xs : List Cell) (w' : World) : Type 0 where
    touched : Touched w p ls w'
    same : (a : ℕ) → has a xs ≡ false → w'.orders a ≡ w.orders a

  unlink_prev-Unlinked :
      (xs : List Cell) (s : ℕ) (o : Order)
      → o.price ≡ p
      → o.prev_order ≡ last none xs
      → Chain w.orders none (some s) xs
      → Fits p xs
      → ((a : ℕ) → has a xs ≡ true → has a (ls p) ≡ true)
      → (w.book.levels p).head ≡ first (some s) xs
      → Returns
          (λ _ w'.
            Unlinked xs w'
            × Chain w'.orders none o.next_order xs
            × ((w'.book.levels p).head ≡ first o.next_order xs)
            × ((w'.book.levels p).tail ≡ (w.book.levels p).tail))
          (unlink_prev o w)
  unfolding unlink_prev
  unlink_prev-Unlinked [] s o at_p link c f inside head =
      rw (link, at_p)
        (set_level-last p _ _ in_range (
          record { touched = set_level-Touched w p ls frame _ refl; same = λ a out. refl },
          tt,
          ap (λ l. l.head) (update_self w.book.levels p _),
          ap (λ l. l.tail) (update_self w.book.levels p _),
        ))
  unlink_prev-Unlinked ((t, x) ∷ xs) s o at_p link c f inside head =
      let (y, at, c') = Chain-set_end w.orders none (some s) t x xs o.next_order c in
      let last_in = has-last_slot t x xs in
      rw link (
        modify-last (last_slot t xs) _ _ at (
          record {
            touched =
                modify-Touched w p ls frame (last_slot t xs) y _ at
                  (price_of_has w.orders none (some s) p ((t, x) ∷ xs) _ y c f at last_in)
                  (inside _ last_in);
            same = λ a out. update_ne w.orders _ a _ (ne_last a t x xs out);
          },
          c',
          head,
          refl,
        ))

  unlink_next-Unlinked :
      (ys : List Cell) (s : ℕ) (o : Order)
      → o.price ≡ p
      → o.next_order ≡ first none ys
      → Chain w.orders (some s) none ys
      → Fits p ys
      → ((a : ℕ) → has a ys ≡ true → has a (ls p) ≡ true)
      → (w.book.levels p).tail ≡ last (some s) ys
      → Returns
          (λ _ w'.
            Unlinked ys w'
            × Chain w'.orders o.prev_order none ys
            × ((w'.book.levels p).tail ≡ last o.prev_order ys)
            × ((w'.book.levels p).head ≡ (w.book.levels p).head))
          (unlink_next o w)
  unfolding unlink_next
  unlink_next-Unlinked [] s o at_p link c f inside tail =
      rw (link, at_p)
        (set_level-last p _ _ in_range (
          record { touched = set_level-Touched w p ls frame _ refl; same = λ a out. refl },
          tt,
          ap (λ l. l.tail) (update_self w.book.levels p _),
          ap (λ l. l.head) (update_self w.book.levels p _),
        ))
  unlink_next-Unlinked ((t, x) ∷ ys) s o at_p link c f inside tail =
      let first_in : has t ((t, x) ∷ ys) ≡ true = ground arith in
      rw link (
        modify-last t _ _ c.0 (
          record {
            touched =
                modify-Touched w p ls frame t (linked x (some s) (first none ys)) _ c.0 f.0
                  (inside t first_in);
            same = λ a out. update_ne w.orders t a _ (ground arith);
          },
          Chain-set_start w.orders (some s) none t x ys o.prev_order c,
          tail,
          refl,
        ))

-- What `remove_order` leaves behind.
pub record Removed (w : World) (p : ℕ) (ls : Levels) (xs : List Cell) (w' : World) : Type 0 where
  pub book : IsBook w' (update ls p xs)
  pub others : (a : ℕ) → has a (ls p) ≡ false → w'.orders a ≡ w.orders a
  pub rest : w' ≡ record w { orders = w'.orders; book = record w.book { levels = w'.book.levels } }

module _ (w : World) (ls : Levels) (xs : List Cell) (s : ℕ) (o : Order) (ys : List Cell)
    (in_range : o.price ≤ max_price_ticks) (here : ls o.price ≡ xs ++ (s, o) ∷ ys)
    (frame : IsFrame w o.price ls)
    (v : IsLevel w.orders o.price (w.book.levels o.price) (xs ++ (s, o) ∷ ys)) where
  Touched-Removed :
      (fin : World)
      → Touched w o.price ls fin
      → Chain fin.orders none none (xs ++ ys)
      → (fin.book.levels o.price).head ≡ first none (xs ++ ys)
      → (fin.book.levels o.price).tail ≡ last none (xs ++ ys)
      → Removed w o.price ls (xs ++ ys) (record fin {
        book = record fin.book {
          levels = update fin.book.levels o.price (record (fin.book.levels o.price) {
            volume = sub32 (fin.book.levels o.price).volume o.quantity;
          });
        };
      })
  Touched-Removed fin t c head tail =
      let p = o.price in
      let (f, g) = Fits-Split p xs ((s, o) ∷ ys) v.fits in
      let small : o.quantity < word32 = g.1 in
      record {
        book =
            IsBook-update fin.orders fin.book.levels ls p _ (xs ++ ys)
              (record {
                head = head;
                tail = tail;
                chain = c;
                fits = Fits-append p xs ys f g.2;
                volume =
                    rw (t.volume, v.volume)
                      (omega (
                        arith,
                        total-append xs ((s, o) ∷ ys),
                        total-append xs ys,
                        total-cons s o ys,
                      ));
              })
              t.frame;
        others = t.others;
        rest =
            ap
              (λ (x : World). record x {
                book = record x.book {
                  levels = update fin.book.levels p (record (fin.book.levels p) {
                    volume = sub32 (fin.book.levels p).volume o.quantity;
                  });
                };
              })
              t.rest;
      }

  -- Let the level at the price of the order `o`, which is at most the highest price, hold the
  -- orders `xs`, then `o` in slot `s`, then `ys`, and let the other levels hold the orders of
  -- `ls`. Then `remove_order` on slot `s` returns without a fault: the book holds `xs` and then
  -- `ys` at that price and the orders of `ls` at the others; slots that held no order of that
  -- price are untouched; and nothing but memory and the levels has changed.
  pub remove_order_lem :
      Returns (λ _ w'. Removed w o.price ls (xs ++ ys) w') (remove_order (some s) w)
  unfolding remove_order
  remove_order_lem =
      let p = o.price in
      let q = linked o (last none xs) (first none ys) in
      let (f, g) = Fits-Split p xs ((s, o) ∷ ys) v.fits in
      let parts = Chain-Split w.orders none none xs ((s, o) ∷ ys) v.chain in
      let apart : Disjoint xs ys = λ a h. ground (arith, parts.apart a h) in
      let inside : (a : ℕ) → has a xs ≡ true → has a (ls p) ≡ true =
        λ a h. rw (here, has-append a xs ((s, o) ∷ ys), h) in
      let inside' : (a : ℕ) → has a ys ≡ true → has a (ls p) ≡ true =
        λ a h. rw (here, has-append a xs ((s, o) ∷ ys)) (ground arith) in
      let untouched = Disjoint-symm xs ys apart in
      load-step s _ _ parts.back.0 (
        Returns.bind
          (unlink_prev-Unlinked p ls in_range w frame xs s q refl refl parts.front f inside
            (v.head ∙ first-append none xs ((s, o) ∷ ys)))
          λ _ mid (u, front, head, tail).
            Returns.bind
              (unlink_next-Unlinked p ls in_range mid u.touched.frame ys s q refl refl
                (Chain-same w.orders mid.orders (some s) none ys (λ a h. u.same a (untouched a h))
                  parts.back.2)
                g.2 inside'
                (tail ∙ v.tail ∙ last-append none xs ((s, o) ∷ ys) ∙ sym (last-some s ys)))
              λ _ fin (u', back, tail', head'). set_level-last p _ _ in_range (
                Touched-Removed fin (Touched-trans u.touched u'.touched)
                  (Chain-append fin.orders none none xs ys
                    (Chain-same mid.orders fin.orders none (first none ys) xs
                      (λ a h. u'.same a (apart a h)) front)
                    back apart)
                  (head' ∙ head ∙ sym (first-append none xs ys))
                  (tail' ∙ sym (last-append none xs ys))))
