-- ===== src/Book/Resting/Crossing.antt =====
-- How `OrderBook::match_order` changes the slots of the resting orders.
use mathlib.Core.List.{Perm, perm_append_comm, perm_middle}
use mathlib.Core.List.Perm
use sequitur.Prelude.{
  ℕ, ◌+◌, ◌-◌, ◌≤◌, ◌<◌, ◌≡◌, refl, ◌⊎◌, inl, inr, false, ◌&&◌, List, [], ◌∷◌, ◌++◌, append_assoc,
  append-nil, arith, leb, ◌==◌, if◌then◌else◌, update, update_self, update_ne, Bool-cases, sym, ◌∙◌,
  ap, ap₂, subst, subst₂,
}
use sequitur.Market.{Order, max_price_ticks}
use sequitur.Machine.{OrderBook}
use sequitur.Book.Chain.{Cell}
use sequitur.Book.Level.{Levels}
use sequitur.Book.Fill.{remaining, filled}
use sequitur.Book.Buy.{asks}
use sequitur.Book.Sell.{bids}
use sequitur.Book.Cross.{crossing, is_crossed, crossing_buy, crossing_sell, crossing_none}
use sequitur.Book.Match.{settle}
use sequitur.Book.Resting.{slots, resting, asks-same, bids-Perm, resting-split, slots-append}

-- Of the orders that a taker meets, the filled ones come first.
slots-remaining : (q : ℕ) (xs : List Cell) → slots xs ≡ filled q xs ++ slots (remaining q xs)
unfolding filled remaining
slots-remaining q [] = refl
slots-remaining q ((s, o) ∷ xs) = elim (Bool-cases (q == 0)) [
  | inl done ↦ rw done refl
  | inr more ↦ elim (Bool-cases (leb o.quantity q)) [
    | inl full ↦ rw (more, full) (ap (λ l. s ∷ l) (slots-remaining (q - o.quantity) xs))
    | inr part ↦ rw (more, part) refl
  ]
]

-- The three ranges that a sweep of the prices from `lo` up leaves: it changes the middle one.
swept-Perm :
    (ls kept : Levels) (q lo n : ℕ) (met left : List Cell)
    → lo + n ≤ max_price_ticks + 1
    → Perm (slots met) (slots (asks ls lo n))
    → Perm (slots left) (slots (asks kept lo n))
    → left ≡ remaining q met
    → ((p : ℕ) → (p < lo) ⊎ (lo + n ≤ p) → kept p ≡ ls p)
    → Perm (filled q met ++ resting kept) (resting ls)
swept-Perm ls kept q lo n met left h before after e others =
    let m = max_price_ticks + 1 - (lo + n) in
    let ends : lo + (n + m) ≡ max_price_ticks + 1 = omega arith in
    let low = slots (asks ls 0 lo) in
    let high = slots (asks ls (lo + n) m) in
    let mid = slots (asks kept lo n) in
    let kept_is : resting kept ≡ low ++ (mid ++ high) =
      resting-split kept lo n m ends
      ∙ ap₂ (λ x y. slots x ++ (mid ++ slots y))
          (asks-same kept ls lo 0 (λ p h' k. others p (inl (omega arith))))
          (asks-same kept ls m (lo + n) (λ p h' k. others p (inr h'))) in
    let whole : Perm (filled q met ++ mid) (slots (asks ls lo n)) =
      Perm.trans (Perm.append_left (filled q met) (Perm.symm after)) (
        subst (λ l. Perm l (slots (asks ls lo n)))
          (slots-remaining q met ∙ ap (λ l. filled q met ++ slots l) (sym e)) before) in
    subst₂ Perm (ap (λ l. filled q met ++ l) (sym kept_is)) (sym (resting-split ls lo n m ends)) (
      Perm.trans (swap_front (filled q met) low (mid ++ high)) (
        Perm.append_left low (
          subst (λ l. Perm l (slots (asks ls lo n) ++ high)) (append_assoc (filled q met) mid high)
            (Perm.append_right high whole))))
  where
    swap_front : (xs ys zs : List ℕ) → Perm (xs ++ (ys ++ zs)) (ys ++ (xs ++ zs))
    swap_front xs ys zs =
        subst₂ Perm (append_assoc xs ys zs) (append_assoc ys xs zs)
          (Perm.append_right zs (perm_append_comm xs ys))

-- Nothing is met: nothing changes.
unswept-Perm :
    (ls kept : Levels) (q : ℕ)
    → ((p : ℕ) → kept p ≡ ls p)
    → Perm (filled q [] ++ resting kept) (resting ls)
unfolding resting filled
unswept-Perm ls kept q same =
    subst (λ l. Perm (slots l) (slots (asks ls 0 (max_price_ticks + 1))))
      (sym (asks-same kept ls (max_price_ticks + 1) 0 (λ p h k. same p))) (Perm.refl _)

-- After the loops the resting orders are those from before, less the filled ones.
pub crossing-Perm :
    (b : OrderBook) (c : Order) (ls kept : Levels)
    → c.price ≤ max_price_ticks
    → b.best_bid ≤ max_price_ticks
    → crossing b c kept ≡ remaining c.quantity (crossing b c ls)
    → ((p : ℕ) → is_crossed b c p ≡ false → kept p ≡ ls p)
    → Perm (filled c.quantity (crossing b c ls) ++ resting kept) (resting ls)
unfolding is_crossed
crossing-Perm b c ls kept in_range bid left others =
    elim (Bool-cases (c.side == 0 && leb b.best_ask c.price)) [
      | inl buy ↦ buying (ground arith) (ground arith)
      | inr no_buy ↦ elim (Bool-cases (c.side == 1 && leb c.price b.best_bid)) [
        | inl sell ↦ selling (ground arith) (ground arith)
        | inr no_sell ↦
            subst (λ l. Perm (filled c.quantity l ++ resting kept) (resting ls))
              (sym (crossing_none b c ls no_buy no_sell))
              (unswept-Perm ls kept c.quantity (λ p. others p (not_crossed p no_buy no_sell)))
      ]
    ]
  where
    not_crossed :
        (p : ℕ)
        → (c.side == 0 && leb b.best_ask c.price) ≡ false
        → (c.side == 1 && leb c.price b.best_bid) ≡ false
        → is_crossed b c p ≡ false
    not_crossed p no_buy no_sell = ground arith

    above : (p : ℕ) → c.side ≡ 0 → (p < b.best_ask) ⊎ (c.price < p) → is_crossed b c p ≡ false
    above p buy h = ground arith

    below : (p : ℕ) → c.side ≡ 1 → (p < c.price) ⊎ (b.best_bid < p) → is_crossed b c p ≡ false
    below p sell h = ground arith

    buying :
        c.side ≡ 0
        → b.best_ask ≤ c.price
        → Perm (filled c.quantity (crossing b c ls) ++ resting kept) (resting ls)
    buying buy near =
        swept-Perm ls kept c.quantity b.best_ask (c.price + 1 - b.best_ask) (crossing b c ls)
          (crossing b c kept) (omega arith)
          (subst (λ l. Perm (slots l) (slots (asks ls b.best_ask (c.price + 1 - b.best_ask))))
            (sym (crossing_buy b c ls buy)) (Perm.refl _))
          (subst (λ l. Perm (slots l) (slots (asks kept b.best_ask (c.price + 1 - b.best_ask))))
            (sym (crossing_buy b c kept buy)) (Perm.refl _))
          left
          (λ p h. others p (above p buy (elim h [ inl k ↦ inl k | inr k ↦ inr (omega arith) ])))

    selling :
        c.side ≡ 1
        → c.price ≤ b.best_bid
        → Perm (filled c.quantity (crossing b c ls) ++ resting kept) (resting ls)
    selling sell near =
        let n = b.best_bid + 1 - c.price in
        let lo : b.best_bid + 1 - n ≡ c.price = omega arith in
        swept-Perm ls kept c.quantity c.price n (crossing b c ls) (crossing b c kept) (omega arith)
          (subst (λ l. Perm (slots l) (slots (asks ls c.price n))) (sym (crossing_sell b c ls sell))
            (subst (λ k. Perm (slots (bids ls b.best_bid n)) (slots (asks ls k n))) lo
              (bids-Perm ls n b.best_bid (omega arith))))
          (subst (λ l. Perm (slots l) (slots (asks kept c.price n)))
            (sym (crossing_sell b c kept sell))
            (subst (λ k. Perm (slots (bids kept b.best_bid n)) (slots (asks kept k n))) lo
              (bids-Perm kept n b.best_bid (omega arith))))
          left
          (λ p h. others p (below p sell (elim h [ inl k ↦ inl k | inr k ↦ inr (omega arith) ])))

-- An order that joins the back of its price.
joined-Perm :
    (ls : Levels) (i : ℕ) (c : Order)
    → c.price ≤ max_price_ticks
    → Perm (i ∷ resting ls) (resting (update ls c.price (ls c.price ++ (i, c) ∷ [])))
unfolding asks
joined-Perm ls i c h =
    let p = c.price in
    let xs = ls p ++ (i, c) ∷ [] in
    let ls' = update ls p xs in
    let m = max_price_ticks - p in
    let ends : p + (1 + m) ≡ max_price_ticks + 1 = omega arith in
    let low = slots (asks ls 0 p) in
    let high = slots (asks ls (p + 1) m) in
    let here : slots (asks ls p 1) ≡ slots (ls p) = ap slots (append-nil (ls p)) in
    let here' : slots (asks ls' p 1) ≡ slots (ls p) ++ i ∷ [] =
      ap slots (append-nil (ls' p) ∙ update_self ls p xs) ∙ slots-append (ls p) ((i, c) ∷ []) in
    let before : resting ls ≡ low ++ (slots (ls p) ++ high) =
      resting-split ls p 1 m ends ∙ ap (λ l. low ++ (l ++ high)) here in
    let after : resting ls' ≡ low ++ ((slots (ls p) ++ i ∷ []) ++ high) =
      resting-split ls' p 1 m ends
      ∙ ap (λ l. slots (asks ls' 0 p) ++ (l ++ slots (asks ls' (p + 1) m))) here'
      ∙ ap₂ (λ x y. slots x ++ ((slots (ls p) ++ i ∷ []) ++ slots y))
          (asks-same ls' ls p 0 (λ q h' k. update_ne ls p q xs (omega arith)))
          (asks-same ls' ls m (p + 1) (λ q h' k. update_ne ls p q xs (omega arith))) in
    subst₂ Perm (ap (λ l. i ∷ l) (sym before)) (sym after) (
      Perm.trans (Perm.symm (perm_middle low (slots (ls p) ++ high))) (
        Perm.append_left low (
          subst (Perm (i ∷ (slots (ls p) ++ high)))
            (sym (append_assoc (slots (ls p)) (i ∷ []) high))
            (Perm.symm (perm_middle (slots (ls p)) high)))))

-- What is left of the incoming order rests too.
pub settle-Perm :
    (ls : Levels) (i : ℕ) (c : Order)
    → c.price ≤ max_price_ticks
    → Perm (if c.quantity == 0 then resting ls else i ∷ resting ls) (resting (settle i c ls))
unfolding settle
settle-Perm ls i c h = elim (Bool-cases (c.quantity == 0)) [
  | inl done ↦ rw done (Perm.refl _)
  | inr more ↦ rw more (joined-Perm ls i c h)
]
