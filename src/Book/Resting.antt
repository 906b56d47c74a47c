-- ===== src/Book/Resting.antt =====
-- The slots of all resting orders, and how `OrderBook::match_order` changes them: the filled orders
-- leave, and what is left of the incoming one joins.
pub mod Crossing
pub mod Room
use mathlib.Core.List.{
  Mem, Perm, perm_append_comm, perm_middle, mem-append_left, mem-append_right, mem-cons_self,
  mem-cons_of_mem,
}
use mathlib.Core.List.Perm
use mathlib.Core.Bool.{false≢true}
use sequitur.Prelude.{
  ℕ, zero, suc, ◌+◌, ◌-◌, ◌≤◌, ◌<◌, ◌≡◌, refl, ◌⊎◌, inl, inr, true, false, ◌&&◌, List, [], ◌∷◌,
  ◌++◌, append_assoc, append-nil, arith, leb, ◌==◌, if◌then◌else◌, update, update_self, update_ne,
  length, length-append, length-Perm, Bool-cases, ne_of_test, sym, ◌∙◌, ap, ap₂, subst, subst₂,
}
use sequitur.Market.{Order, max_price_ticks}
use sequitur.Machine.{OrderBook}
use sequitur.Book.Chain.{Cell, has}
use sequitur.Book.Level.{Levels, IsOut}
use sequitur.Book.Fill.{remaining, filled}
use sequitur.Book.Buy.{asks}
use sequitur.Book.Sell.{bids}
use sequitur.Book.Cross.{reach, crossing, is_crossed, crossing_buy, crossing_sell, crossing_none}
use sequitur.Book.Match.{settle}

abbrev pub slots : List Cell → List ℕ
slots [] = []
slots ((s, _) ∷ xs) = s ∷ slots xs

-- The slots of the orders of a book, lowest price first.
unfoldable pub resting : Levels → List ℕ
resting ls = slots (asks ls 0 (max_price_ticks + 1))

pub slots-append : (xs ys : List Cell) → slots (xs ++ ys) ≡ slots xs ++ slots ys
slots-append [] ys = refl
slots-append ((s, _) ∷ xs) ys = ap (λ l. s ∷ l) (slots-append xs ys)

pub mem-slots : (a : ℕ) (xs : List Cell) → has a xs ≡ true → Mem a (slots xs)
mem-slots a [] h = absurd (false≢true h)
mem-slots a ((s, _) ∷ xs) h = elim (Bool-cases (a == s)) [
  | inl hit ↦ let e : s ≡ a = ground arith in subst (λ n. Mem n (s ∷ slots xs)) e mem-cons_self
  | inr miss ↦ mem-cons_of_mem s (mem-slots a xs (ground arith))
]

-- Ranges of prices.
pub asks-append :
    (ls : Levels) (n lo m : ℕ) → asks ls lo (n + m) ≡ asks ls lo n ++ asks ls (lo + n) m
unfolding asks
asks-append ls zero lo m = ap₂ (asks ls) (omega arith) (omega arith)
asks-append ls (suc n) lo m =
    ap (asks ls lo) {x = suc n + m} {y = suc (n + m)} (omega arith)
    ∙ ap (λ l. ls lo ++ l)
        (asks-append ls n (lo + 1) m ∙ ap (λ k. asks ls (lo + 1) n ++ asks ls k m) (omega arith))
    ∙ sym (append_assoc (ls lo) (asks ls (lo + 1) n) (asks ls (lo + suc n) m))

pub asks-same :
    (ls ls' : Levels) (n lo : ℕ)
    → ((p : ℕ) → lo ≤ p → p < lo + n → ls p ≡ ls' p)
    → asks ls lo n ≡ asks ls' lo n
unfolding asks
asks-same ls ls' zero lo same = refl
asks-same ls ls' (suc n) lo same =
    ap₂ ◌++◌ (same lo (omega arith) (omega arith))
      (asks-same ls ls' n (lo + 1) (λ p h k. same p (omega arith) (omega arith)))

-- A book in three ranges: below `lo`, `n` prices from there, and `m` above.
pub resting-split :
    (ls : Levels) (lo n m : ℕ)
    → lo + (n + m) ≡ max_price_ticks + 1
    → resting ls ≡ slots (asks ls 0 lo) ++ (slots (asks ls lo n) ++ slots (asks ls (lo + n) m))
unfolding resting
resting-split ls lo n m e =
    ap (λ k. slots (asks ls 0 k)) (sym e)
    ∙ ap slots (asks-append ls lo 0 (n + m))
    ∙ slots-append (asks ls 0 lo) (asks ls (0 + lo) (n + m))
    ∙ ap (λ k. slots (asks ls 0 lo) ++ slots (asks ls k (n + m))) (omega arith)
    ∙ ap (λ l. slots (asks ls 0 lo) ++ slots l) (asks-append ls n lo m)
    ∙ ap (λ l. slots (asks ls 0 lo) ++ l) (slots-append (asks ls lo n) (asks ls (lo + n) m))

-- The prices from `hi` down are those from below up.
pub bids-Perm :
    (ls : Levels) (n hi : ℕ)
    → n ≤ hi + 1
    → Perm (slots (bids ls hi n)) (slots (asks ls (hi + 1 - n) n))
unfolding asks bids
bids-Perm ls zero hi h = Perm.refl []
bids-Perm ls (suc n) hi h = elim (Bool-cases (n == 0)) [
  | inl last ↦
      let one : n ≡ 0 = ground arith in
      subst
        (λ k.
          Perm (slots (ls hi ++ bids ls (hi - 1) k))
            (slots (ls (hi + 1 - suc k) ++ asks ls (hi + 1 - suc k + 1) k)))
        (sym one)
        (subst (λ p. Perm (slots (ls hi ++ [])) (slots (ls p ++ []))) (omega arith) (Perm.refl _))
  | inr more ↦
      let ne = ne_of_test n 0 more in
      let lo = hi + 1 - suc n in
      let up : ls lo ++ asks ls (lo + 1) n ≡ asks ls lo n ++ (ls hi ++ []) =
        ap (asks ls lo) {x = suc n} {y = n + 1} (omega arith)
        ∙ asks-append ls n lo 1
        ∙ ap (λ p. asks ls lo n ++ (ls p ++ [])) (omega arith) in
      let start : hi - 1 + 1 - n ≡ lo = omega arith in
      let down : Perm (slots (bids ls (hi - 1) n)) (slots (asks ls lo n)) =
        subst (λ k. Perm (slots (bids ls (hi - 1) n)) (slots (asks ls k n))) start
          (bids-Perm ls n (hi - 1) (omega arith)) in
      subst₂ Perm (sym (slots-append (ls hi) (bids ls (hi - 1) n)))
        (sym (
          ap slots up
          ∙ slots-append (asks ls lo n) (ls hi ++ [])
          ∙ ap (λ l. slots (asks ls lo n) ++ slots l) (append-nil (ls hi))))
        (Perm.trans (Perm.append_left (slots (ls hi)) down)
          (perm_append_comm (slots (ls hi)) (slots (asks ls lo n))))
]

-- A resting order's slot is among them, and conversely an order in no such slot is out of the book.
pub mem-resting :
    (ls : Levels) (p a : ℕ) → p ≤ max_price_ticks → has a (ls p) ≡ true → Mem a (resting ls)
unfolding asks
mem-resting ls p a h inside =
    let m = max_price_ticks - p in
    let ends : p + (1 + m) ≡ max_price_ticks + 1 = omega arith in
    subst (Mem a) (sym (resting-split ls p 1 m ends)) (
      mem-append_right (slots (asks ls 0 p)) (
        mem-append_left (slots (asks ls (p + 1) m))
          (subst (λ l. Mem a (slots l)) (sym (append-nil (ls p))) (mem-slots a (ls p) inside))))

pub resting-IsOut : (ls : Levels) (a : ℕ) → ¬ Mem a (resting ls) → IsOut a ls
resting-IsOut ls a out p h = elim (Bool-cases (has a (ls p))) [
  | inl inside ↦ absurd (out (mem-resting ls p a h inside))
  | inr outside ↦ outside
]

-- No order rests in an empty book.
pub resting-nil : resting (λ _. []) ≡ []
unfolding resting asks
resting-nil = ap slots (asks-nil (max_price_ticks + 1) 0)
  where
    asks-nil : (n lo : ℕ) → asks (λ _. []) lo n ≡ []
    asks-nil zero lo = refl
    asks-nil (suc n) lo = asks-nil n (lo + 1)
