-- ===== src/Mpsc/Safety.antt =====
-- What `MPSCQueue` promises its threads.
use sequitur.Prelude.{
  ℕ, ◌+◌, ◌-◌, ◌%◌, ◌^◌, ◌≤◌, ◌<◌, ◌≡◌, ◌≢◌, ◌⊎◌, inl, inr, ◌↔◌, true, none, some, arith, word64,
  subst, ap, sym, ◌∙◌, eq_of_test,
}
use sequitur.Mpsc.{
  MpscQueue, capacity, is_behind, looping, Consumer, waiting, at, examined, moved, copied, System,
  Reach, is_empty,
}
use sequitur.Mpsc.Invariant.{ticket, moving, Producing, IsPublished, Consuming, Inv}
use sequitur.Mpsc.Steps.{owner}
use sequitur.Mpsc.Reached.{Reach-Inv}

-- The ticket in the window from `n` on that has the cell of `t`.
in_window : (n t : ℕ) → (u : ℕ) × (n ≤ u) × (u < n + capacity) × (u % capacity ≡ t % capacity)
in_window n t = (
  n + (t % capacity + (capacity - n % capacity)) % capacity,
  omega arith,
  omega arith,
  omega arith,
)

module _ {A : Type 0} {blank : ℕ → A} {s : System A} where
  -- Along every interleaving of producers and the consumer, while the tickets handed out and
  -- `Capacity` more stay below `2 ^ 63`: the packets that `pop` has returned are the packets of
  -- the successful claims, in the order of the claims, each once; and at most `Capacity` packets
  -- are claimed and not yet returned.
  pub fifo :
      Reach blank s
      → s.tickets + capacity < 2 ^ 63
      → (s.taken ≤ s.tickets)
        × (s.tickets ≤ s.taken + capacity)
        × ((j : ℕ) → j < s.taken → s.out j ≡ s.log j)
  fifo r small = let v = Reach-Inv r small in (v.order.0, v.order.1, v.returned)

  -- Along every interleaving, while the tickets handed out and `Capacity` more stay below `2 ^
  -- 63`: a producer that has claimed a cell and not yet published it shares the cell with no other
  -- producer that has, nor with the consumer while it takes a packet out of its own.
  pub exclusive :
      Reach blank s
      → s.tickets + capacity < 2 ^ 63
      → (i t : ℕ) → ticket (s.producers i) ≡ some t
      → ((j u : ℕ) → ticket (s.producers j) ≡ some u → t % capacity ≡ u % capacity → i ≡ j)
        × (moving s.consumer ≡ 1 → t % capacity ≢ s.taken % capacity)
  exclusive r small i t held =
      let v = Reach-Inv r small in
      let (lo, hi, cell) = owner v i t held in
      (
        λ j u other same.
            let (lo', hi', cell') = owner v j u other in
            let one : u ≡ t = sym cell' ∙ sym (ap s.queue.sequence same) ∙ cell in
            v.distinct i j t held (other ∙ ap some one),
        λ m same.
            let (f, seq, g) = moving-published s.consumer m v.consuming in
            omega (arith, seq, sym cell ∙ ap s.queue.sequence same, lo),
      )
    where
      moving-published : (c : Consumer A) → moving c ≡ 1 → Consuming s c → IsPublished s s.taken
      moving-published waiting m f = cc
      moving-published (at h) m f = cc
      moving-published (examined h seq) m f = cc
      moving-published (moved h) m (here, f) = subst (IsPublished s) here f
      moving-published (copied h x) m (here, f, e) = subst (IsPublished s) here f

  -- Along every interleaving, while the tickets handed out and `Capacity` more stay below `2 ^
  -- 63`: where a producer in the loop of `push` would read a sequence that is behind its ticket,
  -- and so refuse the packet, exactly `Capacity` packets are claimed and not yet returned, and its
  -- ticket is the next to be handed out, not a stale one.
  pub full_lem :
      Reach blank s
      → s.tickets + capacity < 2 ^ 63
      → (i : ℕ) {x : A} {t : ℕ} → s.producers i ≡ looping x t
      → is_behind (s.queue.sequence (t % capacity)) t ≡ true
      → (s.tickets ≡ s.taken + capacity) × (t ≡ s.tickets)
  full_lem r small i {x} {t} e behind =
      let v = Reach-Inv r small in
      let old = subst (Producing s) e (v.producing i) in
      let (u, lo, hi, same) = in_window s.taken t in
      let seq = ap s.queue.sequence same in
      elim (v.cells u lo hi) [
        | inl free ↦ past v t u old lo hi same behind (inl (sym seq ∙ free))
        | inr f ↦ past v t u old lo hi same behind (inr (sym seq ∙ f.1))
      ]
    where
      past :
          Inv s
          → (t u : ℕ) → t ≤ s.tickets
          → s.taken ≤ u
          → u < s.taken + capacity
          → u % capacity ≡ t % capacity
          → is_behind (s.queue.sequence (t % capacity)) t ≡ true
          → (s.queue.sequence (t % capacity) ≡ u) ⊎ (s.queue.sequence (t % capacity) ≡ u + 1)
          → (s.tickets ≡ s.taken + capacity) × (t ≡ s.tickets)
      past v t u a b c d e f = (ground (arith, v.order, v.bound), ground (arith, v.order, v.bound))

  -- Along every interleaving, while the tickets handed out and `Capacity` more stay below `2 ^
  -- 63`, while no producer is between its claim and its publication, and where the consumer's
  -- `pop` has loaded the head and gone no further: it reads the sequence of a published packet if
  -- and only if a claimed packet is left to return; and a call of `empty` that loads the tail
  -- there, and the head later with its value unchanged, answers true if and only if none is.
  pub pop_finds :
      Reach blank s
      → s.tickets + capacity < 2 ^ 63
      → ((i : ℕ) → ticket (s.producers i) ≡ none)
      → (h : ℕ) → s.consumer ≡ at h
      → (s.queue.sequence (h % capacity) ≡ (h + 1) % word64 ↔ s.taken < s.tickets)
        × ((q : MpscQueue A)
            → q.head ≡ s.queue.head
            → (is_empty s.queue q ≡ true ↔ s.taken ≡ s.tickets))
  unfolding is_empty
  pop_finds r small calm h e =
      let v = Reach-Inv r small in
      let here : h ≡ s.taken = subst (Consuming s) e v.consuming in
      let still = ap moving e in
      (
        (
          λ seq. elim (v.cells h (omega (arith, here)) (omega (arith, here))) [
            | inl free ↦ absurd (omega (arith, seq, free, v.order, v.bound, here))
            | inr f ↦ omega (arith, here, f.0)
          ],
          λ more. elim (v.cells h (omega (arith, here)) (omega (arith, here))) [
            | inl free ↦
                let (i, held) = v.owed h (omega (arith, here)) (omega (arith, here)) free in
                absurd (cc (calm i, held))
            | inr f ↦ omega (arith, f.0, f.1, v.bound)
          ],
        ),
        λ q same. (
          λ k. omega (arith, eq_of_test s.queue.tail q.head k, same, v.tail, v.head, still),
          λ k. ground (arith, same, v.tail, v.head, still),
        ),
      )
