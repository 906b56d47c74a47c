-- ===== src/Mpsc/Consume.antt =====
-- The consumer's stores to `head_` and to the sequence of its cell keep the invariant.
use sequitur.Prelude.{
  ℕ, ◌+◌, ◌%◌, ◌≤◌, ◌<◌, ◌≡◌, ◌⊎◌, inl, inr, arith, ◌==◌, update, update_ne, word64, sym, ◌∙◌, ap,
  Bool-cases, ne_of_test, subst, eq_of_test,
}
use sequitur.Mpsc.{
  capacity, Producer, resting, entered, running, looping, compared, claimed, written, waiting,
  examined, moved, copied, System,
}
use sequitur.Mpsc.Invariant.{moving, Producing, IsPublished, Consuming, Inv}

module _ {A : Type 0} {s : System A} (v : Inv s) where
  -- A packet whose sequence is one past the ticket is published.
  published : s.queue.sequence (s.taken % capacity) ≡ s.taken + 1 → IsPublished s s.taken
  published e = elim (v.cells s.taken (omega arith) (omega arith)) [
    | inl free ↦ absurd (omega (arith, free))
    | inr f ↦ f
  ]

  pub advance-Inv :
      {h seq : ℕ}
      → s.consumer ≡ examined h seq
      → seq ≡ (h + 1) % word64
      → Inv (record s { queue = record s.queue { head = (h + 1) % word64 }; consumer = moved h })
  advance-Inv {h} {seq} e same =
      let (here, f) = subst (Consuming s) e v.consuming in
      let now = ap moving e in
      let is_one : seq ≡ h + 1 = omega (arith, v.order, v.bound) in
      record {
        bound = v.bound;
        tail = v.tail;
        head = omega (arith, v.order, v.bound);
        order = v.order;
        cells = v.cells;
        producing = v.producing;
        distinct = v.distinct;
        owed = v.owed;
        consuming = (
          here,
          subst (IsPublished s) (sym here)
              (published (subst (λ k. s.queue.sequence (k % capacity) ≡ k + 1) here (f is_one))),
        );
        returned = v.returned;
      }

  module _ (x : A) (cell : s.queue.sequence (s.taken % capacity) ≡ s.taken + 1) where
    abbrev after_release : System A
    after_release = record s {
      queue = record s.queue {
        sequence = update s.queue.sequence (s.taken % capacity) ((s.taken + capacity) % word64);
      };
      consumer = waiting;
      taken = s.taken + 1;
      out = update s.out s.taken x;
    }

    release-free :
        (u : ℕ)
        → s.taken ≤ u
        → s.queue.sequence (u % capacity) ≡ u
        → after_release.queue.sequence (u % capacity) ≡ u
    release-free u lo e = ground (arith, cell, e, v.bound)

    -- The cell of a ticket in the window is the consumer's for its own ticket alone.
    release-ne :
        (u : ℕ)
        → s.taken < u
        → u < s.taken + capacity
        → after_release.queue.sequence (u % capacity) ≡ s.queue.sequence (u % capacity)
    release-ne u lo hi =
        update_ne s.queue.sequence (s.taken % capacity) (u % capacity)
          ((s.taken + capacity) % word64) (omega arith)

    release-new :
        after_release.queue.sequence ((s.taken + capacity) % capacity) ≡ s.taken + capacity
    release-new = ground (arith, v.order, v.bound)

    held_past : (t : ℕ) → s.taken ≤ t → s.queue.sequence (t % capacity) ≡ t → s.taken < t
    held_past t lo e = ground (arith, cell)

    release-Producing : (p : Producer A) → Producing s p → Producing after_release p
    release-Producing resting f = tt
    release-Producing (entered y) f = tt
    release-Producing (running y) f = tt
    release-Producing (looping y u) f = f
    release-Producing (compared y u seq) (lo, f) = (lo, ground (arith, cell, v.order, v.bound))
    release-Producing (claimed y u) (lo, hi, seq, l) =
        (omega (arith, held_past u lo seq), hi, release-free u lo seq, l)
    release-Producing (written y u) (lo, hi, seq, l, f) =
        (omega (arith, held_past u lo seq), hi, release-free u lo seq, l, f)

    release-cells :
        (u : ℕ)
        → s.taken + 1 ≤ u
        → u < s.taken + 1 + capacity
        → (after_release.queue.sequence (u % capacity) ≡ u) ⊎ IsPublished after_release u
    release-cells u lo hi = elim (Bool-cases (u == s.taken + capacity)) [
      | inl new ↦ inl (
          subst (λ k. after_release.queue.sequence (k % capacity) ≡ k)
            (sym (eq_of_test u (s.taken + capacity) new)) release-new)
      | inr old ↦
          let inside : u < s.taken + capacity =
            omega (arith, ne_of_test u (s.taken + capacity) old) in
          let same = release-ne u (omega arith) inside in
          elim (v.cells u (omega arith) inside) [
            | inl free ↦ inl (same ∙ free)
            | inr (f, seq, g) ↦ inr (f, same ∙ seq, g)
          ]
    ]

    release_now-Inv :
        s.consumer ≡ copied s.taken x → x ≡ s.log s.taken → s.taken < s.tickets → Inv after_release
    release_now-Inv e last more =
        let now = ap moving e in
        record {
          bound = v.bound;
          tail = v.tail;
          head = omega (arith, v.head);
          order = omega (arith, v.order);
          cells = release-cells;
          producing = λ j. release-Producing (s.producers j) (v.producing j);
          distinct = v.distinct;
          owed = λ u lo hi seq. v.owed u (omega arith) hi (
              sym (release-ne u (omega arith) (omega (arith, v.order, release-last u lo hi)))
              ∙ seq);
          consuming = tt;
          returned = λ u hi. ground (arith, last, v.returned u);
        }
      where
        release-last : (u : ℕ) → s.taken + 1 ≤ u → u < s.tickets → u < s.taken + capacity
        release-last u lo hi = omega (arith, v.order)

  pub release-Inv :
      {h : ℕ} {x : A}
      → s.consumer ≡ copied h x
      → Inv (record s {
        queue = record s.queue {
          sequence = update s.queue.sequence (h % capacity) ((h + capacity) % word64);
        };
        consumer = waiting;
        taken = s.taken + 1;
        out = update s.out s.taken x;
      })
  release-Inv {h} {x} e =
      let (here, f, last) = subst (Consuming s) e v.consuming in
      subst
        (λ k. Inv (record s {
          queue = record s.queue {
            sequence = update s.queue.sequence (k % capacity) ((k + capacity) % word64);
          };
          consumer = waiting;
          taken = s.taken + 1;
          out = update s.out s.taken x;
        }))
        (sym here)
        (release_now-Inv x (subst (λ k. s.queue.sequence (k % capacity) ≡ k + 1) here f.1)
          (e ∙ ap (λ k. copied k x) here) (last ∙ ap s.log here) (omega (arith, f.0)))
