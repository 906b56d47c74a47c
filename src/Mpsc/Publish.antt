-- ===== src/Mpsc/Publish.antt =====
-- A producer's two stores, the packet and the sequence of its cell, keep the invariant.
use sequitur.Prelude.{
  ℕ, ◌+◌, ◌%◌, ◌^◌, ◌<◌, ◌≡◌, ◌≢◌, inl, inr, some, arith, ◌==◌, update, update_self, word64, ap,
  Bool-cases, ne_of_test, subst, eq_of_test,
}
use sequitur.Mpsc.{
  capacity, Producer, resting, entered, running, looping, compared, claimed, written, Consumer,
  waiting, at, examined, moved, copied, System,
}
use sequitur.Mpsc.Invariant.{ticket, Producing, IsPublished, Consuming, Inv}

module _ {A : Type 0} {s : System A} (v : Inv s) where
  module _ (t : ℕ) (x : A) (cell : s.queue.sequence (t % capacity) ≡ t) where
    abbrev after_write : (ℕ → Producer A) → System A
    after_write ps = record s {
      queue = record s.queue { packets = update s.queue.packets (t % capacity) x };
      producers = ps;
    }

    write-IsPublished :
        (ps : ℕ → Producer A) (u : ℕ) → IsPublished s u → IsPublished (after_write ps) u
    write-IsPublished ps u (lt, seq, f) = (lt, seq, ground (arith, cell, seq, f))

    write-Producing :
        (ps : ℕ → Producer A) (p : Producer A)
        → ticket p ≢ some t
        → Producing s p
        → Producing (after_write ps) p
    write-Producing ps resting n f = tt
    write-Producing ps (entered y) n f = tt
    write-Producing ps (running y) n f = tt
    write-Producing ps (looping y u) n f = f
    write-Producing ps (compared y u seq) n f = f
    write-Producing ps (claimed y u) n f = f
    write-Producing ps (written y u) n (lo, hi, seq, l, f) =
        let ne : u ≢ t = λ e. n (ap some e) in (lo, hi, seq, l, ground (arith, cell, seq, f, ne))

    write-Consuming :
        (ps : ℕ → Producer A) (c : Consumer A) → Consuming s c → Consuming (after_write ps) c
    write-Consuming ps waiting f = tt
    write-Consuming ps (at h) f = f
    write-Consuming ps (examined h seq) f = f
    write-Consuming ps (moved h) (here, f) = (here, write-IsPublished ps h f)
    write-Consuming ps (copied h y) (here, f, e) = (here, write-IsPublished ps h f, e)

  pub write-Inv :
      (i : ℕ) {x : A} {t : ℕ}
      → s.producers i ≡ claimed x t
      → Inv (record s {
        queue = record s.queue { packets = update s.queue.packets (t % capacity) x };
        producers = update s.producers i (written x t);
      })
  write-Inv i {x} {t} e =
      let ps = update s.producers i (written x t) in
      let held : ticket (s.producers i) ≡ some t = ap ticket e in
      let (lo, hi, cell, l) = subst (Producing s) e (v.producing i) in
      record {
        bound = v.bound;
        tail = v.tail;
        head = v.head;
        order = v.order;
        cells = λ u a b. elim (v.cells u a b) [
          | inl free ↦ inl free
          | inr f ↦ inr (write-IsPublished t x cell ps u f)
        ];
        producing = λ j. elim (Bool-cases (j == i)) [
          | inl hit ↦ rw hit (lo, hi, cell, l, update_self s.queue.packets (t % capacity) x)
          | inr miss ↦ rw miss (
              write-Producing t x cell ps (s.producers j)
                (λ k. ne_of_test j i miss (v.distinct j i t k held)) (v.producing j))
        ];
        distinct = λ j k u a b. ground (arith, held, v.distinct j k u);
        owed = λ u a b seq. let (j, own) = v.owed u a b seq in (j, ground (arith, held, own));
        consuming = write-Consuming t x cell ps s.consumer v.consuming;
        returned = v.returned;
      }

  module _ (t : ℕ) (cell : s.queue.sequence (t % capacity) ≡ t) (small : t + 1 < 2 ^ 63) where
    abbrev after_publish : (ℕ → Producer A) → System A
    after_publish ps = record s {
      queue = record s.queue {
        sequence = update s.queue.sequence (t % capacity) ((t + 1) % word64);
      };
      producers = ps;
    }

    publish-published :
        (u : ℕ)
        → s.queue.sequence (u % capacity) ≡ u + 1
        → update s.queue.sequence (t % capacity) ((t + 1) % word64) (u % capacity) ≡ u + 1
    publish-published u e = ground (arith, cell, e)

    publish-free :
        (u : ℕ)
        → u ≢ t
        → s.queue.sequence (u % capacity) ≡ u
        → update s.queue.sequence (t % capacity) ((t + 1) % word64) (u % capacity) ≡ u
    publish-free u n e = ground (arith, cell, e, n)

    publish-Producing :
        (ps : ℕ → Producer A) (p : Producer A)
        → ticket p ≢ some t
        → Producing s p
        → Producing (after_publish ps) p
    publish-Producing ps resting n f = tt
    publish-Producing ps (entered y) n f = tt
    publish-Producing ps (running y) n f = tt
    publish-Producing ps (looping y u) n f = f
    publish-Producing ps (compared y u seq) n (lo, f) = (lo, ground (arith, cell, small))
    publish-Producing ps (claimed y u) n (lo, hi, seq, l) =
        (lo, hi, publish-free u (λ e. n (ap some e)) seq, l)
    publish-Producing ps (written y u) n (lo, hi, seq, l, f) =
        (lo, hi, publish-free u (λ e. n (ap some e)) seq, l, f)

    publish-Consuming :
        (ps : ℕ → Producer A) (c : Consumer A) → Consuming s c → Consuming (after_publish ps) c
    publish-Consuming ps waiting f = tt
    publish-Consuming ps (at h) f = f
    publish-Consuming ps (examined h seq) (here, f) = (here, λ e. publish-published h (f e))
    publish-Consuming ps (moved h) (here, (hi, seq, f)) = (here, (hi, publish-published h seq, f))
    publish-Consuming ps (copied h y) (here, (hi, seq, f), e) =
        (here, (hi, publish-published h seq, f), e)

  pub publish-Inv :
      (i : ℕ) {x : A} {t : ℕ}
      → s.producers i ≡ written x t
      → Inv (record s {
        queue = record s.queue {
          sequence = update s.queue.sequence (t % capacity) ((t + 1) % word64);
        };
        producers = update s.producers i resting;
      })
  publish-Inv i {x} {t} e =
      let ps = update s.producers i resting in
      let held : ticket (s.producers i) ≡ some t = ap ticket e in
      let (lo, hi, cell, l, stored) = subst (Producing s) e (v.producing i) in
      let small : t + 1 < 2 ^ 63 = omega (arith, v.bound) in
      record {
        bound = v.bound;
        tail = v.tail;
        head = v.head;
        order = v.order;
        cells = λ u a b. elim (Bool-cases (u == t)) [
          | inl hit ↦
              let same = eq_of_test u t hit in
              inr (ground (arith, small), ground (arith, small), ground (arith, l, stored))
          | inr miss ↦ elim (v.cells u a b) [
            | inl free ↦ inl (publish-free t cell small u (ne_of_test u t miss) free)
            | inr (f, seq, g) ↦ inr (f, publish-published t cell small u seq, g)
          ]
        ];
        producing = λ j. elim (Bool-cases (j == i)) [
          | inl hit ↦ rw hit tt
          | inr miss ↦ rw miss (
              publish-Producing t cell small ps (s.producers j)
                (λ k. ne_of_test j i miss (v.distinct j i t k held)) (v.producing j))
        ];
        distinct = λ j k u a b. ground (arith, held, v.distinct j k u);
        owed = λ u a b seq.
            let (free, ne) : (s.queue.sequence (u % capacity) ≡ u) × (u ≢ t) =
              publish-back t cell small u seq in
            let (j, own) = v.owed u a b free in (j, ground (arith, held, own, ne));
        consuming = publish-Consuming t cell small ps s.consumer v.consuming;
        returned = v.returned;
      }
    where
      publish-back :
          (t : ℕ)
          → s.queue.sequence (t % capacity) ≡ t
          → t + 1 < 2 ^ 63
          → (u : ℕ) → update s.queue.sequence (t % capacity) ((t + 1) % word64) (u % capacity) ≡ u
          → (s.queue.sequence (u % capacity) ≡ u) × (u ≢ t)
      publish-back t cell small u seq = (ground arith, ground arith)
