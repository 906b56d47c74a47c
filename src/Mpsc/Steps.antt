-- ===== src/Mpsc/Steps.antt =====
-- Every step keeps the invariant.
use sequitur.Prelude.{
  ℕ, ◌+◌, ◌%◌, ◌^◌, ◌≤◌, ◌<◌, ◌≡◌, refl, inl, inr, false, none, some, arith, ltb, ◌==◌, update,
  update_self, word64, sym, ◌∙◌, ap, ap₂, Bool-cases, ne_of_test, subst,
}
use sequitur.Mpsc.{
  capacity, Producer, resting, entered, running, looping, compared, claimed, written, Consumer,
  waiting, at, examined, moved, copied, System, ProducerMove, call, stopped, proceed, load_tail,
  load_sequence, lose, full, retry, ConsumerMove, load_head, examine, empty, copy,
}
use sequitur.Mpsc.Invariant.{ticket, moving, Producing, Consuming, Inv}

module _ {A : Type 0} {s : System A} (v : Inv s) where
  move-Producing :
      {p p' : Producer A}
      → ProducerMove s.queue p p'
      → Producing s p
      → Producing s p' × (ticket p ≡ none) × (ticket p' ≡ none)
  move-Producing call f = (tt, refl, refl)
  move-Producing (stopped e) f = (tt, refl, refl)
  move-Producing (proceed e) f = (tt, refl, refl)
  move-Producing load_tail f = (omega (arith, v.tail), refl, refl)
  move-Producing load_sequence f = ((f, omega arith), refl, refl)
  move-Producing (lose e) f = (omega (arith, v.tail), refl, refl)
  move-Producing (full e) f = (tt, refl, refl)
  move-Producing (retry e k) f = (omega (arith, v.tail), refl, refl)

  pub produce-Inv :
      (i : ℕ) {p : Producer A}
      → ProducerMove s.queue (s.producers i) p
      → Inv (record s { producers = update s.producers i p })
  produce-Inv i {p} m =
      let (f, before, after) = move-Producing m (v.producing i) in
      record {
        bound = v.bound;
        tail = v.tail;
        head = v.head;
        order = v.order;
        cells = v.cells;
        producing = λ j. ground (arith, f, v.producing j);
        distinct = λ j k t a b. ground (arith, before, after, v.distinct j k t);
        owed = λ t lo hi e.
            let (j, held) = v.owed t lo hi e in (j, ground (arith, before, after, held));
        consuming = v.consuming;
        returned = v.returned;
      }

  move-Consuming :
      {c c' : Consumer A} (d : Consumer A)
      → ConsumerMove s.queue c c'
      → Consuming s c
      → s.queue.head ≡ s.taken + moving c
      → Consuming (record s { consumer = d }) c' × (s.queue.head ≡ s.taken + moving c')
  move-Consuming d load_head f e = (omega arith, omega arith)
  move-Consuming d examine f e = ((f, λ k. k), e)
  move-Consuming d (empty k) f e = (tt, e)
  move-Consuming d copy (here, f) e = ((here, f, f.2), e)

  pub consume-Inv :
      {c : Consumer A} → ConsumerMove s.queue s.consumer c → Inv (record s { consumer = c })
  consume-Inv {c} m =
      let (f, e) = move-Consuming c m v.consuming v.head in
      record {
        bound = v.bound;
        tail = v.tail;
        head = e;
        order = v.order;
        cells = v.cells;
        producing = v.producing;
        distinct = v.distinct;
        owed = v.owed;
        consuming = f;
        returned = v.returned;
      }

  -- The holder of a ticket owns its cell.
  pub holder :
      (p : Producer A) (t : ℕ)
      → Producing s p
      → ticket p ≡ some t
      → (s.taken ≤ t) × (t < s.tickets) × (s.queue.sequence (t % capacity) ≡ t)
  holder (claimed x u) t f e = ground arith
  holder (written x u) t f e = ground arith
  holder resting t f e = cc
  holder (entered x) t f e = cc
  holder (running x) t f e = cc
  holder (looping x u) t f e = cc
  holder (compared x u k) t f e = cc

  pub owner :
      (i t : ℕ)
      → ticket (s.producers i) ≡ some t
      → (s.taken ≤ t) × (t < s.tickets) × (s.queue.sequence (t % capacity) ≡ t)
  owner i t e = holder (s.producers i) t (v.producing i) e

  -- Where the compare-exchange succeeds, the ticket's cell is free.
  claim_room :
      (t seq : ℕ)
      → seq ≤ s.queue.sequence (t % capacity)
      → seq ≡ t
      → t ≡ s.tickets
      → (t < s.taken + capacity) × (s.queue.sequence (t % capacity) ≡ t)
  claim_room t seq f same now = elim (Bool-cases (ltb t (s.taken + capacity))) [
    | inl room ↦
        let lt : t < s.taken + capacity = ground arith in
        (
          lt,
          elim (v.cells t (omega (arith, v.order)) lt) [
            | inl free ↦ free
            | inr published ↦ absurd (omega (arith, published.0))
          ],
        )
    | inr no_room ↦
        let wrapped : t % capacity ≡ s.taken % capacity = ground (arith, v.order) in
        let cell = ap s.queue.sequence wrapped in
        absurd (elim (v.cells s.taken (omega arith) (omega arith)) [
          | inl old ↦ omega (arith, v.order, ne_full t no_room)
          | inr old ↦ omega (arith, v.order, old.1, ne_full t no_room)
        ])
  ]
    where
      ne_full : (t : ℕ) → ltb t (s.taken + capacity) ≡ false → s.taken + capacity ≤ t
      ne_full t h = ground arith

  module _ (x : A) where
    -- The state after a claim, with any producers.
    abbrev after_claim : (ℕ → Producer A) → System A
    after_claim ps = record s {
      queue = record s.queue { tail = (s.tickets + 1) % word64 };
      producers = ps;
      tickets = s.tickets + 1;
      log = update s.log s.tickets x;
    }

    claim-Producing :
        (ps : ℕ → Producer A) (p : Producer A) → Producing s p → Producing (after_claim ps) p
    claim-Producing ps resting f = tt
    claim-Producing ps (entered y) f = tt
    claim-Producing ps (running y) f = tt
    claim-Producing ps (looping y t) f = omega arith
    claim-Producing ps (compared y t seq) f = (omega arith, f.1)
    claim-Producing ps (claimed y t) f = ground arith
    claim-Producing ps (written y t) f = ground arith

    claim-Consuming :
        (ps : ℕ → Producer A) (c : Consumer A) → Consuming s c → Consuming (after_claim ps) c
    claim-Consuming ps waiting f = tt
    claim-Consuming ps (at h) f = f
    claim-Consuming ps (examined h seq) f = f
    claim-Consuming ps (moved h) f = ground arith
    claim-Consuming ps (copied h y) f = ground arith

    claim_now-Inv :
        (i : ℕ)
        → s.producers i ≡ compared x s.tickets s.tickets
        → s.tickets + 1 + capacity < 2 ^ 63
        → Inv (after_claim (update s.producers i (claimed x s.tickets)))
    claim_now-Inv i e bound =
        let ps = update s.producers i (claimed x s.tickets) in
        let f = subst (Producing s) e (v.producing i) in
        let (room, free) = claim_room s.tickets s.tickets f.1 refl refl in
        let none_held : ticket (s.producers i) ≡ none = ap ticket e in
        record {
          bound = bound;
          tail = omega arith;
          head = v.head;
          order = omega (arith, v.order);
          cells = λ t lo hi. ground (arith, v.cells t lo hi);
          producing = λ j. elim (Bool-cases (j == i)) [
            | inl hit ↦
                rw hit
                  (omega (arith, v.order), omega arith, free, rw (update_self s.log s.tickets x))
            | inr miss ↦ rw miss (claim-Producing ps (s.producers j) (v.producing j))
          ];
          distinct = λ j k t a b. ground (arith, none_held, v.distinct j k t, owner j t, owner k t);
          owed = λ t lo hi seq. elim (Bool-cases (t == s.tickets)) [
            | inl new ↦ (i, ground arith)
            | inr old ↦
                let ne = ne_of_test t s.tickets old in
                let (j, held) = v.owed t lo (omega arith) seq in
                (j, ground (arith, none_held, held))
          ];
          consuming = claim-Consuming ps s.consumer v.consuming;
          returned = λ t h. ground (arith, v.order, v.returned t h);
        }

  pub claim-Inv :
      (i : ℕ) {x : A} {t seq : ℕ}
      → s.producers i ≡ compared x t seq
      → seq ≡ t
      → s.queue.tail ≡ t
      → s.tickets + 1 + capacity < 2 ^ 63
      → Inv (record s {
        queue = record s.queue { tail = (t + 1) % word64 };
        producers = update s.producers i (claimed x t);
        tickets = s.tickets + 1;
        log = update s.log s.tickets x;
      })
  claim-Inv i {x} {t} {seq} e same won bound =
      let now : t ≡ s.tickets = sym won ∙ v.tail in
      let here : s.producers i ≡ compared x s.tickets s.tickets =
        e ∙ ap₂ (compared x) now (same ∙ now) in
      subst
        (λ u. Inv (record s {
          queue = record s.queue { tail = (u + 1) % word64 };
          producers = update s.producers i (claimed x u);
          tickets = s.tickets + 1;
          log = update s.log s.tickets x;
        }))
        (sym now) (claim_now-Inv x i here bound)
