-- ===== src/Mpsc/Reached.antt =====
-- The invariant holds in every state that can be reached, while the tickets stay below `2 ^ 63`.
use sequitur.Prelude.{ℕ, ◌+◌, ◌^◌, ◌≤◌, ◌<◌, refl, inl, arith, true}
use sequitur.Mpsc.{
  capacity, System, Step, produce, claim, write, publish, consume, advance, release, shutdown,
  create, Reach, start, later,
}
use sequitur.Mpsc.Invariant.{Inv}
use sequitur.Mpsc.Steps.{produce-Inv, consume-Inv, claim-Inv}
use sequitur.Mpsc.Publish.{write-Inv, publish-Inv}
use sequitur.Mpsc.Consume.{advance-Inv, release-Inv}

module _ {A : Type 0} where
  tickets-grow : {s t : System A} → Step s t → s.tickets ≤ t.tickets
  tickets-grow (produce i m) = omega arith
  tickets-grow (claim i e f g) = omega arith
  tickets-grow (write i e) = omega arith
  tickets-grow (publish i e) = omega arith
  tickets-grow (consume m) = omega arith
  tickets-grow (advance e f) = omega arith
  tickets-grow (release e) = omega arith
  tickets-grow shutdown = omega arith

  shutdown-Inv :
      {s : System A} → Inv s → Inv (record s { queue = record s.queue { stop_flag = true } })
  shutdown-Inv {s} v = record {
    bound = v.bound;
    tail = v.tail;
    head = v.head;
    order = v.order;
    cells = v.cells;
    producing = v.producing;
    distinct = v.distinct;
    owed = v.owed;
    consuming = v.consuming;
    returned = v.returned;
  }

  Step-Inv : {s t : System A} → Step s t → t.tickets + capacity < 2 ^ 63 → Inv s → Inv t
  Step-Inv (produce i m) small v = produce-Inv v i m
  Step-Inv (claim i e f g) small v = claim-Inv v i e f g small
  Step-Inv (write i e) small v = write-Inv v i e
  Step-Inv (publish i e) small v = publish-Inv v i e
  Step-Inv (consume m) small v = consume-Inv v m
  Step-Inv (advance e f) small v = advance-Inv v e f
  Step-Inv (release e) small v = release-Inv v e
  Step-Inv shutdown small v = shutdown-Inv v

  create-Inv : (blank : ℕ → A) → Inv (create blank)
  unfolding create
  create-Inv blank = record {
    bound = omega arith;
    tail = refl;
    head = refl;
    order = omega arith;
    cells = λ t lo hi. inl (omega arith);
    producing = λ i. tt;
    distinct = λ i j t e f. cc;
    owed = λ t lo hi. absurd (omega arith);
    consuming = tt;
    returned = λ t h. absurd (omega arith);
  }

  pub Reach-Inv :
      {blank : ℕ → A} {s : System A} → Reach blank s → s.tickets + capacity < 2 ^ 63 → Inv s
  Reach-Inv {blank} start small = create-Inv blank
  Reach-Inv (later r m) small = Step-Inv m small (Reach-Inv r (omega (arith, tickets-grow m)))
