-- ===== src/Metrics/Turns.antt =====
-- src/utils/MetricsWorker.cpp, the outer loop of `logging_loop`, next to the core thread's pushes.
use sequitur.Prelude.{
  ℕ, ◌≤◌, ◌≡◌, refl, Bool, Option, none, some, List, [], ◌∷◌, ◌++◌, leb, if◌then◌else◌, length, sym,
  subst, arith, Bool-cases, inl, inr, append-nil, append_assoc,
}
use sequitur.Ring.{pow-IsCapacity}
use sequitur.Packets.{MetricsPacket}
use sequitur.Spsc.{SpscQueue}
use sequitur.Spsc
use sequitur.Spsc.Refine.{Holds, push_spec, push_refines}
use sequitur.Metrics.{Logging, Double, queue_capacity, round}
use sequitur.Metrics.Message.{Charconv}
use sequitur.Metrics.Round.{ArePackets}

-- A turn of the loop in which `active_` is still true: what the core thread has pushed since the last
-- one, and the clock.
pub record Turn : Type 0 where
  pub arrivals : List MetricsPacket
  pub now : ℕ

-- The core thread's pushes; the packets for which there is room.
unfoldable pub arrive :
    List MetricsPacket → SpscQueue MetricsPacket → List MetricsPacket × SpscQueue MetricsPacket
arrive [] q = ([], q)
arrive (x ∷ xs) q =
    let (b, q') = Spsc.push queue_capacity x q in
    let (ys, q'') = arrive xs q' in (if b then x ∷ ys else ys, q'')

unfoldable pub with_queue : SpscQueue MetricsPacket → Logging → Logging
with_queue q l = record l { worker = record l.worker { queue = q } }

module _ (d : Double) (t : Charconv d.Carrier) (fuel : ℕ) where
  -- The packets that got into the queue, the reports, and the loop's variables at its end.
  unfoldable pub logging_loop :
      List Turn → Logging → Option (List MetricsPacket × List (Option (List ℕ)) × Logging)
  unfolding with_queue
  logging_loop [] l = some ([], [], l)
  logging_loop (e ∷ es) l =
      let (xs, q) = arrive e.arrivals l.worker.queue in
      elim (round d t fuel e.now (with_queue q l)) [
        | none ↦ none
        | some (out, l') ↦ elim (logging_loop es l') [
          | none ↦ none
          | some (ys, outs, l'') ↦ some (xs ++ ys, out ∷ outs, l'')
        ]
      ]

module _ (d : Double) (t : Charconv d.Carrier) (fuel : ℕ) where
  pub logging_loop-some :
      (e : Turn) (es : List Turn) (l m l' : Logging) (out : Option (List ℕ))
      → (ys : List MetricsPacket) (outs : List (Option (List ℕ)))
      → round d t fuel e.now (with_queue (arrive e.arrivals l.worker.queue).1 l) ≡ some (out, m)
      → logging_loop d t fuel es m ≡ some (ys, outs, l')
      → logging_loop d t fuel (e ∷ es) l
        ≡ some ((arrive e.arrivals l.worker.queue).0 ++ ys, out ∷ outs, l')
  unfolding logging_loop
  logging_loop-some e es l m l' out ys outs first rest = rw (logging_loop, first, rest) refl

-- What a push leaves, by its answer.
push_spec-held :
    (flag : Bool) (x : MetricsPacket) (held : List MetricsPacket)
    → (push_spec queue_capacity flag x held).1
      ≡ (if (push_spec queue_capacity flag x held).0 then held ++ x ∷ [] else held)
unfolding push_spec
push_spec-held flag x held = elim (Bool-cases flag) [
  | inl stopped ↦ rw stopped refl
  | inr live ↦ elim (Bool-cases (leb queue_capacity (length held))) [
    | inl full ↦ rw (live, full) refl
    | inr room ↦ rw (live, room) refl
  ]
]

push-Holds :
    (x : MetricsPacket) (q : SpscQueue MetricsPacket) (held : List MetricsPacket)
    → Holds queue_capacity q held
    → Holds queue_capacity
        (Spsc.push queue_capacity x q).1
        (if (Spsc.push queue_capacity x q).0 then held ++ x ∷ [] else held)
push-Holds x q held h =
    let (answer, holds, flag) = push_refines (pow-IsCapacity 12 (omega arith)) q x held h in
    subst
      (λ b.
        Holds queue_capacity (Spsc.push queue_capacity x q).1 (if b then held ++ x ∷ [] else held))
      (sym answer)
      (subst (Holds queue_capacity (Spsc.push queue_capacity x q).1)
        (push_spec-held q.stop_flag x held) holds)

pub arrive-Holds :
    (xs : List MetricsPacket) (q : SpscQueue MetricsPacket) (held : List MetricsPacket)
    → Holds queue_capacity q held
    → ArePackets xs
    → Holds queue_capacity (arrive xs q).1 (held ++ (arrive xs q).0)
      × ArePackets (arrive xs q).0
      × (length (arrive xs q).0 ≤ length xs)
unfolding arrive
arrive-Holds [] q held h are =
    (subst (Holds queue_capacity q) (sym (append-nil held)) h, tt, omega arith)
arrive-Holds (x ∷ xs) q held h (is, are) =
    let q' = (Spsc.push queue_capacity x q).1 in
    let holds = push-Holds x q held h in
    elim (Bool-cases (Spsc.push queue_capacity x q).0) [
      | inl taken ↦
          let next : Holds queue_capacity q' (held ++ x ∷ []) =
            subst (λ b. Holds queue_capacity q' (if b then held ++ x ∷ [] else held)) taken holds in
          let (h', are', few) = arrive-Holds xs q' (held ++ x ∷ []) next are in
          rw taken (
            subst (Holds queue_capacity (arrive xs q').1) (append_assoc held (x ∷ []) _) h',
            (is, are'),
            omega (arith, few),
          )
      | inr lost ↦
          let next : Holds queue_capacity q' held =
            subst (λ b. Holds queue_capacity q' (if b then held ++ x ∷ [] else held)) lost holds in
          let (h', are', few) = arrive-Holds xs q' held next are in
          rw lost (h', are', omega (arith, few))
    ]
