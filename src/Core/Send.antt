-- ===== src/Core/Send.antt =====
-- The pushes at the end of a round of the core thread.
use sequitur.Prelude.{
  ℕ, ◌+◌, ◌≤◌, ◌<◌, ◌≡◌, refl, Bool, true, false, some, List, [], ◌∷◌, ◌++◌, append-nil,
  append_assoc, arith, leb, length, length-append, sym, ◌∙◌, ap, subst,
}
use sequitur.FixedQueue
use sequitur.Ring.{IsCapacity, pow-IsCapacity}
use sequitur.Spsc.{SpscQueue, push}
use sequitur.Spsc.Refine.{Holds, push_spec, push_refines}
use sequitur.Packets.{IngressPacket, EgressPacket}
use sequitur.Engine.{MatchingEngine, answered, clear_execution_queue}
use sequitur.Core.{CoreThread, finished, egress_capacity, reports, send_all, count_round, reply}

egress-IsCapacity : IsCapacity egress_capacity
egress-IsCapacity = pow-IsCapacity 13 (omega arith)

-- A push on a queue with room.
push_roomy :
    (q : SpscQueue EgressPacket) (p : EgressPacket) (xs : List EgressPacket)
    → Holds egress_capacity q xs
    → q.stop_flag ≡ false
    → length xs < egress_capacity
    → ((push egress_capacity p q).0 ≡ true)
      × Holds egress_capacity (push egress_capacity p q).1 (xs ++ p ∷ [])
      × ((push egress_capacity p q).1.stop_flag ≡ false)
unfolding push_spec
push_roomy q p xs h live room =
    let (answer, holds, flag) = push_refines egress-IsCapacity q p xs h in
    let test : leb egress_capacity (length xs) ≡ false = ground arith in
    let spec : push_spec egress_capacity q.stop_flag p xs ≡ (true, xs ++ p ∷ []) =
      rw (live, test) refl in
    (
      answer ∙ ap (λ s. s.0) spec,
      subst (λ s. Holds egress_capacity (push egress_capacity p q).1 s.1) spec holds,
      flag ∙ live,
    )

send_all-cons :
    (p : EgressPacket) (ps : List EgressPacket) (q : SpscQueue EgressPacket)
    → (push egress_capacity p q).0 ≡ true
    → send_all (p ∷ ps) q ≡ send_all ps (push egress_capacity p q).1
unfolding send_all
send_all-cons p ps q e = rw e refl

send_all_lem :
    (ps : List EgressPacket) (q : SpscQueue EgressPacket) (xs : List EgressPacket)
    → Holds egress_capacity q xs
    → q.stop_flag ≡ false
    → length xs + length ps ≤ egress_capacity
    → (q' : SpscQueue EgressPacket) × (send_all ps q ≡ some q')
      × Holds egress_capacity q' (xs ++ ps)
      × (q'.stop_flag ≡ false)
unfolding send_all
send_all_lem [] q xs h live room =
    (q, refl, subst (Holds egress_capacity q) (sym (append-nil xs)) h, live)
send_all_lem (p ∷ ps) q xs h live room =
    let (sent, holds, live') = push_roomy q p xs h live (omega arith) in
    let longer : length (xs ++ p ∷ []) ≡ length xs + 1 = length-append xs (p ∷ []) in
    let (q', e, holds', live'') =
      send_all_lem ps (push egress_capacity p q).1 (xs ++ p ∷ []) holds live' (omega arith) in
    (
      q',
      send_all-cons p ps q sent ∙ e,
      subst (Holds egress_capacity q') (append_assoc xs (p ∷ []) ps) holds',
      live'',
    )

-- From `c` to `c'` a round has sent the packets `ps`, and left the engine `e` less its trades.
pub record Replied (c : CoreThread) (xs ps : List EgressPacket) (e : MatchingEngine)
    (c' : CoreThread) : Type 0 where
  pub egress : Holds egress_capacity c'.egress_queue (xs ++ ps)
  pub live : c'.egress_queue.stop_flag ≡ false
  pub engine : c'.engine ≡ clear_execution_queue e
  pub read : c'.current_read ≡ c.current_read + 1

count_round-frame :
    (limit elapsed : ℕ) (c : CoreThread)
    → ((count_round limit elapsed c).egress_queue ≡ c.egress_queue)
      × ((count_round limit elapsed c).engine ≡ c.engine)
      × ((count_round limit elapsed c).current_read ≡ c.current_read)
unfolding count_round
count_round-frame limit elapsed c = ground arith

module _ (limit elapsed : ℕ) (packet late : IngressPacket) (c : CoreThread) (xs : List EgressPacket)
    (h : Holds egress_capacity c.egress_queue xs) (live : c.egress_queue.stop_flag ≡ false) where
  pub reply_lem :
      (b : Bool) (e : MatchingEngine)
      → length xs + length (reports packet late b (FixedQueue.to_list e.world.exec_q))
        ≤ egress_capacity
      → (c' : CoreThread) × (reply limit elapsed packet late (answered b e) c ≡ finished c')
        × Replied c xs (reports packet late b (FixedQueue.to_list e.world.exec_q)) e c'
  unfolding reply count_round
  reply_lem b e room =
      let ps = reports packet late b (FixedQueue.to_list e.world.exec_q) in
      let (q, sent, holds, live') = send_all_lem ps c.egress_queue xs h live room in
      let mid : CoreThread = record c {
        engine = clear_execution_queue e;
        egress_queue = q;
        current_read = c.current_read + 1;
      } in
      let (egress, engine, read) = count_round-frame limit elapsed mid in
      (
        count_round limit elapsed mid,
        rw (reply, sent) refl,
        record {
          egress = subst (λ r. Holds egress_capacity r (xs ++ ps)) (sym egress) holds;
          live = ap (λ (r : SpscQueue EgressPacket). r.stop_flag) egress ∙ live';
          engine = engine;
          read = read;
        },
      )
