-- ===== src/Engine/Session.antt =====
-- Any sequence of orders on a new engine.
use sequitur.Prelude.{
  arith, ℕ, ◌+◌, ◌≤◌, ◌<◌, ◌≡◌, refl, Bool, Option, none, some, List, [], ◌∷◌, length, ◌∙◌, ltb,
}
use sequitur.Market.{Ptr, Trade, max_price_ticks, queue_capacity}
use sequitur.Book.Resting.{resting}
use sequitur.Engine.{
  MatchingEngine, answered, faulted, starved, submit_order, clear_execution_queue, create,
}
use sequitur.Engine.Idle.{Request, IsRequest, IsIdle, create-IsIdle, submit_order-bounded}

-- Calls of `submit_order`, with the execution queue cleared after each, as the core thread does.
-- `none` is a call that does not return.
pub submit_all : ℕ → List Request → MatchingEngine → Option MatchingEngine
submit_all fuel [] e = some e
submit_all fuel (r ∷ rs) e = elim (submit_order fuel r.side r.price r.quantity r.trader_id e) [
  | answered _ e' ↦ submit_all fuel rs (clear_execution_queue e')
  | faulted ↦ none
  | starved ↦ none
]

module _ (fuel cap : ℕ) (enough : max_price_ticks + 1 + cap < fuel)
    (fits : cap ≤ queue_capacity) where
  -- Let the capacity `cap` of the pool be at most that of the two queues (10,000), and let the
  -- fuel exceed it and the number of prices together; let the slots in use be exactly those of the
  -- resting orders, the best bid be below the best ask with no order at a price between them, and
  -- the two queues be empty; let the request be a buy or a sell (side 0 or 1) at a price strictly
  -- between 0 and the highest price with a `uint32_t` quantity. Then `submit_order` answers, true
  -- exactly if fewer than `cap` orders rest, and once the execution queue is cleared the same
  -- holds of the engine, with the orders that then rest.
  pub submit_order-IsIdle :
      (e : MatchingEngine) (r : Request)
      → (v : IsIdle cap e) → IsRequest r
      → (e' : MatchingEngine) × (submit_order fuel r.side r.price r.quantity r.trader_id e
          ≡ answered (ltb (length (resting v.levels)) cap) e')
        × IsIdle cap (clear_execution_queue e')
  submit_order-IsIdle e r v q =
      let total = v.engine.pool.total in
      let capacity = v.capacity in
      let (e', idle, answer, trades, more) =
        submit_order-bounded fuel cap enough fits e r v (omega arith) q in
      (e', answer, idle)

-- A property of every element of a list.
abbrev pub All : (Request → Type 0) → List Request → Type 0
All P [] = Unit {0}
All P (r ∷ rs) = P r × All P rs

module _ (fuel cap : ℕ) (enough : max_price_ticks + 1 + cap < fuel)
    (fits : cap ≤ queue_capacity) where
  submit_all-cons :
      (r : Request) (rs : List Request) (e e' : MatchingEngine) (b : Bool)
      → submit_order fuel r.side r.price r.quantity r.trader_id e ≡ answered b e'
      → submit_all fuel (r ∷ rs) e ≡ submit_all fuel rs (clear_execution_queue e')
  unfolding submit_all
  submit_all-cons r rs e e' b h = rw (submit_all, h) refl

  submit_all_from :
      (rs : List Request) (e : MatchingEngine)
      → IsIdle cap e
      → All IsRequest rs
      → (e' : MatchingEngine) × (submit_all fuel rs e ≡ some e') × IsIdle cap e'
  unfolding submit_all
  submit_all_from [] e v q = (e, refl, v)
  submit_all_from (r ∷ rs) e v (q, qs) =
      let (next, answer, idle) = submit_order-IsIdle fuel cap enough fits e r v q in
      let (e', done, idle') = submit_all_from rs (clear_execution_queue next) idle qs in
      (e', submit_all-cons r rs e next _ answer ∙ done, idle')

  -- Let the capacity of the pool be at most that of the two queues (10,000), let the fuel exceed
  -- it and the number of prices together, and let every request be a buy or a sell (side 0 or 1)
  -- at a price strictly between 0 and the highest price with a `uint32_t` quantity. Then on a new
  -- engine any sequence of such requests is answered, request by request, with no fault and fuel
  -- to spare. After it the book holds some orders, the slots of the pool in use are exactly those
  -- of these orders, each used once, the best bid is below the best ask with no order at a price
  -- between them, and the engine's two queues are empty.
  pub submit_all_lem :
      (exec_slots : ℕ → Trade) (trash_slots : ℕ → Ptr) (rs : List Request)
      → All IsRequest rs
      → (e' : MatchingEngine) × (submit_all fuel rs (create exec_slots trash_slots cap) ≡ some e')
        × IsIdle cap e'
  submit_all_lem exec_slots trash_slots rs q =
      submit_all_from rs (create exec_slots trash_slots cap)
        (create-IsIdle exec_slots trash_slots cap (omega arith)).0 q
