-- ===== src/Backtest/Engine/Orders.antt =====
-- `attempt_pending` and `_accept_intent` of `SimulationEngine`
-- (backend/backtesting-engine/src/aqros_backtesting_engine/domain/simulation.py).
use aqros.Shared.{ℕ, Bool, Option, none, some, List, [], ◌∷◌, ◌++◌, if◌then◌else◌}
use aqros.Shared.Text.{str_eq}
use aqros.Shared.Action.{done, ◌>>=◌}
use aqros.Backtest.Models.{OrderType, Bar, OrderIntent, SimulatedOrder, Fill}
use aqros.Backtest.Accounts.{Attempt, would_exceed_buying_power}
use aqros.Backtest.Fills.{fill}
use aqros.Backtest.Engine.State.{
  Pending, StrategyContext, SimulationEngine, Simulation, is_in, order_type_of, order_of, with_fill,
  book, decided,
}

module _ {Float Rng Policy : Type 0} (engine : SimulationEngine Float Rng Policy) where
  unfoldable pub apply_fill_state :
      Fill → Simulation Rng Policy → Attempt (Bool × Simulation Rng Policy)
  apply_fill_state f s =
      would_exceed_buying_power f s.cash s.positions s.current_prices engine.leverage_enabled
        engine.max_leverage
      >>= λ exceeded. done (with_fill f exceeded s)

  abbrev pub settle_fill :
      ℕ
      → SimulatedOrder
      → Option Fill × Rng
      → Simulation Rng Policy
      → Attempt (Pending × Simulation Rng Policy)
  settle_fill clock order (none, rng) s = done (order ∷ [], record s { rng = rng })
  settle_fill clock order (some f, rng) s =
      apply_fill_state f (record s { rng = rng }) >>= λ r. done (book clock order f r.0 r.1)

  -- The body of the loop of `attempt_pending`.
  unfoldable pub attempt_order :
      ℕ → Bar → SimulatedOrder → Simulation Rng Policy → Attempt (Pending × Simulation Rng Policy)
  attempt_order clock bar order s =
      if str_eq order.symbol bar.symbol
      then (fill engine.models order bar clock s.rng >>= λ r. settle_fill clock order r s)
      else done (order ∷ [], s)

  unfoldable pub attempt_loop :
      ℕ → Bar → Pending → Simulation Rng Policy → Attempt (Pending × Simulation Rng Policy)
  attempt_loop clock bar [] s = done ([], s)
  attempt_loop clock bar (order ∷ orders) s = attempt_order clock bar order s >>= λ r.
      attempt_loop clock bar orders r.1 >>= λ q. done (r.0 ++ q.0, q.1)

  unfoldable pub attempt_pending : ℕ → Bar → Simulation Rng Policy → Attempt (Simulation Rng Policy)
  attempt_pending clock bar s =
      attempt_loop clock bar s.pending s >>= λ r. done (record r.1 { pending = r.0 })

  -- The rest of `_accept_intent` for an identifier that is new, once the order type is known.
  abbrev pub accept_new :
      ℕ
      → StrategyContext Float
      → OrderIntent
      → Simulation Rng Policy
      → OrderType
      → Simulation Rng Policy
  accept_new clock context intent s order_type =
      let r = engine.models.eligible_time intent.emitted_at s.rng in
      decided clock (order_of intent order_type r.0) (engine.check intent context)
        (record s { seen_order_ids = intent.client_order_id ∷ s.seen_order_ids; rng = r.1 })

  -- `_accept_intent`
  unfoldable pub accept_intent :
      ℕ
      → StrategyContext Float
      → OrderIntent
      → Simulation Rng Policy
      → Attempt (Simulation Rng Policy)
  accept_intent clock context intent s =
      if is_in intent.client_order_id s.seen_order_ids
      then done s
      else (order_type_of intent.order_type >>= λ order_type.
          done (accept_new clock context intent s order_type))

  unfoldable pub accept_all :
      ℕ
      → StrategyContext Float
      → List OrderIntent
      → Simulation Rng Policy
      → Attempt (Simulation Rng Policy)
  accept_all clock context [] s = done s
  accept_all clock context (intent ∷ intents) s =
      accept_intent clock context intent s >>= λ s'. accept_all clock context intents s'
