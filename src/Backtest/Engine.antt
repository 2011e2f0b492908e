-- ===== src/Backtest/Engine.antt =====
-- `SimulationEngine.run` (backend/backtesting-engine/src/aqros_backtesting_engine/domain/simulation.py).
-- `State` has its variables and what is done to them, `Orders` the loops over the pending orders and
-- over the intents of the strategy.
mod State
mod Orders
use aqros.Shared.{
  ℕ, ◌+◌, String, Bool, true, false, ◌||◌, Option, none, some, List, [], ◌∷◌, ◌++◌, ltb, ◌==◌,
  if◌then◌else◌,
}
use aqros.Shared.Int.{ℤ, pos, ◌-ℤ◌, leb_ℤ, eqb_ℤ}
use aqros.Shared.Text.{str_eq}
use aqros.Shared.Dict.{Dict, lookup, insert, remove}
use aqros.Shared.Action.{done, ◌>>=◌}
use aqros.Backtest.Models.{
  buy, OrderType, IntentType, OrderStatus, EventKind, Bar, CorporateAction, Payload, bar_payload,
  action_payload, marker, Event, OrderIntent, SimulatedOrder, Fill, Position, CashLedger, LogReason,
  risk, buying_power_exceeded, action_applied, TradeLogEntry, EquityPoint, unknown_order_type,
  out_of_order, wrong_payload,
}
use aqros.Backtest.Accounts.{
  Attempt, fail, apply_fill, apply_fill_to_cash, portfolio_value, would_exceed_buying_power,
}
use aqros.Backtest.Actions.{Adjusted, apply_corporate_action}
use aqros.Backtest.Fills.{Models, fill}
use aqros.Backtest.Stream.{sort_events}
pub use State.{StrategyContext, SimulationEngine, Simulation}
unfoldable pub use State.{
  features_of, Pending, is_in, order_type_of, features_loop, rekey, without, placed, risk_reason,
  order_of, is_late, entry_of, append_log, with_fill, book, decided, adjusted, with_bar,
}
unfoldable pub use Orders.{
  apply_fill_state, settle_fill, attempt_order, attempt_loop, attempt_pending, accept_new,
  accept_intent, accept_all,
}

module _ {Float Rng Policy : Type 0} (engine : SimulationEngine Float Rng Policy) where
  abbrev pub action_order : ℕ → CorporateAction → ℕ → SimulatedOrder
  action_order clock action n = record {
    client_order_id = engine.action_id n;
    symbol = action.symbol;
    side = buy;
    order_type = OrderType.market;
    quantity = pos 0;
    limit_price = none;
    emitted_at = clock;
    eligible_at = clock;
    status = OrderStatus.filled;
    reject_reason = none;
  }

  abbrev pub log_action : ℕ → CorporateAction → Bool → Simulation Rng Policy → Simulation Rng Policy
  log_action clock action false s = s
  log_action clock action true s =
      append_log clock (action_order clock action s.log_sequence) OrderStatus.filled (pos 0) none
        (pos 0) (some action_applied) s

  unfoldable pub apply_action :
      ℕ → CorporateAction → Simulation Rng Policy → Attempt (Simulation Rng Policy)
  apply_action clock action s =
      apply_corporate_action action (lookup action.symbol s.positions) s.cash clock >>= λ r.
      done (log_action clock action r.2 (adjusted action r s))

  abbrev pub context_of : ℕ → Bar → StrategyContext Float
  context_of clock bar = record {
    as_of = clock;
    bar = bar;
    features = features_of bar.event_time (lookup bar.symbol engine.features_by_symbol);
  }

  abbrev pub decide_on :
      ℕ
      → StrategyContext Float
      → List OrderIntent × Policy
      → Simulation Rng Policy
      → Attempt (Simulation Rng Policy)
  decide_on clock context (intents, policy) s =
      accept_all engine clock context intents (record s { policy = policy })

  unfoldable pub process_bar : ℕ → Bar → Simulation Rng Policy → Attempt (Simulation Rng Policy)
  process_bar clock bar s = attempt_pending engine clock bar (with_bar bar s) >>= λ s'.
      let context = context_of clock bar in
      decide_on clock context (engine.on_event context s'.policy) s'

  unfoldable pub sample_equity : ℕ → Simulation Rng Policy → Attempt (Simulation Rng Policy)
  sample_equity clock s = portfolio_value s.cash s.positions s.current_prices >>= λ v.
      done (record s {
        equity_curve = s.equity_curve ++ record { clock_time = clock; total_value = v } ∷ [];
      })

  abbrev handle : EventKind → Payload → ℕ → Simulation Rng Policy → Attempt (Simulation Rng Policy)
  handle EventKind.corporate_action (action_payload action) clock s = apply_action clock action s
  handle EventKind.corporate_action (bar_payload bar) clock s = fail wrong_payload
  handle EventKind.corporate_action marker clock s = fail wrong_payload
  handle EventKind.market_bar (bar_payload bar) clock s = process_bar clock bar s
  handle EventKind.market_bar (action_payload action) clock s = fail wrong_payload
  handle EventKind.market_bar marker clock s = fail wrong_payload
  handle EventKind.order_eligible payload clock s = done s
  handle EventKind.equity_sample payload clock s = sample_equity clock s

  -- The body of the loop over the events.
  unfoldable pub step : Event → Simulation Rng Policy → Attempt (Simulation Rng Policy)
  step e s =
      if is_late e.event_time s.clock
      then fail out_of_order
      else handle e.kind e.payload e.event_time (record s { clock = some e.event_time })

  unfoldable pub replay : List Event → Simulation Rng Policy → Attempt (Simulation Rng Policy)
  replay [] s = done s
  replay (e ∷ es) s = step e s >>= λ s'. replay es s'

  abbrev pub started : Rng → Policy → Simulation Rng Policy
  started rng policy = record {
    rng = rng;
    policy = policy;
    positions = [];
    cash = record { balance = engine.starting_cash; starting_cash = engine.starting_cash };
    current_prices = [];
    current_bars = [];
    pending = [];
    seen_order_ids = [];
    trade_log = [];
    equity_curve = [];
    clock = none;
    log_sequence = 0;
  }

  unfoldable pub run : List Event → Rng → Policy → Attempt (Simulation Rng Policy)
  run events rng policy = replay (sort_events events) (started rng policy)
