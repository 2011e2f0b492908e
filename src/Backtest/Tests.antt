-- ===== src/Backtest/Tests.antt =====
-- The theorems on the backtesting engine at a strategy that buys once
-- (backend/backtesting-engine/src/aqros_backtesting_engine/domain).
use aqros.Shared.{ℕ, ◌≡◌, refl, Bool, true, false, none, some, inl, List, [], ◌∷◌, map, arith}
use aqros.Shared.Int.{scaled, pos, negsuc, ◌+ℤ◌, ◌-ℤ◌, ◌*ℤ◌, divide}
use aqros.Shared.Dict.{lookup, insert}
use aqros.Shared.Action.{done, raised, Ensures}
use aqros.Backtest.Models.{
  OrderSide, buy, OrderType, IntentType, OrderStatus, EventKind, Bar, bar_payload, marker, Event,
  OrderIntent, SimulatedOrder, Fill, Position, look_ahead, kind_priority, TradeLogEntry,
}
use aqros.Backtest.Accounts.{
  Attempt, fail, apply_fill, apply_fill_to_cash, fill_position, balance_after,
  would_exceed_buying_power, buying_power, portfolio_value, value_loop,
}
use aqros.Backtest.Actions.{assert_knowable}
use aqros.Backtest.Fills.{
  Models, zero_latency, zero_slippage, liquidity_capped, per_share_commission, fill,
  reference_price,
}
use aqros.Backtest.Stream.{sort_events, insert_event, not_after}
use aqros.Backtest.Engine.{
  SimulationEngine, Simulation, started, run, replay, step, process_bar, attempt_pending,
  attempt_loop, attempt_order, apply_fill_state, append_log, accept_all, accept_intent,
  features_loop, sample_equity,
}
use aqros.Backtest.Fairness.{Fits, fill-Fits}
use aqros.Backtest.Conservation.Runs.{IsConserved, run-IsConserved}
use aqros.Backtest.Reconciliation.Runs.{IsReconciled, run-IsReconciled}
use aqros.Backtest.Profit.{total_at, apply_fill-total_at, apply_fill-equity}
use aqros.Backtest.Guards.{IsGuarded, apply_fill_state-IsGuarded, replay-look_ahead}

-- 30 shares, of which a tenth of the volume of a bar can be bought.
abbrev buy_once : OrderIntent
buy_once = record {
  client_order_id = "o1";
  symbol = "AAPL";
  side = buy;
  order_type = IntentType.market;
  quantity = pos 3000000000;
  limit_price = none;
  emitted_at = 10;
}

-- The state of the strategy is whether it has still to buy.
abbrev emitted : Bool → List OrderIntent × Bool
emitted true = (buy_once ∷ [], false)
emitted false = ([], false)

abbrev capped_models : Models ℕ
capped_models = record {
  eligible_time = zero_latency;
  adjust = zero_slippage;
  cost = per_share_commission (pos 1000000);
  max_fillable_quantity = liquidity_capped (pos 10000000);
}

abbrev engine : SimulationEngine ℕ ℕ Bool
engine = record {
  on_event = λ context policy. emitted policy;
  check = λ intent context. (true, none);
  models = capped_models;
  starting_cash = pos 100000000000000000000;
  leverage_enabled = false;
  max_leverage = pos 100000000;
  features_by_symbol = [];
  action_id = λ n. "corporate-action";
}

abbrev bar_at : ℕ → ℕ → ℕ → Bar
bar_at t known volume = record {
  symbol = "AAPL";
  event_time = t;
  knowledge_time = known;
  open_ = pos 10000000000;
  high = pos 11000000000;
  low = pos 9000000000;
  close = pos 10500000000;
  volume = pos volume;
}

abbrev bar_event : ℕ → ℕ → Event
bar_event t volume = record {
  event_time = t;
  knowledge_time = t;
  kind = EventKind.market_bar;
  sequence = t;
  payload = bar_payload (bar_at t t volume);
}

abbrev sample_event : ℕ → Event
sample_event t = record {
  event_time = t;
  knowledge_time = t;
  kind = EventKind.equity_sample;
  sequence = t;
  payload = marker;
}

-- The second bar fills 20 shares, the third the other 10.
abbrev events : List Event
events =
    sample_event 40
    ∷ bar_event 10 20000000000
    ∷ bar_event 20 20000000000
    ∷ bar_event 30 20000000000
    ∷ []

abbrev sample_fill : OrderSide → ℕ → ℕ → Fill
sample_fill side quantity price = record {
  client_order_id = "o1";
  symbol = "AAPL";
  side = side;
  quantity = pos quantity;
  price = pos price;
  commission = pos 10;
  filled_at = 20;
}

abbrev short : Position
short = record {
  symbol = "AAPL";
  quantity = negsuc 4;
  average_cost = pos 100;
  realized_pnl = pos 7;
}

abbrev waiting : SimulatedOrder
waiting = record {
  client_order_id = "o1";
  symbol = "AAPL";
  side = buy;
  order_type = OrderType.market;
  quantity = pos 3000000000;
  limit_price = none;
  emitted_at = 10;
  eligible_at = 10;
  status = OrderStatus.pending;
  reject_reason = none;
}

abbrev with_waiting : Simulation ℕ Bool
with_waiting = record (started engine 0 true) { pending = waiting ∷ [] }

abbrev returned : Attempt (Simulation ℕ Bool) → Simulation ℕ Bool
returned (done s) = s
returned (raised e u) = started engine 0 true

final : Simulation ℕ Bool
final = returned (run engine events 0 true)

run_returns : run engine events 0 true ≡ done final
unfolding run replay sort_events insert_event not_after kind_priority step process_bar
    attempt_pending attempt_loop accept_all accept_intent append_log attempt_order fill
    assert_knowable reference_price scaled divide apply_fill apply_fill_to_cash balance_after
    buying_power fill_position portfolio_value value_loop would_exceed_buying_power apply_fill_state
    features_loop sample_equity insert lookup ◌*ℤ◌ ◌+ℤ◌ ◌-ℤ◌ final
run_returns = refl

-- The acceptance, the fill of 20 shares and the fill of the other 10 are logged.
outcomes :
    map (λ (e : TradeLogEntry). e.outcome) final.trade_log
    ≡ OrderStatus.pending ∷ OrderStatus.partially_filled ∷ OrderStatus.filled ∷ []
unfolding run replay sort_events insert_event not_after kind_priority step process_bar
    attempt_pending attempt_loop accept_all accept_intent append_log attempt_order fill
    assert_knowable reference_price scaled divide apply_fill apply_fill_to_cash balance_after
    buying_power fill_position portfolio_value value_loop would_exceed_buying_power apply_fill_state
    features_loop sample_equity insert lookup ◌*ℤ◌ ◌+ℤ◌ ◌-ℤ◌ final
outcomes = refl

run-IsConserved_example : IsConserved engine "o1" final
run-IsConserved_example = run-IsConserved engine "o1" events 0 true final run_returns

run-IsReconciled_example : IsReconciled engine "AAPL" final
run-IsReconciled_example =
    run-IsReconciled engine "AAPL" events 0 true final
      (λ h. cc, (λ h. cc, (λ h. cc, (λ h. cc, tt)))) run_returns

fill-Fits_example :
    Ensures
      (λ r. Fits capped_models waiting (bar_at 20 20 20000000000) 20 0 r.0)
      (fill capped_models waiting (bar_at 20 20 20000000000) 20 0)
fill-Fits_example = fill-Fits capped_models waiting (bar_at 20 20 20000000000) 20 0

-- A short position of five is covered by a buy of eight.
apply_fill-total_at_example :
    total_at (pos 90) (apply_fill (some short) (sample_fill buy 8 90)) ≡ total_at (pos 90) short
apply_fill-total_at_example = apply_fill-total_at (some short) (sample_fill buy 8 90) refl

apply_fill-equity_example :
    ((apply_fill_to_cash
          (record { balance = pos 1000; starting_cash = pos 1000 })
          (sample_fill buy 8 90)).balance
        +ℤ (apply_fill (some short) (sample_fill buy 8 90)).quantity *ℤ pos 90)
      +ℤ pos 10
    ≡ pos 1000 +ℤ negsuc 4 *ℤ pos 90
apply_fill-equity_example =
    apply_fill-equity (some short) (sample_fill buy 8 90)
      (record { balance = pos 1000; starting_cash = pos 1000 })

apply_fill_state-IsGuarded_example :
    (r : Bool × Simulation ℕ Bool) × (apply_fill_state engine (sample_fill buy 8 90) with_waiting
      ≡ done r)
    × IsGuarded engine (sample_fill buy 8 90) with_waiting r
apply_fill_state-IsGuarded_example =
    apply_fill_state-IsGuarded engine (sample_fill buy 8 90) with_waiting refl

-- The bar is stamped at 20 and known at 60.
abbrev early_event : Event
early_event = record (sample_event 20) {
  kind = EventKind.market_bar;
  payload = bar_payload (bar_at 20 60 20000000000);
}

replay-look_ahead_example : replay engine (early_event ∷ []) with_waiting ≡ fail look_ahead
replay-look_ahead_example =
    replay-look_ahead engine early_event [] (bar_at 20 60 20000000000) with_waiting refl refl refl
      (omega arith) (inl refl)
