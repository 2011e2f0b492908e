-- ===== src/Backtest/Engine/State.antt =====
-- The state of `SimulationEngine.run` and what changes it
-- (backend/backtesting-engine/src/aqros_backtesting_engine/domain/simulation.py). The strategy and the
-- risk check, which the engine is given, are fields of its interface; a strategy may keep a state.
-- What the code keeps in local variables of `run` is a record here.
use aqros.Shared.{
  ℕ, ◌+◌, String, Bool, true, false, ◌||◌, Option, none, some, List, [], ◌∷◌, ◌++◌, ltb, ◌==◌,
  if◌then◌else◌,
}
use aqros.Shared.Int.{ℤ, pos, ◌-ℤ◌, leb_ℤ, eqb_ℤ}
use aqros.Shared.Text.{str_eq}
use aqros.Shared.Dict.{Dict, lookup, insert, remove}
use aqros.Shared.Action.{done}
use aqros.Backtest.Models.{
  OrderType, IntentType, OrderStatus, Bar, CorporateAction, OrderIntent, SimulatedOrder, Fill,
  Position, CashLedger, LogReason, risk, buying_power_exceeded, TradeLogEntry, EquityPoint,
  unknown_order_type,
}
use aqros.Backtest.Accounts.{Attempt, fail, apply_fill, apply_fill_to_cash}
use aqros.Backtest.Actions.{Adjusted}
use aqros.Backtest.Fills.{Models}

-- `_PendingOrder` wraps an order only.
abbrev pub Pending : Type 0
Pending = List SimulatedOrder

module _ (Float : Type 0) where
  pub record StrategyContext : Type 0 where
    pub as_of : ℕ
    pub bar : Bar
    pub features : Dict Float

  -- The arguments of the constructor, the events and the seed apart, and the text
  -- `corporate-action-` with a number.
  pub record SimulationEngine (Rng Policy : Type 0) : Type 0 where
    pub on_event : StrategyContext → Policy → List OrderIntent × Policy
    pub check : OrderIntent → StrategyContext → Bool × Option String
    pub models : Models Rng
    pub starting_cash : ℤ
    pub leverage_enabled : Bool
    pub max_leverage : ℤ
    pub features_by_symbol : Dict (Dict (List (ℕ × Float)))
    pub action_id : ℕ → String

-- The variables of `run`.
pub record Simulation (Rng Policy : Type 0) : Type 0 where
  pub rng : Rng
  pub policy : Policy
  pub positions : Dict Position
  pub cash : CashLedger
  pub current_prices : Dict ℤ
  pub current_bars : Dict Bar
  pub pending : Pending
  pub seen_order_ids : List String
  pub trade_log : List TradeLogEntry
  pub equity_curve : List EquityPoint
  pub clock : Option ℕ
  pub log_sequence : ℕ

abbrev pub is_in : String → List String → Bool
is_in k [] = false
is_in k (j ∷ js) = str_eq j k || is_in k js

-- `OrderType(intent.order_type.value)`
abbrev pub order_type_of : IntentType → Attempt OrderType
order_type_of IntentType.market = done OrderType.market
order_type_of IntentType.limit = done OrderType.limit
order_type_of _ = fail unknown_order_type

module _ {Float : Type 0} where
  abbrev value_at : ℕ → List (ℕ × Float) → Option Float
  value_at t [] = none
  value_at t ((s, v) ∷ values) = if s == t then some v else value_at t values

  abbrev with_value : String → Option Float → Dict Float → Dict Float
  with_value name none features = features
  with_value name (some v) features = insert name v features

  unfoldable pub features_loop : ℕ → Dict (List (ℕ × Float)) → Dict Float → Dict Float
  features_loop t [] features = features
  features_loop t ((name, values) ∷ rest) features =
      features_loop t rest (with_value name (value_at t values) features)

  abbrev pub features_of : ℕ → Option (Dict (List (ℕ × Float))) → Dict Float
  features_of t none = []
  features_of t (some symbol_features) = features_loop t symbol_features []

-- `if key in d: d[successor] = d.pop(key)`, with a change of the value.
module _ {V : Type 0} where
  abbrev rekey_found : String → String → (V → V) → Option V → Dict V → Dict V
  rekey_found key successor change none d = d
  rekey_found key successor change (some v) d = insert successor (change v) (remove key d)

  abbrev pub rekey : String → Option String → (String → V → V) → Dict V → Dict V
  rekey key none change d = d
  rekey key (some successor) change d =
      rekey_found key successor (change successor) (lookup key d) d

-- The positions after a corporate action on the one that was held under the key.
abbrev pub without : String → Option Position → Dict Position → Dict Position
without key none positions = positions
without key (some p) positions = remove key positions

abbrev pub placed : Option Position → Dict Position → Dict Position
placed none positions = positions
placed (some p) positions =
    if eqb_ℤ p.quantity (pos 0) then positions else insert p.symbol p positions

abbrev pub risk_reason : Option String → Option LogReason
risk_reason none = none
risk_reason (some text) = some (risk text)

abbrev pub order_of : OrderIntent → OrderType → ℕ → SimulatedOrder
order_of intent order_type eligible_at = record {
  client_order_id = intent.client_order_id;
  symbol = intent.symbol;
  side = intent.side;
  order_type = order_type;
  quantity = intent.quantity;
  limit_price = intent.limit_price;
  emitted_at = intent.emitted_at;
  eligible_at = eligible_at;
  status = OrderStatus.pending;
  reject_reason = none;
}

abbrev pub is_late : ℕ → Option ℕ → Bool
is_late t none = false
is_late t (some clock) = ltb t clock

abbrev pub entry_of :
    ℕ → SimulatedOrder → OrderStatus → ℤ → Option ℤ → ℤ → Option LogReason → ℕ → TradeLogEntry
entry_of clock order outcome quantity price commission reason n = record {
  sequence = n;
  client_order_id = order.client_order_id;
  symbol = order.symbol;
  side = order.side;
  order_type = order.order_type;
  quantity = quantity;
  price = price;
  commission = commission;
  clock_time = clock;
  outcome = outcome;
  reason = reason;
}

module _ {Rng Policy : Type 0} where
  unfoldable pub append_log :
      ℕ
      → SimulatedOrder
      → OrderStatus
      → ℤ
      → Option ℤ
      → ℤ
      → Option LogReason
      → Simulation Rng Policy
      → Simulation Rng Policy
  append_log clock order outcome quantity price commission reason s = record s {
    trade_log =
        s.trade_log
        ++ entry_of clock order outcome quantity price commission reason s.log_sequence ∷ [];
    log_sequence = s.log_sequence + 1;
  }

  abbrev pub with_fill : Fill → Bool → Simulation Rng Policy → Bool × Simulation Rng Policy
  with_fill f true s = (false, s)
  with_fill f false s = (
    true,
    record s {
      positions = insert f.symbol (apply_fill (lookup f.symbol s.positions) f) s.positions;
      cash = apply_fill_to_cash s.cash f;
    },
  )

  -- What is logged for a fill, and what stays pending of its order.
  abbrev pub book :
      ℕ → SimulatedOrder → Fill → Bool → Simulation Rng Policy → Pending × Simulation Rng Policy
  book clock order f false s = (
    order ∷ [],
    append_log clock order OrderStatus.unfilled f.quantity (some f.price) f.commission
        (some buying_power_exceeded) s,
  )
  book clock order f true s =
      let rest = order.quantity -ℤ f.quantity in
      if leb_ℤ rest (pos 0)
      then (
        [],
        append_log clock order OrderStatus.filled f.quantity (some f.price) f.commission none s,
      )
      else (
        record order { quantity = rest; status = OrderStatus.partially_filled } ∷ [],
        append_log clock order OrderStatus.partially_filled f.quantity (some f.price) f.commission
            none s,
      )

  abbrev pub decided :
      ℕ → SimulatedOrder → Bool × Option String → Simulation Rng Policy → Simulation Rng Policy
  decided clock order (true, reason) s =
      append_log clock order OrderStatus.pending order.quantity none (pos 0) none
        (record s { pending = s.pending ++ order ∷ [] })
  decided clock order (false, reason) s =
      append_log clock (record order { status = OrderStatus.rejected; reject_reason = reason })
        OrderStatus.rejected order.quantity none (pos 0) (risk_reason reason) s

  abbrev pub adjusted : CorporateAction → Adjusted → Simulation Rng Policy → Simulation Rng Policy
  adjusted action r s = record s {
    positions = placed r.0 (without action.symbol (lookup action.symbol s.positions) s.positions);
    cash = r.1;
    current_prices =
        rekey action.symbol action.successor_symbol (λ k price. price) s.current_prices;
    current_bars =
        rekey action.symbol action.successor_symbol (λ k bar. record bar { symbol = k })
          s.current_bars;
  }

  abbrev pub with_bar : Bar → Simulation Rng Policy → Simulation Rng Policy
  with_bar bar s = record s {
    current_prices = insert bar.symbol bar.close s.current_prices;
    current_bars = insert bar.symbol bar s.current_bars;
  }
