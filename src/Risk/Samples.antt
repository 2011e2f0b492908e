-- ===== src/Risk/Samples.antt =====
-- A portfolio, a signal and a pipeline of the risk engine (backend/risk-engine), over numbers that
-- count millionths in place of floats, and an evaluation that approves the signal.
use Prim.Native.Nat.{◌^◌}
use aqros.Shared.{
  ℕ, ◌+◌, ◌*◌, ◌/◌, ◌≡◌, refl, Bool, true, false, Option, none, some, List, [], arith,
}
use aqros.Shared.Int.{ℤ, pos, ◌+ℤ◌, ◌-ℤ◌, ◌*ℤ◌, ltb_ℤ, leb_ℤ, eqb_ℤ, pos_part, neg_part, divide}
use aqros.Shared.Action.{done}
use aqros.Risk.Numbers.{Numbers, divide_f, round_f, IsOrder}
use aqros.Risk.Models.{
  approve, low, Instant, PositionExposure, PortfolioExposure, RiskLimits, Signal, position_count,
  daily_loss_pct,
}
use aqros.Risk.Drawdown.{DrawdownTracker, drawdown_pct, update}
use aqros.Risk.Breaker.{CircuitBreaker, check, reset}
use aqros.Risk.Statistics.{RiskStatistics, count_hits, record_evaluation}
use aqros.Risk.Rules.{all_rules}
use aqros.Risk.Rules.Context.{Rule, exposure, share_of_equity}
use aqros.Risk.Rules.Filters.{
  circuit_breaker, cooldown_timer, cooldown_loop, minimum_confidence, minimum_prediction_quality,
  volatility_filter, liquidity_filter,
}
use aqros.Risk.Rules.Limits.{
  max_position_size, max_portfolio_exposure, max_daily_loss, max_drawdown, max_leverage, leverage,
  max_concurrent_positions, max_symbol_exposure, quantity_for, sector_exposure, symbol_exposure,
}
use aqros.Shared.Dict.{insert}
use aqros.Risk.Sizing.{fixed_quantity}
use aqros.Risk.Pipeline.{
  conclude, note, sized, run_rules, RiskPipeline, RiskPipelineResult, evaluate,
}

abbrev pub million : ℤ
million = pos 1_000_000

-- A float is its number of millionths; a price has four decimal places, and a lot is one unit.
abbrev pub millionths : Numbers
millionths = record {
  Float = ℤ;
  lit = λ n k. divide (n *ℤ million) (pos (10 ^ k));
  of_price = λ p. p *ℤ pos 100;
  of_value = λ v. v *ℤ pos 100;
  ratio = λ a b. divide (a *ℤ million) b;
  add = λ a b. a +ℤ b;
  sub = λ a b. a -ℤ b;
  mul = λ a b. divide (a *ℤ b) million;
  div = λ a b. divide (a *ℤ million) b;
  abs = λ a. pos (pos_part a + neg_part a);
  lt = λ a b. ltb_ℤ a b;
  le = λ a b. leb_ℤ a b;
  eq = λ a b. eqb_ℤ a b;
  round = λ a. some (divide a million);
  trunc = λ a. some (pos (pos_part a / 1_000_000) -ℤ pos (neg_part a / 1_000_000));
  to_price = λ a. some (divide a (pos 100));
  to_value = λ a. some (divide a (pos 100));
  lot = 1;
}

pub millionths-IsOrder : IsOrder millionths
millionths-IsOrder = record {
  irrefl = λ a. ground arith;
  asym = λ a b h. ground arith;
  trans = λ a b c h k. ground arith;
}

-- `n` whole units as a float.
abbrev pub units : ℕ → ℤ
units n = pos (n * 1_000_000)

abbrev pub signal : Signal millionths
signal = record {
  signal_id = "g1";
  symbol = "ACME";
  side = "buy";
  quantity = pos 10;
  confidence = pos 800_000;
  prediction = pos 20_000;
  prediction_quality = pos 500_000;
  current_price = pos 1_000_000;
  sector = none;
  volatility = pos 200_000;
  avg_daily_volume = units 1_000_000;
  strategy = "s";
  correlation_id = "";
  timestamp = none;
}

abbrev pub held : PositionExposure millionths
held = record {
  symbol = "ACME";
  quantity = pos 10;
  avg_entry_price = pos 1_000_000;
  current_price = pos 1_000_000;
  market_value = pos 10_000_000;
  unrealized_pnl = pos 0;
  realized_pnl = pos 0;
  sector = none;
  beta = units 1;
  volatility = pos 200_000;
  avg_daily_volume = units 1_000_000;
}

abbrev pub portfolio : List (PositionExposure millionths) → PortfolioExposure millionths
portfolio positions = record {
  total_equity = pos 10_000_000_000;
  total_market_value = pos 0;
  gross_exposure = pos 0;
  net_exposure = pos 0;
  cash = pos 10_000_000_000;
  leverage = pos 0;
  positions = positions;
  sector_exposures = [];
  daily_pnl = pos 0;
  portfolio_beta = units 1;
  var_95 = pos 0;
  var_99 = pos 0;
}

abbrev pub limits : RiskLimits millionths
limits = record {
  max_position_size_pct = units 5;
  max_portfolio_exposure_pct = units 50;
  max_daily_loss_pct = units 2;
  max_drawdown_pct = units 15;
  max_leverage = units 2;
  max_concurrent_positions = 20;
  max_symbol_exposure_pct = units 10;
  max_sector_exposure_pct = units 25;
  min_volatility = pos 1_000;
  max_volatility = pos 600_000;
  min_avg_daily_volume = units 100_000;
  min_confidence = pos 300_000;
  min_prediction_quality = pos 100_000;
  is_kernel = true;
}

abbrev pub stats : RiskStatistics millionths
stats = record {
  total_evaluations = 0;
  approved_count = 0;
  rejected_count = 0;
  modified_count = 0;
  reduced_count = 0;
  total_latency_ms = pos 0;
  max_latency_ms = pos 0;
  limit_hits = [];
}

abbrev pub tracker : DrawdownTracker millionths
tracker = record {
  peak_equity = pos 10_000_000_000;
  current_drawdown_pct = pos 0;
  max_drawdown_pct = pos 0;
}

abbrev pub breaker : Bool → Option Instant → CircuitBreaker millionths
breaker tripped at = record {
  daily_loss_limit_pct = units 3;
  consecutive_loss_limit = 3;
  cooldown = 60_000_000;
  daily_loss_pct = pos 0;
  consecutive_losses = 0;
  is_tripped = tripped;
  tripped_at = at;
  last_trade_result = none;
}

abbrev pub pipeline : List (Rule millionths) → CircuitBreaker millionths → RiskPipeline millionths
pipeline rules b = record {
  rules = rules;
  sizing = fixed_quantity millionths (pos 10);
  limits = limits;
  stats = stats;
  drawdown = tracker;
  circuit_breaker = b;
}

abbrev pub approval : RiskPipelineResult millionths
approval = record {
  signal = signal;
  decision = approve;
  reasons = [];
  risk_level = low;
  approved_quantity = pos 10;
  suggested_quantity = none;
  stop_loss = none;
  sizing_result = some (record {
    quantity = pos 10;
    sizing_method = "fixed_quantity";
    risk_per_trade = pos 0;
    stop_loss = none;
  });
  latency_ms = pos 7;
  rule_results = [];
}

-- The pipeline after one approval.
abbrev pub evaluated : RiskPipeline millionths
evaluated = record (pipeline (all_rules millionths) (breaker false none)) {
  stats = record stats {
    total_evaluations = 1;
    approved_count = 1;
    total_latency_ms = pos 7;
    max_latency_ms = pos 7;
  };
}

pub approves :
    evaluate millionths 5
      (pos 7)
      signal
      (portfolio [])
      (pipeline (all_rules millionths) (breaker false none))
    ≡ done (approval, evaluated)
unfolding evaluate run_rules all_rules circuit_breaker check max_portfolio_exposure share_of_equity
    divide ◌*ℤ◌ ◌+ℤ◌ exposure max_leverage leverage divide_f max_concurrent_positions position_count
    minimum_confidence reset drawdown_pct update daily_loss_pct round_f conclude note sized
    cooldown_loop cooldown_timer liquidity_filter minimum_prediction_quality volatility_filter
    max_daily_loss max_drawdown max_position_size max_symbol_exposure quantity_for sector_exposure
    symbol_exposure count_hits record_evaluation insert ◌-ℤ◌ fixed_quantity
approves = refl
