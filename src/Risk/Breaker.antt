-- ===== src/Risk/Breaker.antt =====
-- `CircuitBreaker` of backend/risk-engine/src/aqros_risk_engine/domain/models.py.
-- The proofs are in `Breaker.Halting`.
pub mod Halting
use aqros.Shared.{
  ℕ, ◌+◌, ◌≤◌, ◌≡◌, refl, String, Bool, true, false, Option, none, some, ◌||◌, ◌&&◌, arith, leb,
  not, if◌then◌else◌,
}
use aqros.Shared.Int.{ℤ, pos, ◌-ℤ◌, ltb_ℤ}
use aqros.Shared.Action.{Outcome, done, raised}
use aqros.Risk.Numbers.{Numbers, RuleError, mixed_zones, zero_f, hundred, max_f}
use aqros.Risk.Models.{Instant}

abbrev same_zone : Bool → Bool → Bool
same_zone true a = a
same_zone false a = not a

module _ (N : Numbers) where
  open N use {Float, add, mul, ratio, le}

  -- `cooldown` is the time delta in microseconds.
  pub record CircuitBreaker : Type 0 where
    pub daily_loss_limit_pct : Float
    pub consecutive_loss_limit : ℕ
    pub cooldown : ℕ
    pub daily_loss_pct : Float
    pub consecutive_losses : ℕ
    pub is_tripped : Bool
    pub tripped_at : Option Instant
    pub last_trade_result : Option String

  abbrev trade_loss_pct : ℤ → ℤ → Float
  trade_loss_pct pnl equity =
      if ltb_ℤ (pos 0) equity
      then max_f N (zero_f N) (mul (ratio (pos 0 -ℤ pnl) equity) (hundred N))
      else zero_f N

  unfoldable pub record_trade_result : ℤ → ℤ → Instant → CircuitBreaker → CircuitBreaker
  record_trade_result pnl equity now b =
      let loss = add b.daily_loss_pct (trade_loss_pct pnl equity) in
      let losses = if ltb_ℤ pnl (pos 0) then b.consecutive_losses + 1 else 0 in
      let b' = record b { daily_loss_pct = loss; consecutive_losses = losses } in
      if le b.daily_loss_limit_pct loss || leb b.consecutive_loss_limit losses
      then record b' { is_tripped = true; tripped_at = some now }
      else b'

  unfoldable pub reset : CircuitBreaker → CircuitBreaker
  reset b = record b {
    is_tripped = false;
    tripped_at = none;
    daily_loss_pct = zero_f N;
    consecutive_losses = 0;
  }

  -- The rest of `check` for a breaker that was tripped at a known time.
  abbrev expire :
      Instant → Instant → CircuitBreaker → Outcome RuleError CircuitBreaker (Bool × CircuitBreaker)
  expire at now b =
      if not (same_zone at.aware now.aware)
      then raised mixed_zones b
      else if leb (at.micros + b.cooldown) now.micros
      then done (false, reset b)
      else done (true, b)

  abbrev check_tripped :
      Option Instant
      → Instant
      → CircuitBreaker
      → Outcome RuleError CircuitBreaker (Bool × CircuitBreaker)
  check_tripped none now b = done (true, b)
  check_tripped (some at) now b = expire at now b

  -- `check`: whether trading is halted, and the breaker after the look at the clock.
  unfoldable pub check :
      Instant → CircuitBreaker → Outcome RuleError CircuitBreaker (Bool × CircuitBreaker)
  unfolding reset
  check now b = if not b.is_tripped then done (false, b) else check_tripped b.tripped_at now b
