-- ===== src/Risk/Breaker/Halting.antt =====
-- When `CircuitBreaker` of backend/risk-engine/src/aqros_risk_engine/domain/models.py halts trading,
-- and when it lets trading go on.
use aqros.Shared.{
  ◌+◌, ◌≤◌, ◌<◌, ◌≡◌, ◌≢◌, Bool, true, false, none, some, List, [], ◌∷◌, arith, All, length, ◌⊎◌,
  inl, inr,
}
use aqros.Shared.Int.{ℤ, pos, ◌≤ℤ◌}
use aqros.Shared.Action.{done}
use aqros.Risk.Numbers.{Numbers}
use aqros.Risk.Models.{Instant}
use aqros.Risk.Breaker.{CircuitBreaker, record_trade_result, reset, check}

module _ (N : Numbers) where
  -- A breaker that is not tripped counts fewer losses in a row than its limit, and one that is
  -- tripped knows when.
  pub record IsArmed (b : CircuitBreaker N) : Type 0 where
    pub limit_positive : 1 ≤ b.consecutive_loss_limit
    pub below_limit : b.is_tripped ≡ false → b.consecutive_losses + 1 ≤ b.consecutive_loss_limit
    pub knows_when : b.is_tripped ≡ true → b.tripped_at ≢ none

  -- A trade result keeps the breaker armed.
  pub record_trade_result-IsArmed :
      (pnl equity : ℤ) (now : Instant) (b : CircuitBreaker N)
      → IsArmed b
      → IsArmed (record_trade_result N pnl equity now b)
  unfolding record_trade_result
  record_trade_result-IsArmed pnl equity now b h = ground arith

  -- A check of an armed breaker that returns leaves it armed, also where it resets it.
  pub check-IsArmed :
      (now : Instant) (b b' : CircuitBreaker N) (halted : Bool)
      → IsArmed b
      → check N now b ≡ done (halted, b')
      → IsArmed b'
  unfolding check
  check-IsArmed now b b' halted h e = ground arith

  -- A breaker that was tripped at a known time, with a time zone if the caller's time has one,
  -- halts trading and stays as it is before the cooldown has passed, and is reset and lets trading
  -- go on from then on.
  check_tripped-halted :
      (now at : Instant) (b : CircuitBreaker N)
      → b.is_tripped ≡ true
      → b.tripped_at ≡ some at
      → at.aware ≡ now.aware
      → ((check N now b ≡ done (true, b)) × (now.micros < at.micros + b.cooldown))
        ⊎ ((check N now b ≡ done (false, reset N b)) × (at.micros + b.cooldown ≤ now.micros))
  unfolding check
  check_tripped-halted now at b t w z = ground arith

  -- The results of several trades, the oldest first: profit, equity and time.
  pub record_all : List (ℤ × ℤ × Instant) → CircuitBreaker N → CircuitBreaker N
  record_all [] b = b
  record_all ((pnl, equity, now) ∷ ts) b = record_all ts (record_trade_result N pnl equity now b)

  abbrev pub IsLoss : ℤ × ℤ × Instant → Type 0
  IsLoss (pnl, equity, now) = ¬ (pos 0 ≤ℤ pnl)

  record_tripped :
      (pnl equity : ℤ) (now : Instant) (b : CircuitBreaker N)
      → b.is_tripped ≡ true
      → (record_trade_result N pnl equity now b).is_tripped ≡ true
  unfolding record_trade_result
  record_tripped pnl equity now b h = ground arith

  record_all_tripped :
      (ts : List (ℤ × ℤ × Instant)) (b : CircuitBreaker N)
      → b.is_tripped ≡ true
      → (record_all ts b).is_tripped ≡ true
  unfolding record_all
  record_all_tripped [] b h = h
  record_all_tripped ((pnl, equity, now) ∷ ts) b h =
      record_all_tripped ts (record_trade_result N pnl equity now b)
        (record_tripped pnl equity now b h)

  -- One losing trade trips the breaker, or is counted.
  record_loss :
      (pnl equity : ℤ) (now : Instant) (b : CircuitBreaker N)
      → ¬ (pos 0 ≤ℤ pnl)
      → let b' = record_trade_result N pnl equity now b in
        (b'.consecutive_loss_limit ≡ b.consecutive_loss_limit)
        × ((b'.is_tripped ≡ true)
            ⊎ ((b'.consecutive_losses ≡ b.consecutive_losses + 1)
                × (b.consecutive_losses + 1 < b.consecutive_loss_limit)))
  unfolding record_trade_result
  record_loss pnl equity now b h = ground arith

  -- If a breaker is armed, trades that all lose trip it by the time that their number and the
  -- losses in a row before them reach the limit.
  pub losses_trip :
      (ts : List (ℤ × ℤ × Instant)) (b : CircuitBreaker N)
      → IsArmed b
      → All IsLoss ts
      → b.consecutive_loss_limit ≤ b.consecutive_losses + length ts
      → (record_all ts b).is_tripped ≡ true
  unfolding record_all
  losses_trip [] b h l n = ground arith
  losses_trip ((pnl, equity, now) ∷ ts) b h (l, ls) n = elim (record_loss pnl equity now b l).1 [
    | inl tripped ↦ record_all_tripped ts (record_trade_result N pnl equity now b) tripped
    | inr counted ↦
        losses_trip ts (record_trade_result N pnl equity now b)
          (record_trade_result-IsArmed pnl equity now b h) ls
          (omega (arith, (record_loss pnl equity now b l).0))
  ]
