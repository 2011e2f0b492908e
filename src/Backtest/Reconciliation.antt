-- ===== src/Backtest/Reconciliation.antt =====
-- Cash and positions against the trade log (`run` of
-- backend/backtesting-engine/src/aqros_backtesting_engine/domain/simulation.py, and `apply_fill` of
-- domain/portfolio.py).
pub mod Runs
use mathlib.Core.Path.{subst}
use aqros.Shared.{
  ℕ, ◌+◌, ◌≡◌, ◌∙◌, sym, ap, refl, String, Bool, true, false, ◌||◌, Bool-cases, Option, none, some,
  inl, inr, List, [], ◌∷◌, ◌++◌, if◌then◌else◌, leb, arith,
}
use aqros.Shared.Int.{ℤ, pos, pos_part, neg_part, ◌+ℤ◌, ◌-ℤ◌, ◌*ℤ◌, eqb_ℤ, int_laws, +ℤ-eq_parts}
use aqros.Shared.Sums.{sum_by, sum_by-snoc}
use aqros.Shared.Text.{str_eq, eq_iff}
use aqros.Shared.Dict.{Dict, lookup, insert, lookup-insert}
use aqros.Shared.Action.{
  Outcome, done, raised, ◌>>=◌, Ensures, Ensures-bind, Ensures-any, Ensures-done,
}
use aqros.Backtest.Models.{
  OrderStatus, OrderSide, buy, sell, OrderType, Bar, CorporateAction, Event, EventKind, OrderIntent,
  SimulatedOrder, Fill, Position, LogReason, buying_power_exceeded, TradeLogEntry,
}
use aqros.Backtest.Accounts.{
  same_sign, signed, or_flat, fill_position, apply_fill, balance_after, apply_fill_to_cash,
  would_exceed_buying_power,
}
use aqros.Backtest.Engine.{Simulation, SimulationEngine, entry_of, append_log, with_fill, book}

abbrev pub executed : OrderStatus → Bool
executed OrderStatus.filled = true
executed OrderStatus.partially_filled = true
executed _ = false

-- What a fill moves of the cash, and of the holding.
abbrev pub paid_for : OrderSide → ℤ → ℤ → ℤ
paid_for buy value commission = pos 0 -ℤ (value +ℤ commission)
paid_for sell value commission = value -ℤ commission

abbrev pub bought : OrderSide → ℤ → ℤ
bought buy quantity = quantity
bought sell quantity = pos 0 -ℤ quantity

abbrev pub flow_at : OrderSide → ℤ → Option ℤ → ℤ → ℤ
flow_at side q none c = pos 0
flow_at side q (some p) c = paid_for side (q *ℤ p) c

-- What an entry of the trade log moves of the cash: for a fill, the price of the quantity, out for a
-- buy and in for a sell, and the commission out.
abbrev pub cash_flow : TradeLogEntry → ℤ
cash_flow e = if executed e.outcome then flow_at e.side e.quantity e.price e.commission else pos 0

-- What an entry of the trade log moves of the holding in a symbol.
abbrev pub holding_flow : String → TradeLogEntry → ℤ
holding_flow symbol e =
    if executed e.outcome
    then (if str_eq e.symbol symbol then bought e.side e.quantity else pos 0)
    else pos 0

-- The quantity that is held of a symbol.
abbrev pub held : String → Dict Position → ℤ
held symbol positions = (or_flat symbol (lookup symbol positions)).quantity

pub fill_position-quantity :
    (delta : ℤ) (f : Fill) (p : Position) → (fill_position delta f p).quantity ≡ p.quantity +ℤ delta
unfolding fill_position
fill_position-quantity delta f p =
    elim (Bool-cases (eqb_ℤ p.quantity (pos 0) || same_sign p.quantity delta)) [
      | inl t ↦ rw t refl
      | inr t ↦ rw t refl
    ]

or_flat-quantity :
    (k j : String) (p : Option Position) → (or_flat k p).quantity ≡ (or_flat j p).quantity
or_flat-quantity k j none = refl
or_flat-quantity k j (some p) = refl

-- A fill moves the holding of its own symbol only.
pub held-insert :
    (symbol : String) (f : Fill) (positions : Dict Position)
    → held symbol (insert f.symbol (apply_fill (lookup f.symbol positions) f) positions)
      ≡ held symbol positions
        +ℤ (if str_eq f.symbol symbol then bought f.side f.quantity else pos 0)
unfolding apply_fill
held-insert symbol f positions =
    ap (λ p. (or_flat symbol p).quantity)
      (lookup-insert f.symbol symbol (apply_fill (lookup f.symbol positions) f) positions)
    ∙ elim (Bool-cases (str_eq f.symbol symbol)) [
      | inl t ↦ rw t (
          fill_position-quantity (signed f.side f.quantity) f
            (or_flat f.symbol (lookup f.symbol positions))
          ∙ ap (λ k. (or_flat k (lookup k positions)).quantity +ℤ signed f.side f.quantity)
              ((eq_iff f.symbol symbol).0 t))
      | inr t ↦ rw t (omega int_laws)
    ]

pub balance_after-flow :
    (side : OrderSide) (b n c : ℤ) → balance_after side b n c ≡ b +ℤ paid_for side n c
unfolding balance_after
balance_after-flow buy b n c = omega int_laws
balance_after-flow sell b n c = omega int_laws
