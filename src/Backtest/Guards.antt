-- ===== src/Backtest/Guards.antt =====
-- What stops a fill (`attempt_pending` and `apply_fill_state` in
-- backend/backtesting-engine/src/aqros_backtesting_engine/domain/simulation.py).
use aqros.Shared.{
  ℕ, ◌+◌, ◌<◌, ◌≡◌, ◌⊎◌, refl, Bool, true, false, Bool-cases, ltb-cases, inl, inr, some, List, [],
  ◌∷◌, Any, arith,
}
use aqros.Shared.Int.{ℤ, pos, pos_part, neg_part, ◌+ℤ◌, ◌-ℤ◌, ◌*ℤ◌, ◌≤ℤ◌, ltb_ℤ, int_laws}
use aqros.Shared.Text.{str_eq}
use aqros.Shared.Action.{done}
use aqros.Backtest.Models.{
  OrderSide, buy, sell, Bar, SimulatedOrder, Fill, look_ahead, EventKind, Event, bar_payload,
}
use aqros.Backtest.Accounts.{
  fail, balance_after, apply_fill_to_cash, buying_power, would_exceed_buying_power,
}
use aqros.Backtest.Actions.{assert_knowable}
use aqros.Backtest.Fills.{fill}
use aqros.Backtest.Engine.{
  Pending, SimulationEngine, Simulation, with_fill, apply_fill_state, attempt_order, attempt_loop,
  attempt_pending, with_bar, process_bar, is_late, step, replay,
}

module _ {Float Rng Policy : Type 0} (engine : SimulationEngine Float Rng Policy) where
  module _ (clock : ℕ) (bar : Bar) (early : clock < bar.knowledge_time) where
    unknown : assert_knowable bar.knowledge_time clock ≡ fail look_ahead
    unfolding assert_knowable
    unknown = ground arith

    stopped :
        (order : SimulatedOrder) (s : Simulation Rng Policy)
        → str_eq order.symbol bar.symbol ≡ true
        → attempt_order engine clock bar order s ≡ fail look_ahead
    unfolding attempt_order fill
    stopped order s t = rw (t, unknown) refl

    passed :
        (order : SimulatedOrder) (s : Simulation Rng Policy)
        → str_eq order.symbol bar.symbol ≡ false
        → attempt_order engine clock bar order s ≡ done (order ∷ [], s)
    unfolding attempt_order
    passed order s t = rw t refl

    loop_stopped :
        (orders : Pending) (s : Simulation Rng Policy)
        → Any (λ order. str_eq order.symbol bar.symbol ≡ true) orders
        → attempt_loop engine clock bar orders s ≡ fail look_ahead
    unfolding attempt_loop
    loop_stopped [] s h = elim h [ ]
    loop_stopped (order ∷ orders) s (inl t) = rw (stopped order s t) refl
    loop_stopped (order ∷ orders) s (inr h) = elim (Bool-cases (str_eq order.symbol bar.symbol)) [
      | inl t ↦ rw (stopped order s t) refl
      | inr t ↦ rw (passed order s t) (rw (loop_stopped orders s h) refl)
    ]

    -- Processing a bar at a clock before its knowledge time raises the look-ahead error if an order of
    -- its symbol is pending, whether or not the order is eligible.
    process_bar-look_ahead :
        (s : Simulation Rng Policy)
        → Any (λ order. str_eq order.symbol bar.symbol ≡ true) s.pending
        → process_bar engine clock bar s ≡ fail look_ahead
    unfolding process_bar attempt_pending
    process_bar-look_ahead s h = rw (loop_stopped s.pending (with_bar bar s) h) refl

  -- A bar event that does not come before the clock, and whose event time is before the knowledge time
  -- of its bar, ends the replay with the look-ahead error, whatever events follow, if an order of the
  -- bar's symbol is pending, whether or not the order is eligible.
  pub replay-look_ahead :
      (e : Event) (es : List Event) (bar : Bar) (s : Simulation Rng Policy)
      → e.kind ≡ EventKind.market_bar
      → e.payload ≡ bar_payload bar
      → is_late e.event_time s.clock ≡ false
      → e.event_time < bar.knowledge_time
      → Any (λ order. str_eq order.symbol bar.symbol ≡ true) s.pending
      → replay engine (e ∷ es) s ≡ fail look_ahead
  unfolding replay step
  replay-look_ahead e es bar s kind payload timely early h =
      rw (timely, kind, payload)
        (rw
          (process_bar-look_ahead e.event_time bar early (record s { clock = some e.event_time }) h)
          refl)

  -- What a fill costs.
  abbrev pub cost_of : Fill → ℤ
  cost_of f = f.quantity *ℤ f.price +ℤ f.commission

  paid : (b n c : ℤ) → n +ℤ c ≤ℤ b → pos 0 ≤ℤ b -ℤ n -ℤ c
  paid b n c h = omega int_laws

  -- A sell is applied. A buy is applied, and costs no more than the cash and leaves it at zero or
  -- above, or it is not, and costs more than the cash and nothing changes.
  abbrev pub IsGuarded : Fill → Simulation Rng Policy → Bool × Simulation Rng Policy → Type 0
  IsGuarded f s r =
      (f.side ≡ sell → r.0 ≡ true)
      × (f.side ≡ buy
          → ((r.0 ≡ true) × (cost_of f ≤ℤ s.cash.balance) × (pos 0 ≤ℤ r.1.cash.balance))
            ⊎ ((r.0 ≡ false) × (ltb_ℤ s.cash.balance (cost_of f) ≡ true) × (r.1 ≡ s)))

  -- With leverage off, `apply_fill_state` returns, and applies a fill as `IsGuarded` says: a sell
  -- always, and a buy exactly if it costs no more than the cash, which then does not fall below zero.
  pub apply_fill_state-IsGuarded :
      (f : Fill) (s : Simulation Rng Policy)
      → engine.leverage_enabled ≡ false
      → (r : Bool × Simulation Rng Policy) × (apply_fill_state engine f s ≡ done r)
        × IsGuarded f s r
  unfolding apply_fill_state would_exceed_buying_power buying_power apply_fill_to_cash balance_after
  apply_fill_state-IsGuarded f s off = by_side f.side refl
    where
      by_side :
          (side : OrderSide)
          → f.side ≡ side
          → (r : Bool × Simulation Rng Policy) × (apply_fill_state engine f s ≡ done r)
            × IsGuarded f s r
      by_side sell e = (with_fill f false s, rw e refl, (λ h. refl, λ h. absurd (cc)))
      by_side buy e =
          elim (ltb-cases (pos_part s.cash.balance + neg_part (cost_of f))
            (pos_part (cost_of f) + neg_part s.cash.balance)) [
              | inl (t, lt) ↦ (
                with_fill f true s,
                rw e (rw off (rw t refl)),
                (λ h. absurd (cc), λ h. inr (refl, t, refl)),
              )
              | inr (t, le) ↦ (
                with_fill f false s,
                rw e (rw off (rw t refl)),
                (
                  λ h. absurd (cc),
                  λ h. inl (
                    refl,
                    le,
                    rw e (paid s.cash.balance (f.quantity *ℤ f.price) f.commission le),
                  ),
                ),
              )
            ]
