-- ===== src/Backtest/Keeping.antt =====
-- What every event keeps, a whole run keeps (`run` of
-- backend/backtesting-engine/src/aqros_backtesting_engine/domain/simulation.py).
use aqros.Shared.{ℕ, ◌≡◌, refl, false, Bool-cases, some, inl, inr, List, [], ◌∷◌, ◌++◌}
use aqros.Shared.Action.{done, Ensures, Ensures-bind, Ensures-any}
use aqros.Shared.{All}
use aqros.Backtest.Models.{
  EventKind, Bar, CorporateAction, Payload, bar_payload, action_payload, marker, Event, EquityPoint,
}
use aqros.Backtest.Accounts.{portfolio_value}
use aqros.Backtest.Stream.{not_after, insert_event, sort_events}
use aqros.Backtest.Engine.{
  SimulationEngine, Simulation, process_bar, apply_action, sample_equity, is_late, step, replay,
  started, run,
}

pub All-any : (es : List Event) → All (λ e. Unit {0}) es
All-any [] = tt
All-any (e ∷ es) = (tt, All-any es)

module _ (OK : Event → Type 0) where
  All-insert_event : (e : Event) (es : List Event) → OK e → All OK es → All OK (insert_event e es)
  unfolding insert_event
  All-insert_event e [] h hs = (h, tt)
  All-insert_event e (f ∷ fs) h (g, hs) = elim (Bool-cases (not_after e f)) [
    | inl t ↦ rw t (h, (g, hs))
    | inr t ↦ rw t (g, All-insert_event e fs h hs)
  ]

  pub All-sort_events : (es : List Event) → All OK es → All OK (sort_events es)
  unfolding sort_events
  All-sort_events [] hs = tt
  All-sort_events (e ∷ es) (h, hs) = All-insert_event e (sort_events es) h (All-sort_events es hs)

module _ {Float Rng Policy : Type 0} (engine : SimulationEngine Float Rng Policy) where
  module _ (OK : Event → Type 0) (Inv : Simulation Rng Policy → Type 0)
      (keep : (e : Event) (s : Simulation Rng Policy)
        → OK e
        → Inv s
        → Ensures Inv (step engine e s)) where
    replay-Ensures :
        (es : List Event) (s : Simulation Rng Policy)
        → All OK es
        → Inv s
        → Ensures Inv (replay engine es s)
    unfolding replay
    replay-Ensures [] s hs h = h
    replay-Ensures (e ∷ es) s (ok, hs) h =
        Ensures-bind Inv Inv (step engine e s) (λ s'. replay engine es s') (keep e s ok h)
          (λ s' h'. replay-Ensures es s' hs h')

    pub run-Ensures :
        (events : List Event) (rng : Rng) (policy : Policy)
        → All OK events
        → Inv (started engine rng policy)
        → Ensures Inv (run engine events rng policy)
    unfolding run
    run-Ensures events rng policy hs h =
        replay-Ensures (sort_events events) (started engine rng policy)
          (All-sort_events OK events hs) h

  -- A step keeps what bars, actions (where there are any), samples and the clock keep.
  module _ (Actions : Type 0) (Inv : Simulation Rng Policy → Type 0)
      (on_clock : (t : ℕ) (s : Simulation Rng Policy) → Inv s → Inv (record s { clock = some t }))
      (on_sample : (curve : List EquityPoint) (s : Simulation Rng Policy)
        → Inv s
        → Inv (record s { equity_curve = curve }))
      (on_bar : (t : ℕ) (bar : Bar) (s : Simulation Rng Policy)
        → Inv s
        → Ensures Inv (process_bar engine t bar s))
      (on_action : (t : ℕ) (action : CorporateAction) (s : Simulation Rng Policy)
        → Actions
        → Inv s
        → Ensures Inv (apply_action engine t action s)) where
    sample_equity-Ensures :
        (t : ℕ) (s : Simulation Rng Policy) → Inv s → Ensures Inv (sample_equity engine t s)
    unfolding sample_equity
    sample_equity-Ensures t s h =
        Ensures-bind (λ v. Unit {0}) Inv (portfolio_value s.cash s.positions s.current_prices)
          (λ v. done (record s {
            equity_curve = s.equity_curve ++ record { clock_time = t; total_value = v } ∷ [];
          }))
          (Ensures-any (portfolio_value s.cash s.positions s.current_prices))
          (λ v u. on_sample (s.equity_curve ++ record { clock_time = t; total_value = v } ∷ []) s h)

    in_time :
        (k : EventKind) (p : Payload) (t : ℕ) (n m : ℕ) (s : Simulation Rng Policy)
        → (k ≡ EventKind.corporate_action → Actions)
        → is_late t s.clock ≡ false
        → Inv s
        → Ensures Inv (
            step engine
              (record { event_time = t; knowledge_time = n; kind = k; sequence = m; payload = p })
              s)
    unfolding step
    in_time EventKind.corporate_action (action_payload a) t n m s ok l h =
        rw l (on_action t a (record s { clock = some t }) (ok refl) (on_clock t s h))
    in_time EventKind.corporate_action (bar_payload b) t n m s ok l h = rw l tt
    in_time EventKind.corporate_action marker t n m s ok l h = rw l tt
    in_time EventKind.market_bar (bar_payload b) t n m s ok l h =
        rw l (on_bar t b (record s { clock = some t }) (on_clock t s h))
    in_time EventKind.market_bar (action_payload a) t n m s ok l h = rw l tt
    in_time EventKind.market_bar marker t n m s ok l h = rw l tt
    in_time EventKind.order_eligible p t n m s ok l h = rw l (on_clock t s h)
    in_time EventKind.equity_sample p t n m s ok l h =
        rw l (sample_equity-Ensures t (record s { clock = some t }) (on_clock t s h))

    pub step-Ensures :
        (e : Event) (s : Simulation Rng Policy)
        → (e.kind ≡ EventKind.corporate_action → Actions)
        → Inv s
        → Ensures Inv (step engine e s)
    unfolding step
    step-Ensures e s ok h = elim (Bool-cases (is_late e.event_time s.clock)) [
      | inl late ↦ rw late tt
      | inr l ↦ in_time e.kind e.payload e.event_time e.knowledge_time e.sequence s ok l h
    ]
