-- ===== src/Backtest/Conservation/Runs.antt =====
-- The orders of a whole run (`run` of
-- backend/backtesting-engine/src/aqros_backtesting_engine/domain/simulation.py).
use mathlib.Core.Path.{subst}
use aqros.Shared.{
  ℕ, ◌≡◌, ◌∙◌, sym, ap, refl, String, Bool, true, false, Bool-cases, Option, none, some, inl, inr,
  List, [], ◌∷◌, ◌++◌, if◌then◌else◌,
}
use aqros.Shared.Int.{ℤ, pos, pos_part, neg_part, ◌+ℤ◌, ◌-ℤ◌, int_laws, +ℤ-eq_parts}
use aqros.Shared.Sums.{sum_by, sum_by-append, sum_by-snoc}
use aqros.Shared.Text.{str_eq}
use aqros.Shared.Dict.{lookup}
use aqros.Shared.Action.{done, ◌>>=◌, Ensures, Ensures-bind, Ensures-any, Ensures-done}
use aqros.Backtest.Models.{
  OrderStatus, Bar, CorporateAction, Event, OrderIntent, SimulatedOrder, Fill, action_applied,
}
use aqros.Backtest.Actions.{apply_corporate_action}
use aqros.Backtest.Fills.{fill}
use aqros.Backtest.Engine.{
  Pending, StrategyContext, SimulationEngine, Simulation, order_type_of, append_log,
  apply_fill_state, book, settle_fill, attempt_order, attempt_loop, attempt_pending, risk_reason,
  decided, order_of, accept_new, accept_intent, is_in, accept_all, action_order, log_action,
  adjusted, apply_action, context_of, with_bar, decide_on, process_bar, run,
}
use aqros.Backtest.Fairness.{Fits, fill-Fits}
use aqros.Backtest.Keeping.{run-Ensures, step-Ensures, All-any}
use aqros.Backtest.Conservation.{
  open_under, owed, open_of, Balances, apply_fill_state_log, owed-append_log, book-Balances,
}

module _ {Float Rng Policy : Type 0} (engine : SimulationEngine Float Rng Policy)
    (id : String) where
  -- The result of a step of the loop over the pending orders balances.
  abbrev Settles : Pending → Simulation Rng Policy → Pending × Simulation Rng Policy → Type 0
  Settles orders s r = Balances engine id orders s.trade_log r.0 r.1.trade_log

  settle_fill-Settles :
      (clock : ℕ) (bar : Bar) (order : SimulatedOrder) (r : Option Fill × Rng)
      (s : Simulation Rng Policy)
      → Fits engine.models order bar clock s.rng r.0
      → Ensures (Settles (order ∷ []) s) (settle_fill engine clock order r s)
  settle_fill-Settles clock bar order (none, rng) s h = refl
  settle_fill-Settles clock bar order (some f, rng) s h =
      Ensures-bind (λ r. r.1.trade_log ≡ s.trade_log) (Settles (order ∷ []) s)
        (apply_fill_state engine f (record s { rng = rng }))
        (λ r. done (book clock order f r.0 r.1))
        (apply_fill_state_log engine id f (record s { rng = rng }))
        (λ r e.
          subst
            (λ log.
              Balances engine id (order ∷ []) log (book clock order f r.0 r.1).0
                (book clock order f r.0 r.1).1.trade_log)
            e (book-Balances engine id clock order f r.0 r.1 h.within_order))

  attempt_order-Settles :
      (clock : ℕ) (bar : Bar) (order : SimulatedOrder) (s : Simulation Rng Policy)
      → Ensures (Settles (order ∷ []) s) (attempt_order engine clock bar order s)
  unfolding attempt_order
  attempt_order-Settles clock bar order s = elim (Bool-cases (str_eq order.symbol bar.symbol)) [
    | inl t ↦ rw t (
        Ensures-bind (λ r. Fits engine.models order bar clock s.rng r.0) (Settles (order ∷ []) s)
          (fill engine.models order bar clock s.rng) (λ r. settle_fill engine clock order r s)
          (fill-Fits engine.models order bar clock s.rng)
          (λ r h. settle_fill-Settles clock bar order r s h))
    | inr t ↦ rw t refl
  ]

  chain :
      (o os a b l m n : ℤ)
      → a +ℤ l ≡ (o +ℤ pos 0) +ℤ m
      → b +ℤ m ≡ os +ℤ n
      → (a +ℤ b) +ℤ l ≡ (o +ℤ os) +ℤ n
  chain o os a b l m n h g =
      omega (int_laws, +ℤ-eq_parts a l (o +ℤ pos 0) m h, +ℤ-eq_parts b m os n g)

  attempt_loop-Settles :
      (clock : ℕ) (bar : Bar) (orders : Pending) (s : Simulation Rng Policy)
      → Ensures (Settles orders s) (attempt_loop engine clock bar orders s)
  unfolding attempt_loop sum_by
  attempt_loop-Settles clock bar [] s = refl
  attempt_loop-Settles clock bar (order ∷ orders) s =
      Ensures-bind (Settles (order ∷ []) s) (Settles (order ∷ orders) s)
        (attempt_order engine clock bar order s)
        (λ r. attempt_loop engine clock bar orders r.1 >>= λ q. done (r.0 ++ q.0, q.1))
        (attempt_order-Settles clock bar order s)
        (λ r h.
          Ensures-bind (Settles orders r.1) (Settles (order ∷ orders) s)
            (attempt_loop engine clock bar orders r.1) (λ q. done (r.0 ++ q.0, q.1))
            (attempt_loop-Settles clock bar orders r.1)
            (λ q g. rw (sum_by-append (open_under id) r.0 q.0) (
              chain (open_under id order) (open_of id orders) (open_of id r.0) (open_of id q.0)
                (owed id s.trade_log) (owed id r.1.trade_log) (owed id q.1.trade_log) h g)))

  -- What is pending of the order is what the log owes of it.
  abbrev pub IsConserved : Simulation Rng Policy → Type 0
  IsConserved s = open_of id s.pending ≡ owed id s.trade_log

  settled : (a b l m : ℤ) → b +ℤ l ≡ a +ℤ m → a ≡ l → b ≡ m
  settled a b l m h g = omega (int_laws, +ℤ-eq_parts b l a m h, ap pos_part g, ap neg_part g)

  attempt_pending-IsConserved :
      (clock : ℕ) (bar : Bar) (s : Simulation Rng Policy)
      → IsConserved s
      → Ensures IsConserved (attempt_pending engine clock bar s)
  unfolding attempt_pending
  attempt_pending-IsConserved clock bar s h =
      Ensures-bind (Settles s.pending s) IsConserved (attempt_loop engine clock bar s.pending s)
        (λ r. done (record r.1 { pending = r.0 })) (attempt_loop-Settles clock bar s.pending s)
        (λ r g.
          settled (open_of id s.pending) (open_of id r.0) (owed id s.trade_log)
            (owed id r.1.trade_log) g h)

  unmoved : (same : Bool) (l : ℤ) → l ≡ l +ℤ (if same then pos 0 else pos 0)
  unmoved true l = omega int_laws
  unmoved false l = omega int_laws

  unmoved' : (same : Bool) (l : ℤ) → l ≡ l +ℤ (if same then pos 0 -ℤ pos 0 else pos 0)
  unmoved' true l = omega int_laws
  unmoved' false l = omega int_laws

  decided-IsConserved :
      (clock : ℕ) (order : SimulatedOrder) (d : Bool × Option String) (s : Simulation Rng Policy)
      → IsConserved s
      → IsConserved (decided clock order d s)
  unfolding append_log
  decided-IsConserved clock order (true, reason) s h =
      sum_by-snoc (open_under id) s.pending order
      ∙ ap (λ t. t +ℤ open_under id order) h
      ∙ sym (
          owed-append_log engine id clock order OrderStatus.pending order.quantity none (pos 0) none
            (record s { pending = s.pending ++ order ∷ [] }))
  decided-IsConserved clock order (false, reason) s h =
      h
      ∙ unmoved (str_eq order.client_order_id id) (owed id s.trade_log)
      ∙ sym (
          owed-append_log engine id clock
            (record order { status = OrderStatus.rejected; reject_reason = reason })
            OrderStatus.rejected order.quantity none (pos 0) (risk_reason reason) s)

  accept_intent-IsConserved :
      (clock : ℕ) (context : StrategyContext Float) (intent : OrderIntent)
      (s : Simulation Rng Policy)
      → IsConserved s
      → Ensures IsConserved (accept_intent engine clock context intent s)
  unfolding accept_intent
  accept_intent-IsConserved clock context intent s h =
      elim (Bool-cases (is_in intent.client_order_id s.seen_order_ids)) [
        | inl t ↦ rw t h
        | inr t ↦ rw t (
            Ensures-bind (λ o. Unit {0}) IsConserved (order_type_of intent.order_type)
              (λ o. done (accept_new engine clock context intent s o))
              (Ensures-any (order_type_of intent.order_type))
              (λ o u.
                let r = engine.models.eligible_time intent.emitted_at s.rng in
                decided-IsConserved clock (order_of intent o r.0) (engine.check intent context)
                  (record s {
                    seen_order_ids = intent.client_order_id ∷ s.seen_order_ids;
                    rng = r.1;
                  })
                  h))
      ]

  accept_all-IsConserved :
      (clock : ℕ) (context : StrategyContext Float) (intents : List OrderIntent)
      (s : Simulation Rng Policy)
      → IsConserved s
      → Ensures IsConserved (accept_all engine clock context intents s)
  unfolding accept_all
  accept_all-IsConserved clock context [] s h = h
  accept_all-IsConserved clock context (intent ∷ intents) s h =
      Ensures-bind IsConserved IsConserved (accept_intent engine clock context intent s)
        (λ s'. accept_all engine clock context intents s')
        (accept_intent-IsConserved clock context intent s h)
        (λ s' h'. accept_all-IsConserved clock context intents s' h')

  process_bar-IsConserved :
      (clock : ℕ) (bar : Bar) (s : Simulation Rng Policy)
      → IsConserved s
      → Ensures IsConserved (process_bar engine clock bar s)
  unfolding process_bar
  process_bar-IsConserved clock bar s h =
      let context = context_of engine clock bar in
      Ensures-bind IsConserved IsConserved (attempt_pending engine clock bar (with_bar bar s))
        (λ s'. decide_on engine clock context (engine.on_event context s'.policy) s')
        (attempt_pending-IsConserved clock bar (with_bar bar s) h)
        (λ s' h'.
          let r = engine.on_event context s'.policy in
          accept_all-IsConserved clock context r.0 (record s' { policy = r.1 }) h')

  log_action-IsConserved :
      (clock : ℕ) (action : CorporateAction) (applied : Bool) (s : Simulation Rng Policy)
      → IsConserved s
      → IsConserved (log_action engine clock action applied s)
  unfolding append_log
  log_action-IsConserved clock action false s h = h
  log_action-IsConserved clock action true s h =
      h
      ∙ unmoved' (str_eq (engine.action_id s.log_sequence) id) (owed id s.trade_log)
      ∙ sym (
          owed-append_log engine id clock (action_order engine clock action s.log_sequence)
            OrderStatus.filled (pos 0) none (pos 0) (some action_applied) s)

  apply_action-IsConserved :
      (clock : ℕ) (action : CorporateAction) (s : Simulation Rng Policy)
      → IsConserved s
      → Ensures IsConserved (apply_action engine clock action s)
  unfolding apply_action
  apply_action-IsConserved clock action s h =
      let m = apply_corporate_action action (lookup action.symbol s.positions) s.cash clock in
      Ensures-bind (λ r. Unit {0}) IsConserved m
        (λ r. done (log_action engine clock action r.2 (adjusted action r s))) (Ensures-any m)
        (λ r u. log_action-IsConserved clock action r.2 (adjusted action r s) h)

  -- In every run that returns, for every order identifier: what is still pending of the order is the
  -- quantity that the trade log shows as accepted, less the quantities that it shows as filled, so
  -- that no fill is lost or counted twice, whatever the strategy, the risk check and the models do.
  pub run-IsConserved :
      (events : List Event) (rng : Rng) (policy : Policy) (s : Simulation Rng Policy)
      → run engine events rng policy ≡ done s
      → IsConserved s
  unfolding sum_by
  run-IsConserved events rng policy s e =
      Ensures-done IsConserved (run engine events rng policy) s
        (run-Ensures engine (λ e. Unit {0}) IsConserved
          (λ e t u h.
            step-Ensures engine (Unit {0}) IsConserved (λ t s h. h) (λ c s h. h)
              (λ t bar s h. process_bar-IsConserved t bar s h)
              (λ t action s u h. apply_action-IsConserved t action s h) e t (λ k. tt) h)
          events rng policy (All-any events) refl)
        e
