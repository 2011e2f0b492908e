-- ===== src/Backtest/Reconciliation/Runs.antt =====
-- Cash and positions of a whole run (`run` of
-- backend/backtesting-engine/src/aqros_backtesting_engine/domain/simulation.py).
use aqros.Shared.{
  ℕ, ◌≡◌, ◌∙◌, sym, ap, refl, String, Bool, true, false, Bool-cases, Option, none, some, inl, inr,
  List, [], ◌∷◌, ◌++◌, All, if◌then◌else◌,
}
use aqros.Shared.Int.{ℤ, pos, ◌+ℤ◌, ◌-ℤ◌, ◌*ℤ◌, leb_ℤ, int_laws}
use aqros.Shared.Sums.{sum_by, sum_by-snoc}
use aqros.Shared.Text.{str_eq}
use aqros.Shared.Dict.{lookup}
use aqros.Shared.Action.{done, ◌>>=◌, Ensures, Ensures-bind, Ensures-any, Ensures-done}
use aqros.Backtest.Models.{
  OrderStatus, Bar, Event, EventKind, OrderIntent, SimulatedOrder, Fill, LogReason,
  buying_power_exceeded, TradeLogEntry,
}
use aqros.Backtest.Accounts.{apply_fill_to_cash, would_exceed_buying_power}
use aqros.Backtest.Fills.{fill}
use aqros.Backtest.Fairness.{Fits, fill-Fits}
use aqros.Backtest.Engine.{
  Pending, StrategyContext, SimulationEngine, Simulation, entry_of, order_type_of, append_log,
  with_fill, apply_fill_state, book, settle_fill, attempt_order, attempt_loop, attempt_pending,
  risk_reason, decided, order_of, accept_new, accept_intent, is_in, accept_all, context_of,
  with_bar, decide_on, process_bar, run,
}
use aqros.Backtest.Keeping.{run-Ensures, step-Ensures}
use aqros.Backtest.Reconciliation.{
  paid_for, bought, executed, cash_flow, holding_flow, held, held-insert, balance_after-flow,
}

module _ {Float Rng Policy : Type 0} (engine : SimulationEngine Float Rng Policy)
    (symbol : String) where
  -- The cash is the starting cash and what the fills of the log moved, and the holding in the symbol
  -- is what they moved of it.
  pub record IsReconciled (s : Simulation Rng Policy) : Type 0 where
    pub cash_sum : s.cash.balance ≡ engine.starting_cash +ℤ sum_by cash_flow s.trade_log
    pub holding_sum : held symbol s.positions ≡ sum_by (holding_flow symbol) s.trade_log

  -- An entry that is no fill moves nothing.
  idle :
      (e : TradeLogEntry) (log : List TradeLogEntry)
      → executed e.outcome ≡ false
      → (sum_by cash_flow (log ++ e ∷ []) ≡ sum_by cash_flow log)
        × (sum_by (holding_flow symbol) (log ++ e ∷ []) ≡ sum_by (holding_flow symbol) log)
  idle e log h = (
    sum_by-snoc cash_flow log e ∙ rw h (omega int_laws),
    sum_by-snoc (holding_flow symbol) log e ∙ rw h (omega int_laws),
  )

  append_log-IsReconciled :
      (clock : ℕ) (order : SimulatedOrder) (outcome : OrderStatus) (q : ℤ) (price : Option ℤ)
      (commission : ℤ) (reason : Option LogReason) (s : Simulation Rng Policy)
      → executed outcome ≡ false
      → IsReconciled s
      → IsReconciled (append_log clock order outcome q price commission reason s)
  unfolding append_log
  append_log-IsReconciled clock order outcome q price commission reason s h i =
      let (c, k) =
        idle (entry_of clock order outcome q price commission reason s.log_sequence) s.trade_log
          h in
      record {
        cash_sum = i.cash_sum ∙ ap (λ t. engine.starting_cash +ℤ t) (sym c);
        holding_sum = i.holding_sum ∙ sym k;
      }

  three : (a b c : ℤ) → (a +ℤ b) +ℤ c ≡ a +ℤ (b +ℤ c)
  three a b c = omega int_laws

  -- A fill that is applied and logged.
  executed-IsReconciled :
      (clock : ℕ) (order : SimulatedOrder) (f : Fill) (outcome : OrderStatus)
      (s : Simulation Rng Policy)
      → executed outcome ≡ true
      → f.symbol ≡ order.symbol
      → f.side ≡ order.side
      → IsReconciled s
      → IsReconciled (
          append_log clock order outcome f.quantity
            (some f.price)
            f.commission
            none
            (with_fill f false s).1)
  unfolding append_log apply_fill_to_cash
  executed-IsReconciled clock order f outcome s x same_symbol same_side i =
      let e =
        entry_of clock order outcome f.quantity (some f.price) f.commission none s.log_sequence in
      let n = f.quantity *ℤ f.price in
      let out = paid_for f.side n f.commission in
      let got = if str_eq f.symbol symbol then bought f.side f.quantity else pos 0 in
      let paid : cash_flow e ≡ out =
        rw x (ap (λ side. paid_for side n f.commission) (sym same_side)) in
      let received : holding_flow symbol e ≡ got = rw x (
        ap (λ k. if str_eq k symbol then bought order.side f.quantity else pos 0) (sym same_symbol)
        ∙ ap (λ side. if str_eq f.symbol symbol then bought side f.quantity else pos 0)
            (sym same_side)) in
      record {
        cash_sum =
            balance_after-flow f.side s.cash.balance n f.commission
            ∙ ap (λ t. t +ℤ out) i.cash_sum
            ∙ three engine.starting_cash (sum_by cash_flow s.trade_log) out
            ∙ ap (λ t. engine.starting_cash +ℤ t)
                (sym (
                  sum_by-snoc cash_flow s.trade_log e
                  ∙ ap (λ t. sum_by cash_flow s.trade_log +ℤ t) paid));
        holding_sum =
            held-insert symbol f s.positions
            ∙ ap (λ t. t +ℤ got) i.holding_sum
            ∙ sym (
                sum_by-snoc (holding_flow symbol) s.trade_log e
                ∙ ap (λ t. sum_by (holding_flow symbol) s.trade_log +ℤ t) received);
      }

  book-IsReconciled :
      (clock : ℕ) (order : SimulatedOrder) (f : Fill) (exceeded : Bool) (s : Simulation Rng Policy)
      → f.symbol ≡ order.symbol
      → f.side ≡ order.side
      → IsReconciled s
      → IsReconciled (book clock order f (with_fill f exceeded s).0 (with_fill f exceeded s).1).1
  book-IsReconciled clock order f true s a b i =
      append_log-IsReconciled clock order OrderStatus.unfilled f.quantity (some f.price)
        f.commission (some buying_power_exceeded) s refl i
  book-IsReconciled clock order f false s a b i =
      elim (Bool-cases (leb_ℤ (order.quantity -ℤ f.quantity) (pos 0))) [
        | inl t ↦ rw t (executed-IsReconciled clock order f OrderStatus.filled s refl a b i)
        | inr t ↦
            rw t (executed-IsReconciled clock order f OrderStatus.partially_filled s refl a b i)
      ]

  settle_fill-IsReconciled :
      (clock : ℕ) (bar : Bar) (order : SimulatedOrder) (r : Option Fill × Rng)
      (s : Simulation Rng Policy)
      → Fits engine.models order bar clock s.rng r.0
      → IsReconciled s
      → Ensures (λ r. IsReconciled r.1) (settle_fill engine clock order r s)
  unfolding apply_fill_state
  settle_fill-IsReconciled clock bar order (none, rng) s h i = record {
    cash_sum = i.cash_sum;
    holding_sum = i.holding_sum;
  }
  settle_fill-IsReconciled clock bar order (some f, rng) s h i =
      let s' = record s { rng = rng } in
      let m =
        would_exceed_buying_power f s.cash s.positions s.current_prices engine.leverage_enabled
          engine.max_leverage in
      Ensures-bind (λ r. IsReconciled (book clock order f r.0 r.1).1) (λ r. IsReconciled r.1)
        (apply_fill_state engine f s') (λ r. done (book clock order f r.0 r.1))
        (Ensures-bind (λ e. Unit {0}) (λ r. IsReconciled (book clock order f r.0 r.1).1) m
          (λ e. done (with_fill f e s')) (Ensures-any m)
          (λ e u.
            book-IsReconciled clock order f e s' h.same_symbol h.same_side
              (record { cash_sum = i.cash_sum; holding_sum = i.holding_sum })))
        (λ r i'. i')

  attempt_order-IsReconciled :
      (clock : ℕ) (bar : Bar) (order : SimulatedOrder) (s : Simulation Rng Policy)
      → IsReconciled s
      → Ensures (λ r. IsReconciled r.1) (attempt_order engine clock bar order s)
  unfolding attempt_order
  attempt_order-IsReconciled clock bar order s i =
      elim (Bool-cases (str_eq order.symbol bar.symbol)) [
        | inl t ↦ rw t (
            Ensures-bind (λ r. Fits engine.models order bar clock s.rng r.0) (λ r. IsReconciled r.1)
              (fill engine.models order bar clock s.rng) (λ r. settle_fill engine clock order r s)
              (fill-Fits engine.models order bar clock s.rng)
              (λ r h. settle_fill-IsReconciled clock bar order r s h i))
        | inr t ↦ rw t i
      ]

  attempt_loop-IsReconciled :
      (clock : ℕ) (bar : Bar) (orders : Pending) (s : Simulation Rng Policy)
      → IsReconciled s
      → Ensures (λ r. IsReconciled r.1) (attempt_loop engine clock bar orders s)
  unfolding attempt_loop
  attempt_loop-IsReconciled clock bar [] s i = i
  attempt_loop-IsReconciled clock bar (order ∷ orders) s i =
      Ensures-bind (λ r. IsReconciled r.1) (λ r. IsReconciled r.1)
        (attempt_order engine clock bar order s)
        (λ r. attempt_loop engine clock bar orders r.1 >>= λ q. done (r.0 ++ q.0, q.1))
        (attempt_order-IsReconciled clock bar order s i)
        (λ r i'.
          Ensures-bind (λ q. IsReconciled q.1) (λ q. IsReconciled q.1)
            (attempt_loop engine clock bar orders r.1) (λ q. done (r.0 ++ q.0, q.1))
            (attempt_loop-IsReconciled clock bar orders r.1 i') (λ q i''. i''))

  decided-IsReconciled :
      (clock : ℕ) (order : SimulatedOrder) (d : Bool × Option String) (s : Simulation Rng Policy)
      → IsReconciled s
      → IsReconciled (decided clock order d s)
  decided-IsReconciled clock order (true, reason) s i =
      append_log-IsReconciled clock order OrderStatus.pending order.quantity none (pos 0) none
        (record s { pending = s.pending ++ order ∷ [] }) refl
        (record { cash_sum = i.cash_sum; holding_sum = i.holding_sum })
  decided-IsReconciled clock order (false, reason) s i =
      append_log-IsReconciled clock
        (record order { status = OrderStatus.rejected; reject_reason = reason })
        OrderStatus.rejected order.quantity none (pos 0) (risk_reason reason) s refl i

  accept_intent-IsReconciled :
      (clock : ℕ) (context : StrategyContext Float) (intent : OrderIntent)
      (s : Simulation Rng Policy)
      → IsReconciled s
      → Ensures IsReconciled (accept_intent engine clock context intent s)
  unfolding accept_intent
  accept_intent-IsReconciled clock context intent s i =
      elim (Bool-cases (is_in intent.client_order_id s.seen_order_ids)) [
        | inl t ↦ rw t i
        | inr t ↦ rw t (
            Ensures-bind (λ o. Unit {0}) IsReconciled (order_type_of intent.order_type)
              (λ o. done (accept_new engine clock context intent s o))
              (Ensures-any (order_type_of intent.order_type))
              (λ o u.
                let r = engine.models.eligible_time intent.emitted_at s.rng in
                decided-IsReconciled clock (order_of intent o r.0) (engine.check intent context)
                  (record s {
                    seen_order_ids = intent.client_order_id ∷ s.seen_order_ids;
                    rng = r.1;
                  })
                  (record { cash_sum = i.cash_sum; holding_sum = i.holding_sum })))
      ]

  accept_all-IsReconciled :
      (clock : ℕ) (context : StrategyContext Float) (intents : List OrderIntent)
      (s : Simulation Rng Policy)
      → IsReconciled s
      → Ensures IsReconciled (accept_all engine clock context intents s)
  unfolding accept_all
  accept_all-IsReconciled clock context [] s i = i
  accept_all-IsReconciled clock context (intent ∷ intents) s i =
      Ensures-bind IsReconciled IsReconciled (accept_intent engine clock context intent s)
        (λ s'. accept_all engine clock context intents s')
        (accept_intent-IsReconciled clock context intent s i)
        (λ s' i'. accept_all-IsReconciled clock context intents s' i')

  process_bar-IsReconciled :
      (clock : ℕ) (bar : Bar) (s : Simulation Rng Policy)
      → IsReconciled s
      → Ensures IsReconciled (process_bar engine clock bar s)
  unfolding process_bar attempt_pending
  process_bar-IsReconciled clock bar s i =
      let context = context_of engine clock bar in
      Ensures-bind IsReconciled IsReconciled (attempt_pending engine clock bar (with_bar bar s))
        (λ s'. decide_on engine clock context (engine.on_event context s'.policy) s')
        (Ensures-bind (λ r. IsReconciled r.1) IsReconciled
          (attempt_loop engine clock bar s.pending (with_bar bar s))
          (λ r. done (record r.1 { pending = r.0 }))
          (attempt_loop-IsReconciled clock bar s.pending (with_bar bar s)
            (record { cash_sum = i.cash_sum; holding_sum = i.holding_sum }))
          (λ r i'. record { cash_sum = i'.cash_sum; holding_sum = i'.holding_sum }))
        (λ s' i'.
          let r = engine.on_event context s'.policy in
          accept_all-IsReconciled clock context r.0 (record s' { policy = r.1 })
            (record { cash_sum = i'.cash_sum; holding_sum = i'.holding_sum }))

  -- In every run over events without corporate actions that returns, whatever the strategy, the risk
  -- check and the models do, the cash is the starting cash and what the logged fills moved (price
  -- times quantity and the commission), and the holding in every symbol is what the logged fills
  -- bought of it less what they sold.
  pub run-IsReconciled :
      (events : List Event) (rng : Rng) (policy : Policy) (s : Simulation Rng Policy)
      → All (λ e. e.kind ≡ EventKind.corporate_action → ⊥) events
      → run engine events rng policy ≡ done s
      → IsReconciled s
  unfolding sum_by lookup
  run-IsReconciled events rng policy s trading e =
      Ensures-done IsReconciled (run engine events rng policy) s
        (run-Ensures engine (λ e. e.kind ≡ EventKind.corporate_action → ⊥) IsReconciled
          (λ e t ok i.
            step-Ensures engine ⊥ IsReconciled
              (λ t s i. record { cash_sum = i.cash_sum; holding_sum = i.holding_sum })
              (λ c s i. record { cash_sum = i.cash_sum; holding_sum = i.holding_sum })
              (λ t bar s i. process_bar-IsReconciled t bar s i) (λ t action s no i. absurd no) e t
              ok i)
          events rng policy trading (record { cash_sum = omega int_laws; holding_sum = refl }))
        e
