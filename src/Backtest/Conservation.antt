-- ===== src/Backtest/Conservation.antt =====
-- What is pending of an order, against the trade log (`run` of
-- backend/backtesting-engine/src/aqros_backtesting_engine/domain/simulation.py).
pub mod Runs
use aqros.Shared.{
  ℕ, ◌+◌, ◌≡◌, ◌∙◌, sym, ap, refl, String, Bool, true, false, Bool-cases, leb-cases, ltb, Option,
  none, some, inl, inr, List, [], ◌∷◌, ◌++◌, All, if◌then◌else◌, arith,
}
use aqros.Shared.Int.{
  min_ℤ, ℤ, pos, pos_part, neg_part, ◌+ℤ◌, ◌-ℤ◌, ◌≤ℤ◌, leb_ℤ, int_laws, eq_of_parts, -ℤ_parts,
}
use aqros.Shared.Sums.{sum_by, sum_by-append, sum_by-snoc}
use aqros.Shared.Text.{str_eq}
use aqros.Shared.Dict.{lookup}
use aqros.Shared.Action.{Outcome, done, raised, Ensures, Ensures-bind, Ensures-any, Ensures-done}
use aqros.Backtest.Models.{
  OrderStatus, OrderType, Bar, CorporateAction, Event, OrderIntent, SimulatedOrder, Fill, LogReason,
  buying_power_exceeded, TradeLogEntry,
}
use aqros.Backtest.Accounts.{would_exceed_buying_power}
use aqros.Backtest.Actions.{Adjusted, apply_corporate_action, assert_knowable}
use aqros.Backtest.Fills.{Models, reference_price, fill_at, fill_known, fill}
use aqros.Backtest.Engine.{
  Pending, StrategyContext, SimulationEngine, Simulation, entry_of, order_type_of, append_log,
  with_fill, apply_fill_state, book, settle_fill, attempt_order, attempt_loop, attempt_pending,
  decided, order_of, accept_new, accept_intent, is_in, accept_all, log_action, adjusted,
  apply_action, context_of, with_bar, decide_on, process_bar, started, run,
}
use aqros.Backtest.Keeping.{run-Ensures, step-Ensures}

-- What an entry of the trade log adds to what is owed of an order: the quantity, when it is accepted,
-- and its opposite for a fill.
abbrev pub by_outcome : OrderStatus → ℤ → ℤ
by_outcome OrderStatus.pending q = q
by_outcome OrderStatus.filled q = pos 0 -ℤ q
by_outcome OrderStatus.partially_filled q = pos 0 -ℤ q
by_outcome OrderStatus.rejected q = pos 0
by_outcome OrderStatus.unfilled q = pos 0

abbrev pub owing : String → TradeLogEntry → ℤ
owing id e = if str_eq e.client_order_id id then by_outcome e.outcome e.quantity else pos 0

abbrev pub open_under : String → SimulatedOrder → ℤ
open_under id order = if str_eq order.client_order_id id then order.quantity else pos 0

-- What a log owes of an order.
abbrev pub owed : String → List TradeLogEntry → ℤ
owed id log = sum_by (owing id) log

abbrev pub open_of : String → Pending → ℤ
open_of id orders = sum_by (open_under id) orders

module _ {Float Rng Policy : Type 0} (engine : SimulationEngine Float Rng Policy)
    (id : String) where
  -- What changes between the pending orders of a loop changes in the log too.
  abbrev pub Balances : Pending → List TradeLogEntry → Pending → List TradeLogEntry → Type 0
  Balances orders log orders' log' =
      open_of id orders' +ℤ owed id log ≡ open_of id orders +ℤ owed id log'

  with_fill_log :
      (f : Fill) (exceeded : Bool) (s : Simulation Rng Policy)
      → (with_fill f exceeded s).1.trade_log ≡ s.trade_log
  with_fill_log f true s = refl
  with_fill_log f false s = refl

  pub apply_fill_state_log :
      (f : Fill) (s : Simulation Rng Policy)
      → Ensures (λ r. r.1.trade_log ≡ s.trade_log) (apply_fill_state engine f s)
  unfolding apply_fill_state
  apply_fill_state_log f s =
      let m =
        would_exceed_buying_power f s.cash s.positions s.current_prices engine.leverage_enabled
          engine.max_leverage in
      Ensures-bind (λ e. Unit {0}) (λ r. r.1.trade_log ≡ s.trade_log) m
        (λ e. done (with_fill f e s)) (Ensures-any m) (λ e u. with_fill_log f e s)

  pub owed-append_log :
      (clock : ℕ) (order : SimulatedOrder) (outcome : OrderStatus) (q : ℤ) (price : Option ℤ)
      (commission : ℤ) (reason : Option LogReason) (s : Simulation Rng Policy)
      → owed id (append_log clock order outcome q price commission reason s).trade_log
        ≡ owed id s.trade_log
          +ℤ (if str_eq order.client_order_id id then by_outcome outcome q else pos 0)
  unfolding append_log
  owed-append_log clock order outcome q price commission reason s =
      sum_by-snoc (owing id) s.trade_log
        (entry_of clock order outcome q price commission reason s.log_sequence)

  book_filled :
      (same : Bool) (l q f : ℤ)
      → f ≤ℤ q
      → (q -ℤ f) ≤ℤ pos 0
      → pos 0 +ℤ l
        ≡ ((if same then q else pos 0) +ℤ pos 0) +ℤ (l +ℤ (if same then pos 0 -ℤ f else pos 0))
  book_filled true l q f a b = omega int_laws
  book_filled false l q f a b = omega int_laws

  book_part :
      (same : Bool) (l q f : ℤ)
      → ((if same then q -ℤ f else pos 0) +ℤ pos 0) +ℤ l
        ≡ ((if same then q else pos 0) +ℤ pos 0) +ℤ (l +ℤ (if same then pos 0 -ℤ f else pos 0))
  book_part true l q f = omega int_laws
  book_part false l q f = omega int_laws

  no_change : (same : Bool) (l q : ℤ) → q +ℤ l ≡ q +ℤ (l +ℤ (if same then pos 0 else pos 0))
  no_change true l q = omega int_laws
  no_change false l q = omega int_laws

  pub book-Balances :
      (clock : ℕ) (order : SimulatedOrder) (f : Fill) (applied : Bool) (s : Simulation Rng Policy)
      → f.quantity ≤ℤ order.quantity
      → Balances
          (order ∷ [])
          s.trade_log
          (book clock order f applied s).0
          (book clock order f applied s).1.trade_log
  unfolding sum_by
  book-Balances clock order f true s le =
      let rest = order.quantity -ℤ f.quantity in
      let same = str_eq order.client_order_id id in
      elim (leb-cases (pos_part rest + 0) (0 + neg_part rest)) [
        | inl (t, none_left) ↦ rw t (
            rw
              (owed-append_log clock order OrderStatus.filled f.quantity (some f.price) f.commission
                none s)
              (book_filled same (owed id s.trade_log) order.quantity f.quantity le none_left))
        | inr (t, some_left) ↦ rw t (
            rw
              (owed-append_log clock order OrderStatus.partially_filled f.quantity (some f.price)
                f.commission none s)
              (book_part same (owed id s.trade_log) order.quantity f.quantity))
      ]
  book-Balances clock order f false s le =
      rw
        (owed-append_log clock order OrderStatus.unfilled f.quantity (some f.price) f.commission
          (some buying_power_exceeded) s)
        (no_change (str_eq order.client_order_id id) (owed id s.trade_log)
          (open_of id (order ∷ [])))
