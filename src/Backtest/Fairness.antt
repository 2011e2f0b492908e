-- ===== src/Backtest/Fairness.antt =====
-- What a fill is (`FillModel.fill` of
-- backend/backtesting-engine/src/aqros_backtesting_engine/domain/fills.py).
use aqros.Shared.{
  ℕ, ◌+◌, ◌≤◌, ◌≡◌, refl, Bool-cases, ltb-cases, leb-cases, Option, none, some, inl, inr, arith,
}
use aqros.Shared.Int.{min_ℤ, ℤ, pos, pos_part, neg_part, ◌≤ℤ◌, leb_ℤ}
use aqros.Shared.Action.{done, Ensures, Ensures-bind}
use aqros.Backtest.Models.{
  OrderSide, buy, sell, OrderType, market, limit, Bar, SimulatedOrder, Fill,
}
use aqros.Backtest.Actions.{assert_knowable}
use aqros.Backtest.Fills.{
  Models, limit_reference, reference_by, reference_price, fill_at, fill_known, fill,
}

-- The bar traded at the limit price or better.
abbrev pub Reaches : OrderSide → ℤ → Bar → Type 0
Reaches buy p bar = bar.low ≤ℤ p
Reaches sell p bar = p ≤ℤ bar.high

abbrev pub ReferenceBy : OrderType → Option ℤ → OrderSide → Bar → ℤ → Type 0
ReferenceBy market price side bar p = p ≡ bar.open_
ReferenceBy limit price side bar p = (price ≡ some p) × Reaches side p bar

module _ {Rng : Type 0} (models : Models Rng) (order : SimulatedOrder) (bar : Bar) (clock : ℕ)
    (rng : Rng) where
  -- A fill of the order against the bar at the time: it is made only with a bar that is known and for
  -- an order that is eligible, it is not larger than the order or than the bar allows, and its price
  -- is the slippage on the open of the bar, or on a limit that the bar reaches.
  pub record IsFair (f : Fill) : Type 0 where
    pub same_order : f.client_order_id ≡ order.client_order_id
    pub same_symbol : f.symbol ≡ order.symbol
    pub same_side : f.side ≡ order.side
    pub at_clock : f.filled_at ≡ clock
    pub known : bar.knowledge_time ≤ clock
    pub eligible : order.eligible_at ≤ clock
    pub within_order : f.quantity ≤ℤ order.quantity
    pub within_bar : f.quantity ≤ℤ models.max_fillable_quantity order bar
    pub charged : f.commission ≡ models.cost f.quantity f.price
    pub priced :
        (p : ℤ) × ReferenceBy order.order_type order.limit_price order.side bar p
        × (f.price ≡ (models.adjust p order.side rng).0)

  abbrev pub Fits : Option Fill → Type 0
  Fits none = Unit
  Fits (some f) = IsFair f

-- What the reference price is.
abbrev Referenced : OrderType → Option ℤ → OrderSide → Bar → Option ℤ → Type 0
Referenced t price side bar none = Unit
Referenced t price side bar (some p) = ReferenceBy t price side bar p

limit_reference-Referenced :
    (side : OrderSide) (p : ℤ) (bar : Bar)
    → Referenced limit (some p) side bar (limit_reference side p bar)
limit_reference-Referenced buy p bar =
    elim (leb-cases (pos_part bar.low + neg_part p) (pos_part p + neg_part bar.low)) [
      | inl (t, le) ↦ rw t (refl, le)
      | inr (t, gt) ↦ rw t tt
    ]
limit_reference-Referenced sell p bar =
    elim (leb-cases (pos_part p + neg_part bar.high) (pos_part bar.high + neg_part p)) [
      | inl (t, le) ↦ rw t (refl, le)
      | inr (t, gt) ↦ rw t tt
    ]

reference_by-Referenced :
    (t : OrderType) (price : Option ℤ) (side : OrderSide) (bar : Bar)
    → Ensures (Referenced t price side bar) (reference_by t price side bar)
reference_by-Referenced market price side bar = refl
reference_by-Referenced limit none side bar = tt
reference_by-Referenced limit (some p) side bar = limit_reference-Referenced side p bar

min_ℤ-bounds : (a b : ℤ) → (min_ℤ a b ≤ℤ a) × (min_ℤ a b ≤ℤ b)
min_ℤ-bounds a b = ground arith

module _ {Rng : Type 0} (models : Models Rng) (order : SimulatedOrder) (bar : Bar) (clock : ℕ)
    (rng : Rng) where
  fill_at-Fits :
      (r : Option ℤ)
      → bar.knowledge_time ≤ clock
      → order.eligible_at ≤ clock
      → Referenced order.order_type order.limit_price order.side bar r
      → Fits models order bar clock rng (fill_at models clock order bar rng r).0
  fill_at-Fits none k e h = tt
  fill_at-Fits (some p) k e h =
      elim (Bool-cases (leb_ℤ (models.max_fillable_quantity order bar) (pos 0))) [
        | inl t ↦ rw t tt
        | inr t ↦ rw t (
            let (le, le') = min_ℤ-bounds order.quantity (models.max_fillable_quantity order bar) in
            record {
              same_order = refl;
              same_symbol = refl;
              same_side = refl;
              at_clock = refl;
              known = k;
              eligible = e;
              within_order = le;
              within_bar = le';
              charged = refl;
              priced = (p, h, refl);
            })
      ]

  fill_known-Fits :
      bar.knowledge_time ≤ clock
      → Ensures (λ r. Fits models order bar clock rng r.0) (fill_known models order bar clock rng)
  unfolding reference_price
  fill_known-Fits k = elim (ltb-cases clock order.eligible_at) [
    | inl (t, lt) ↦ rw t tt
    | inr (t, le) ↦ rw t (
        Ensures-bind (Referenced order.order_type order.limit_price order.side bar)
          (λ r. Fits models order bar clock rng r.0) (reference_price order bar)
          (λ r. done (fill_at models clock order bar rng r))
          (reference_by-Referenced order.order_type order.limit_price order.side bar)
          (λ r h. fill_at-Fits r k le h))
  ]

  assert_knowable-le :
      Ensures (λ u. bar.knowledge_time ≤ clock) (assert_knowable bar.knowledge_time clock)
  unfolding assert_knowable
  assert_knowable-le = elim (ltb-cases clock bar.knowledge_time) [
    | inl (t, lt) ↦ rw t tt
    | inr (t, le) ↦ rw t le
  ]

  -- Whatever `fill` returns is no fill or a fair one, as `IsFair` says: against a bar that is known
  -- at the clock, for an order that is eligible, within the order's quantity and the bar's liquidity,
  -- with the commission of that quantity at that price, and priced by the slippage model from the
  -- open of the bar or from a limit price that the bar's range reaches.
  pub fill-Fits :
      Ensures (λ r. Fits models order bar clock rng r.0) (fill models order bar clock rng)
  unfolding fill
  fill-Fits =
      Ensures-bind (λ u. bar.knowledge_time ≤ clock) (λ r. Fits models order bar clock rng r.0)
        (assert_knowable bar.knowledge_time clock) (λ u. fill_known models order bar clock rng)
        assert_knowable-le (λ u k. fill_known-Fits k)
