-- ===== src/Paper/Placing.antt =====
-- What placing an order comes to (`place_order` in
-- backend/paper-trading-engine/src/aqros_paper_trading/domain/models.py).
use mathlib.Core.Path.{subst}
use aqros.Shared.{
  ℕ, ◌≡◌, ◌⊎◌, ◌∙◌, ap, refl, true, false, Bool-cases, Option, none, some, inl, inr, List, [], ◌∷◌,
  arith, leb-cases, ◌+◌, All, ◌==◌,
}
use aqros.Shared.Int.{ℤ, pos, pos_part, neg_part, ◌+ℤ◌, ◌-ℤ◌, ◌≤ℤ◌, ltb_ℤ, leb_ℤ, int_laws}
use aqros.Shared.Action.{done}
use aqros.Paper.Orders.{
  OrderSide, OrderType, OrderStatus, symbol_not_found, FillResult, SimulatedOrder,
  remaining_quantity, is_complete, accept, reject, with_result, apply_fill, Queue, written,
}
use aqros.Paper.Matching.{
  MarketDataSnapshot, MatchingEngine, Fresh, is_positive, match_market, match_at, match_priced,
  match_limit, is_triggered, released, match_stop, match_stop_limit, process_as, process,
}
use aqros.Paper.Pricing.{NoWorse, touch_of}
use aqros.Paper.Exchange.{
  SimulatedExchange, get_market, apply_all, Placed, matched, place_in, place_order,
}

pub all_remains : (q f : ℤ) → f ≡ pos 0 → q -ℤ f ≡ q
all_remains q f h = omega (int_laws, ap pos_part h, ap neg_part h)

leb_ℤ-cases : (a b : ℤ) → ((leb_ℤ a b ≡ true) × (a ≤ℤ b)) ⊎ ((leb_ℤ a b ≡ false) × (a ≤ℤ b → ⊥))
leb_ℤ-cases a b = elim (leb-cases (pos_part a + neg_part b) (pos_part b + neg_part a)) [
  | inl (t, le) ↦ inl (t, le)
  | inr (t, gt) ↦ inr (t, λ le. omega arith)
]

is_positive-cases :
    (q : ℤ) → ((is_positive q ≡ true) × (pos 1 ≤ℤ q)) ⊎ ((is_positive q ≡ false) × (pos 1 ≤ℤ q → ⊥))
is_positive-cases q = elim (Bool-cases (is_positive q)) [
  | inl t ↦ inl (t, ground arith)
  | inr t ↦ inr (t, λ le. ground arith)
]

-- If it is due, one fill of the quantity, and otherwise none.
abbrev Answers : Type 0 → ℤ → List FillResult → Type 0
Answers D q results =
    (D × ((r : FillResult) × (results ≡ r ∷ []) × (r.fill_quantity ≡ q)))
    ⊎ ((D → ⊥) × (results ≡ []))

module _ {Float : Type 0} (market : MarketDataSnapshot Float) where
  -- The last price has come to the stop price from below, for a buy, or from above, for a sell.
  abbrev pub Reached : OrderSide → Option ℤ → Type 0
  Reached side none = ⊥
  Reached OrderSide.buy (some stop_price) = stop_price ≤ℤ market.last
  Reached OrderSide.sell (some stop_price) = market.last ≤ℤ stop_price

  abbrev pub MeetsLimit : OrderSide → Option ℤ → Type 0
  MeetsLimit side none = ⊥
  MeetsLimit side (some bound) = NoWorse side (touch_of market side) bound

  -- An order of the type, with the quantity and the prices, is to be filled at once.
  abbrev pub IsDueAs : OrderType → OrderSide → ℤ → Option ℤ → Option ℤ → Type 0
  IsDueAs OrderType.market side q price stop_price = pos 1 ≤ℤ q
  IsDueAs OrderType.limit side q price stop_price = (pos 1 ≤ℤ q) × MeetsLimit side price
  IsDueAs OrderType.stop side q price stop_price = (pos 1 ≤ℤ q) × Reached side stop_price
  IsDueAs OrderType.stop_limit side q price stop_price =
      (pos 1 ≤ℤ q) × Reached side stop_price × MeetsLimit side price

  abbrev pub IsDue : SimulatedOrder → Type 0
  IsDue o = IsDueAs o.order_type o.side o.quantity o.price o.stop_price

module _ {Float : Type 0} (engine : MatchingEngine Float) (fresh : Fresh)
    (market : MarketDataSnapshot Float) where
  match_market-Answers :
      (o : SimulatedOrder)
      → Answers
          (pos 1 ≤ℤ remaining_quantity o)
          (remaining_quantity o)
          (match_market engine fresh market o)
  unfolding match_market
  match_market-Answers o = elim (is_positive-cases (remaining_quantity o)) [
    | inl (t, due) ↦ rw t (inl (due, (_, refl, refl)))
    | inr (t, never) ↦ rw t (inr (never, refl))
  ]

  at_limit :
      (side : OrderSide) (bound : ℤ) (o : SimulatedOrder) (queue : Queue)
      → Answers
          (MeetsLimit market side (some bound))
          (remaining_quantity o)
          (match_at engine fresh market side bound o queue).0
  at_limit OrderSide.buy bound o queue = elim (leb_ℤ-cases market.ask bound) [
    | inl (t, due) ↦ rw t (inl (due, (_, refl, refl)))
    | inr (t, never) ↦ rw t (inr (never, refl))
  ]
  at_limit OrderSide.sell bound o queue = elim (leb_ℤ-cases bound market.bid) [
    | inl (t, due) ↦ rw t (inl (due, (_, refl, refl)))
    | inr (t, never) ↦ rw t (inr (never, refl))
  ]

  match_priced-Answers :
      (price : Option ℤ) (o : SimulatedOrder) (queue : Queue)
      → Answers
          ((pos 1 ≤ℤ remaining_quantity o) × MeetsLimit market o.side price)
          (remaining_quantity o)
          (match_priced engine fresh market price o queue).0
  match_priced-Answers none o queue = inr (λ (p, m). m, refl)
  match_priced-Answers (some bound) o queue = elim (is_positive-cases (remaining_quantity o)) [
    | inr (t, never) ↦ rw t (inr (λ (p, m). never p, refl))
    | inl (t, due) ↦ rw t (elim (at_limit o.side bound o queue) [
      | inl (meets, one) ↦ inl ((due, meets), one)
      | inr (not_yet, none_) ↦ inr (λ (p, m). not_yet m, none_)
    ])
  ]

  triggered-cases :
      (side : OrderSide) (stop_price : Option ℤ)
      → ((is_triggered engine fresh market stop_price side ≡ true) × Reached market side stop_price)
        ⊎ ((is_triggered engine fresh market stop_price side ≡ false)
            × (Reached market side stop_price → ⊥))
  triggered-cases side none = inr (refl, λ r. r)
  triggered-cases OrderSide.buy (some stop_price) = leb_ℤ-cases stop_price market.last
  triggered-cases OrderSide.sell (some stop_price) = leb_ℤ-cases market.last stop_price

  process_as-Answers :
      (type : OrderType) (o : SimulatedOrder) (queue : Queue)
      → o.filled_quantity ≡ pos 0
      → Answers
          (IsDueAs market type o.side o.quantity o.price o.stop_price)
          o.quantity
          (process_as engine fresh market type o queue).0
  unfolding match_limit match_stop match_stop_limit remaining_quantity
  process_as-Answers OrderType.market o queue h =
      subst (λ q. Answers (pos 1 ≤ℤ q) q (match_market engine fresh market o))
        (all_remains o.quantity o.filled_quantity h) (match_market-Answers o)
  process_as-Answers OrderType.limit o queue h =
      subst
        (λ q.
          Answers ((pos 1 ≤ℤ q) × MeetsLimit market o.side o.price) q
            (match_limit engine fresh market o queue).0)
        (all_remains o.quantity o.filled_quantity h) (match_priced-Answers o.price o queue)
  process_as-Answers OrderType.stop o queue h = elim (triggered-cases o.side o.stop_price) [
    | inr (t, not_yet) ↦ rw t (inr (λ (p, r). not_yet r, refl))
    | inl (t, reached_) ↦ rw t (elim (released_market o h) [
      | inl (p, one) ↦ inl ((p, reached_), one)
      | inr (never, none_) ↦ inr (λ (p, r). never p, none_)
    ])
  ]
    where
      released_market :
          (o : SimulatedOrder)
          → o.filled_quantity ≡ pos 0
          → Answers (pos 1 ≤ℤ o.quantity) o.quantity (
              match_market engine fresh market
                (released engine fresh market OrderType.market none o))
      released_market o h =
          subst
            (λ q. Answers (pos 1 ≤ℤ q) q (
              match_market engine fresh market
                (released engine fresh market OrderType.market none o)))
            (all_remains (o.quantity -ℤ o.filled_quantity) o.filled_quantity h
              ∙ all_remains o.quantity o.filled_quantity h)
            (match_market-Answers (released engine fresh market OrderType.market none o))
  process_as-Answers OrderType.stop_limit o queue h = elim (triggered-cases o.side o.stop_price) [
    | inr (t, not_yet) ↦ rw t (inr (λ (p, r, m). not_yet r, refl))
    | inl (t, reached_) ↦ rw t (elim (released_limit o h) [
      | inl ((p, m), one) ↦ inl ((p, reached_, m), one)
      | inr (never, none_) ↦ inr (λ (p, r, m). never (p, m), none_)
    ])
  ]
    where
      released_limit :
          (o : SimulatedOrder)
          → o.filled_quantity ≡ pos 0
          → Answers
              ((pos 1 ≤ℤ o.quantity) × MeetsLimit market o.side o.price)
              o.quantity
              (match_limit engine fresh market
                (released engine fresh market OrderType.limit o.price o)
                queue).0
      released_limit o h =
          subst
            (λ q.
              Answers ((pos 1 ≤ℤ q) × MeetsLimit market o.side o.price) q
                (match_limit engine fresh market
                  (released engine fresh market OrderType.limit o.price o) queue).0)
            (all_remains (o.quantity -ℤ o.filled_quantity) o.filled_quantity h
              ∙ all_remains o.quantity o.filled_quantity h)
            (match_priced-Answers o.price (released engine fresh market OrderType.limit o.price o)
              queue)

waits :
    {Float : Type 0} (engine : MatchingEngine Float) (fresh : Fresh)
    (market : MarketDataSnapshot Float) (type : OrderType) (o : SimulatedOrder) (queue : Queue)
    → type ≡ OrderType.stop
    → is_triggered engine fresh market o.stop_price o.side ≡ false
    → process_as engine fresh market type o queue ≡ ([], queue)
unfolding match_stop
waits engine fresh market type o queue h t = rw h (rw t refl)

-- The order is filled in whole.
abbrev pub IsFilledWhole : SimulatedOrder → Type 0
IsFilledWhole o = (o.filled_quantity ≡ o.quantity) × (o.status ≡ OrderStatus.filled)

sum_whole : (f r q : ℤ) → f ≡ pos 0 → r ≡ q → f +ℤ r ≡ q
sum_whole f r q z w = omega (int_laws, ap pos_part z, ap neg_part z, ap pos_part w, ap neg_part w)

not_over : (q n : ℤ) → n ≡ q → ltb_ℤ q n ≡ false
not_over q n e = ground arith

reached : (q n : ℤ) → n ≡ q → leb_ℤ q n ≡ true
reached q n e = ground arith

-- A fill of the whole quantity of an open order that is not filled at all is applied.
pub apply_fill-whole :
    (now : ℕ) (r : FillResult) (o : SimulatedOrder)
    → is_complete o ≡ false
    → o.filled_quantity ≡ pos 0
    → r.fill_quantity ≡ o.quantity
    → (apply_fill now r o ≡ done (with_result now r o)) × IsFilledWhole (with_result now r o)
unfolding apply_fill
apply_fill-whole now r o c z w =
    let e = sum_whole o.filled_quantity r.fill_quantity o.quantity z w in
    (
      rw c (rw (not_over o.quantity (o.filled_quantity +ℤ r.fill_quantity) e) refl),
      (e, rw (reached o.quantity (o.filled_quantity +ℤ r.fill_quantity) e) refl),
    )

pub written_absent :
    (o : SimulatedOrder) (queue : Queue)
    → All (λ p. (p.object == o.object) ≡ false) queue
    → written o queue ≡ queue
unfolding written
written_absent o [] h = refl
written_absent o (p ∷ queue) (n, h) = rw n (rw (written_absent o queue h) refl)

module _ {Float : Type 0} (now : ℕ) (fresh : Fresh) where
  -- For a known market, the order is due, and is filled in whole by one fill, or it is not due, and
  -- it is accepted and nothing else is done to it.
  abbrev pub IsMatched : SimulatedOrder → MarketDataSnapshot Float → Placed Float → Type 0
  IsMatched o m p =
      (IsDue m o × ((r : FillResult) × (p.0 ≡ r ∷ [])) × IsFilledWhole p.1)
      ⊎ ((IsDue m o → ⊥) × (p.0 ≡ []) × (p.1 ≡ accept now o))

  abbrev pub IsPlaced :
      SimulatedOrder
      → SimulatedExchange Float
      → Option (MarketDataSnapshot Float)
      → Placed Float
      → Type 0
  IsPlaced o x none p = (p.0 ≡ []) × (p.1 ≡ reject symbol_not_found now o) × (p.2 ≡ x)
  IsPlaced o x (some m) p = IsMatched o m p

  matched-IsMatched :
      (o : SimulatedOrder) (x : SimulatedExchange Float) (m : MarketDataSnapshot Float)
      (results : List FillResult) (queue : Queue)
      → o.filled_quantity ≡ pos 0
      → Answers (IsDue m o) o.quantity results
      → (p : Placed Float) × (matched now (accept now o) x (results, queue) ≡ done p)
        × IsMatched o m p
  unfolding apply_all
  matched-IsMatched o x m results queue z (inr (not_yet, e)) = (
    ([], accept now o, record x { queue = written (accept now o) queue }),
    rw e refl,
    inr (not_yet, refl, refl),
  )
  matched-IsMatched o x m results queue z (inl (due, (r, e, w))) =
      let (applied, whole) = apply_fill-whole now r (accept now o) refl z w in
      let o' = with_result now r (accept now o) in
      (
        (r ∷ [], o', record x { queue = written o' queue }),
        rw e (rw applied refl),
        inl (due, (r, refl), whole),
      )

  place_in-IsPlaced :
      (o : SimulatedOrder) (x : SimulatedExchange Float) (m : Option (MarketDataSnapshot Float))
      → o.filled_quantity ≡ pos 0
      → (p : Placed Float) × (place_in now fresh o x m ≡ done p) × IsPlaced o x m p
  unfolding process
  place_in-IsPlaced o x none z = (([], reject symbol_not_found now o, x), refl, (refl, refl, refl))
  place_in-IsPlaced o x (some market) z =
      let a = accept now o in
      let r = process x.matching fresh market a x.queue in
      matched-IsMatched o x market r.0 r.1 z
        (process_as-Answers x.matching fresh market o.order_type a x.queue z)

  -- Placing an order of which nothing is filled yet always returns. If the market is unknown, there is
  -- no fill, the order is rejected for that reason, and the exchange is as it was. If it is known, a
  -- market order of a positive quantity, a limit order whose limit the ask or bid meets, a stop order
  -- whose stop price the last price has reached, and a stop limit order for which both hold are filled
  -- in whole by one fill, and every other order is accepted and not filled.
  pub place_order-IsPlaced :
      (o : SimulatedOrder) (x : SimulatedExchange Float)
      → o.filled_quantity ≡ pos 0
      → (p : Placed Float) × (place_order now fresh o x ≡ done p)
        × IsPlaced o x (get_market o.symbol x) p
  unfolding place_order
  place_order-IsPlaced o x z = place_in-IsPlaced o x (get_market o.symbol x) z

  -- A stop order for a known market, of a positive quantity of which nothing is filled, whose object
  -- is not in the queue: if the last price has reached its stop price, it is filled in whole, and
  -- otherwise it is accepted, without a fill, and the exchange is as it was, its queue included.
  pub place_order_stop :
      (o : SimulatedOrder) (x : SimulatedExchange Float) (market : MarketDataSnapshot Float)
      → get_market o.symbol x ≡ some market
      → o.order_type ≡ OrderType.stop
      → o.filled_quantity ≡ pos 0
      → pos 1 ≤ℤ o.quantity
      → All (λ p. (p.object == o.object) ≡ false) x.queue
      → (Reached market o.side o.stop_price
          × ((p : Placed Float) × (place_order now fresh o x ≡ done p) × IsFilledWhole p.1))
        ⊎ ((Reached market o.side o.stop_price → ⊥)
            × (place_order now fresh o x ≡ done ([], accept now o, x)))
  unfolding place_order process match_stop apply_all
  place_order_stop o x market found type z some_ absent =
      elim (triggered-cases x.matching fresh market o.side o.stop_price) [
        | inr (t, not_yet) ↦ inr (
          not_yet,
          rw found (
              rw
                (
                  waits x.matching fresh market o.order_type (accept now o) x.queue type t,
                  written_absent (accept now o) x.queue absent,
                )
                refl),
        )
        | inl (t, reached_) ↦
            (let (p, e, h) = place_order-IsPlaced o x z in
              inl (reached_, (p, e, filled_at p h reached_)))
      ]
    where
      filled_at :
          (p : Placed Float)
          → IsPlaced o x (get_market o.symbol x) p
          → Reached market o.side o.stop_price
          → IsFilledWhole p.1
      filled_at p h reached_ = elim (rw found at h) [
        | inl (due, one, whole) ↦ whole
        | inr (not_yet, none_, same) ↦ absurd (not_yet (rw type (some_, reached_)))
      ]
