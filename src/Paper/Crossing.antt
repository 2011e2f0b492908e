-- ===== src/Paper/Crossing.antt =====
-- Whom the fills of resting orders are for (`process_resting_orders` in
-- backend/paper-trading-engine/src/aqros_paper_trading/domain/models.py).
use mathlib.Core.Path.{subst}
use aqros.Shared.{
  ℕ, String, ◌≡◌, sym, refl, ◌++◌, Bool, true, Bool-cases, Option, none, some, inl, inr, List, [],
  ◌∷◌, not, ◌&&◌, Any, Any-map, All, All-map, All-append, length, arith,
}
use aqros.Shared.Int.{ℤ, pos, ◌≤ℤ◌, ◌+ℤ◌, ◌-ℤ◌, leb_ℤ, min_ℤ, max_ℤ, eqb_ℤ, int_laws}
use aqros.Shared.Text.{str_eq, eq_iff}
use aqros.Shared.Action.{done, Ensures, Ensures-bind, Ensures-any, ◌>>=◌}
use aqros.Paper.Orders.{
  OrderSide, FillResult, SimulatedOrder, remaining_quantity, is_complete, apply_fill, Queue, remove,
  written, crosses_at, is_crossable, find_crossable,
}
use aqros.Paper.Matching.{MarketDataSnapshot, MatchingEngine}
use aqros.Paper.Exchange.{
  SimulatedExchange, touched, crossed_base, effective, crossing_fill, Crossed, cross_one, cross_all,
  process_resting_orders,
}
use aqros.Paper.Pricing.{NoWorse}
use aqros.Paper.Sweeping.{find_crossable-All}

abbrev pub opposite : OrderSide → OrderSide
opposite OrderSide.buy = OrderSide.sell
opposite OrderSide.sell = OrderSide.buy

abbrev pub Honours : OrderSide → Option ℤ → ℤ → Type 0
Honours side none price = ⊥
Honours side (some bound) price = NoWorse side price bound

-- The fill is for all that remains of the order, at its limit or better, and records the other side.
abbrev pub IsCrossOf : String → FillResult → SimulatedOrder → Type 0
IsCrossOf symbol r o =
    (r.order_id ≡ o.order_id)
    × (o.symbol ≡ symbol)
    × (r.fill_quantity ≡ remaining_quantity o)
    × (r.side ≡ opposite o.side)
    × Honours o.side o.price r.fill_price

module _ {A : Type 0} where
  in_itself : (xs : List A) → All (λ a. Any (λ b. b ≡ a) xs) xs
  in_itself [] = tt
  in_itself (x ∷ xs) = (inl refl, All-map (λ a h. inr h) xs (in_itself xs))

and_parts : (a b : Bool) → (a && b) ≡ true → (a ≡ true) × (b ≡ true)
and_parts a b h = ground arith

max_ℤ-least : (a b c : ℤ) → a ≤ℤ c → b ≤ℤ c → max_ℤ a b ≤ℤ c
max_ℤ-least a b c h g = ground arith

less_slippage : (a c s : ℤ) → a ≤ℤ c → pos 0 ≤ℤ s → a -ℤ s ≤ℤ c
less_slippage a c s h n = omega (int_laws)

le_of : (a b : ℤ) → leb_ℤ a b ≡ true → a ≤ℤ b
le_of a b h = ground arith

min_ℤ-greatest : (a b c : ℤ) → c ≤ℤ a → c ≤ℤ b → c ≤ℤ min_ℤ a b
min_ℤ-greatest a b c h g = ground arith

more_slippage : (a c s : ℤ) → c ≤ℤ a → pos 0 ≤ℤ s → c ≤ℤ a +ℤ s
more_slippage a c s h n = omega (int_laws)

bid_below : (p b s : ℤ) → b ≤ℤ p → pos 0 ≤ℤ s → max_ℤ (max_ℤ p b -ℤ s) b ≤ℤ p
bid_below p b s h n =
    max_ℤ-least (max_ℤ p b -ℤ s) b p
      (less_slippage (max_ℤ p b) p s (max_ℤ-least p b p (ground arith) h) n) h

module _ {Float : Type 0} (m : MarketDataSnapshot Float) where
  base_above : (p : ℤ) → p ≤ℤ m.ask → p ≤ℤ crossed_base OrderSide.buy (some p) m
  base_above p h = elim (Bool-cases (eqb_ℤ p (pos 0))) [
    | inl t ↦ rw t h
    | inr t ↦ rw t (min_ℤ-greatest p m.ask p (ground arith) h)
  ]

  effective-Honours :
      (own side : OrderSide) (bound : Option ℤ) (slippage : ℤ)
      → crosses_at own side bound (touched side m) ≡ true
      → pos 0 ≤ℤ slippage
      → (side ≡ opposite own) × Honours own bound (effective side bound m slippage)
  effective-Honours OrderSide.buy OrderSide.buy none s h n = cc
  effective-Honours OrderSide.buy OrderSide.buy (some p) s h n = cc
  effective-Honours OrderSide.buy OrderSide.sell none s h n = cc
  effective-Honours OrderSide.buy OrderSide.sell (some p) s h n =
      (refl, bid_below p m.bid s (le_of m.bid p h) n)
  effective-Honours OrderSide.sell OrderSide.buy none s h n = cc
  effective-Honours OrderSide.sell OrderSide.buy (some p) s h n =
      let le = le_of p m.ask h in
      let base = crossed_base OrderSide.buy (some p) m in
      (refl, min_ℤ-greatest (base +ℤ s) m.ask p (more_slippage base p s (base_above p le) n) le)
  effective-Honours OrderSide.sell OrderSide.sell none s h n = cc
  effective-Honours OrderSide.sell OrderSide.sell (some p) s h n = cc

  module _ (engine : MatchingEngine Float) (side : OrderSide)
      (nonnegative : (q : ℤ) → pos 0 ≤ℤ engine.slippage q m (touched side m)) where
    crossing_fill-IsCrossOf :
        (o : SimulatedOrder) (id : String)
        → is_crossable m.symbol side (touched side m) o ≡ true
        → IsCrossOf m.symbol (crossing_fill engine id side m o) o
    crossing_fill-IsCrossOf o id h =
        let (front, crosses) =
          and_parts (str_eq o.symbol m.symbol && not (is_complete o))
            (crosses_at o.side side o.price (touched side m)) h in
        let (same, live) = and_parts (str_eq o.symbol m.symbol) (not (is_complete o)) front in
        let (other, honoured) =
          effective-Honours o.side side o.price
            (engine.slippage (remaining_quantity o) m (touched side m)) crosses
            (nonnegative (remaining_quantity o)) in
        (refl, (eq_iff o.symbol m.symbol).0 same, refl, other, honoured)

    -- Whatever identifier the fill of the order gets, it is for an order of the queue.
    abbrev Crosses : Queue → SimulatedOrder → Type 0
    Crosses queue o =
        (id : String) → Any (IsCrossOf m.symbol (crossing_fill engine id side m o)) queue

    found-Crosses :
        (queue : Queue) → All (Crosses queue) (find_crossable m.symbol side (touched side m) queue)
    found-Crosses queue = find_crossable-All (Crosses queue) m.symbol side (touched side m) queue (
        All-map
          (λ o among crossable id.
            Any-map
              (λ q e.
                subst (IsCrossOf m.symbol (crossing_fill engine id side m o)) (sym e)
                  (crossing_fill-IsCrossOf o id crossable))
              queue among)
          queue (in_itself queue))

    module _ (now : ℕ) (fresh : ℕ → String) (queue : Queue) where
      abbrev CrossedOf : Crossed → Type 0
      CrossedOf c = All (λ r. Any (IsCrossOf m.symbol r) queue) c.0

      cross_one-CrossedOf :
          (o : SimulatedOrder) (c : Crossed)
          → Crosses queue o
          → CrossedOf c
          → Ensures CrossedOf (cross_one engine now fresh side m o c)
      cross_one-CrossedOf o (results, orders, q) f h = elim (Bool-cases (is_complete o)) [
        | inl t ↦ rw t h
        | inr t ↦
            let r = crossing_fill engine (fresh (length results)) side m o in
            rw t (
              Ensures-bind (λ o'. Unit {0}) CrossedOf (apply_fill now r o)
                (λ o'.
                  done (results ++ r ∷ [], orders ++ o' ∷ [], (remove o.order_id (written o' q)).1))
                (Ensures-any (apply_fill now r o))
                (λ o' u.
                  All-append (λ r. Any (IsCrossOf m.symbol r) queue) results (r ∷ []) h
                    (f (fresh (length results)), tt)))
      ]

      cross_all-CrossedOf :
          (os : List SimulatedOrder) (c : Crossed)
          → All (Crosses queue) os
          → CrossedOf c
          → Ensures CrossedOf (cross_all engine now fresh side m os c)
      unfolding cross_all
      cross_all-CrossedOf [] c fs h = h
      cross_all-CrossedOf (o ∷ os) c (f, fs) h =
          Ensures-bind CrossedOf CrossedOf (cross_one engine now fresh side m o c)
            (cross_all engine now fresh side m os) (cross_one-CrossedOf o c f h)
            (λ d g. cross_all-CrossedOf os d fs g)

module _ {Float : Type 0} where
  -- If the slippage on the ask and on the bid of a snapshot is not negative, every fill that
  -- `process_resting_orders` returns for it is for an order of the queue and of the snapshot's symbol,
  -- for all that remains of it, and at a price no worse than its limit; but the side that the fill
  -- records is the opposite of the order's side.
  pub process_resting_orders-IsCrossOf :
      (now : ℕ) (fresh : ℕ → String) (m : MarketDataSnapshot Float) (x : SimulatedExchange Float)
      → ((q : ℤ) → pos 0 ≤ℤ x.matching.slippage q m m.ask)
      → ((q : ℤ) → pos 0 ≤ℤ x.matching.slippage q m m.bid)
      → Ensures
          (λ r. All (λ f. Any (IsCrossOf m.symbol f) x.queue) r.0)
          (process_resting_orders now fresh m x)
  unfolding process_resting_orders
  process_resting_orders-IsCrossOf now fresh m x on_ask on_bid =
      let engine = x.matching in
      let buys = find_crossable m.symbol OrderSide.buy m.ask x.queue in
      let sells = find_crossable m.symbol OrderSide.sell m.bid x.queue in
      let Of = CrossedOf m engine OrderSide.buy on_ask now fresh x.queue in
      Ensures-bind Of (λ r. All (λ f. Any (IsCrossOf m.symbol f) x.queue) r.0)
        (cross_all engine now fresh OrderSide.buy m buys ([], [], x.queue))
        (λ c. cross_all engine now fresh OrderSide.sell m sells c >>= λ d.
          done (d.0, d.1, record x { queue = d.2 }))
        (cross_all-CrossedOf m engine OrderSide.buy on_ask now fresh x.queue buys ([], [], x.queue)
          (found-Crosses m engine OrderSide.buy on_ask x.queue) tt)
        (λ c h.
          Ensures-bind Of (λ r. All (λ f. Any (IsCrossOf m.symbol f) x.queue) r.0)
            (cross_all engine now fresh OrderSide.sell m sells c)
            (λ d. done (d.0, d.1, record x { queue = d.2 }))
            (cross_all-CrossedOf m engine OrderSide.sell on_bid now fresh x.queue sells c
              (found-Crosses m engine OrderSide.sell on_bid x.queue) h)
            (λ d g. g))
