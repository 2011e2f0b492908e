-- ===== src/Paper/Resting.antt =====
-- What the market does to the orders that rest in the queue (`process_resting_orders` in
-- backend/paper-trading-engine/src/aqros_paper_trading/domain/models.py).
use mathlib.Core.Path.{subst}
use mathlib.Core.List.{map-append, append_assoc, append-nil}
use aqros.Shared.{
  map, ℕ, String, ◌≡◌, ◌∙◌, sym, ap, refl, List, [], ◌∷◌, ◌++◌, All, All-map, All-append, length,
  arith, Bool-cases, inl, inr, leb,
}
use aqros.Shared.Int.{ℤ}
use aqros.Shared.Text.{eq_iff}
use aqros.Shared.Action.{done}
use aqros.Paper.Orders.{
  OrderSide, FillResult, SimulatedOrder, remaining_quantity, with_result, Queue, remove,
  is_crossable, created, insert_by_time, find_crossable,
}
use aqros.Paper.Matching.{MarketDataSnapshot, MatchingEngine}
use aqros.Paper.Exchange.{
  SimulatedExchange, crossing_fill, Crossed, cross_one, cross_all, process_resting_orders,
}
use aqros.Paper.Placing.{all_remains, IsFilledWhole, apply_fill-whole}
use aqros.Paper.Queues.{
  Rests, Apart, IsDistinct, IsClean, IsNamed, remove-All, remove-IsClean, written-remove,
  IsDistinct-IsNamed,
}
use aqros.Paper.Sweeping.{IsSweep, insert_by_time-All, find_crossable-All, find_crossable-IsSweep}

found_all :
    (P : SimulatedOrder → Type 0) (symbol : String) (side : OrderSide) (price : ℤ) (queue : Queue)
    → All P queue
    → All P (find_crossable symbol side price queue)
found_all P symbol side price queue h =
    find_crossable-All P symbol side price queue (All-map (λ o p crossable. p) queue h)

Apart-sym : (o p : SimulatedOrder) → Apart o p → Apart p o
Apart-sym o p (i, j) =
    (ground (arith, eq_iff o.order_id p.order_id, eq_iff p.order_id o.order_id), ground arith)

insert_by_time-IsDistinct :
    (o : SimulatedOrder) (queue : Queue)
    → All (Apart o) queue
    → IsDistinct queue
    → IsDistinct (insert_by_time o queue)
unfolding insert_by_time
insert_by_time-IsDistinct o [] a d = (tt, tt)
insert_by_time-IsDistinct o (q ∷ queue) (a, rest) (b, d) =
    elim (Bool-cases (leb (created o) (created q))) [
      | inl t ↦ rw t ((a, rest), (b, d))
      | inr t ↦ rw t (
        insert_by_time-All (Apart q) o queue (Apart-sym o q a) b,
        insert_by_time-IsDistinct o queue rest d,
      )
    ]

find_crossable-IsDistinct :
    (symbol : String) (side : OrderSide) (price : ℤ) (queue : Queue)
    → IsDistinct queue
    → IsDistinct (find_crossable symbol side price queue)
unfolding find_crossable
find_crossable-IsDistinct symbol side price [] d = tt
find_crossable-IsDistinct symbol side price (o ∷ queue) (a, d) =
    let rest = find_crossable-IsDistinct symbol side price queue d in
    elim (Bool-cases (is_crossable symbol side price o)) [
      | inl t ↦ rw t (
          insert_by_time-IsDistinct o (find_crossable symbol side price queue)
            (found_all (Apart o) symbol side price queue a) rest)
      | inr t ↦ rw t rest
    ]

abbrev pub ids : List SimulatedOrder → List String
ids orders = map (λ o. o.order_id) orders

abbrev pub filled_ids : List FillResult → List String
filled_ids results = map (λ r. r.order_id) results

-- The orders are still as they rest, and the queue is clean and names them.
abbrev Awaits : List SimulatedOrder → Queue → Type 0
Awaits os queue = IsClean queue × All Rests os × All (IsNamed queue) os

remove-Awaits :
    (id : String) (os : List SimulatedOrder) (queue : Queue)
    → Awaits os queue
    → Awaits os (remove id queue).1
remove-Awaits id os queue (c, r, n) =
    (remove-IsClean id queue c, r, All-map (λ o h. remove-All _ id queue h) os n)

module _ {Float : Type 0} (engine : MatchingEngine Float) (now : ℕ) (fresh : ℕ → String)
    (side : OrderSide) (m : MarketDataSnapshot Float) where
  -- What the loop over some orders has reached, and what still holds for the orders that follow.
  abbrev Reached : List SimulatedOrder → List SimulatedOrder → Crossed → Crossed → Type 0
  Reached os later c c' =
      All IsFilledWhole c'.1 × (filled_ids c'.0 ≡ filled_ids c.0 ++ ids os) × Awaits later c'.2

  cross_one-Reached :
      (o : SimulatedOrder) (later : List SimulatedOrder) (c : Crossed)
      → All IsFilledWhole c.1
      → Awaits (o ∷ later) c.2
      → (c' : Crossed) × (cross_one engine now fresh side m o c ≡ done c')
        × Reached (o ∷ []) later c c'
  unfolding remaining_quantity
  cross_one-Reached o later (results, orders, queue) whole (clean, (open_now, rs), (named, ns)) =
      let r = crossing_fill engine (fresh (length results)) side m o in
      let (applied, filled) =
        apply_fill-whole now r o open_now.0 open_now.1
          (all_remains o.quantity o.filled_quantity open_now.1) in
      (
        _,
        rw open_now.0 (rw applied refl),
        (
          All-append IsFilledWhole orders (with_result now r o ∷ []) whole (filled, tt),
          map-append (λ (r : FillResult). r.order_id) results (r ∷ []),
          subst (Awaits later) (sym (written-remove now r o queue clean.1 named))
              (remove-Awaits o.order_id later queue (clean, rs, ns)),
        ),
      )

  cross_all-Reached :
      (os later : List SimulatedOrder) (c : Crossed)
      → All IsFilledWhole c.1
      → Awaits (os ++ later) c.2
      → (c' : Crossed) × (cross_all engine now fresh side m os c ≡ done c') × Reached os later c c'
  unfolding cross_all
  cross_all-Reached [] later c whole h = (c, refl, (whole, sym (append-nil (filled_ids c.0)), h))
  cross_all-Reached (o ∷ os) later c whole h =
      let (d, crossed, (whole', count, h')) = cross_one-Reached o (os ++ later) c whole h in
      let (e, crossed', (whole'', count', h'')) = cross_all-Reached os later d whole' h' in
      (
        e,
        rw crossed crossed',
        (
          whole'',
          count'
              ∙ ap (λ t. t ++ ids os) count
              ∙ append_assoc (filled_ids c.0) (o.order_id ∷ []) (ids os),
          h'',
        ),
      )

module _ {Float : Type 0} where
  pub process_resting_orders-IsFilledWhole :
      (now : ℕ) (fresh : ℕ → String) (m : MarketDataSnapshot Float) (x : SimulatedExchange Float)
      → IsClean x.queue
      → (sells buys : Queue) × IsSweep m.symbol OrderSide.buy m.ask x.queue sells
        × IsSweep m.symbol OrderSide.sell m.bid x.queue buys
        × IsDistinct sells
        × IsDistinct buys
        × ((r : List FillResult × List SimulatedOrder × SimulatedExchange Float)
            × (process_resting_orders now fresh m x ≡ done r)
            × All IsFilledWhole r.1
            × (filled_ids r.0 ≡ ids sells ++ ids buys)
            × IsClean r.2.queue)
  unfolding process_resting_orders
  process_resting_orders-IsFilledWhole now fresh m x h =
      let sells = find_crossable m.symbol OrderSide.buy m.ask x.queue in
      let buys = find_crossable m.symbol OrderSide.sell m.bid x.queue in
      let named = IsDistinct-IsNamed x.queue h.1 in
      let awaited : Awaits (sells ++ buys) x.queue = (
        h,
        All-append Rests sells buys (found_all Rests m.symbol OrderSide.buy m.ask x.queue h.0)
            (found_all Rests m.symbol OrderSide.sell m.bid x.queue h.0),
        All-append (IsNamed x.queue) sells buys
            (found_all (IsNamed x.queue) m.symbol OrderSide.buy m.ask x.queue named)
            (found_all (IsNamed x.queue) m.symbol OrderSide.sell m.bid x.queue named),
      ) in
      let (c, crossed, (whole, count, rest)) =
        cross_all-Reached x.matching now fresh OrderSide.buy m sells buys ([], [], x.queue) tt
          awaited in
      let (d, crossed', (whole', count', rest')) =
        cross_all-Reached x.matching now fresh OrderSide.sell m buys [] c whole
          (subst (λ os. Awaits os c.2) (sym (append-nil buys)) rest) in
      (
        sells,
        buys,
        find_crossable-IsSweep m.symbol OrderSide.buy m.ask x.queue,
        find_crossable-IsSweep m.symbol OrderSide.sell m.bid x.queue,
        find_crossable-IsDistinct m.symbol OrderSide.buy m.ask x.queue h.1,
        find_crossable-IsDistinct m.symbol OrderSide.sell m.bid x.queue h.1,
        (
          (d.0, d.1, record x { queue = d.2 }),
          rw crossed (rw crossed' refl),
          whole',
          count' ∙ ap (λ t. t ++ ids buys) count,
          rest'.0,
        ),
      )
