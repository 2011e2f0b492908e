-- ===== src/Paper/Steps.antt =====
-- Any sequence of calls of the exchange (`SimulatedExchange` in
-- backend/paper-trading-engine/src/aqros_paper_trading/domain/models.py).
use mathlib.Core.Path.{subst}
use aqros.Shared.{
  ◌∙◌, ap, ℕ, String, ◌≡◌, ◌⊎◌, sym, refl, false, if◌then◌else◌, ◌==◌, Bool-cases, Option, none,
  some, inl, inr, List, [], ◌∷◌, ◌++◌, All, All-map, All-append, arith,
}
use aqros.Shared.Int.{ℤ, pos, leb_ℤ}
use aqros.Shared.Action.{done, Ensures, Ensures-bind, Ensures-map, Ensures-done, done-injective}
use aqros.Paper.Orders.{
  OrderSide, OrderType, FillResult, SimulatedOrder, remaining_quantity, accept, apply_fill, Queue,
  enqueue, written,
}
use aqros.Paper.Matching.{
  MarketDataSnapshot, MatchingEngine, Fresh, is_positive, match_at, match_priced, match_limit,
  is_triggered, released, match_stop_limit, process_as, process,
}
use aqros.Paper.Exchange.{
  SimulatedExchange, get_market, update_market, apply_all, Placed, place_in, place_order,
  cancel_order, process_resting_orders,
}
use aqros.Paper.Placing.{written_absent}
use aqros.Paper.Queues.{Rests, Apart, IsDistinct, IsClean, remove-IsClean}
use aqros.Paper.Resting.{process_resting_orders-IsFilledWhole}

-- Neither the order nor an object that its placing may make is in the queue.
abbrev pub IsNew : Fresh → SimulatedOrder → Queue → Type 0
IsNew fresh o queue = All (λ p. Apart p o × ((fresh.object == p.object) ≡ false)) queue

snoc-IsDistinct :
    (q : SimulatedOrder) (queue : Queue)
    → All (λ p. Apart p q) queue
    → IsDistinct queue
    → IsDistinct (queue ++ q ∷ [])
snoc-IsDistinct q [] a d = (tt, tt)
snoc-IsDistinct q (p ∷ queue) (a, rest) (b, d) =
    (All-append (Apart p) queue (q ∷ []) b (a, tt), snoc-IsDistinct q queue rest d)

snoc-IsClean :
    (q : SimulatedOrder) (queue : Queue)
    → Rests q
    → All (λ p. Apart p q) queue
    → IsClean queue
    → IsClean (queue ++ q ∷ [])
snoc-IsClean q queue r a (rs, d) =
    (All-append Rests queue (q ∷ []) rs (r, tt), snoc-IsDistinct q queue a d)

written-snoc :
    (o q : SimulatedOrder) (queue : Queue)
    → written o (queue ++ q ∷ []) ≡ written o queue ++ (if q.object == o.object then o else q) ∷ []
unfolding written
written-snoc o q [] = refl
written-snoc o q (p ∷ queue) =
    ap (λ rest. (if p.object == o.object then o else p) ∷ rest) (written-snoc o q queue)

apart_objects :
    (fresh : Fresh) (o : SimulatedOrder) (queue : Queue)
    → IsNew fresh o queue
    → All (λ p. (p.object == o.object) ≡ false) queue
apart_objects fresh o queue h = All-map (λ p (a, n). ground (arith, a.1)) queue h

-- What the matching does to the queue: nothing, or it adds the order, or one made of it, at the end,
-- and there is no fill.
abbrev Queued : Fresh → SimulatedOrder → Queue → List FillResult × Queue → Type 0
Queued fresh o queue (results, queue') =
    (queue' ≡ queue)
    ⊎ ((results ≡ [])
        × ((q : SimulatedOrder) × (queue' ≡ queue ++ q ∷ [])
            × (q.order_id ≡ o.order_id)
            × ((q.object ≡ o.object) ⊎ (q.object ≡ fresh.object))
            × Rests q))

module _ {Float : Type 0} (engine : MatchingEngine Float) (fresh : Fresh)
    (market : MarketDataSnapshot Float) where
  match_at-Queued :
      (side : OrderSide) (bound : ℤ) (o : SimulatedOrder) (queue : Queue)
      → Rests o
      → Queued fresh o queue (match_at engine fresh market side bound o queue)
  unfolding enqueue
  match_at-Queued OrderSide.buy bound o queue r = elim (Bool-cases (leb_ℤ market.ask bound)) [
    | inl t ↦ rw t (inl refl)
    | inr t ↦ rw t (inr (refl, (o, refl, refl, inl refl, r)))
  ]
  match_at-Queued OrderSide.sell bound o queue r = elim (Bool-cases (leb_ℤ bound market.bid)) [
    | inl t ↦ rw t (inl refl)
    | inr t ↦ rw t (inr (refl, (o, refl, refl, inl refl, r)))
  ]

  match_priced-Queued :
      (price : Option ℤ) (o : SimulatedOrder) (queue : Queue)
      → Rests o
      → Queued fresh o queue (match_priced engine fresh market price o queue)
  match_priced-Queued none o queue r = inl refl
  match_priced-Queued (some bound) o queue r =
      elim (Bool-cases (is_positive (remaining_quantity o))) [
        | inl t ↦ rw t (match_at-Queued o.side bound o queue r)
        | inr t ↦ rw t (inl refl)
      ]

  process_as-Queued :
      (type : OrderType) (o : SimulatedOrder) (queue : Queue)
      → Rests o
      → Queued fresh o queue (process_as engine fresh market type o queue)
  unfolding match_limit match_stop_limit
  process_as-Queued OrderType.market o queue r = inl refl
  process_as-Queued OrderType.limit o queue r = match_priced-Queued o.price o queue r
  process_as-Queued OrderType.stop o queue r = inl refl
  process_as-Queued OrderType.stop_limit o queue r =
      elim (Bool-cases (is_triggered engine fresh market o.stop_price o.side)) [
        | inr t ↦ rw t (inl refl)
        | inl t ↦
            (let o' = released engine fresh market OrderType.limit o.price o in
              rw t (elim (match_priced-Queued o.price o' queue (refl, r.1)) [
                | inl same ↦ inl same
                | inr (none_, (q, at, id, object, rests)) ↦
                    inr (none_, (q, at, id, elim object [ inl e ↦ inr e | inr e ↦ inr e ], rests))
              ]))
      ]

-- The fills of a call leave the order the object that it is.
apply_all-object :
    (now : ℕ) (results : List FillResult) (o : SimulatedOrder)
    → Ensures (λ o'. o'.object ≡ o.object) (apply_all now results o)
unfolding apply_all apply_fill
apply_all-object now [] o = refl
apply_all-object now (r ∷ results) o =
    Ensures-bind (λ o'. o'.object ≡ o.object) (λ o'. o'.object ≡ o.object) (apply_fill now r o)
      (apply_all now results) (ground arith)
      (λ o' e.
        Ensures-map (λ o''. o''.object ≡ o'.object) (λ o''. o''.object ≡ o.object)
          (apply_all now results o') (λ o'' e'. e' ∙ e) (apply_all-object now results o'))

-- The queue once the order that was placed is written to it.
added :
    (fresh : Fresh) (o q : SimulatedOrder) (queue : Queue)
    → IsNew fresh o queue
    → IsClean queue
    → Rests o
    → q.order_id ≡ o.order_id
    → (q.object ≡ o.object) ⊎ (q.object ≡ fresh.object)
    → Rests q
    → IsClean (written o (queue ++ q ∷ []))
added fresh o q queue new clean ro id object rq =
    rw (written-snoc o q queue, written_absent o queue (apart_objects fresh o queue new))
      (elim (Bool-cases (q.object == o.object)) [
        | inl t ↦ rw t (snoc-IsClean o queue ro (All-map (λ p (a, n). a) queue new) clean)
        | inr t ↦ rw t (
            snoc-IsClean q queue rq
              (All-map (λ p (a, n). (rw id a.0, elim object [ inl e ↦ rw e a.1 | inr e ↦ rw e n ]))
                queue new)
              clean)
      ])

module _ {Float : Type 0} where
  abbrev IsKept : Placed Float → Type 0
  IsKept p = IsClean p.2.queue

  place_in-IsKept :
      (now : ℕ) (fresh : Fresh) (o : SimulatedOrder) (x : SimulatedExchange Float)
      (m : Option (MarketDataSnapshot Float))
      → o.filled_quantity ≡ pos 0
      → IsNew fresh o x.queue
      → IsClean x.queue
      → Ensures IsKept (place_in now fresh o x m)
  unfolding process
  place_in-IsKept now fresh o x none z new h = h
  place_in-IsKept now fresh o x (some market) z new h =
      let a = accept now o in
      let r = process x.matching fresh market a x.queue in
      Ensures-bind (λ o'. IsClean (written o' r.1)) IsKept (apply_all now r.0 a)
        (λ o'. done (r.0, o', record x { queue = written o' r.1 }))
        (elim (process_as-Queued x.matching fresh market o.order_type a x.queue (refl, z)) [
          | inl same ↦
              Ensures-map (λ o'. o'.object ≡ o.object) (λ o'. IsClean (written o' r.1))
                (apply_all now r.0 a)
                (λ o' e.
                  subst (λ q. IsClean (written o' q)) (sym same)
                    (subst IsClean
                      (sym (written_absent o' x.queue (rw e (apart_objects fresh o x.queue new))))
                      h))
                (apply_all-object now r.0 a)
          | inr (none_, (q, at, id, object, rests)) ↦
              subst (λ rs. Ensures (λ o'. IsClean (written o' r.1)) (apply_all now rs a))
                (sym none_)
                (unfold apply_all in
                  subst (λ t. IsClean (written a t)) (sym at)
                    (added fresh a q x.queue new h (refl, z) id object rests))
        ])
        (λ o' c. c)

  -- A call of the exchange that returns. An order that is placed is new: nothing of it is filled, and
  -- its identifier, its object and the object that the call may make are not in the queue.
  pub data Step : SimulatedExchange Float → SimulatedExchange Float → Type 0 where
    placed :
        (now : ℕ) (fresh : Fresh) (o : SimulatedOrder) (p : Placed Float)
        (x y : SimulatedExchange Float)
        → o.filled_quantity ≡ pos 0
        → IsNew fresh o x.queue
        → place_order now fresh o x ≡ done p
        → p.2 ≡ y
        → Step x y
    cancelled : (id : String) (x y : SimulatedExchange Float) → (cancel_order id x).1 ≡ y → Step x y
    updated :
        (m : MarketDataSnapshot Float) (x y : SimulatedExchange Float)
        → update_market m x ≡ y
        → Step x y
    crossed :
        (now : ℕ) (fresh : ℕ → String) (m : MarketDataSnapshot Float)
        (r : List FillResult × List SimulatedOrder × SimulatedExchange Float)
        (x y : SimulatedExchange Float)
        → process_resting_orders now fresh m x ≡ done r
        → r.2 ≡ y
        → Step x y

  -- Any number of calls.
  pub data Reach : SimulatedExchange Float → SimulatedExchange Float → Type 0 where
    stay : (x : SimulatedExchange Float) → Reach x x
    next : (x y z : SimulatedExchange Float) → Step x y → Reach y z → Reach x z

  Step-IsClean : (x y : SimulatedExchange Float) → Step x y → IsClean x.queue → IsClean y.queue
  unfolding place_order cancel_order update_market
  Step-IsClean x y (placed now fresh o p _ _ z new e at) h =
      subst (λ t. IsClean t.queue) at
        (Ensures-done IsKept (place_order now fresh o x) p
          (place_in-IsKept now fresh o x (get_market o.symbol x) z new h) e)
  Step-IsClean x y (cancelled id _ _ at) h =
      subst (λ t. IsClean t.queue) at (remove-IsClean id x.queue h)
  Step-IsClean x y (updated m _ _ at) h = subst (λ t. IsClean t.queue) at h
  Step-IsClean x y (crossed now fresh m r _ _ e at) h =
      let (sells, buys, swept, swept', once, once', (q, returned, whole, order, rest)) =
        process_resting_orders-IsFilledWhole now fresh m x h in
      subst (λ t. IsClean t.queue) at
        (subst (λ t. IsClean t.2.queue) (done-injective (sym returned ∙ e)) rest)

  -- Calls of the exchange that return, in any order, keep this: the orders in the queue are not
  -- complete, nothing of them is filled, and their identifiers and objects are different. An order
  -- that is placed has to be new: nothing of it is filled, and its identifier, its object and the
  -- object that the call may make are not in the queue.
  pub Reach-IsClean :
      (x y : SimulatedExchange Float) → Reach x y → IsClean x.queue → IsClean y.queue
  Reach-IsClean x y (stay _) h = h
  Reach-IsClean x z (next _ y _ s r) h = Reach-IsClean y z r (Step-IsClean x y s h)
