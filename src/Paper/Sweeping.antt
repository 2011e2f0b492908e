-- ===== src/Paper/Sweeping.antt =====
-- Which orders of a queue are crossed, and in what order (`OrderQueue.find_crossable` in
-- backend/paper-trading-engine/src/aqros_paper_trading/domain/models.py).
use mathlib.Core.Path.{subst}
use aqros.Shared.{
  ℕ, ap, ◌≤◌, String, ◌≡◌, ◌↔◌, ◌⊎◌, Bool, true, false, not, ◌&&◌, Bool-cases, leb-cases, Option,
  none, some, inl, inr, [], ◌∷◌, leb, All, Any, arith,
}
use aqros.Shared.Int.{ℤ, ◌≤ℤ◌}
use aqros.Shared.Text.{str_eq, eq_iff}
use aqros.Paper.Orders.{
  OrderSide, SimulatedOrder, is_complete, Queue, crosses_at, is_crossable, created, insert_by_time,
  find_crossable,
}

-- An order with the limit can be met at the price.
abbrev pub CanMeet : OrderSide → Option ℤ → ℤ → Type 0
CanMeet side none price = ⊥
CanMeet OrderSide.buy (some bound) price = price ≤ℤ bound
CanMeet OrderSide.sell (some bound) price = bound ≤ℤ price

abbrev pub Opposes : OrderSide → OrderSide → Type 0
Opposes OrderSide.buy OrderSide.sell = Unit
Opposes OrderSide.sell OrderSide.buy = Unit
Opposes _ _ = ⊥

-- The order is for the symbol, is live, is on the other side, and its limit can be met at the price.
abbrev pub IsCrossed : String → OrderSide → ℤ → SimulatedOrder → Type 0
IsCrossed symbol side price o =
    (o.symbol ≡ symbol)
    × (is_complete o ≡ false)
    × Opposes o.side side
    × CanMeet o.side o.price price

-- By the time of creation, the earliest first.
abbrev pub IsByTime : Queue → Type 0
IsByTime [] = Unit
IsByTime (o ∷ queue) = All (λ p. created o ≤ created p) queue × IsByTime queue

abbrev pub IsAmong : Queue → SimulatedOrder → Type 0
IsAmong queue o = Any (λ p. p ≡ o) queue

-- The second queue has the crossed orders of the first and no others, by the time of creation.
abbrev pub IsSweep : String → OrderSide → ℤ → Queue → Queue → Type 0
IsSweep symbol side price queue crossed =
    IsByTime crossed
    × ((o : SimulatedOrder) → IsAmong crossed o ↔ (IsAmong queue o × IsCrossed symbol side price o))

crosses_at-lem :
    (own side : OrderSide) (bound : Option ℤ) (price : ℤ)
    → (crosses_at own side bound price ≡ true) ↔ (Opposes own side × CanMeet own bound price)
crosses_at-lem OrderSide.buy OrderSide.sell (some b) price =
    (λ h. (tt, ground arith), λ (u, h). ground arith)
crosses_at-lem OrderSide.sell OrderSide.buy (some b) price =
    (λ h. (tt, ground arith), λ (u, h). ground arith)
crosses_at-lem OrderSide.buy OrderSide.sell none price = (λ h. cc, λ (u, h). absurd h)
crosses_at-lem OrderSide.sell OrderSide.buy none price = (λ h. cc, λ (u, h). absurd h)
crosses_at-lem OrderSide.buy OrderSide.buy bound price = (λ h. cc, λ (u, h). absurd u)
crosses_at-lem OrderSide.sell OrderSide.sell bound price = (λ h. cc, λ (u, h). absurd u)

and_true : (a b c : Bool) → ((a && not b && c) ≡ true) ↔ ((a ≡ true) × (b ≡ false) × (c ≡ true))
and_true a b c = (λ h. (ground arith, ground arith, ground arith), λ h. ground arith)

is_crossable-IsCrossed :
    (symbol : String) (side : OrderSide) (price : ℤ) (o : SimulatedOrder)
    → (is_crossable symbol side price o ≡ true) ↔ IsCrossed symbol side price o
is_crossable-IsCrossed symbol side price o =
    let parts =
      and_true (str_eq o.symbol symbol) (is_complete o) (crosses_at o.side side o.price price) in
    let crosses = crosses_at-lem o.side side o.price price in
    let names = eq_iff o.symbol symbol in
    (
      λ h. let (a, b, c) = parts.0 h in let (d, e) = crosses.0 c in (names.0 a, b, d, e),
      λ (a, b, d, e). parts.1 (names.1 a, b, crosses.1 (d, e)),
    )

pub insert_by_time-All {ℓ} :
    (P : SimulatedOrder → Type ℓ) (o : SimulatedOrder) (queue : Queue)
    → P o
    → All P queue
    → All P (insert_by_time o queue)
unfolding insert_by_time
insert_by_time-All P o [] p h = (p, tt)
insert_by_time-All P o (q ∷ queue) p (g, h) = elim (Bool-cases (leb (created o) (created q))) [
  | inl t ↦ rw t (p, (g, h))
  | inr t ↦ rw t (g, insert_by_time-All P o queue p h)
]

All-later :
    (m n : ℕ) (queue : Queue)
    → m ≤ n
    → All (λ p. n ≤ created p) queue
    → All (λ p. m ≤ created p) queue
All-later m n [] le h = tt
All-later m n (p ∷ queue) le (g, h) = (omega (arith, le, g), All-later m n queue le h)

insert_by_time-IsByTime :
    (o : SimulatedOrder) (queue : Queue) → IsByTime queue → IsByTime (insert_by_time o queue)
unfolding insert_by_time
insert_by_time-IsByTime o [] h = (tt, tt)
insert_by_time-IsByTime o (q ∷ queue) (g, h) = elim (leb-cases (created o) (created q)) [
  | inl (t, le) ↦ rw t ((le, All-later (created o) (created q) queue le g), (g, h))
  | inr (t, gt) ↦ rw t (
    insert_by_time-All (λ p. created q ≤ created p) o queue (omega (arith, gt)) g,
    insert_by_time-IsByTime o queue h,
  )
]

module _ (P : SimulatedOrder → Type 0) where
  insert_by_time-Any :
      (o : SimulatedOrder) (queue : Queue) → Any P (insert_by_time o queue) ↔ (P o ⊎ Any P queue)
  unfolding insert_by_time
  insert_by_time-Any o [] = (λ h. h, λ h. h)
  insert_by_time-Any o (q ∷ queue) = elim (Bool-cases (leb (created o) (created q))) [
    | inl t ↦ rw t (λ h. h, λ h. h)
    | inr t ↦ rw t (
        (
          λ h. elim h [
            | inl p ↦ inr (inl p)
            | inr later ↦ elim ((insert_by_time-Any o queue).0 later) [
              | inl p ↦ inl p
              | inr a ↦ inr (inr a)
            ]
          ],
          λ h. elim h [
            | inl p ↦ inr ((insert_by_time-Any o queue).1 (inl p))
            | inr a ↦ elim a [
              | inl p ↦ inl p
              | inr later ↦ inr ((insert_by_time-Any o queue).1 (inr later))
            ]
          ],
        ))
  ]

-- What holds of the crossable orders holds of all that are found.
pub find_crossable-All :
    (P : SimulatedOrder → Type 0) (symbol : String) (side : OrderSide) (price : ℤ) (queue : Queue)
    → All (λ o. is_crossable symbol side price o ≡ true → P o) queue
    → All P (find_crossable symbol side price queue)
unfolding find_crossable
find_crossable-All P symbol side price [] h = tt
find_crossable-All P symbol side price (o ∷ queue) (f, h) =
    let rest = find_crossable-All P symbol side price queue h in
    elim (Bool-cases (is_crossable symbol side price o)) [
      | inl t ↦ rw t (insert_by_time-All P o (find_crossable symbol side price queue) (f t) rest)
      | inr t ↦ rw t rest
    ]

module _ (symbol : String) (side : OrderSide) (price : ℤ) where
  find_crossable-IsByTime : (queue : Queue) → IsByTime (find_crossable symbol side price queue)
  unfolding find_crossable
  find_crossable-IsByTime [] = tt
  find_crossable-IsByTime (o ∷ queue) =
      let rest = find_crossable-IsByTime queue in
      elim (Bool-cases (is_crossable symbol side price o)) [
        | inl t ↦ rw t (insert_by_time-IsByTime o (find_crossable symbol side price queue) rest)
        | inr t ↦ rw t rest
      ]

  find_crossable-Any :
      (queue : Queue) (o : SimulatedOrder)
      → IsAmong (find_crossable symbol side price queue) o
        ↔ (IsAmong queue o × (is_crossable symbol side price o ≡ true))
  unfolding find_crossable
  find_crossable-Any [] o = (λ h. absurd h, λ (h, c). absurd h)
  find_crossable-Any (p ∷ queue) o =
      let (f, g) = find_crossable-Any queue o in
      elim (Bool-cases (is_crossable symbol side price p)) [
        | inl t ↦
            (let (f', g') =
                insert_by_time-Any (λ q. q ≡ o) p (find_crossable symbol side price queue) in
              rw t (
                (
                  λ h. elim (f' h) [
                    | inl e ↦ (inl e, subst (λ q. is_crossable symbol side price q ≡ true) e t)
                    | inr later ↦ (inr (f later).0, (f later).1)
                  ],
                  λ (h, c). elim h [ inl e ↦ g' (inl e) | inr later ↦ g' (inr (g (later, c))) ],
                )))
        | inr t ↦ rw t (
            (
              λ h. (inr (f h).0, (f h).1),
              λ (h, c). elim h [
                | inl e ↦ cc (ap (λ q. is_crossable symbol side price q) e, t, c)
                | inr later ↦ g (later, c)
              ],
            ))
      ]

  pub find_crossable-IsSweep :
      (queue : Queue) → IsSweep symbol side price queue (find_crossable symbol side price queue)
  find_crossable-IsSweep queue = (
    find_crossable-IsByTime queue,
    λ o.
        let (f, g) = find_crossable-Any queue o in
        let (c, d) = is_crossable-IsCrossed symbol side price o in
        (
          λ h. let (among, crossable) = f h in (among, c crossable),
          λ (among, crossed). g (among, d crossed),
        ),
  )
