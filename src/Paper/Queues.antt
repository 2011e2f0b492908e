-- ===== src/Paper/Queues.antt =====
-- The queue of an exchange: what its orders have in common, and what the removal of one leaves
-- (`OrderQueue` in backend/paper-trading-engine/src/aqros_paper_trading/domain/models.py).
use aqros.Shared.{
  ℕ, String, ◌≡◌, ap, refl, true, false, Bool-cases, inl, inr, [], ◌∷◌, All, ◌==◌, arith,
}
use aqros.Shared.Int.{pos}
use aqros.Shared.Text.{str_eq, eq_iff}
use aqros.Paper.Orders.{
  FillResult, SimulatedOrder, is_complete, with_result, Queue, remove, written,
}
use aqros.Paper.Placing.{written_absent}

-- The order is not complete, and nothing of it is filled.
abbrev pub Rests : SimulatedOrder → Type 0
Rests o = (is_complete o ≡ false) × (o.filled_quantity ≡ pos 0)

-- Two orders with different identifiers, and different objects.
abbrev pub Apart : SimulatedOrder → SimulatedOrder → Type 0
Apart o p = (str_eq p.order_id o.order_id ≡ false) × ((p.object == o.object) ≡ false)

abbrev pub IsDistinct : Queue → Type 0
IsDistinct [] = Unit
IsDistinct (o ∷ queue) = All (Apart o) queue × IsDistinct queue

-- The orders of the queue rest, and have different identifiers and objects.
abbrev pub IsClean : Queue → Type 0
IsClean queue = All Rests queue × IsDistinct queue

-- An entry of the queue that is the order's object has the order's identifier.
abbrev pub IsNamed : Queue → SimulatedOrder → Type 0
IsNamed queue o =
    All (λ p. (p.object == o.object) ≡ true → str_eq p.order_id o.order_id ≡ true) queue

pub remove-All {ℓ} :
    (P : SimulatedOrder → Type ℓ) (id : String) (queue : Queue)
    → All P queue
    → All P (remove id queue).1
unfolding remove
remove-All P id [] h = tt
remove-All P id (o ∷ queue) (r, h) = elim (Bool-cases (str_eq o.order_id id)) [
  | inl t ↦ rw t h
  | inr t ↦ rw t (r, remove-All P id queue h)
]

pub remove-IsDistinct :
    (id : String) (queue : Queue) → IsDistinct queue → IsDistinct (remove id queue).1
unfolding remove
remove-IsDistinct id [] h = tt
remove-IsDistinct id (o ∷ queue) (apart, d) = elim (Bool-cases (str_eq o.order_id id)) [
  | inl t ↦ rw t d
  | inr t ↦ rw t (remove-All (Apart o) id queue apart, remove-IsDistinct id queue d)
]

pub remove-IsClean : (id : String) (queue : Queue) → IsClean queue → IsClean (remove id queue).1
remove-IsClean id queue (r, d) = (remove-All Rests id queue r, remove-IsDistinct id queue d)

-- What follows an entry with the order's identifier is not the order's object.
absent_after :
    (o p : SimulatedOrder) (queue : Queue)
    → str_eq p.order_id o.order_id ≡ true
    → All (Apart p) queue
    → IsNamed queue o
    → All (λ q. (q.object == o.object) ≡ false) queue
absent_after o p [] t a n = tt
absent_after o p (q ∷ queue) t ((a, b), rest_) (n, ns) = (
  elim (Bool-cases (q.object == o.object)) [
    | inr u ↦ u
    | inl u ↦ ground (
      arith,
      n u,
      t,
      a,
      eq_iff q.order_id o.order_id,
      eq_iff p.order_id o.order_id,
      eq_iff q.order_id p.order_id,
    )
  ],
  absent_after o p queue t rest_ ns,
)

-- To remove an order that was filled, once it is written to the queue, is to remove it.
pub written-remove :
    (now : ℕ) (r : FillResult) (o : SimulatedOrder) (queue : Queue)
    → IsDistinct queue
    → IsNamed queue o
    → (remove o.order_id (written (with_result now r o) queue)).1 ≡ (remove o.order_id queue).1
unfolding remove written
written-remove now r o [] d n = refl
written-remove now r o (p ∷ queue) (apart, d) (n, ns) =
    let same = (eq_iff o.order_id o.order_id).1 refl in
    elim (Bool-cases (str_eq p.order_id o.order_id)) [
      | inl t ↦
          (let rest =
              written_absent (with_result now r o) queue (absent_after o p queue t apart ns) in
            elim (Bool-cases (p.object == o.object)) [
              | inl u ↦ rw (u, same, t) rest
              | inr u ↦ rw (u, t) rest
            ])
      | inr t ↦ elim (Bool-cases (p.object == o.object)) [
        | inl u ↦ ground (arith, n u)
        | inr u ↦ rw (u, t) (ap (λ q. p ∷ q) (written-remove now r o queue d ns))
      ]
    ]

IsNamed-among :
    (p : SimulatedOrder) (queue : Queue)
    → All (Apart p) queue
    → All (IsNamed queue) queue
    → All (IsNamed (p ∷ queue)) queue
IsNamed-among p queue a h = go queue a h
  where
    go : (os : Queue) → All (Apart p) os → All (IsNamed queue) os → All (IsNamed (p ∷ queue)) os
    go [] a h = tt
    go (o ∷ os) ((i, j), rest_) (n, ns) = ((λ e. ground arith, n), go os rest_ ns)

-- In a queue of different orders, the objects have one identifier each.
pub IsDistinct-IsNamed : (queue : Queue) → IsDistinct queue → All (IsNamed queue) queue
IsDistinct-IsNamed [] d = tt
IsDistinct-IsNamed (p ∷ queue) (a, d) = (
  ((λ e. (eq_iff p.order_id p.order_id).1 refl), own queue a),
  IsNamed-among p queue a (IsDistinct-IsNamed queue d),
)
  where
    own : (os : Queue) → All (Apart p) os → IsNamed os p
    own [] a = tt
    own (o ∷ os) ((i, j), rest_) = ((λ e. ground arith), own os rest_)
