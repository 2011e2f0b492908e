-- ===== src/Oms/Accounting.antt =====
-- What the fills of an order add up to (`apply_fill` of
-- backend/oms/src/aqros_oms/domain/models.py), over any sequence of method calls.
use aqros.Shared.{ℕ, ◌≡◌, List, [], ◌∷◌, ◌++◌, arith}
use aqros.Shared.Int.{ℤ, pos, ◌+ℤ◌, ◌*ℤ◌, ◌≤ℤ◌, int_laws}
use aqros.Shared.Action.{after}
use aqros.Oms.Order.{Fill, Order, filled}
use aqros.Oms.Methods.{apply_fill}
use aqros.Oms.Lifecycle.{
  Call, accept_call, cancel_call, expire_call, reject_call, fill_call, perform, run,
}

-- The sum of a measure over the fills of an order.
abbrev pub sum_of : (Fill → ℤ) → List Fill → ℤ
sum_of measure [] = pos 0
sum_of measure (f ∷ fs) = measure f +ℤ sum_of measure fs

abbrev pub fill_value : Fill → ℤ
fill_value f = f.quantity *ℤ f.price

sum_of-snoc :
    (measure : Fill → ℤ) (fs : List Fill) (f : Fill)
    → sum_of measure (fs ++ f ∷ []) ≡ sum_of measure fs +ℤ measure f
sum_of-snoc measure [] f = omega int_laws
sum_of-snoc measure (g ∷ fs) f = rw (sum_of-snoc measure fs f) (omega int_laws)

-- The running totals of an order are the sums over its fills, never more than the ordered quantity
-- is filled, and an order marked as filled is filled in whole.
pub record IsAccounted (o : Order) : Type 0 where
  pub quantity_sum : o.filled_quantity ≡ sum_of (λ f. f.quantity) o.fills
  pub value_sum : o.filled_value ≡ sum_of fill_value o.fills
  pub commission_sum : o.total_commission ≡ sum_of (λ f. f.commission) o.fills
  pub not_over : o.filled_quantity ≤ℤ o.quantity
  pub filled_whole : o.status ≡ filled → o.quantity ≤ℤ o.filled_quantity

pub apply_fill-IsAccounted :
    (clock : ℕ) (f : Fill) (o : Order) → IsAccounted o → IsAccounted (after (apply_fill clock f o))
unfolding apply_fill
apply_fill-IsAccounted clock f o h = ground (
  arith,
  sum_of-snoc (λ f. f.quantity) o.fills f,
  sum_of-snoc fill_value o.fills f,
  sum_of-snoc (λ f. f.commission) o.fills f,
)

pub perform-IsAccounted :
    (clock : ℕ) (call : Call) (o : Order)
    → IsAccounted o
    → IsAccounted (after (perform clock call o))
unfolding perform
perform-IsAccounted clock (accept_call now) o h = ground arith
perform-IsAccounted clock (cancel_call now) o h = ground arith
perform-IsAccounted clock (expire_call now) o h = ground arith
perform-IsAccounted clock (reject_call r m now) o h = ground arith
perform-IsAccounted clock (fill_call f) o h = apply_fill-IsAccounted clock f o h

-- If the running totals of an order are the sums over its fills, not more than the ordered
-- quantity is filled, and the order is filled in whole if it is marked so, then all of this holds
-- after any history of method calls, those that raise included.
pub run-IsAccounted :
    (calls : List (ℕ × Call)) (o : Order) → IsAccounted o → IsAccounted (run calls o)
unfolding run
run-IsAccounted [] o h = h
run-IsAccounted ((clock, call) ∷ calls) o h =
    run-IsAccounted calls (after (perform clock call o)) (perform-IsAccounted clock call o h)
