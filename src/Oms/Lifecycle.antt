-- ===== src/Oms/Lifecycle.antt =====
-- The life of an order (backend/oms/src/aqros_oms/domain/models.py): which statuses follow which,
-- and what the fills of an order add up to, over any sequence of method calls.
use aqros.Shared.{ℕ, ◌≡◌, refl, ◌⊎◌, inl, inr, String, true, false, Option, List, [], ◌∷◌, arith}
use aqros.Shared.Action.{Outcome, after, is_done}
use aqros.Oms.Order.{Fill, Order, OrderStatus, RejectReason}
use aqros.Oms.Methods.{OrderError, allowed, is_complete, accept, reject, cancel, expire, apply_fill}

-- A call of one of the methods that change an order, with its arguments.
pub data Call : Type 0 where
  accept_call cancel_call expire_call : Option ℕ → Call
  reject_call : RejectReason → String → Option ℕ → Call
  fill_call : Fill → Call

unfoldable pub perform : ℕ → Call → Order → Outcome OrderError Order Order
unfolding accept reject cancel expire apply_fill
perform clock (accept_call now) o = accept clock now o
perform clock (cancel_call now) o = cancel clock now o
perform clock (expire_call now) o = expire clock now o
perform clock (reject_call reason message now) o = reject clock reason message now o
perform clock (fill_call fill) o = apply_fill clock fill o

-- A history: each call with the reading of the clock; a raise is caught and the next call is made.
unfoldable pub run : List (ℕ × Call) → Order → Order
run [] o = o
run ((clock, call) ∷ calls) o = run calls (after (perform clock call o))

-- The statuses that some path of allowed transitions reaches.
infix 40 ◌⟶*◌
pub data ◌⟶*◌ : OrderStatus → OrderStatus → Type 0 where
  here : {s : OrderStatus} → s ⟶* s
  next : {s t u : OrderStatus} → allowed s t ≡ true → t ⟶* u → s ⟶* u

-- A complete order is final: every method raises, and leaves the order as it is.
pub perform_complete :
    (clock : ℕ) (call : Call) (o : Order)
    → is_complete o ≡ true
    → (after (perform clock call o) ≡ o) × (is_done (perform clock call o) ≡ false)
unfolding perform
perform_complete clock (accept_call now) o h = ground arith
perform_complete clock (cancel_call now) o h = ground arith
perform_complete clock (expire_call now) o h = ground arith
perform_complete clock (reject_call r m now) o h = ground arith
perform_complete clock (fill_call f) o h = ground arith

-- A filled, cancelled, rejected or expired order stays exactly as it is, whatever calls follow.
pub run_complete : (calls : List (ℕ × Call)) (o : Order) → is_complete o ≡ true → run calls o ≡ o
unfolding run
run_complete [] o h = refl
run_complete ((clock, call) ∷ calls) o h =
    rw ((perform_complete clock call o h).0) (run_complete calls o h)

-- One call moves the status along one allowed transition, or leaves it.
perform_step :
    (clock : ℕ) (call : Call) (o : Order)
    → ((after (perform clock call o)).status ≡ o.status)
      ⊎ (allowed o.status (after (perform clock call o)).status ≡ true)
unfolding perform
perform_step clock (accept_call now) o = ground arith
perform_step clock (cancel_call now) o = ground arith
perform_step clock (expire_call now) o = ground arith
perform_step clock (reject_call r m now) o = ground arith
perform_step clock (fill_call f) o = ground arith

⟶*-step : {s t u : OrderStatus} → (t ≡ s) ⊎ (allowed s t ≡ true) → t ⟶* u → s ⟶* u
⟶*-step {u = u} (inl e) r = rw (← e) r
⟶*-step (inr a) r = next a r

-- Over any history of method calls the status of an order follows a path of allowed transitions,
-- also through calls that raise.
pub run-⟶* : (calls : List (ℕ × Call)) (o : Order) → o.status ⟶* (run calls o).status
unfolding run
run-⟶* [] o = here
run-⟶* ((clock, call) ∷ calls) o =
    ⟶*-step (perform_step clock call o) (run-⟶* calls (after (perform clock call o)))
