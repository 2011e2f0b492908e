-- ===== src/Oms/Methods.antt =====
-- The methods of `Order` in backend/oms/src/aqros_oms/domain/models.py. A method that raises keeps
-- what it wrote before. `clock` is what `datetime.now` returns during the call.
use aqros.Shared.{
  ℕ, String, Bool, true, false, Option, none, some, ◌∷◌, [], ◌++◌, ◌&&◌, not, leb, if◌then◌else◌,
}
use aqros.Shared.Int.{pos, ◌+ℤ◌, ◌*ℤ◌, ltb_ℤ, leb_ℤ, divide}
use aqros.Shared.Action.{Outcome, done, raise_if, ◌>>=◌}
use aqros.Oms.Order.{
  Fill, Order, OrderStatus, TimeInForce, RejectReason, pending, open_, partially_filled, filled,
  cancelled, rejected, expired, ioc, fok,
}

-- The three messages that `ValueError` carries.
pub data OrderError : Type 0 where
  cannot_transition : OrderStatus → OrderStatus → OrderError
  already_complete : OrderError
  exceeds_remaining : OrderError

-- `new_status in _ALLOWED_TRANSITIONS.get(status, set())`
unfoldable pub allowed : OrderStatus → OrderStatus → Bool
allowed pending open_ = true
allowed pending rejected = true
allowed pending cancelled = true
allowed open_ partially_filled = true
allowed open_ filled = true
allowed open_ cancelled = true
allowed open_ expired = true
allowed partially_filled partially_filled = true
allowed partially_filled filled = true
allowed partially_filled cancelled = true
allowed partially_filled expired = true
allowed _ _ = false

abbrev pub complete : OrderStatus → Bool
complete filled = true
complete cancelled = true
complete rejected = true
complete expired = true
complete _ = false

unfoldable pub is_complete : Order → Bool
is_complete o = complete o.status

unfoldable pub can_transition_to : OrderStatus → Order → Bool
unfolding allowed
can_transition_to new_status o = allowed o.status new_status

unfoldable pub transition_to : ℕ → OrderStatus → Order → Outcome OrderError Order Order
unfolding can_transition_to
transition_to clock new_status o = do
  o ← raise_if (not (can_transition_to new_status o)) (cannot_transition o.status new_status) o
  done (record o { status = new_status; updated_at = some clock })

-- `now or datetime.now()`
abbrev now_or : Option ℕ → ℕ → ℕ
now_or none clock = clock
now_or (some now) clock = now

abbrev touch : ℕ → Order → Order
touch time o = record o { updated_at = some time }

unfoldable pub accept : ℕ → Option ℕ → Order → Outcome OrderError Order Order
unfolding transition_to
accept clock now o = do o ← transition_to clock open_ o; done (touch (now_or now clock) o)

unfoldable pub reject :
    ℕ → RejectReason → String → Option ℕ → Order → Outcome OrderError Order Order
unfolding transition_to
reject clock reason message now o = do
  o ← transition_to clock rejected o
  done (record o {
    reject_reason = some reason;
    reject_message = some message;
    updated_at = some (now_or now clock);
  })

unfoldable pub cancel : ℕ → Option ℕ → Order → Outcome OrderError Order Order
unfolding transition_to
cancel clock now o = do o ← transition_to clock cancelled o; done (touch (now_or now clock) o)

unfoldable pub expire : ℕ → Option ℕ → Order → Outcome OrderError Order Order
unfolding transition_to
expire clock now o = do o ← transition_to clock expired o; done (touch (now_or now clock) o)

-- The assignments of `apply_fill` before it changes the status.
unfoldable pub book_fill : Fill → Order → Order
book_fill fill o =
    let new_filled = o.filled_quantity +ℤ fill.quantity in
    let new_value = o.filled_value +ℤ fill.quantity *ℤ fill.price in
    record o {
      fills = o.fills ++ fill ∷ [];
      filled_quantity = new_filled;
      filled_value = new_value;
      total_commission = o.total_commission +ℤ fill.commission;
      last_fill_price = some fill.price;
      avg_fill_price =
          if ltb_ℤ (pos 0) new_filled then some (divide new_value new_filled) else o.avg_fill_price;
    }

abbrev pub immediate : TimeInForce → Bool
immediate ioc = true
immediate fok = true
immediate _ = false

-- The status change at the end of `apply_fill`: a full fill of an immediate order makes the
-- transition to `filled` twice.
unfoldable pub settle : ℕ → Order → Outcome OrderError Order Order
unfolding transition_to
settle clock o =
    if leb_ℤ o.quantity o.filled_quantity
    then (do
      o ← transition_to clock filled o
      if immediate o.time_in_force then transition_to clock filled o else done o)
    else transition_to clock partially_filled o

unfoldable pub apply_fill : ℕ → Fill → Order → Outcome OrderError Order Order
unfolding is_complete book_fill settle
apply_fill clock fill o = do
  o ← raise_if (is_complete o) already_complete o
  o ← raise_if (ltb_ℤ o.quantity (o.filled_quantity +ℤ fill.quantity)) exceeds_remaining o
  o ← settle clock (book_fill fill o)
  done (touch clock o)

abbrev pub working : OrderStatus → Bool
working open_ = true
working partially_filled = true
working _ = false

-- `expires_at is not None and now >= expires_at`
abbrev pub past : Option ℕ → ℕ → Bool
past none now = false
past (some t) now = leb t now

unfoldable pub should_expire : ℕ → Order → Bool
should_expire now o = if not (working o.status) then false else past o.expires_at now

abbrev is_some : Option ℕ → Bool
is_some none = false
is_some (some t) = true

unfoldable pub has_expired : ℕ → Order → Bool
has_expired now o =
    if working o.status && is_some o.expires_at then past o.expires_at now else false
