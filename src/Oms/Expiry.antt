-- ===== src/Oms/Expiry.antt =====
-- `calculate_order_expiry` of backend/oms/src/aqros_oms/domain/models.py, and when an order counts
-- as expired. A `datetime` is a number of microseconds since midnight of a fixed day on its own
-- clock, so that a day is the quotient by the length of a day.
use aqros.Shared.{ℕ, ◌+◌, ◌*◌, ◌/◌, ◌<◌, ◌≡◌, ◌⊎◌, ◌↔◌, true, Option, none, some, arith}
use aqros.Oms.Order.{Order, TimeInForce, day, gtc, ioc, fok, gtd}
use aqros.Oms.Methods.{working, should_expire, has_expired}

abbrev pub day_length : ℕ
day_length = 86_400_000_000

abbrev second : ℕ
second = 1_000_000

-- `now.replace(hour=23, minute=59, second=59, microsecond=999999)`
abbrev end_of_day : ℕ → ℕ
end_of_day now = now / day_length * day_length + 86_399_999_999

unfoldable pub calculate_order_expiry : TimeInForce → ℕ → Option ℕ → Option ℕ
calculate_order_expiry gtd now gtd_expiry = gtd_expiry
calculate_order_expiry day now gtd_expiry = some (end_of_day now)
calculate_order_expiry gtc now gtd_expiry = none
calculate_order_expiry ioc now gtd_expiry = some (now + second)
calculate_order_expiry fok now gtd_expiry = some (now + second)

-- The two methods that ask whether an order is to expire agree on every order at every time.
pub should_expire-eq-has_expired : (now : ℕ) (o : Order) → should_expire now o ≡ has_expired now o
unfolding should_expire has_expired
should_expire-eq-has_expired now o = ground arith

-- A working day order is due to expire exactly on the days after the day that it was made, and in
-- the last microsecond of that day.
pub day_order_expiry :
    (made now : ℕ) (g : Option ℕ) (o : Order)
    → working o.status ≡ true
    → o.expires_at ≡ calculate_order_expiry day made g
    → (should_expire now o ≡ true)
      ↔ ((made / day_length < now / day_length) ⊎ (now + 1 ≡ (made / day_length + 1) * day_length))
unfolding calculate_order_expiry should_expire
day_order_expiry made now g o w e = (λ h. ground arith, λ h. ground arith)
