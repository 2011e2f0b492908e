-- ===== src/Oms/Validation.antt =====
-- `validate_order` of backend/oms/src/aqros_oms/domain/models.py. Of each error only the reason is
-- modelled, not the text of its message. The parameters `time_in_force` and `now`, which the
-- function does not read, are left out.
use aqros.Shared.{
  String, ◌≡◌, ◌↔◌, Bool, true, false, Option, none, some, List, [], ◌∷◌, ◌++◌, arith, ◌&&◌,
}
use aqros.Shared.Int.{ℤ, pos, ◌*ℤ◌, ◌≤ℤ◌, ltb_ℤ, leb_ℤ}
use aqros.Shared.Text.{is_blank}
use aqros.Oms.Order.{
  OrderType, market, limit, stop, stop_limit, RejectReason, invalid_symbol, portfolio_not_found,
  invalid_quantity, invalid_price, exceeds_max_order_quantity, exceeds_max_order_value,
}

-- The arguments of `validate_order`.
pub record OrderTerms : Type 0 where
  pub client_order_id : String
  pub portfolio_id : String
  pub symbol : String
  pub order_type : OrderType
  pub quantity : ℤ
  pub price : Option ℤ
  pub stop_price : Option ℤ
  pub max_quantity : Option ℤ
  pub max_value : Option ℤ

-- `price is None or price <= 0`
abbrev missing : Option ℤ → Bool
missing none = true
missing (some p) = leb_ℤ p (pos 0)

abbrev has_limit : OrderType → Bool
has_limit limit = true
has_limit stop_limit = true
has_limit _ = false

abbrev has_stop : OrderType → Bool
has_stop stop = true
has_stop stop_limit = true
has_stop _ = false

abbrev is_market : OrderType → Bool
is_market market = true
is_market _ = false

abbrev is_stop_limit : OrderType → Bool
is_stop_limit stop_limit = true
is_stop_limit _ = false

-- `stop_price is not None and price is not None and stop_price >= price`
abbrev crossed : Option ℤ → Option ℤ → Bool
crossed (some s) (some p) = leb_ℤ p s
crossed _ _ = false

-- `max_quantity is not None and quantity > max_quantity`
abbrev over : Option ℤ → ℤ → Bool
over none q = false
over (some m) q = ltb_ℤ m q

-- `max_value is not None and price is not None and quantity * price > max_value`
abbrev over_value : Option ℤ → Option ℤ → ℤ → Bool
over_value (some m) (some p) q = ltb_ℤ m (q *ℤ p)
over_value _ _ q = false

abbrev report : Bool → RejectReason → List RejectReason
report true reason = reason ∷ []
report false reason = []

unfoldable pub validate_order : OrderTerms → List RejectReason
validate_order t =
    report (is_blank t.client_order_id) invalid_symbol
    ++ (report (is_blank t.portfolio_id) portfolio_not_found
        ++ (report (is_blank t.symbol) invalid_symbol
            ++ (report (leb_ℤ t.quantity (pos 0)) invalid_quantity
                ++ (report (is_market t.order_type && leb_ℤ t.quantity (pos 0)) invalid_quantity
                    ++ (report (has_limit t.order_type && missing t.price) invalid_price
                        ++ (report (has_stop t.order_type && missing t.stop_price) invalid_price
                            ++ (report (is_stop_limit t.order_type && crossed t.stop_price t.price)
                                  invalid_price
                                ++ (report (over t.max_quantity t.quantity)
                                      exceeds_max_order_quantity
                                    ++ report (over_value t.max_value t.price t.quantity)
                                        exceeds_max_order_value))))))))

-- A price that is given and positive.
abbrev pub IsPositive : Option ℤ → Type 0
IsPositive none = ⊥
IsPositive (some p) = pos 1 ≤ℤ p

-- The stop price lies below the limit price, where both are given.
abbrev pub StopBelow : Option ℤ → Option ℤ → Type 0
StopBelow (some s) (some p) = ¬ (p ≤ℤ s)
StopBelow _ _ = Unit

abbrev pub Within : Option ℤ → ℤ → Type 0
Within none x = Unit
Within (some m) x = x ≤ℤ m

abbrev pub ValueWithin : Option ℤ → Option ℤ → ℤ → Type 0
ValueWithin (some m) (some p) q = q *ℤ p ≤ℤ m
ValueWithin _ _ q = Unit

-- What each type of order asks of its prices.
abbrev pub PricesFit : OrderType → Option ℤ → Option ℤ → Type 0
PricesFit market p s = Unit
PricesFit limit p s = IsPositive p
PricesFit stop p s = IsPositive s
PricesFit stop_limit p s = IsPositive p × IsPositive s × StopBelow s p

-- The terms of an acceptable order, said without the tests of the code.
pub record IsAcceptable (t : OrderTerms) : Type 0 where
  pub client_named : is_blank t.client_order_id ≡ false
  pub portfolio_named : is_blank t.portfolio_id ≡ false
  pub symbol_named : is_blank t.symbol ≡ false
  pub positive : pos 1 ≤ℤ t.quantity
  pub prices : PricesFit t.order_type t.price t.stop_price
  pub quantity_within : Within t.max_quantity t.quantity
  pub value_within : ValueWithin t.max_value t.price t.quantity

validate_order_sound : (t : OrderTerms) → validate_order t ≡ [] → IsAcceptable t
unfolding validate_order
validate_order_sound t h = ground arith

validate_order_complete : (t : OrderTerms) → IsAcceptable t → validate_order t ≡ []
unfolding validate_order
validate_order_complete t h = ground arith

-- `validate_order` reports nothing exactly when the terms are acceptable.
pub validate_order-IsAcceptable : (t : OrderTerms) → (validate_order t ≡ []) ↔ IsAcceptable t
validate_order-IsAcceptable t = (validate_order_sound t, validate_order_complete t)
