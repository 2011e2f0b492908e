-- ===== src/Oms/Creation.antt =====
-- What the route `create_order` of backend/oms/src/aqros_oms/api/routes/orders.py accepts.
use mathlib.Core.Path.{subst}
use aqros.Shared.{ℕ, refl, String, ◌≡◌, none, some, arith, true}
use aqros.Shared.Action.{done, raised, is_done}
use aqros.Oms.Order.{Order, OrderSide, OrderType, TimeInForce, open_}
use aqros.Oms.Methods.{accept}
use aqros.Oms.Requests.{CreateRequest, ill_formed, parse_type, parse_tif, parse_side}
use aqros.Oms.Validation.{OrderTerms, IsAcceptable, validate_order-IsAcceptable}
use aqros.Oms.Repository.{Repository, absent, find_by_client_order_id, save}
use aqros.Oms.Rules.{
  route-raise_if, route-or_status, route-attempt, route-free, route-check_request,
}
use aqros.Oms.Service.{Route, new_order, check_request, create_order}

-- The terms of a request, once its type has been read.
abbrev pub terms_of : CreateRequest → OrderType → OrderTerms
terms_of req order_type = record {
  client_order_id = req.client_order_id;
  portfolio_id = req.portfolio_id;
  symbol = req.symbol;
  order_type = order_type;
  quantity = req.quantity;
  price = req.price;
  stop_price = req.stop_price;
  max_quantity = none;
  max_value = none;
}

done-injective :
    {a b : Order × Repository} → ◌≡◌ {A = Route (Order × Repository)} (done a) (done b) → a ≡ b
done-injective e = cc

check_request-done :
    (req : CreateRequest) (order_type : OrderType) (tif : TimeInForce) (repo : Repository)
    → is_done (check_request req order_type tif repo) ≡ true
    → IsAcceptable (terms_of req order_type)
unfolding check_request
check_request-done req order_type tif repo h =
    (validate_order-IsAcceptable (terms_of req order_type)).0 (ground arith)

-- What an accepted request has brought about.
pub record IsCreated (clock : ℕ) (upper : String → String) (req : CreateRequest) (repo : Repository)
    (result : Order × Repository) : Type 0 where
  pub typed :
      (order_type : OrderType) × (parse_type req.order_type ≡ some order_type)
      × IsAcceptable (terms_of req order_type)
  pub unused : find_by_client_order_id req.client_order_id repo ≡ absent
  pub open_for_fills : result.0.status ≡ open_
  pub symbol_upper : result.0.symbol ≡ upper req.symbol
  pub saved : result.1 ≡ save clock result.0 repo

accept-IsCreated :
    (clock : ℕ) (upper : String → String) (new_id : String) (req : CreateRequest)
    (repo : Repository) (side : OrderSide) (order_type : OrderType) (tif : TimeInForce) (o : Order)
    → parse_type req.order_type ≡ some order_type
    → IsAcceptable (terms_of req order_type)
    → find_by_client_order_id req.client_order_id repo ≡ absent
    → accept clock (some clock) (new_order clock new_id (upper req.symbol) req side order_type tif)
      ≡ done o
    → IsCreated clock upper req repo (o, save clock o repo)
unfolding accept new_order
accept-IsCreated clock upper new_id req repo side order_type tif o e1 acceptable e2 e3 = record {
  typed = (order_type, e1, acceptable);
  unused = e2;
  open_for_fills = ground arith;
  symbol_upper = ground arith;
  saved = refl;
}

-- A request that `create_order` accepts has acceptable terms and a client's identifier that no
-- stored order has; the order is open under the upper-case symbol, and it is saved.
pub create_order-IsCreated :
    (clock : ℕ) (upper : String → String) (new_id : String) (req : CreateRequest)
    (repo : Repository) (result : Order × Repository)
    → create_order clock upper new_id req repo ≡ done result
    → IsCreated clock upper req repo result
unfolding create_order
create_order-IsCreated clock upper new_id req repo =
    route-raise_if Good repo fails (ill_formed req) 422 _ λ formed.
      route-or_status Good repo fails (parse_side req.side) 422 _ λ side e1.
        route-or_status Good repo fails (parse_type req.order_type) 422 _ λ order_type e2.
          route-or_status Good repo fails (parse_tif req.time_in_force) 422 _ λ tif e3.
            route-free Good repo fails (find_by_client_order_id req.client_order_id repo) _ λ e4.
              route-check_request Good repo fails req order_type tif _ λ checked.
                route-attempt Good repo fails
                  (accept clock (some clock)
                    (new_order clock new_id (upper req.symbol) req side order_type tif))
                  _
                  λ o e5 result e. subst (IsCreated clock upper req repo) (done-injective e) (
                    accept-IsCreated clock upper new_id req repo side order_type tif o e2
                      (check_request-done req order_type tif repo checked) e4 e5)
  where
    Good : Route (Order × Repository) → Type 0
    Good r = (result : Order × Repository) → r ≡ done result → IsCreated clock upper req repo result

    fails : (status : ℕ) → Good (raised status repo)
    fails status result e = cc
