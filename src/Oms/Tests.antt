-- ===== src/Oms/Tests.antt =====
-- The theorems on the order service (backend/oms/src/aqros_oms) at concrete orders and requests.
use aqros.Shared.{ℕ, ◌≡◌, refl, ◌↔◌, String, none, some, [], ◌∷◌, arith, if◌then◌else◌}
use aqros.Shared.Int.{pos}
use aqros.Shared.Text.{str_eq, is_blank}
use aqros.Shared.Dict.{lookup}
use aqros.Oms.Order.{
  Fill, Order, buy, limit, OrderStatus, pending, open_, cancelled, TimeInForce, day,
}
use aqros.Oms.Methods.{is_complete, accept}
use aqros.Oms.Lifecycle.{accept_call, cancel_call, fill_call, run, run_complete, run-⟶*, ◌⟶*◌}
use aqros.Oms.Accounting.{IsAccounted, run-IsAccounted}
use aqros.Oms.Validation.{OrderTerms, validate_order, IsAcceptable, validate_order-IsAcceptable}
use aqros.Oms.Expiry.{calculate_order_expiry}
use aqros.Oms.Repository.{Repository, save, find_by_client_order_id}
use aqros.Oms.Requests.{CreateRequest, FillRequest, parse_side, parse_type, parse_tif}
use aqros.Oms.Service.{create_order, new_order, check_request, fill_order}
use aqros.Oms.Rules.{left}
use aqros.Oms.Consistency.Tables.{IsConsistent}
use aqros.Oms.History.{create, fill, here, next, Reach-IsConsistent}
use aqros.Oms.Creation.{IsCreated, create_order-IsCreated}

-- A limit order for 10 quanta at 5.
abbrev sample : OrderStatus → TimeInForce → Order
sample status tif = record {
  order_id = "o1";
  client_order_id = "c1";
  portfolio_id = "p1";
  symbol = "ACME";
  side = buy;
  order_type = limit;
  quantity = pos 10;
  price = some (pos 5);
  stop_price = none;
  time_in_force = tif;
  status = status;
  filled_quantity = pos 0;
  filled_value = pos 0;
  total_commission = pos 0;
  avg_fill_price = none;
  last_fill_price = none;
  reject_reason = none;
  reject_message = none;
  expires_at = some 86_399_999_999;
  strategy = "s";
  correlation_id = "";
  created_at = some 1;
  updated_at = some 1;
  fills = [];
}

abbrev fill_at : ℕ → Fill
fill_at q = record {
  trade_id = "t1";
  order_id = "o1";
  quantity = pos q;
  price = pos 5;
  commission = pos 1;
  created_at = some 2;
}

sample-IsAccounted : (tif : TimeInForce) → IsAccounted (sample pending tif)
sample-IsAccounted tif = ground arith

run-IsAccounted_example : IsAccounted (
    run
      ((1, accept_call none) ∷ (2, fill_call (fill_at 4)) ∷ (3, fill_call (fill_at 6)) ∷ [])
      (sample pending day))
run-IsAccounted_example =
    run-IsAccounted
      ((1, accept_call none) ∷ (2, fill_call (fill_at 4)) ∷ (3, fill_call (fill_at 6)) ∷ [])
      (sample pending day) (sample-IsAccounted day)

run_complete_example :
    run ((3, fill_call (fill_at 4)) ∷ (4, cancel_call none) ∷ []) (sample cancelled day)
    ≡ sample cancelled day
unfolding is_complete
run_complete_example =
    run_complete ((3, fill_call (fill_at 4)) ∷ (4, cancel_call none) ∷ []) (sample cancelled day)
      refl

run-⟶*_example :
    pending
    ⟶* (run ((1, accept_call none) ∷ (2, fill_call (fill_at 10)) ∷ []) (sample pending day)).status
run-⟶*_example =
    run-⟶* ((1, accept_call none) ∷ (2, fill_call (fill_at 10)) ∷ []) (sample pending day)

abbrev terms : OrderTerms
terms = record {
  client_order_id = "c1";
  portfolio_id = "p1";
  symbol = "ACME";
  order_type = limit;
  quantity = pos 10;
  price = some (pos 5);
  stop_price = none;
  max_quantity = some (pos 10);
  max_value = some (pos 49);
}

validate_order-IsAcceptable_example : (validate_order terms ≡ []) ↔ IsAcceptable terms
validate_order-IsAcceptable_example = validate_order-IsAcceptable terms

abbrev request : CreateRequest
request = record {
  client_order_id = "c1";
  portfolio_id = "p1";
  symbol = "acme";
  side = "buy";
  order_type = "limit";
  quantity = pos 10;
  price = some (pos 5);
  stop_price = none;
  time_in_force = "day";
  expires_at = none;
  strategy = "s";
  correlation_id = "";
}

abbrev fill_request : FillRequest
fill_request = record { trade_id = "t1"; quantity = pos 4; price = pos 5; commission = pos 0 }

abbrev upper : String → String
upper t = if str_eq t "acme" then "ACME" else t

abbrev empty_repository : Repository
empty_repository = record { orders = []; fills = [] }

empty-IsConsistent : IsConsistent empty_repository
unfolding lookup
empty-IsConsistent = record { rows = λ k row e. ground arith; no_orphans = λ k e. refl }

Reach-IsConsistent_example : IsConsistent (
    left
      (fill_order 2 "o1" fill_request (left (create_order 1 upper "o1" request empty_repository))))
unfolding lookup create_order parse_side parse_type parse_tif find_by_client_order_id check_request
    validate_order is_blank accept new_order save
Reach-IsConsistent_example =
    Reach-IsConsistent empty-IsConsistent
      (next (next here (create 1 upper "o1" request refl)) (fill 2 "o1" fill_request refl))

abbrev placed : Order
placed = sample open_ day

create_order-IsCreated_example :
    IsCreated 1 upper request empty_repository (placed, save 1 placed empty_repository)
unfolding create_order accept new_order check_request validate_order find_by_client_order_id
    parse_side parse_type parse_tif calculate_order_expiry is_blank
create_order-IsCreated_example =
    create_order-IsCreated 1 upper "o1" request empty_repository
      (placed, save 1 placed empty_repository) refl
