-- ===== src/Oms/Service.antt =====
-- The routes of backend/oms/src/aqros_oms/api/routes/orders.py that change orders, over the
-- repository, with the range checks of the request models in api/schemas.py. An exception
-- that a route does not catch is a 500. `clock` is
-- the reading of `datetime.now`, `upper` is `str.upper` and `new_id` the text of a fresh `uuid4`.
use aqros.Shared.{ℕ, String, Bool, true, false, Option, none, some, List, [], ◌∷◌, not, ◌&&◌, ◌||◌}
use aqros.Shared.Int.{pos, ltb_ℤ}
use aqros.Shared.Action.{Outcome, done, raised, raise_if, ◌>>=◌}
use aqros.Oms.Order.{
  Fill, Order, OrderSide, OrderType, stop_limit, TimeInForce, gtd, pending, remaining_quantity,
}
use aqros.Oms.Methods.{OrderError, accept, cancel, reject, apply_fill, is_complete}
use aqros.Oms.Requests.{
  CreateRequest, FillRequest, ill_formed, ill_formed_fill, parse_side, parse_type, parse_tif,
  parse_reason,
}
use aqros.Oms.Validation.{validate_order}
use aqros.Oms.Expiry.{calculate_order_expiry}
use aqros.Oms.Repository.{
  Repository, StoreError, Found, absent, one, several, find_by_id, find_by_client_order_id, save,
  save_fill,
}

-- What a route comes to: the order that it replies with and the repository that it leaves, or the
-- status of an HTTP error.
abbrev pub Route : Type 0 → Type 0
Route A = Outcome ℕ Repository A

-- `raise HTTPException(status)` unless there is a value.
abbrev pub or_status : {A : Type 0} → Option A → ℕ → Repository → Route A
or_status none status repo = raised status repo
or_status (some a) status repo = done a

-- A method's exception leaves the route, and what it did to the order is lost with the order.
abbrev pub attempt : Outcome OrderError Order Order → Repository → Route Order
attempt (done o) repo = done o
attempt (raised e o) repo = raised 500 repo

-- What the repository raises leaves the route too, and what was committed before stays.
abbrev pub committed : Outcome StoreError Repository Repository → Route Repository
committed (done repo) = done repo
committed (raised e repo) = raised 500 repo

abbrev is_gtd : TimeInForce → Bool
is_gtd gtd = true
is_gtd _ = false

abbrev is_stop_limit : OrderType → Bool
is_stop_limit stop_limit = true
is_stop_limit _ = false

abbrev is_none : {A : Type 0} → Option A → Bool
is_none none = true
is_none (some a) = false

abbrev is_empty : {A : Type 0} → List A → Bool
is_empty [] = true
is_empty (x ∷ xs) = false

-- The status of the error for an identifier that is taken; two matches make the query raise.
abbrev pub free : Found → Repository → Route Repository
free absent repo = done repo
free (one o) repo = raised 409 repo
free several repo = raised 500 repo

-- The `Order` that `create_order` builds before it accepts it.
unfoldable pub new_order :
    ℕ → String → String → CreateRequest → OrderSide → OrderType → TimeInForce → Order
new_order clock new_id symbol req side order_type tif = record {
  order_id = new_id;
  client_order_id = req.client_order_id;
  portfolio_id = req.portfolio_id;
  symbol = symbol;
  side = side;
  order_type = order_type;
  quantity = req.quantity;
  price = req.price;
  stop_price = req.stop_price;
  time_in_force = tif;
  status = pending;
  filled_quantity = pos 0;
  filled_value = pos 0;
  total_commission = pos 0;
  avg_fill_price = none;
  last_fill_price = none;
  reject_reason = none;
  reject_message = none;
  expires_at = calculate_order_expiry tif clock req.expires_at;
  strategy = req.strategy;
  correlation_id = req.correlation_id;
  created_at = some clock;
  updated_at = some clock;
  fills = [];
}

-- The checks of `create_order` between the search for a duplicate and the construction of the order.
unfoldable pub check_request :
    CreateRequest → OrderType → TimeInForce → Repository → Route Repository
check_request req order_type tif repo = do
  let errors = validate_order (record {
    client_order_id = req.client_order_id;
    portfolio_id = req.portfolio_id;
    symbol = req.symbol;
    order_type = order_type;
    quantity = req.quantity;
    price = req.price;
    stop_price = req.stop_price;
    max_quantity = none;
    max_value = none;
  })
  repo ← raise_if (not (is_empty errors)) 422 repo
  repo ←
      raise_if (is_stop_limit order_type && (is_none req.stop_price || is_none req.price)) 422 repo
  raise_if (is_gtd tif && is_none req.expires_at) 422 repo

unfoldable pub create_order :
    ℕ → (String → String) → String → CreateRequest → Repository → Route (Order × Repository)
create_order clock upper new_id req repo = do
  repo ← raise_if (ill_formed req) 422 repo
  side ← or_status (parse_side req.side) 422 repo
  order_type ← or_status (parse_type req.order_type) 422 repo
  tif ← or_status (parse_tif req.time_in_force) 422 repo
  repo ← free (find_by_client_order_id req.client_order_id repo) repo
  repo ← check_request req order_type tif repo
  order ←
      attempt
        (accept clock (some clock)
          (new_order clock new_id (upper req.symbol) req side order_type tif))
        repo
  done (order, save clock order repo)

unfoldable pub cancel_order : ℕ → String → Repository → Route (Order × Repository)
cancel_order clock order_id repo = do
  order ← or_status (find_by_id order_id repo) 404 repo
  repo ← raise_if (is_complete order) 400 repo
  order ← attempt (cancel clock none order) repo
  done (order, save clock order repo)

unfoldable pub fill_order : ℕ → String → FillRequest → Repository → Route (Order × Repository)
fill_order clock order_id req repo = do
  repo ← raise_if (ill_formed_fill req) 422 repo
  order ← or_status (find_by_id order_id repo) 404 repo
  repo ← raise_if (is_complete order) 400 repo
  repo ← raise_if (ltb_ℤ (remaining_quantity order) req.quantity) 422 repo
  let fill : Fill = record {
    trade_id = req.trade_id;
    order_id = order_id;
    quantity = req.quantity;
    price = req.price;
    commission = req.commission;
    created_at = some clock;
  }
  order ← attempt (apply_fill clock fill order) repo
  repo ← committed (save_fill clock fill (save clock order repo))
  done (order, repo)

unfoldable pub reject_order : ℕ → String → String → String → Repository → Route (Order × Repository)
reject_order clock order_id reason message repo = do
  order ← or_status (find_by_id order_id repo) 404 repo
  repo ← raise_if (is_complete order) 400 repo
  order ← attempt (reject clock (parse_reason reason) message none order) repo
  done (order, save clock order repo)
