-- ===== src/Oms/Consistency.antt =====
-- What the order and fill tables keep over any sequence of calls of the routes in
-- backend/oms/src/aqros_oms/api/routes/orders.py.
pub mod Tables
pub use Tables.{RowFits, IsConsistent}
use aqros.Shared.{
  ℕ, String, ◌≡◌, ◌≢◌, refl, sym, ap, ◌⊎◌, inl, inr, Bool, true, false, Option, none, some, List,
  [], ◌∷◌, ◌++◌, arith, not, if◌then◌else◌, Option-cases, Bool-cases,
}
use aqros.Shared.Int.{ℤ, pos, ltb_ℤ, ◌≤ℤ◌, ◌+ℤ◌}
use aqros.Shared.Text.{str_eq, eq_iff}
use aqros.Shared.Action.{Outcome, done, raised, raise_if, is_done, ◌>>=◌}
use aqros.Shared.Dict.{Dict, lookup, lookup-insert}
use aqros.Oms.Order.{
  Fill, Order, OrderStatus, OrderSide, OrderType, TimeInForce, remaining_quantity, pending, filled,
  open_,
}
use aqros.Oms.Methods.{OrderError, cancel, reject, accept, apply_fill, is_complete, transition_to}
use aqros.Oms.Requests.{
  ill_formed, ill_formed_fill, CreateRequest, FillRequest, parse_side, parse_type, parse_tif,
}
use aqros.Oms.Accounting.{IsAccounted, apply_fill-IsAccounted}
use aqros.Oms.Repository.{
  Repository, find_by_client_order_id, save, save_fill, has_trade, update_row, to_row, fills_of,
  find_by_id,
}
use aqros.Oms.Service.{
  Route, or_status, attempt, free, new_order, create_order, cancel_order, fill_order, reject_order,
}
use Tables.{fills_of-snoc, save-IsConsistent, save_new-IsConsistent}
use aqros.Oms.Rules.{
  left, route-raise_if, route-or_status, route-attempt, route-free, route-check_request,
}

-- The order that `find_by_id` returns is the stored row with the fills of its key.
found_row :
    (k : String) (o : Order) (repo : Repository)
    → find_by_id k repo ≡ some o
    → (row : Order) × (lookup k repo.orders ≡ some row)
      × (o ≡ record row { fills = fills_of row.order_id repo.fills })
unfolding find_by_id
found_row k o repo h = elim (Option-cases (lookup k repo.orders)) [
  | inl missing ↦ ground arith
  | inr (row, e) ↦ (row, e, ground arith)
]

-- What a successful fill leaves alone, and what it adds.
apply_fill_frame :
    (clock : ℕ) (f : Fill) (o o' : Order)
    → apply_fill clock f o ≡ done o'
    → (o'.order_id ≡ o.order_id)
      × (o'.quantity ≡ o.quantity)
      × (o'.status ≢ pending)
      × (o'.fills ≡ o.fills ++ f ∷ [])
unfolding apply_fill
apply_fill_frame clock f o o' h = ground arith

cancel_frame :
    (clock : ℕ) (o o' : Order)
    → cancel clock none o ≡ done o'
    → (o'.order_id ≡ o.order_id)
      × (o'.quantity ≡ o.quantity)
      × (o'.status ≢ pending)
      × (o'.fills ≡ o.fills)
      × (IsAccounted o → IsAccounted o')
unfolding cancel
cancel_frame clock o o' h = ground arith

IsAccounted-of_row :
    (o row : Order) (fs : List Fill)
    → o ≡ record row { fills = fs }
    → IsAccounted (record row { fills = fs })
    → IsAccounted o
IsAccounted-of_row o row fs e h = ground arith

-- The facts about a found order in consistent tables that the routes rest on.
found_facts :
    (k : String) (o : Order) (repo : Repository)
    → IsConsistent repo
    → find_by_id k repo ≡ some o
    → (row : Order) × (lookup k repo.orders ≡ some row)
      × (o.order_id ≡ k)
      × (o.quantity ≡ row.quantity)
      × (o.fills ≡ fills_of k repo.fills)
      × (o.status ≢ pending)
      × IsAccounted o
found_facts k o repo h e =
    let (row, stored, same) = found_row k o repo e in
    let fits = h.rows k row stored in
    let whole : o ≡ record row { fills = fills_of k repo.fills } = ground arith in
    (
      row,
      stored,
      ground arith,
      ground arith,
      ground arith,
      ground arith,
      IsAccounted-of_row o row (fills_of k repo.fills) whole fits.accounted,
    )

-- Cancelling an order keeps the tables consistent, whether the route replies or raises.
pub cancel_order-IsConsistent :
    (clock : ℕ) (k : String) (repo : Repository)
    → IsConsistent repo
    → IsConsistent (left (cancel_order clock k repo))
unfolding cancel_order save
cancel_order-IsConsistent clock k repo h =
    route-or_status (λ r. IsConsistent (left r)) repo (λ s. h) (find_by_id k repo) 404 _
      λ o found.
        route-raise_if (λ r. IsConsistent (left r)) repo (λ s. h) (is_complete o) 400 _
          λ live.
            route-attempt (λ r. IsConsistent (left r)) repo (λ s. h) (cancel clock none o) _
              λ o' e.
                let (row, stored, key, q, fs, st, acc) = found_facts k o repo h found in
                let (key', q', st', fs', acc') = cancel_frame clock o o' e in
                save-IsConsistent clock o' row repo repo.fills h (ground arith) (acc' acc) st'
                  (ground arith) (ground arith) (λ j other. refl)

-- If the tables are consistent, the reject route never replies with an order, whatever it is
-- called with: it answers with an error and leaves the tables as they are.
pub reject_order_fails :
    (clock : ℕ) (k reason message : String) (repo : Repository)
    → IsConsistent repo
    → (is_done (reject_order clock k reason message repo) ≡ false)
      × (left (reject_order clock k reason message repo) ≡ repo)
unfolding reject_order
reject_order_fails clock k reason message repo h = elim (Option-cases (find_by_id k repo)) [
  | inl missing ↦ rw missing (refl, refl)
  | inr (o, found) ↦
      let (row, stored, key, q, fs, st, acc) = found_facts k o repo h found in
      rw found (unfold reject is_complete in ground arith)
]

-- The fill that the route builds from a request.
abbrev fill_of : ℕ → String → FillRequest → Fill
fill_of clock k req = record {
  trade_id = req.trade_id;
  order_id = k;
  quantity = req.quantity;
  price = req.price;
  commission = req.commission;
  created_at = some clock;
}

filled-IsConsistent :
    (clock : ℕ) (k : String) (f : Fill) (repo : Repository)
    → IsConsistent repo
    → (o o' : Order) → f.order_id ≡ k
    → find_by_id k repo ≡ some o
    → apply_fill clock f o ≡ done o'
    → IsConsistent (record (save clock o' repo) { fills = repo.fills ++ f ∷ [] })
unfolding save
filled-IsConsistent clock k f repo h o o' mine found e =
    let (row, stored, key, q, fs, st, acc) = found_facts k o repo h found in
    let (key', q', st', fs') = apply_fill_frame clock f o o' e in
    let acc' : IsAccounted o' = rw e at (apply_fill-IsAccounted clock f o acc) in
    save-IsConsistent clock o' row repo (repo.fills ++ f ∷ []) h (ground arith) acc' st'
      (ground arith)
      (ground (arith, fills_of-snoc o'.order_id repo.fills f, eq_iff f.order_id o'.order_id))
      (λ j other. ground (arith, fills_of-snoc j repo.fills f))

-- Filling an order keeps the tables consistent, whether the route replies or raises, if the fill
-- table holds no fill of the trade.
pub fill_order-IsConsistent :
    (clock : ℕ) (k : String) (req : FillRequest) (repo : Repository)
    → IsConsistent repo
    → has_trade req.trade_id repo.fills ≡ false
    → IsConsistent (left (fill_order clock k req repo))
unfolding fill_order save save_fill
fill_order-IsConsistent clock k req repo h new_trade =
    route-raise_if (λ r. IsConsistent (left r)) repo (λ s. h) (ill_formed_fill req) 422 _
      λ formed.
        route-or_status (λ r. IsConsistent (left r)) repo (λ s. h) (find_by_id k repo) 404 _
          λ o found.
            route-raise_if (λ r. IsConsistent (left r)) repo (λ s. h) (is_complete o) 400 _
              λ live.
                route-raise_if (λ r. IsConsistent (left r)) repo (λ s. h)
                  (ltb_ℤ (remaining_quantity o) req.quantity) 422 _
                  λ fits.
                    route-attempt (λ r. IsConsistent (left r)) repo (λ s. h)
                      (apply_fill clock (fill_of clock k req) o) _
                      λ o' e.
                        rw new_trade (
                          filled-IsConsistent clock k (fill_of clock k req) repo h o o' refl found
                            e)

created_frame :
    (clock : ℕ) (new_id symbol : String) (req : CreateRequest) (side : OrderSide)
    (order_type : OrderType) (tif : TimeInForce) (o : Order)
    → pos 0 ≤ℤ req.quantity
    → accept clock (some clock) (new_order clock new_id symbol req side order_type tif) ≡ done o
    → (o.order_id ≡ new_id) × (o.status ≢ pending) × (o.fills ≡ []) × IsAccounted o
unfolding accept new_order
created_frame clock new_id symbol req side order_type tif o p e = ground arith

formed_quantity : (req : CreateRequest) → ill_formed req ≡ false → pos 0 ≤ℤ req.quantity
formed_quantity req h = ground arith

-- Creating an order under a new identifier keeps the tables consistent.
pub create_order-IsConsistent :
    (clock : ℕ) (upper : String → String) (new_id : String) (req : CreateRequest)
    (repo : Repository)
    → IsConsistent repo
    → lookup new_id repo.orders ≡ none
    → IsConsistent (left (create_order clock upper new_id req repo))
unfolding create_order
create_order-IsConsistent clock upper new_id req repo h fresh =
    route-raise_if (λ r. IsConsistent (left r)) repo (λ s. h) (ill_formed req) 422 _
      λ formed.
        route-or_status (λ r. IsConsistent (left r)) repo (λ s. h) (parse_side req.side) 422 _
          λ side e1.
            route-or_status (λ r. IsConsistent (left r)) repo (λ s. h) (parse_type req.order_type)
              422 _
              λ order_type e2.
                route-or_status (λ r. IsConsistent (left r)) repo (λ s. h)
                  (parse_tif req.time_in_force) 422 _
                  λ tif e3.
                    route-free (λ r. IsConsistent (left r)) repo (λ s. h)
                      (find_by_client_order_id req.client_order_id repo) _
                      λ free.
                        route-check_request (λ r. IsConsistent (left r)) repo (λ s. h) req
                          order_type tif _
                          λ checked.
                            route-attempt (λ r. IsConsistent (left r)) repo (λ s. h)
                              (accept clock (some clock)
                                (new_order clock new_id (upper req.symbol) req side order_type tif))
                              _
                              λ o e.
                                let (key, st, fs, acc) =
                                  created_frame clock new_id (upper req.symbol) req side order_type
                                    tif o (formed_quantity req formed) e in
                                save_new-IsConsistent clock o repo h (rw key fresh) acc st fs
