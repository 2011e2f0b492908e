-- ===== src/Oms/History.antt =====
-- Any sequence of calls of the routes in backend/oms/src/aqros_oms/api/routes/orders.py, as steps
-- from one repository to the next.
use aqros.Shared.{ℕ, String, ◌≡◌, false, none}
use aqros.Shared.Dict.{lookup}
use aqros.Oms.Requests.{CreateRequest, FillRequest}
use aqros.Oms.Repository.{Repository, has_trade}
use aqros.Oms.Service.{create_order, cancel_order, fill_order, reject_order}
use aqros.Oms.Rules.{left}
use aqros.Oms.Consistency.{
  IsConsistent, create_order-IsConsistent, cancel_order-IsConsistent, fill_order-IsConsistent,
  reject_order_fails,
}

-- One call of a route. A new order has an identifier that no stored order has, and a fill the
-- identifier of a trade that no stored fill has.
pub data Step (repo : Repository) : Repository → Type 0 where
  create :
      (clock : ℕ) (upper : String → String) (new_id : String) (req : CreateRequest)
      → lookup new_id repo.orders ≡ none
      → Step repo (left (create_order clock upper new_id req repo))
  cancel_ : (clock : ℕ) (k : String) → Step repo (left (cancel_order clock k repo))
  fill :
      (clock : ℕ) (k : String) (req : FillRequest)
      → has_trade req.trade_id repo.fills ≡ false
      → Step repo (left (fill_order clock k req repo))
  reject_ :
      (clock : ℕ) (k reason message : String)
      → Step repo (left (reject_order clock k reason message repo))

pub data Reach (start : Repository) : Repository → Type 0 where
  here : Reach start start
  next : {repo repo' : Repository} → Reach start repo → Step repo repo' → Reach start repo'

Step-IsConsistent :
    {repo repo' : Repository} → Step repo repo' → IsConsistent repo → IsConsistent repo'
Step-IsConsistent {repo} (create clock upper new_id req fresh) h =
    create_order-IsConsistent clock upper new_id req repo h fresh
Step-IsConsistent {repo} (cancel_ clock k) h = cancel_order-IsConsistent clock k repo h
Step-IsConsistent {repo} (fill clock k req new_trade) h =
    fill_order-IsConsistent clock k req repo h new_trade
Step-IsConsistent {repo} (reject_ clock k reason message) h =
    rw (reject_order_fails clock k reason message repo h).1 h

-- If the order and fill tables are consistent, they stay so over any sequence of calls of the four
-- routes that change orders, whether they reply or raise, if each new order gets an identifier
-- that no stored order has, and each fill names a trade that no stored fill has: every row stands under its own key, is past the pending status, and
-- its totals are the sums over its fills, and every fill belongs to a stored order.
pub Reach-IsConsistent :
    {start repo : Repository} → IsConsistent start → Reach start repo → IsConsistent repo
Reach-IsConsistent h here = h
Reach-IsConsistent h (next r s) = Step-IsConsistent s (Reach-IsConsistent h r)
