-- ===== src/Oms/Repository.antt =====
-- The order table and the fill table behind backend/oms/src/aqros_oms/adapters/repository.py. A row
-- of the order table is an `Order` whose list of fills is empty; `find_by_id` puts the fills of the
-- fill table back in the order in which they were saved, which is the order of `created_at` that the
-- query asks for as long as the clock does not go back. `save` leaves the columns that `_update_orm`
-- does not write. Two fills of one `trade_id` break the unique constraint of the fill table.
use aqros.Shared.{
  ℕ, String, ◌≡◌, Bool, false, ◌||◌, Option, none, some, List, [], ◌∷◌, ◌++◌, if◌then◌else◌,
}
use aqros.Shared.Int.{ℤ, pos, eqb_ℤ}
use aqros.Shared.Text.{str_eq}
use aqros.Shared.Dict.{Dict, lookup, insert, lookup-insert}
use aqros.Shared.Action.{Outcome, done, raised}
use aqros.Oms.Order.{Fill, Order}

pub record Repository : Type 0 where
  pub orders : Dict Order
  pub fills : List Fill

-- `str(value) if value else None`, read back: a zero price comes back as none.
abbrev pub stored_price : Option ℤ → Option ℤ
stored_price none = none
stored_price (some p) = if eqb_ℤ p (pos 0) then none else some p

-- `time or datetime.now()`
abbrev pub or_clock : Option ℕ → ℕ → ℕ
or_clock none clock = clock
or_clock (some time) clock = time

-- `_to_orm`
abbrev pub to_row : ℕ → Order → Order
to_row clock o = record o {
  fills = [];
  price = stored_price o.price;
  stop_price = stored_price o.stop_price;
  avg_fill_price = stored_price o.avg_fill_price;
  last_fill_price = stored_price o.last_fill_price;
  created_at = some (or_clock o.created_at clock);
  updated_at = some (or_clock o.updated_at clock);
}

-- `_update_orm`
abbrev pub update_row : ℕ → Order → Order → Order
update_row clock row o = record row {
  status = o.status;
  filled_quantity = o.filled_quantity;
  filled_value = o.filled_value;
  total_commission = o.total_commission;
  avg_fill_price = stored_price o.avg_fill_price;
  last_fill_price = stored_price o.last_fill_price;
  reject_reason = o.reject_reason;
  reject_message = o.reject_message;
  expires_at = o.expires_at;
  updated_at = some clock;
}

abbrev row_for : ℕ → Option Order → Order → Order
row_for clock none o = to_row clock o
row_for clock (some row) o = update_row clock row o

unfoldable pub save : ℕ → Order → Repository → Repository
save clock o repo = record repo {
  orders = insert o.order_id (row_for clock (lookup o.order_id repo.orders) o) repo.orders;
}

-- The `IntegrityError` of a unique constraint; the transaction of the call is rolled back.
pub data StoreError : Type 0 where
  integrity_error : StoreError

abbrev pub has_trade : String → List Fill → Bool
has_trade trade_id [] = false
has_trade trade_id (f ∷ fs) = str_eq f.trade_id trade_id || has_trade trade_id fs

unfoldable pub save_fill : ℕ → Fill → Repository → Outcome StoreError Repository Repository
save_fill clock fill repo =
    if has_trade fill.trade_id repo.fills
    then raised integrity_error repo
    else done (record repo {
      fills = repo.fills ++ record fill { created_at = some (or_clock fill.created_at clock) } ∷ [];
    })

-- `find_fills_by_order`
abbrev pub fills_of : String → List Fill → List Fill
fills_of k [] = []
fills_of k (f ∷ fs) = if str_eq f.order_id k then f ∷ fills_of k fs else fills_of k fs

-- `_to_domain`
abbrev pub with_fills : List Fill → Option Order → Option Order
with_fills fs none = none
with_fills fs (some row) = some (record row { fills = fills_of row.order_id fs })

unfoldable pub find_by_id : String → Repository → Option Order
find_by_id k repo = with_fills repo.fills (lookup k repo.orders)

-- The orders with a client's identifier: none, one, or more, for which the query raises.
pub data Found : Type 0 where
  absent : Found
  one : Order → Found
  several : Found

abbrev another : Order → Found → Found
another o absent = one o
another o _ = several

abbrev matches : String → Dict Order → Found
matches c [] = absent
matches c ((k, o) ∷ d) = if str_eq o.client_order_id c then another o (matches c d) else matches c d

unfoldable pub find_by_client_order_id : String → Repository → Found
find_by_client_order_id c repo = matches c repo.orders

-- After a save the other orders are found as before.
pub find_by_id-save_ne :
    (clock : ℕ) (o : Order) (j : String) (repo : Repository)
    → str_eq o.order_id j ≡ false
    → find_by_id j (save clock o repo) ≡ find_by_id j repo
unfolding find_by_id save
find_by_id-save_ne clock o j repo h = rw (lookup-insert, h)

-- Zero prices do not survive the tables.
abbrev pub PricesSurvive : Order → Type 0
PricesSurvive o =
    (stored_price o.price ≡ o.price)
    × (stored_price o.stop_price ≡ o.stop_price)
    × (stored_price o.avg_fill_price ≡ o.avg_fill_price)
    × (stored_price o.last_fill_price ≡ o.last_fill_price)
