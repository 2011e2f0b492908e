-- ===== src/Oms/Consistency/Tables.antt =====
-- The order and fill tables: what makes them consistent, and that a save keeps them so.
use aqros.Shared.{
  ℕ, String, ◌≡◌, ◌≢◌, inl, inr, false, none, some, List, [], ◌∷◌, ◌++◌, arith, if◌then◌else◌,
  Bool-cases,
}
use aqros.Shared.Text.{str_eq, eq_iff}
use aqros.Shared.Dict.{lookup, lookup-insert}
use aqros.Oms.Order.{Fill, Order, pending}
use aqros.Oms.Accounting.{IsAccounted}
use aqros.Oms.Repository.{Repository, save, update_row, to_row, fills_of}

-- A row stands under its own key, is past the pending status, and its totals are the sums over the
-- fills in the fill table.
pub record RowFits (fs : List Fill) (k : String) (row : Order) : Type 0 where
  pub own_key : row.order_id ≡ k
  pub accepted : row.status ≢ pending
  pub accounted : IsAccounted (record row { fills = fills_of k fs })

pub record IsConsistent (repo : Repository) : Type 0 where
  pub rows : (k : String) (row : Order) → lookup k repo.orders ≡ some row → RowFits repo.fills k row
  pub no_orphans : (k : String) → lookup k repo.orders ≡ none → fills_of k repo.fills ≡ []

pub fills_of-snoc :
    (j : String) (fs : List Fill) (f : Fill)
    → fills_of j (fs ++ f ∷ [])
      ≡ (if str_eq f.order_id j then fills_of j fs ++ f ∷ [] else fills_of j fs)
fills_of-snoc j [] f = ground arith
fills_of-snoc j (g ∷ fs) f = ground (arith, fills_of-snoc j fs f)

module _ (clock : ℕ) (o row : Order) (repo : Repository) (fs : List Fill) (h : IsConsistent repo)
    (found : lookup o.order_id repo.orders ≡ some row) (acc : IsAccounted o)
    (accepted : o.status ≢ pending) (same_quantity : o.quantity ≡ row.quantity)
    (own_fills : o.fills ≡ fills_of o.order_id fs)
    (other_fills : (j : String)
      → str_eq o.order_id j ≡ false
      → fills_of j fs ≡ fills_of j repo.fills) where
  lookup-save :
      (j : String)
      → lookup j (save clock o repo).orders
        ≡ (if str_eq o.order_id j then some (update_row clock row o) else lookup j repo.orders)
  unfolding save
  lookup-save j = rw (found, lookup-insert {V = Order})

  update_row-RowFits : RowFits fs o.order_id (update_row clock row o)
  update_row-RowFits = ground (arith, h.rows o.order_id row found)

  saved-RowFits :
      (j : String) (r : Order) → lookup j (save clock o repo).orders ≡ some r → RowFits fs j r
  saved-RowFits j r e = elim (Bool-cases (str_eq o.order_id j)) [
    | inl same ↦ ground (arith, lookup-save j, eq_iff o.order_id j, update_row-RowFits)
    | inr other ↦ ground (arith, lookup-save j, h.rows j r, other_fills j other)
  ]

  saved_no_orphans : (j : String) → lookup j (save clock o repo).orders ≡ none → fills_of j fs ≡ []
  saved_no_orphans j e = elim (Bool-cases (str_eq o.order_id j)) [
    | inl same ↦ ground (arith, lookup-save j)
    | inr other ↦ ground (arith, lookup-save j, other_fills j other, h.no_orphans j)
  ]

  -- To save the changed order of a known row keeps the tables consistent, if its fills are those
  -- that the fill table then holds, and the table holds the same fills of every other order.
  pub save-IsConsistent : IsConsistent (record (save clock o repo) { fills = fs })
  save-IsConsistent = record { rows = saved-RowFits; no_orphans = saved_no_orphans }

module _ (clock : ℕ) (o : Order) (repo : Repository) (h : IsConsistent repo)
    (fresh : lookup o.order_id repo.orders ≡ none) (acc : IsAccounted o)
    (accepted : o.status ≢ pending) (no_fills : o.fills ≡ []) where
  lookup-save_new :
      (j : String)
      → lookup j (save clock o repo).orders
        ≡ (if str_eq o.order_id j then some (to_row clock o) else lookup j repo.orders)
  unfolding save
  lookup-save_new j = rw (fresh, lookup-insert {V = Order})

  to_row-RowFits : RowFits repo.fills o.order_id (to_row clock o)
  to_row-RowFits = ground (arith, h.no_orphans o.order_id fresh)

  new-RowFits :
      (j : String) (r : Order)
      → lookup j (save clock o repo).orders ≡ some r
      → RowFits repo.fills j r
  new-RowFits j r e = elim (Bool-cases (str_eq o.order_id j)) [
    | inl same ↦ ground (arith, lookup-save_new j, eq_iff o.order_id j, to_row-RowFits)
    | inr other ↦ ground (arith, lookup-save_new j, h.rows j r)
  ]

  new_no_orphans :
      (j : String) → lookup j (save clock o repo).orders ≡ none → fills_of j repo.fills ≡ []
  new_no_orphans j e = ground (arith, lookup-save_new j, h.no_orphans j)

  -- To save an accepted order under a new key keeps the tables consistent.
  pub save_new-IsConsistent : IsConsistent (save clock o repo)
  unfolding save
  save_new-IsConsistent = record { rows = new-RowFits; no_orphans = new_no_orphans }
