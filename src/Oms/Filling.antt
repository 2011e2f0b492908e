-- ===== src/Oms/Filling.antt =====
-- What `apply_fill` of backend/oms/src/aqros_oms/domain/models.py does on each of its branches.
use aqros.Shared.{ℕ, ◌≡◌, ◌⊎◌, inl, inr, true, false, some, [], ◌∷◌, ◌++◌, arith, not, ◌&&◌}
use aqros.Shared.Int.{ℤ, ◌+ℤ◌, ◌≤ℤ◌, leb_ℤ}
use aqros.Shared.Action.{done, raised, after, is_done}
use aqros.Oms.Order.{Fill, Order, pending, filled, partially_filled}
use aqros.Oms.Methods.{cannot_transition, working, immediate, is_complete, apply_fill, book_fill}

module _ (clock : ℕ) (f : Fill) (o : Order) where
  abbrev new_filled : ℤ
  new_filled = o.filled_quantity +ℤ f.quantity

  -- A fill succeeds exactly when the order is open or partially filled, the fill fits into what
  -- remains, and it does not fill an IOC or FOK order in whole.
  pub is_done-apply_fill : is_done (apply_fill clock f o) ≡ (
      working o.status
      && leb_ℤ new_filled o.quantity
      && not (leb_ℤ o.quantity new_filled && immediate o.time_in_force))
  unfolding apply_fill
  is_done-apply_fill = ground arith

  -- A fill that succeeds is booked, and the order is then filled exactly when nothing remains, and
  -- partially filled otherwise.
  pub apply_fill-done :
      {o' : Order}
      → apply_fill clock f o ≡ done o'
      → (o'.fills ≡ o.fills ++ f ∷ [])
        × (o'.filled_quantity ≡ new_filled)
        × (((o'.status ≡ filled) × (o.quantity ≤ℤ new_filled))
            ⊎ ((o'.status ≡ partially_filled) × ¬ (o.quantity ≤ℤ new_filled)))
  unfolding apply_fill
  apply_fill-done h = ground arith

  -- A fill of a complete order and a fill that is too large are refused, and the order is as it was.
  pub apply_fill_refused :
      (is_complete o ≡ true) ⊎ ¬ (new_filled ≤ℤ o.quantity)
      → (is_done (apply_fill clock f o) ≡ false) × (after (apply_fill clock f o) ≡ o)
  unfolding apply_fill
  apply_fill_refused (inl h) = ground arith
  apply_fill_refused (inr h) = ground arith

  -- A fill that fits into an order that is still pending raises, but only after it was booked.
  pub apply_fill_pending :
      o.status ≡ pending
      → new_filled ≤ℤ o.quantity
      → (is_done (apply_fill clock f o) ≡ false) × (after (apply_fill clock f o) ≡ book_fill f o)
  unfolding apply_fill
  apply_fill_pending p h = ground arith

  -- A fill that completes an open IOC or FOK order always raises, although the order is then marked
  -- as filled and the fill is booked.
  pub apply_fill-immediate :
      working o.status ≡ true
      → immediate o.time_in_force ≡ true
      → new_filled ≡ o.quantity
      → apply_fill clock f o
        ≡ raised
            (cannot_transition filled filled)
            (record (book_fill f o) { status = filled; updated_at = some clock })
  unfolding apply_fill
  apply_fill-immediate w i e = ground arith
