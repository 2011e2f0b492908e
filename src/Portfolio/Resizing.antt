-- ===== src/Portfolio/Resizing.antt =====
-- What selling a part of a position does (`modify_quantity` of
-- backend/portfolio/src/aqros_portfolio/domain/models.py).
use aqros.Shared.{◌*◌, ◌≡◌, refl, ap, ◌∙◌, true, arith}
use aqros.Shared.Int.{
  ℤ, ◌+ℤ◌, ◌-ℤ◌, ◌*ℤ◌, ltb_ℤ, pos_part, neg_part, int_laws, eq_of_parts, -ℤ_parts, +ℤ_parts,
  *ℤ_parts,
}
use aqros.Shared.Action.{done}
use aqros.Portfolio.Position.{
  Position, gain, total_pnl, unrealized_pnl, realized_at, update_price, modify_quantity,
}

mul_split : (g a b : ℤ) → g *ℤ (a -ℤ b) +ℤ g *ℤ b ≡ g *ℤ a
mul_split g a b =
    let x = a -ℤ b in
    let e = -ℤ_parts a b in
    eq_of_parts (g *ℤ x +ℤ g *ℤ b) (g *ℤ a) (
      omega (
        arith,
        +ℤ_parts (g *ℤ x) (g *ℤ b),
        *ℤ_parts g x,
        *ℤ_parts g b,
        *ℤ_parts g a,
        ap (λ t. pos_part g * t) e,
        ap (λ t. neg_part g * t) e,
      ))

add_assoc : (a b c : ℤ) → (a +ℤ b) +ℤ c ≡ a +ℤ (b +ℤ c)
add_assoc a b c = omega int_laws

-- Selling a part of a position, at any price, succeeds; the position then has the new quantity, and
-- its total profit is what the whole position would have had at that price.
pub modify_quantity-total_pnl :
    (Float : Type 0) (new_quantity price : ℤ) (p : Position Float)
    → ltb_ℤ new_quantity p.quantity ≡ true
    → (p' : Position Float) × (modify_quantity Float new_quantity price p ≡ done p')
      × (p'.quantity ≡ new_quantity)
      × (total_pnl Float p' ≡ total_pnl Float (update_price Float price p))
unfolding modify_quantity total_pnl unrealized_pnl realized_at update_price
modify_quantity-total_pnl Float n price p less =
    let g = gain Float p.direction p.avg_entry_price price in
    (
      record p {
        realized_pnl = p.realized_pnl +ℤ g *ℤ (p.quantity -ℤ n);
        quantity = n;
        current_price = price;
      },
      ground arith,
      refl,
      add_assoc p.realized_pnl (g *ℤ (p.quantity -ℤ n)) (g *ℤ n)
          ∙ ap (λ t. p.realized_pnl +ℤ t) (mul_split g p.quantity n),
    )
