-- ===== src/Backtest/Profit.antt =====
-- What a fill does to the value and the profit of an account (`apply_fill` and `apply_fill_to_cash` in
-- backend/backtesting-engine/src/aqros_backtesting_engine/domain/portfolio.py).
use aqros.Shared.{
  ◌*◌, ◌≡◌, ◌∙◌, sym, ap, refl, true, false, ◌||◌, Bool-cases, Option, inl, inr, if◌then◌else◌,
  arith,
}
use aqros.Shared.Int.{
  min_ℤ, magnitude, ℤ, pos, negsuc, pos_part, neg_part, ◌+ℤ◌, ◌-ℤ◌, ◌*ℤ◌, ltb_ℤ, eqb_ℤ, int_laws,
  eq_of_parts, +ℤ_parts, -ℤ_parts, *ℤ_parts,
}
use aqros.Backtest.Reconciliation.{fill_position-quantity}
use aqros.Backtest.Models.{OrderSide, buy, sell, Fill, Position, CashLedger}
use aqros.Backtest.Accounts.{
  same_sign, signed, or_flat, realized_delta, fill_position, apply_fill, balance_after,
  apply_fill_to_cash, unrealized_pnl,
}

add_mul : (a b c : ℤ) → (a +ℤ b) *ℤ c ≡ a *ℤ c +ℤ b *ℤ c
add_mul a b c =
    let x = a +ℤ b in
    let e = +ℤ_parts a b in
    eq_of_parts (x *ℤ c) (a *ℤ c +ℤ b *ℤ c) (
      omega (
        arith,
        +ℤ_parts (a *ℤ c) (b *ℤ c),
        *ℤ_parts x c,
        *ℤ_parts a c,
        *ℤ_parts b c,
        ap (λ t. t * pos_part c) e,
        ap (λ t. t * neg_part c) e,
      ))

neg_mul : (a c : ℤ) → (pos 0 -ℤ a) *ℤ c ≡ pos 0 -ℤ a *ℤ c
neg_mul a c =
    let x = pos 0 -ℤ a in
    let e = -ℤ_parts (pos 0) a in
    eq_of_parts (x *ℤ c) (pos 0 -ℤ a *ℤ c) (
      omega (
        arith,
        -ℤ_parts (pos 0) (a *ℤ c),
        *ℤ_parts x c,
        *ℤ_parts a c,
        ap (λ t. t * pos_part c) e,
        ap (λ t. t * neg_part c) e,
      ))

zero_mul : (a : ℤ) → pos 0 *ℤ a ≡ pos 0
zero_mul a = omega (int_laws, *ℤ_parts (pos 0) a)

mul_zero : (a : ℤ) → a *ℤ pos 0 ≡ pos 0
mul_zero a = omega (int_laws, *ℤ_parts a (pos 0))

sub_self : (b : ℤ) → b -ℤ b ≡ pos 0
sub_self b = omega int_laws

mul_self : (a b : ℤ) → a *ℤ (b -ℤ b) ≡ pos 0
mul_self a b = ap (λ t. a *ℤ t) (sub_self b) ∙ mul_zero a

one_mul : (a : ℤ) → a *ℤ pos 1 ≡ a
one_mul a = omega (int_laws, *ℤ_parts a (pos 1))

minus_one_mul : (a : ℤ) → a *ℤ negsuc 0 ≡ pos 0 -ℤ a
minus_one_mul a = omega (int_laws, *ℤ_parts a (negsuc 0))

-- What is closed, with its sign: the whole position, or what the fill takes of it.
closed_quantity : ℤ → ℤ → ℤ
closed_quantity q d =
    min_ℤ (magnitude q) (magnitude d) *ℤ (if ltb_ℤ (pos 0) q then pos 1 else negsuc 0)

is_zero : (q : ℤ) → eqb_ℤ q (pos 0) ≡ true → q ≡ pos 0
is_zero q h = ground arith

-- A fill that leaves nothing, or something on its own side, closes the whole position.
closed_whole :
    (q d : ℤ)
    → same_sign q d ≡ false
    → (eqb_ℤ (q +ℤ d) (pos 0) || same_sign (q +ℤ d) d) ≡ true
    → closed_quantity q d ≡ q
unfolding closed_quantity ◌+ℤ◌ ◌*ℤ◌
closed_whole (pos n) (pos m) h c = ground arith
closed_whole (pos n) (negsuc m) h c = ground arith
closed_whole (negsuc n) (pos m) h c = ground arith
closed_whole (negsuc n) (negsuc m) h c = ground arith

-- Any other fill closes what it takes of the position.
closed_part :
    (q d : ℤ)
    → same_sign q d ≡ false
    → eqb_ℤ q (pos 0) ≡ false
    → (eqb_ℤ (q +ℤ d) (pos 0) || same_sign (q +ℤ d) d) ≡ false
    → closed_quantity q d ≡ pos 0 -ℤ d
unfolding closed_quantity ◌+ℤ◌ ◌*ℤ◌ ◌-ℤ◌
closed_part (pos n) (pos m) h z c = ground arith
closed_part (pos n) (negsuc m) h z c = ground arith
closed_part (negsuc n) (pos m) h z c = ground arith
closed_part (negsuc n) (negsuc m) h z c = ground arith

-- The profit that is realized and the profit that is open at a price.
abbrev pub total_at : ℤ → Position → ℤ
total_at price p = p.realized_pnl +ℤ unrealized_pnl p price

last_zero : (a : ℤ) → a +ℤ pos 0 ≡ a
last_zero a = omega int_laws

module _ (delta : ℤ) (f : Fill) (p : Position) (opposed : same_sign p.quantity delta ≡ false) where
  left : ℤ
  left = p.quantity +ℤ delta

  gain : ℤ
  gain = f.price -ℤ p.average_cost

  regroup_left : (r x y : ℤ) → (r +ℤ (pos 0 -ℤ x)) +ℤ (y +ℤ x) ≡ r +ℤ y
  regroup_left r x y = omega int_laws

  -- The whole position is closed.
  whole :
      (cost : ℤ)
      → (eqb_ℤ left (pos 0) || same_sign left delta) ≡ true
      → left *ℤ (f.price -ℤ cost) ≡ pos 0
      → (p.realized_pnl +ℤ realized_delta p f delta) +ℤ left *ℤ (f.price -ℤ cost)
        ≡ p.realized_pnl +ℤ p.quantity *ℤ gain
  unfolding left gain closed_quantity
  whole cost c z =
      ap (λ t. (p.realized_pnl +ℤ t *ℤ gain) +ℤ left *ℤ (f.price -ℤ cost))
        (closed_whole p.quantity delta opposed c)
      ∙ ap (λ t. (p.realized_pnl +ℤ p.quantity *ℤ gain) +ℤ t) z
      ∙ last_zero (p.realized_pnl +ℤ p.quantity *ℤ gain)

  part :
      eqb_ℤ p.quantity (pos 0) ≡ false
      → (eqb_ℤ left (pos 0) || same_sign left delta) ≡ false
      → (p.realized_pnl +ℤ realized_delta p f delta) +ℤ left *ℤ gain
        ≡ p.realized_pnl +ℤ p.quantity *ℤ gain
  unfolding left gain closed_quantity
  part nz c =
      ap (λ t. (p.realized_pnl +ℤ t *ℤ gain) +ℤ left *ℤ gain)
        (closed_part p.quantity delta opposed nz c)
      ∙ ap (λ t. (p.realized_pnl +ℤ t) +ℤ left *ℤ gain) (neg_mul delta gain)
      ∙ ap (λ t. (p.realized_pnl +ℤ (pos 0 -ℤ delta *ℤ gain)) +ℤ t) (add_mul p.quantity delta gain)
      ∙ regroup_left p.realized_pnl (delta *ℤ gain) (p.quantity *ℤ gain)

  valued : ℤ → ℤ
  valued cost = (p.realized_pnl +ℤ realized_delta p f delta) +ℤ left *ℤ (f.price -ℤ cost)

  fill_position-total : total_at f.price (fill_position delta f p) ≡ total_at f.price p
  unfolding fill_position unrealized_pnl left gain valued
  fill_position-total = elim (Bool-cases (eqb_ℤ p.quantity (pos 0))) [
    | inl z ↦ rw z (
        ap (λ t. p.realized_pnl +ℤ t)
          (mul_self left f.price
            ∙ sym (ap (λ t. t *ℤ gain) (is_zero p.quantity z) ∙ zero_mul gain)))
    | inr nz ↦
        rw (nz, opposed)
          (elim (Bool-cases (eqb_ℤ left (pos 0))) [
            | inl z ↦
                ap valued (rw z refl)
                ∙ whole (pos 0) (rw z refl) (
                    ap (λ t. t *ℤ (f.price -ℤ pos 0)) (is_zero left z)
                    ∙ zero_mul (f.price -ℤ pos 0))
            | inr n ↦ elim (Bool-cases (same_sign left delta)) [
              | inl same ↦
                  ap valued (rw (n, same) refl)
                  ∙ whole f.price (rw (n, same) refl) (mul_self left f.price)
              | inr other ↦ ap valued (rw (n, other) refl) ∙ part nz (rw (n, other) refl)
            ]
          ])
  ]

signed_mul :
    (side : OrderSide) (b q n p c : ℤ)
    → (balance_after side b (n *ℤ p) c +ℤ (q +ℤ signed side n) *ℤ p) +ℤ c ≡ b +ℤ q *ℤ p
unfolding balance_after
signed_mul buy b q n p c = rw (add_mul q n p) (omega int_laws)
signed_mul sell b q n p c = rw (add_mul q (pos 0 -ℤ n) p) (rw (neg_mul n p) (omega int_laws))

-- A fill that does not add to a position, at whatever price, long or short, leaves the profit of the
-- position as it is, realized and open together, when the open part is valued at the price of the
-- fill: it reduces, closes or turns the position, or opens one.
pub apply_fill-total_at :
    (position : Option Position) (f : Fill)
    → same_sign (or_flat f.symbol position).quantity (signed f.side f.quantity) ≡ false
    → total_at f.price (apply_fill position f) ≡ total_at f.price (or_flat f.symbol position)
unfolding apply_fill
apply_fill-total_at position f opposed =
    fill_position-total (signed f.side f.quantity) f (or_flat f.symbol position) opposed

-- Cash and holding together, valued at the price of a fill, lose the commission by it and nothing
-- else, for a buy and for a sell, whatever was held before.
pub apply_fill-equity :
    (position : Option Position) (f : Fill) (cash : CashLedger)
    → ((apply_fill_to_cash cash f).balance +ℤ (apply_fill position f).quantity *ℤ f.price)
        +ℤ f.commission
      ≡ cash.balance +ℤ (or_flat f.symbol position).quantity *ℤ f.price
unfolding apply_fill apply_fill_to_cash
apply_fill-equity position f cash =
    rw (fill_position-quantity (signed f.side f.quantity) f (or_flat f.symbol position)) (
      signed_mul f.side cash.balance (or_flat f.symbol position).quantity f.quantity f.price
        f.commission)
