-- ===== src/Portfolio/Closing.antt =====
-- What closing a position does to the accounts of a portfolio (`close_position` of
-- backend/portfolio/src/aqros_portfolio/domain/models.py).
use aqros.Shared.{
  ℕ, ◌+◌, ◌≡◌, refl, String, true, false, Option, some, [], ◌∷◌, inl, inr, arith, if◌then◌else◌,
  Bool-cases,
}
use aqros.Shared.Int.{ℤ, pos, pos_part, neg_part, ◌+ℤ◌, ◌-ℤ◌, ◌*ℤ◌, int_laws}
use aqros.Shared.Dict.{Dict, lookup, insert}
use aqros.Shared.Text.{str_eq}
use aqros.Portfolio.Cash.{available, deposit}
use aqros.Portfolio.Position.{Position, market_value, unrealized_pnl, realized_at, is_open, close}
use aqros.Portfolio.Account.{
  Portfolio, sum_open, total_equity, unrealized_pnl_of, total_pnl_of, close_position,
}

module _ (x y m s s' v : ℤ) (e : s +ℤ m ≡ s') where
  parts : pos_part s + pos_part m + neg_part s' ≡ neg_part s + neg_part m + pos_part s'
  parts = rw (← e) (omega int_laws)

  move_last : (x +ℤ s) +ℤ m ≡ x +ℤ s'
  move_last = omega (int_laws, parts)

  move_value : (((x +ℤ v) -ℤ y) +ℤ s) +ℤ m ≡ ((x -ℤ y) +ℤ s') +ℤ v
  move_value = omega (int_laws, parts)

  move_profit : ((x +ℤ v) +ℤ s) +ℤ m ≡ (x +ℤ s') +ℤ v
  move_profit = omega (int_laws, parts)

zero_first : (m s : ℤ) → (pos 0 +ℤ s) +ℤ m ≡ m +ℤ s
zero_first m s = omega int_laws

module _ (Float : Type 0) where
  found_is_first :
      (j k : String) (q p : Position Float) (d : Dict (Position Float))
      → str_eq j k ≡ true
      → lookup k ((j, q) ∷ d) ≡ some p
      → q ≡ p
  unfolding lookup
  found_is_first j k q p d same h = ground arith

  skip_other :
      (j k : String) (q p : Position Float) (d : Dict (Position Float))
      → str_eq j k ≡ false
      → lookup k ((j, q) ∷ d) ≡ some p
      → lookup k d ≡ some p
  unfolding lookup
  skip_other j k q p d other h = ground arith

  -- A sum over the open positions loses the measure of a position that is replaced by one that is
  -- not open.
  sum_open-insert :
      (measure : Position Float → ℤ) (k : String) (p p' : Position Float)
      (d : Dict (Position Float))
      → lookup k d ≡ some p
      → is_open Float p ≡ true
      → is_open Float p' ≡ false
      → sum_open Float measure (insert k p' d) +ℤ measure p ≡ sum_open Float measure d
  unfolding sum_open lookup insert
  sum_open-insert measure k p p' [] h o c = ground arith
  sum_open-insert measure k p p' ((j, q) ∷ d) h o c = elim (Bool-cases (str_eq j k)) [
    | inl same ↦
        let e : q ≡ p = found_is_first j k q p d same h in
        rw same (rw e (rw c (rw o (zero_first (measure p) (sum_open Float measure d)))))
    | inr other ↦
        let ih = sum_open-insert measure k p p' d (skip_other j k q p d other h) o c in
        rw other (
          move_last (if is_open Float q then measure q else pos 0) (pos 0) (measure p) _ _ (pos 0)
            ih)
  ]

module _ (Float : Type 0) (symbol : String) (price : ℤ) (now : Option ℕ) (p : Position Float)
    (a : Portfolio Float) (held : lookup symbol a.positions ≡ some p)
    (open_now : is_open Float p ≡ true) where
  closed_now : is_open Float (close Float price now p) ≡ false
  unfolding close is_open
  closed_now = refl

  sums_lose :
      (measure : Position Float → ℤ)
      → sum_open Float measure (insert symbol (close Float price now p) a.positions) +ℤ measure p
        ≡ sum_open Float measure a.positions
  sums_lose measure =
      sum_open-insert Float measure symbol p (close Float price now p) a.positions held open_now
        closed_now

  -- Closing the open position of a symbol at a price changes the total equity by the position's
  -- quantity times that price, less its market value before: to close at the current price changes
  -- nothing. The direction of the position makes no difference.
  pub close_position-total_equity :
      total_equity Float (close_position Float symbol price now a).1 +ℤ market_value Float p
      ≡ total_equity Float a +ℤ p.quantity *ℤ price
  unfolding close_position total_equity available deposit market_value close
  close_position-total_equity = rw held (
      rw open_now (
        move_value a.cash.total a.cash.reserved _ _ _ (p.quantity *ℤ price)
          (sums_lose (λ x. market_value Float x))))

  -- Closing the open position of a symbol changes the total profit of the portfolio by what the
  -- position had realized before and by its profit at the closing price, less its profit at the
  -- current price.
  pub close_position-total_pnl :
      total_pnl_of Float (close_position Float symbol price now a).1 +ℤ unrealized_pnl Float p
      ≡ total_pnl_of Float a +ℤ (p.realized_pnl +ℤ realized_at Float price p.quantity p)
  unfolding close_position total_pnl_of unrealized_pnl_of close
  close_position-total_pnl = rw held (
      rw open_now (
        move_profit a.total_pnl_realized (pos 0) _ _ _
          (p.realized_pnl +ℤ realized_at Float price p.quantity p)
          (sums_lose (λ x. unrealized_pnl Float x))))
