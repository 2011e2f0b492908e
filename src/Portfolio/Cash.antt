-- ===== src/Portfolio/Cash.antt =====
-- `CashBalance` of backend/portfolio/src/aqros_portfolio/domain/models.py.
use aqros.Shared.{ℕ, List, [], ◌∷◌, arith, if◌then◌else◌}
use aqros.Shared.Int.{ℤ, pos, ◌+ℤ◌, ◌-ℤ◌, ◌≤ℤ◌, ltb_ℤ}
use aqros.Shared.Action.{Outcome, done, raised, after}

pub record CashBalance : Type 0 where
  pub total : ℤ
  pub reserved : ℤ

-- The two messages of `ValueError`.
pub data CashError : Type 0 where
  insufficient insufficient_to_reserve : CashError

unfoldable pub available : CashBalance → ℤ
available c = c.total -ℤ c.reserved

unfoldable pub deposit : ℤ → CashBalance → CashBalance
deposit amount c = record c { total = c.total +ℤ amount }

unfoldable pub withdraw : ℤ → CashBalance → Outcome CashError CashBalance CashBalance
unfolding available
withdraw amount c =
    if ltb_ℤ (available c) amount
    then raised insufficient c
    else done (record c { total = c.total -ℤ amount })

unfoldable pub reserve : ℤ → CashBalance → Outcome CashError CashBalance CashBalance
unfolding available
reserve amount c =
    if ltb_ℤ (available c) amount
    then raised insufficient_to_reserve c
    else done (record c { reserved = c.reserved +ℤ amount })

unfoldable pub release : ℤ → CashBalance → CashBalance
release amount c =
    let amount = if ltb_ℤ c.reserved amount then c.reserved else amount in
    record c { reserved = c.reserved -ℤ amount }

-- A call of one of the methods, by the amount.
pub data Movement : Type 0 where
  deposit_of withdraw_of reserve_of release_of : ℕ → Movement

unfoldable pub move : Movement → CashBalance → CashBalance
unfolding deposit withdraw reserve release
move (deposit_of n) c = deposit (pos n) c
move (withdraw_of n) c = after (withdraw (pos n) c)
move (reserve_of n) c = after (reserve (pos n) c)
move (release_of n) c = release (pos n) c

unfoldable pub move_all : List Movement → CashBalance → CashBalance
move_all [] c = c
move_all (m ∷ ms) c = move_all ms (move m c)

-- Nothing negative is reserved, and no more than there is.
pub record IsSolvent (c : CashBalance) : Type 0 where
  pub reserve_positive : pos 0 ≤ℤ c.reserved
  pub covered : c.reserved ≤ℤ c.total

move-IsSolvent : (m : Movement) (c : CashBalance) → IsSolvent c → IsSolvent (move m c)
unfolding move ◌+ℤ◌ ◌-ℤ◌
move-IsSolvent (deposit_of n) c h = ground arith
move-IsSolvent (withdraw_of n) c h = ground arith
move-IsSolvent (reserve_of n) c h = ground arith
move-IsSolvent (release_of n) c h = ground arith

-- Over any sequence of deposits, withdrawals, reservations and releases of amounts that are not
-- negative, refused ones included, the reserved cash stays between nothing and the total.
pub move_all-IsSolvent :
    (ms : List Movement) (c : CashBalance) → IsSolvent c → IsSolvent (move_all ms c)
unfolding move_all
move_all-IsSolvent [] c h = h
move_all-IsSolvent (m ∷ ms) c h = move_all-IsSolvent ms (move m c) (move-IsSolvent m c h)
