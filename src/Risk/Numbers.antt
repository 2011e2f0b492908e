-- ===== src/Risk/Numbers.antt =====
-- What the risk engine uses of Python's binary floats. Floats are not modelled digit by digit: the
-- engine's definitions take the type and its operations as a parameter. A `Decimal` is an integer
-- number of quanta, as in the order service; `lot` is the number of quanta in one unit of quantity.
use aqros.Shared.{ℕ, ◌≡◌, Bool, true, false, Option, none, some, if◌then◌else◌}
use aqros.Shared.Int.{ℤ, pos, ◌*ℤ◌}
use aqros.Shared.Action.{Outcome, done, raised}

pub record Numbers : Type 1 where
  pub Float : Type 0
  -- `lit n k` is the literal n / 10^k.
  pub lit : ℤ → ℕ → Float
  -- `float(x)` of a decimal price, and of a decimal value.
  pub of_price : ℤ → Float
  pub of_value : ℤ → Float
  -- `float(a / b)` of two decimal values; the callers test for a zero divisor.
  pub ratio : ℤ → ℤ → Float
  pub add : Float → Float → Float
  pub sub : Float → Float → Float
  pub mul : Float → Float → Float
  -- The quotient by a divisor that is not zero.
  pub div : Float → Float → Float
  pub abs : Float → Float
  pub lt : Float → Float → Bool
  pub le : Float → Float → Bool
  pub eq : Float → Float → Bool
  -- `round(x)` and `int(x)`, which raise for an infinity and for a NaN.
  pub round : Float → Option ℤ
  pub trunc : Float → Option ℤ
  -- `Decimal(str(round(x, 4)))` as a price and `Decimal(str(round(x, 2)))` as a value.
  pub to_price : Float → Option ℤ
  pub to_value : Float → Option ℤ
  pub lot : ℕ

-- What a rule or a sizing strategy may raise.
pub data RuleError : Type 0 where
  -- `ZeroDivisionError`
  zero_division : RuleError
  -- `OverflowError` and `ValueError`, of `round` and `int`
  not_finite : RuleError
  -- `TypeError`: one datetime has a time zone and the other has none
  mixed_zones : RuleError

abbrev pub Checked : Type 0 → Type 0
Checked A = Outcome RuleError Unit A

module _ (N : Numbers) where
  open N use {Float, lit, div, eq, lt, round, trunc, lot}

  abbrev pub zero_f : Float
  zero_f = lit (pos 0) 0

  abbrev pub hundred : Float
  hundred = lit (pos 100) 0

  -- `max(a, b)` and `min(a, b)` keep the first of two equal values.
  abbrev pub max_f : Float → Float → Float
  max_f a b = if lt a b then b else a

  abbrev pub min_f : Float → Float → Float
  min_f a b = if lt b a then b else a

  -- `a / b`
  unfoldable pub divide_f : Float → Float → Checked Float
  divide_f a b = if eq b zero_f then raised zero_division tt else done (div a b)

  -- `Decimal(str(n))` of a whole number of units.
  abbrev pub of_units : ℤ → ℤ
  of_units n = n *ℤ pos lot

  abbrev pub finite : Option ℤ → Checked ℤ
  finite none = raised not_finite tt
  finite (some n) = done n

  -- `round(x)`
  unfoldable pub round_f : Float → Checked ℤ
  round_f x = finite (round x)

  -- `int(x)`
  unfoldable pub int_f : Float → Checked ℤ
  int_f x = finite (trunc x)

-- What IEEE comparisons satisfy on floats that are not NaN.
pub record IsOrder (N : Numbers) : Type 0 where
  pub irrefl : (a : N.Float) → N.lt a a ≡ false
  pub asym : (a b : N.Float) → N.lt a b ≡ true → N.lt b a ≡ false
  pub trans : (a b c : N.Float) → N.lt a b ≡ false → N.lt b c ≡ false → N.lt a c ≡ false
