-- ===== src/Shared/Sums.antt =====
-- Sums of integers over a list.
use mathlib.Core.Path.{◌≡◌}
use mathlib.Core.List.{List, [], ◌∷◌, ◌++◌}
use aqros.Shared.Int.{ℤ, pos, ◌+ℤ◌, int_laws}

zero_first : (a : ℤ) → a ≡ pos 0 +ℤ a
zero_first a = omega int_laws

zero_last : (a b : ℤ) → a +ℤ (b +ℤ pos 0) ≡ a +ℤ b
zero_last a b = omega int_laws

regroup : (a b c : ℤ) → a +ℤ (b +ℤ c) ≡ (a +ℤ b) +ℤ c
regroup a b c = omega int_laws

module _ {A : Type 0} (measure : A → ℤ) where
  unfoldable pub sum_by : List A → ℤ
  sum_by [] = pos 0
  sum_by (x ∷ xs) = measure x +ℤ sum_by xs

  pub sum_by-append : (xs ys : List A) → sum_by (xs ++ ys) ≡ sum_by xs +ℤ sum_by ys
  unfolding sum_by
  sum_by-append [] ys = zero_first (sum_by ys)
  sum_by-append (x ∷ xs) ys = rw (sum_by-append xs ys) (regroup (measure x) (sum_by xs) (sum_by ys))

  pub sum_by-snoc : (xs : List A) (x : A) → sum_by (xs ++ x ∷ []) ≡ sum_by xs +ℤ measure x
  unfolding sum_by
  sum_by-snoc xs x = rw (sum_by-append xs (x ∷ [])) (zero_last (sum_by xs) (measure x))
