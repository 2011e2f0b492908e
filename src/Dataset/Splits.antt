-- ===== src/Dataset/Splits.antt =====
-- The splitters of backend/dataset-builder/src/aqros_dataset_builder/domain/splitters.py and their
-- parameters from domain/models.py. A fold is a dict from row positions to roles, in the order of
-- insertion. The sizes are natural numbers: the API lets no negative one in.
use aqros.Shared.{
  ℕ, zero, suc, ◌+◌, ◌-◌, ◌*◌, ◌/◌, ◌&&◌, ◌||◌, Option, none, some, List, [], ◌∷◌, ltb, leb, ◌==◌,
  if◌then◌else◌,
}

pub data SplitRole : Type 0 where
  train validation test : SplitRole

pub record WalkForwardParams : Type 0 where
  pub train_size : ℕ
  pub validation_size : ℕ
  pub test_size : ℕ
  pub step_size : ℕ

pub record RollingWindowParams : Type 0 where
  pub train_size : ℕ
  pub validation_size : ℕ
  pub test_size : ℕ

pub record ExpandingWindowParams : Type 0 where
  pub validation_size : ℕ
  pub test_size : ℕ

pub record PurgedCvParams : Type 0 where
  pub n_splits : ℕ
  pub embargo_size : ℕ

pub data SplitParams : Type 0 where
  walk_forward_params : WalkForwardParams → SplitParams
  rolling_window_params : RollingWindowParams → SplitParams
  expanding_window_params : ExpandingWindowParams → SplitParams
  purged_cv_params : PurgedCvParams → SplitParams

abbrev pub Fold : Type 0
Fold = List (ℕ × SplitRole)

-- `fold[i] = role`
unfoldable pub set_role : ℕ → SplitRole → Fold → Fold
set_role i r [] = (i, r) ∷ []
set_role i r ((j, s) ∷ f) = if j == i then (j, r) ∷ f else (j, s) ∷ set_role i r f

-- `fold.get(i)`
unfoldable pub role_at : ℕ → Fold → Option SplitRole
role_at i [] = none
role_at i ((j, s) ∷ f) = if j == i then some s else role_at i f

-- `count` turns of `for i in range(...): fold[i] = role`, from `i` on.
unfoldable pub assign : ℕ → ℕ → SplitRole → Fold → Fold
assign zero i r f = f
assign (suc count) i r f = assign count (suc i) r (set_role i r f)

-- `for i in range(start, end): fold[i] = role`
abbrev pub assign_range : ℕ → ℕ → SplitRole → Fold → Fold
assign_range start end r f = assign (end - start) start r f

-- The three loops over `range(start, train_end)`, `range(train_end, val_end)` and
-- `range(val_end, test_end)`, on an empty fold.
unfoldable pub window : ℕ → ℕ → ℕ → ℕ → Fold
window start train_end val_end test_end =
    assign_range val_end test_end test
      (assign_range train_end val_end validation (assign_range start train_end train []))

abbrev pub walk_forward_span : WalkForwardParams → ℕ
walk_forward_span p = p.train_size + p.validation_size + p.test_size

-- The body of the loop for one `start`.
unfoldable pub walk_forward_fold : WalkForwardParams → ℕ → Fold
walk_forward_fold p start =
    window start (start + p.train_size) (start + p.train_size + p.validation_size)
      (start + p.train_size + p.validation_size + p.test_size)

abbrev pub prepend : {A : Type 0} → A → Option (List A) → Option (List A)
prepend x none = none
prepend x (some xs) = some (x ∷ xs)

-- `while start + fold_span <= n`, with fuel; `none` means that the fuel ran out.
unfoldable pub walk_forward_from : ℕ → ℕ → WalkForwardParams → ℕ → Option (List Fold)
walk_forward_from zero n p start = none
walk_forward_from (suc fuel) n p start =
    let rest = walk_forward_from fuel n p (start + p.step_size) in
    if leb (start + walk_forward_span p) n
    then prepend (walk_forward_fold p start) rest
    else some []

unfoldable pub walk_forward_splits : ℕ → WalkForwardParams → Option (List Fold)
walk_forward_splits n p = walk_forward_from (suc (suc n)) n p 0

abbrev rolling_window_fold : ℕ → RollingWindowParams → ℕ → Fold
rolling_window_fold n p start =
    window start (start + p.train_size) (start + p.train_size + p.validation_size) n

unfoldable pub rolling_window_splits : ℕ → RollingWindowParams → List Fold
rolling_window_splits n p =
    if ltb n (p.train_size + p.validation_size + p.test_size)
    then []
    else rolling_window_fold n p (n - (p.train_size + p.validation_size + p.test_size)) ∷ []

unfoldable pub expanding_window_splits : ℕ → ExpandingWindowParams → List Fold
expanding_window_splits n p =
    if leb n (p.validation_size + p.test_size)
    then []
    else window 0 (n - (p.validation_size + p.test_size))
        (n - (p.validation_size + p.test_size) + p.validation_size) n
      ∷ []

-- `min(a, b)`
abbrev pub min : ℕ → ℕ → ℕ
min a b = if leb a b then a else b

-- The body of the loop for row `i`. The test block and the purged zone are
-- `[test_start, test_end)` and `[purge_start, purge_end)`.
unfoldable pub purge_row : ℕ → ℕ → ℕ → ℕ → ℕ → Fold → Fold
purge_row i test_start test_end purge_start purge_end f =
    if leb test_start i && ltb i test_end
    then set_role i test f
    else if leb purge_start i && ltb i purge_end
    then f
    else set_role i train f

-- `count` turns of the loop over the rows, from row `i` on.
unfoldable pub purge : ℕ → ℕ → ℕ → ℕ → ℕ → ℕ → Fold → Fold
purge zero i a b c d f = f
purge (suc count) i a b c d f = purge count (suc i) a b c d (purge_row i a b c d f)

-- `n if k == n_splits - 1 else test_start + block_size`
abbrev pub block_end : ℕ → PurgedCvParams → ℕ → ℕ
block_end n p k = if k == p.n_splits - 1 then n else k * (n / p.n_splits) + n / p.n_splits

-- The body of the loop for one `k`.
unfoldable pub purged_cv_fold : ℕ → PurgedCvParams → ℕ → Fold
purged_cv_fold n p k =
    purge n 0 (k * (n / p.n_splits)) (block_end n p k) (k * (n / p.n_splits) - p.embargo_size)
      (min n (block_end n p k + p.embargo_size)) []

-- `count` turns of `for k in range(n_splits)`, from `k` on.
unfoldable pub purged_cv_from : ℕ → ℕ → ℕ → PurgedCvParams → List Fold
purged_cv_from zero k n p = []
purged_cv_from (suc count) k n p = purged_cv_fold n p k ∷ purged_cv_from count (suc k) n p

unfoldable pub purged_cv_splits : ℕ → PurgedCvParams → List Fold
purged_cv_splits n p =
    if ltb p.n_splits 2 || ltb n p.n_splits then [] else purged_cv_from p.n_splits 0 n p

unfoldable pub compute_splits : ℕ → SplitParams → Option (List Fold)
compute_splits n (walk_forward_params p) = walk_forward_splits n p
compute_splits n (rolling_window_params p) = some (rolling_window_splits n p)
compute_splits n (expanding_window_params p) = some (expanding_window_splits n p)
compute_splits n (purged_cv_params p) = some (purged_cv_splits n p)
