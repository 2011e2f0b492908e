-- ===== src/Dataset/Request.antt =====
-- The split parameters of a dataset definition as the API takes them
-- (backend/dataset-builder/src/aqros_dataset_builder/api/schemas.py): the bounds of the fields, the
-- parameters that the strategy requires, and `to_split_params`.
use aqros.Shared.{Bool, true, false, ◌&&◌, Option, none, some, leb, ltb}
use aqros.Dataset.Splits.{
  WalkForwardParams, RollingWindowParams, ExpandingWindowParams, PurgedCvParams, SplitParams,
}
use aqros.Dataset.Audit.{SplitStrategy}

-- The fields of `DatasetDefinitionRequest` that say how to split.
pub record SplitRequest : Type 0 where
  pub split_strategy : SplitStrategy
  pub walk_forward : Option WalkForwardParams
  pub rolling_window : Option RollingWindowParams
  pub expanding_window : Option ExpandingWindowParams
  pub purged_cv : Option PurgedCvParams

abbrev pub walk_forward_in_bounds : Option WalkForwardParams → Bool
walk_forward_in_bounds none = true
walk_forward_in_bounds (some p) =
    ltb 0 p.train_size && ltb 0 p.validation_size && ltb 0 p.test_size && ltb 0 p.step_size

abbrev rolling_window_in_bounds : Option RollingWindowParams → Bool
rolling_window_in_bounds none = true
rolling_window_in_bounds (some p) =
    ltb 0 p.train_size && ltb 0 p.validation_size && ltb 0 p.test_size

abbrev expanding_window_in_bounds : Option ExpandingWindowParams → Bool
expanding_window_in_bounds none = true
expanding_window_in_bounds (some p) = ltb 0 p.validation_size && ltb 0 p.test_size

abbrev purged_cv_in_bounds : Option PurgedCvParams → Bool
purged_cv_in_bounds none = true
purged_cv_in_bounds (some p) = leb 2 p.n_splits

-- The parameters of the strategy, if they are there.
abbrev pub chosen :
    SplitStrategy
    → Option WalkForwardParams
    → Option RollingWindowParams
    → Option ExpandingWindowParams
    → Option PurgedCvParams
    → Option SplitParams
chosen SplitStrategy.walk_forward (some p) _ _ _ = some (SplitParams.walk_forward_params p)
chosen SplitStrategy.rolling_window _ (some p) _ _ = some (SplitParams.rolling_window_params p)
chosen SplitStrategy.expanding_window _ _ (some p) _ = some (SplitParams.expanding_window_params p)
chosen SplitStrategy.purged_cv _ _ _ (some p) = some (SplitParams.purged_cv_params p)
chosen _ _ _ _ _ = none

-- `to_split_params`, where `none` is the missing parameter that `_validate_params_match_strategy`
-- refuses.
unfoldable pub to_split_params : SplitRequest → Option SplitParams
to_split_params r =
    chosen r.split_strategy r.walk_forward r.rolling_window r.expanding_window r.purged_cv

abbrev is_some : {A : Type 0} → Option A → Bool
is_some none = false
is_some (some a) = true

-- What the fields' bounds and `_validate_params_match_strategy` accept.
unfoldable pub accepts : SplitRequest → Bool
accepts r =
    walk_forward_in_bounds r.walk_forward
    && rolling_window_in_bounds r.rolling_window
    && expanding_window_in_bounds r.expanding_window
    && purged_cv_in_bounds r.purged_cv
    && is_some (to_split_params r)
