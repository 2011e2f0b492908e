-- ===== src/Dataset/Tests.antt =====
-- The theorems on the splits of a dataset (backend/dataset-builder) at concrete sizes.
use aqros.Shared.{
  true, ◌+◌, ◌*◌, ◌<◌, ◌≡◌, refl, ◌⊎◌, none, some, List, [], ◌∷◌, leb, if◌then◌else◌, arith, All,
}
use aqros.Dataset.Splits.{
  SplitRole, WalkForwardParams, PurgedCvParams, SplitParams, Fold, role_at, walk_forward_span,
  walk_forward_fold, walk_forward_splits, set_role, purge_row, purge, purged_cv_fold,
  purged_cv_from, purged_cv_splits, compute_splits,
}
use aqros.Dataset.Audit.{SplitStrategy, audit_fold_integrity}
use aqros.Dataset.Request.{SplitRequest, accepts, to_split_params}
use aqros.Dataset.Windows.{get_elem?, at, walk_forward_splits-at}
use aqros.Dataset.Purged.{purged_cv_splits-embargo}
use aqros.Dataset.Clearance.{compute_splits-IsCleared}
use aqros.Dataset.Bounds.{IsWithin, compute_splits-IsWithin}

abbrev sliding : WalkForwardParams
sliding = record { train_size = 3; validation_size = 1; test_size = 1; step_size = 2 }

abbrev three_blocks : PurgedCvParams
three_blocks = record { n_splits = 3; embargo_size = 1 }

abbrev request : SplitRequest
request = record {
  split_strategy = SplitStrategy.purged_cv;
  walk_forward = none;
  rolling_window = none;
  expanding_window = none;
  purged_cv = some three_blocks;
}

-- Rows 2 and 3 of seven are tested, rows 1 and 4 are purged.
abbrev middle_fold : Fold
middle_fold =
    (0, SplitRole.train)
    ∷ (2, SplitRole.test)
    ∷ (3, SplitRole.test)
    ∷ (5, SplitRole.train)
    ∷ (6, SplitRole.train)
    ∷ []

middle : get_elem? (purged_cv_splits 7 three_blocks) 1 ≡ some middle_fold
unfolding purged_cv_splits purged_cv_from purged_cv_fold purge purge_row set_role
middle = refl

trained : role_at 0 middle_fold ≡ some SplitRole.train
unfolding role_at
trained = refl

tested : role_at 3 middle_fold ≡ some SplitRole.test
unfolding role_at
tested = refl

request_accepted : accepts request ≡ true
unfolding accepts to_split_params
request_accepted = refl

request_params : to_split_params request ≡ some (SplitParams.purged_cv_params three_blocks)
unfolding to_split_params
request_params = refl

computed :
    compute_splits 7 (SplitParams.purged_cv_params three_blocks)
    ≡ some (purged_cv_splits 7 three_blocks)
unfolding compute_splits
computed = refl

compute_splits-IsCleared_example :
    (folds : List Fold) × (compute_splits 7 (SplitParams.purged_cv_params three_blocks)
      ≡ some folds)
    × (audit_fold_integrity folds SplitStrategy.purged_cv ≡ [])
compute_splits-IsCleared_example =
    compute_splits-IsCleared 7 request (SplitParams.purged_cv_params three_blocks) request_accepted
      request_params

compute_splits-IsWithin_example : All (IsWithin 7) (purged_cv_splits 7 three_blocks)
compute_splits-IsWithin_example =
    compute_splits-IsWithin 7 (SplitParams.purged_cv_params three_blocks)
      (purged_cv_splits 7 three_blocks) computed

purged_cv_splits-embargo_example : (0 + 1 < 3) ⊎ (3 + 1 < 0)
purged_cv_splits-embargo_example =
    purged_cv_splits-embargo 7 three_blocks 1 0 3 middle_fold middle trained tested

walk_forward_splits-at_example :
    at 1 (walk_forward_splits 8 sliding)
    ≡ some (
        if leb (1 * 2 + walk_forward_span sliding) 8
        then some (walk_forward_fold sliding (1 * 2))
        else none)
walk_forward_splits-at_example = walk_forward_splits-at 8 sliding 1 (omega arith)
