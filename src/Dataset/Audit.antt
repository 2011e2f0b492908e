-- ===== src/Dataset/Audit.antt =====
-- `audit_fold_integrity` of backend/dataset-builder/src/aqros_dataset_builder/domain/validation.py,
-- and the strategies of domain/models.py. A finding has the number of its fold and what it objects
-- to, in place of the message.
use aqros.Shared.{ℕ, suc, Bool, true, false, ◌&&◌, List, [], ◌∷◌, ◌++◌, leb, if◌then◌else◌, length}
use aqros.Dataset.Splits.{SplitRole, Fold, min}

pub data SplitStrategy : Type 0 where
  walk_forward rolling_window expanding_window purged_cv : SplitStrategy

pub data Finding : Type 0 where
  train_reaches_validation validation_reaches_test train_reaches_test : ℕ → Finding
  train_inside_test : ℕ → ℕ → Finding

abbrev same_role : SplitRole → SplitRole → Bool
same_role SplitRole.train SplitRole.train = true
same_role SplitRole.validation SplitRole.validation = true
same_role SplitRole.test SplitRole.test = true
same_role _ _ = false

-- `[i for i, role in fold.items() if role is ...]`
unfoldable pub indices_of : SplitRole → Fold → List ℕ
indices_of r [] = []
indices_of r ((i, s) ∷ f) = if same_role s r then i ∷ indices_of r f else indices_of r f

-- `min` and `max` of a list that starts with `x`.
unfoldable pub min_of : ℕ → List ℕ → ℕ
min_of x [] = x
min_of x (y ∷ ys) = min x (min_of y ys)

unfoldable pub max_of : ℕ → List ℕ → ℕ
max_of x [] = x
max_of x (y ∷ ys) = if leb x (max_of y ys) then max_of y ys else x

-- `xs and ys and max(xs) >= min(ys)`
unfoldable pub reaches : List ℕ → List ℕ → Bool
reaches [] ys = false
reaches (x ∷ xs) [] = false
reaches (x ∷ xs) (y ∷ ys) = leb (min_of y ys) (max_of x xs)

abbrev is_empty : List ℕ → Bool
is_empty [] = true
is_empty (x ∷ xs) = false

abbrev reported : Bool → Finding → List Finding
reported true finding = finding ∷ []
reported false finding = []

-- The checks of the strategies that look forward.
unfoldable pub audit_forward : ℕ → List ℕ → List ℕ → List ℕ → List Finding
audit_forward fold_idx trained validated tested =
    reported (reaches trained validated) (train_reaches_validation fold_idx)
    ++ (if reaches validated tested
        then validation_reaches_test fold_idx ∷ []
        else reported (is_empty validated && reaches trained tested) (train_reaches_test fold_idx))

-- `[i for i in train_indices if low <= i <= high]`
unfoldable pub between : ℕ → ℕ → List ℕ → List ℕ
between low high [] = []
between low high (i ∷ is) =
    if leb low i && leb i high then i ∷ between low high is else between low high is

abbrev report_leak : ℕ → List ℕ → List Finding
report_leak fold_idx [] = []
report_leak fold_idx (i ∷ is) = train_inside_test fold_idx (length (i ∷ is)) ∷ []

-- The check of the purged cross-validation.
unfoldable pub audit_purged : ℕ → List ℕ → List ℕ → List Finding
audit_purged fold_idx trained [] = []
audit_purged fold_idx trained (j ∷ js) =
    report_leak fold_idx (between (min_of j js) (max_of j js) trained)

abbrev pub audit_fold : SplitStrategy → ℕ → Fold → List Finding
audit_fold purged_cv fold_idx f =
    audit_purged fold_idx (indices_of SplitRole.train f) (indices_of SplitRole.test f)
audit_fold _ fold_idx f =
    audit_forward fold_idx (indices_of SplitRole.train f) (indices_of SplitRole.validation f)
      (indices_of SplitRole.test f)

unfoldable pub audit_from : ℕ → List Fold → SplitStrategy → List Finding
audit_from fold_idx [] strategy = []
audit_from fold_idx (f ∷ folds) strategy =
    audit_fold strategy fold_idx f ++ audit_from (suc fold_idx) folds strategy

unfoldable pub audit_fold_integrity : List Fold → SplitStrategy → List Finding
audit_fold_integrity folds strategy = audit_from 0 folds strategy
