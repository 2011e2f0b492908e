-- ===== src/Dataset/Bounds.antt =====
-- Every row that a fold names exists (domain/splitters.py of backend/dataset-builder), as the
-- dataset service relies on when it reads the rows of a fold by position.
use aqros.Shared.{
  ℕ, zero, suc, ◌+◌, ◌≤◌, ◌<◌, ◌≡◌, refl, inl, inr, ◌||◌, ◌&&◌, Option, none, some, List, [], ltb,
  leb, arith, All, All-map, leb-cases, Bool-cases, some-injective,
}
use aqros.Dataset.Splits.{
  SplitRole, SplitParams, WalkForwardParams, PurgedCvParams, Fold, walk_forward_span,
  walk_forward_fold, prepend, walk_forward_from, walk_forward_splits, purge_row, purge,
  purged_cv_fold, purged_cv_from, purged_cv_splits, compute_splits,
}
use aqros.Dataset.Windows.{
  IsPlaced, IsForward, All-set_role, walk_forward_fold-IsForward, rolling_window_splits-IsForward,
  expanding_window_splits-IsForward,
}

-- Every row that the fold names is one of the `n` rows.
abbrev pub IsWithin : ℕ → Fold → Type 0
IsWithin n f = All (λ item. item.0 < n) f

IsForward-IsWithin : (n : ℕ) (f : Fold) → IsForward n f → IsWithin n f
IsForward-IsWithin n f (b, (c, all)) = All-map (λ item h. placed item h) f all
  where
    placed : (item : ℕ × SplitRole) → IsPlaced n b c item → item.0 < n
    placed (i, SplitRole.train) (g, h) = h
    placed (i, SplitRole.validation) (g, h, l) = l
    placed (i, SplitRole.test) (g, h, l) = l

All-prepend :
    (n : ℕ) (f : Fold) (o : Option (List Fold)) (folds : List Fold)
    → IsWithin n f
    → ((rest : List Fold) → o ≡ some rest → All (IsWithin n) rest)
    → prepend f o ≡ some folds
    → All (IsWithin n) folds
All-prepend n f none folds h g e = ground arith
All-prepend n f (some rest) folds h g e = rw (← some-injective e) (h, g rest refl)

walk_forward_from-IsWithin :
    (fuel n : ℕ) (p : WalkForwardParams) (start : ℕ) (folds : List Fold)
    → walk_forward_from fuel n p start ≡ some folds
    → All (IsWithin n) folds
unfolding walk_forward_from
walk_forward_from-IsWithin zero n p start folds e = ground arith
walk_forward_from-IsWithin (suc fuel) n p start folds e =
    elim (leb-cases (start + walk_forward_span p) n) [
      | inl (t, le) ↦
          All-prepend n (walk_forward_fold p start)
            (walk_forward_from fuel n p (start + p.step_size)) folds
            (IsForward-IsWithin n _ (walk_forward_fold-IsForward n p start le))
            (λ rest g. walk_forward_from-IsWithin fuel n p (start + p.step_size) rest g) (rw t at e)
      | inr (t, gt) ↦ rw (← some-injective (rw t at e)) tt
    ]

purge_row-IsWithin :
    (n i a b c d : ℕ) (f : Fold) → i < n → IsWithin n f → IsWithin n (purge_row i a b c d f)
unfolding purge_row
purge_row-IsWithin n i a b c d f l h = elim (Bool-cases (leb a i && ltb i b)) [
  | inl e ↦ rw e (All-set_role (λ item. item.0 < n) i SplitRole.test f l h)
  | inr e ↦ rw e (elim (Bool-cases (leb c i && ltb i d)) [
    | inl g ↦ rw g h
    | inr g ↦ rw g (All-set_role (λ item. item.0 < n) i SplitRole.train f l h)
  ])
]

purge-IsWithin :
    (n count i a b c d : ℕ) (f : Fold)
    → i + count ≤ n
    → IsWithin n f
    → IsWithin n (purge count i a b c d f)
unfolding purge
purge-IsWithin n zero i a b c d f l h = h
purge-IsWithin n (suc count) i a b c d f l h =
    purge-IsWithin n count (suc i) a b c d _ (omega arith)
      (purge_row-IsWithin n i a b c d f (omega arith) h)

purged_cv_from-IsWithin :
    (count k n : ℕ) (p : PurgedCvParams) → All (IsWithin n) (purged_cv_from count k n p)
unfolding purged_cv_from purged_cv_fold
purged_cv_from-IsWithin zero k n p = tt
purged_cv_from-IsWithin (suc count) k n p =
    (purge-IsWithin n n 0 _ _ _ _ [] (omega arith) tt, purged_cv_from-IsWithin count (suc k) n p)

purged_cv_splits-IsWithin : (n : ℕ) (p : PurgedCvParams) → All (IsWithin n) (purged_cv_splits n p)
unfolding purged_cv_splits
purged_cv_splits-IsWithin n p = elim (Bool-cases (ltb p.n_splits 2 || ltb n p.n_splits)) [
  | inl e ↦ rw e tt
  | inr e ↦ rw e (purged_cv_from-IsWithin p.n_splits 0 n p)
]

-- Whatever the parameters are, every row that a fold of a finished split names exists.
pub compute_splits-IsWithin :
    (n : ℕ) (params : SplitParams) (folds : List Fold)
    → compute_splits n params ≡ some folds
    → All (IsWithin n) folds
unfolding compute_splits walk_forward_splits
compute_splits-IsWithin n (SplitParams.walk_forward_params p) folds e =
    walk_forward_from-IsWithin (suc (suc n)) n p 0 folds e
compute_splits-IsWithin n (SplitParams.rolling_window_params p) folds e =
    rw (← some-injective e) (All-map (IsForward-IsWithin n) _ (rolling_window_splits-IsForward n p))
compute_splits-IsWithin n (SplitParams.expanding_window_params p) folds e =
    rw (← some-injective e)
      (All-map (IsForward-IsWithin n) _ (expanding_window_splits-IsForward n p))
compute_splits-IsWithin n (SplitParams.purged_cv_params p) folds e =
    rw (← some-injective e) (purged_cv_splits-IsWithin n p)
