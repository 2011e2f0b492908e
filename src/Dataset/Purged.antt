-- ===== src/Dataset/Purged.antt =====
-- The purged cross-validation (`purged_cv_splits` in domain/splitters.py of
-- backend/dataset-builder): where the roles of a fold lie, which fold tests which row.
use native.Mathlib.Nat.{zero-add, zero-mul, suc-mul}
use aqros.Shared.{
  ℕ, zero, suc, ◌+◌, ◌-◌, ◌*◌, ◌/◌, ◌≤◌, ◌<◌, ◌≡◌, ◌∙◌, ◌⊎◌, refl, inl, inr, Bool, true, false, not,
  ◌&&◌, ◌||◌, Option, none, some, List, [], ◌∷◌, ltb, leb, ◌==◌, if◌then◌else◌, arith, ==-cases,
  Bool-cases,
}
use aqros.Dataset.Splits.{
  SplitRole, PurgedCvParams, Fold, set_role, role_at, purge_row, purge, min, block_end,
  purged_cv_fold, purged_cv_from, purged_cv_splits,
}
use aqros.Dataset.Windows.{get_elem?}

role_at-set_role :
    (j i : ℕ) (r : SplitRole) (f : Fold)
    → role_at j (set_role i r f) ≡ (if i == j then some r else role_at j f)
unfolding role_at set_role
role_at-set_role j i r [] = refl
role_at-set_role j i r ((k, s) ∷ f) = ground (arith, role_at-set_role j i r f)

-- The role that the body of the loop gives a row.
abbrev purged_role : ℕ → ℕ → ℕ → ℕ → ℕ → Option SplitRole
purged_role test_start test_end purge_start purge_end i =
    if leb test_start i && ltb i test_end
    then some SplitRole.test
    else if leb purge_start i && ltb i purge_end
    then none
    else some SplitRole.train

role_at-purge_row :
    (j i a b c d : ℕ) (f : Fold)
    → role_at j (purge_row i a b c d f) ≡ (
        if (i == j) && not (leb c i && ltb i d && not (leb a i && ltb i b))
        then purged_role a b c d i
        else role_at j f)
unfolding purge_row
role_at-purge_row j i a b c d f =
    ground (arith, role_at-set_role j i SplitRole.test f, role_at-set_role j i SplitRole.train f)

-- The loop does not touch the rows before it.
role_at-purge_before :
    (j count i a b c d : ℕ) (f : Fold) → j < i → role_at j (purge count i a b c d f) ≡ role_at j f
unfolding purge
role_at-purge_before j zero i a b c d f h = refl
role_at-purge_before j (suc count) i a b c d f h =
    role_at-purge_before j count (suc i) a b c d (purge_row i a b c d f) (omega arith)
    ∙ ground (arith, role_at-purge_row j i a b c d f)

-- The loop gives each row that it comes to the role of its place.
role_at-purge :
    (j count i a b c d : ℕ) (f : Fold)
    → i ≤ j
    → role_at j f ≡ none
    → role_at j (purge count i a b c d f)
      ≡ (if ltb j (i + count) then purged_role a b c d j else none)
unfolding purge
role_at-purge j zero i a b c d f h e = ground arith
role_at-purge j (suc count) i a b c d f h e = elim (==-cases i j) [
  | inl (t, eq) ↦
      role_at-purge_before j count (suc i) a b c d (purge_row i a b c d f) (omega arith)
      ∙ ground (arith, role_at-purge_row j i a b c d f)
  | inr (t, ne) ↦
      role_at-purge j count (suc i) a b c d (purge_row i a b c d f) (omega arith)
        (ground (arith, role_at-purge_row j i a b c d f))
      ∙ ground arith
]

role_at-purged_cv_fold :
    (j n : ℕ) (p : PurgedCvParams) (k : ℕ)
    → role_at j (purged_cv_fold n p k) ≡ (
        if ltb j n
        then purged_role
            (k * (n / p.n_splits))
            (block_end n p k)
            (k * (n / p.n_splits) - p.embargo_size)
            (min n (block_end n p k + p.embargo_size))
            j
        else none)
unfolding purged_cv_fold role_at
role_at-purged_cv_fold j n p k = simp zero-add at (
    role_at-purge j n 0 (k * (n / p.n_splits)) (block_end n p k)
      (k * (n / p.n_splits) - p.embargo_size) (min n (block_end n p k + p.embargo_size)) []
      (omega arith) refl)

-- A row that is trained on is more than the embargo away from every row that is tested on.
fold_embargo :
    (n : ℕ) (p : PurgedCvParams) (k i j : ℕ)
    → role_at i (purged_cv_fold n p k) ≡ some SplitRole.train
    → role_at j (purged_cv_fold n p k) ≡ some SplitRole.test
    → (i + p.embargo_size < j) ⊎ (j + p.embargo_size < i)
fold_embargo n p k i j h g =
    ground (arith, role_at-purged_cv_fold i n p k, role_at-purged_cv_fold j n p k)

-- A fold of the loop is the body of the loop for some `k`.
purged_cv_from-inv :
    (count k n : ℕ) (p : PurgedCvParams) (m : ℕ) (f : Fold)
    → get_elem? (purged_cv_from count k n p) m ≡ some f
    → (l : ℕ) × (purged_cv_fold n p l ≡ f)
unfolding purged_cv_from
purged_cv_from-inv zero k n p m f h = ground arith
purged_cv_from-inv (suc count) k n p zero f h = (k, ground arith)
purged_cv_from-inv (suc count) k n p (suc m) f h = purged_cv_from-inv count (suc k) n p m f h

-- In every fold of the purged cross-validation, a row that is trained on is more than the embargo
-- away from every row that is tested on.
pub purged_cv_splits-embargo :
    (n : ℕ) (p : PurgedCvParams) (k i j : ℕ) (f : Fold)
    → get_elem? (purged_cv_splits n p) k ≡ some f
    → role_at i f ≡ some SplitRole.train
    → role_at j f ≡ some SplitRole.test
    → (i + p.embargo_size < j) ⊎ (j + p.embargo_size < i)
unfolding purged_cv_splits
purged_cv_splits-embargo n p k i j f h t u =
    elim (Bool-cases (ltb p.n_splits 2 || ltb n p.n_splits)) [
      | inl e ↦ ground (arith, rw e at h)
      | inr e ↦
          let (l, eq) = purged_cv_from-inv p.n_splits 0 n p k f (rw e at h) in
          fold_embargo n p l i j (rw eq t) (rw eq u)
    ]

-- `fold.get(i) is SplitRole.TEST`
abbrev is_tested : ℕ → Fold → Bool
is_tested i f = elim (role_at i f) [ some SplitRole.test ↦ true | _ ↦ false ]

-- The number of folds that test row `i`.
unfoldable pub times_tested : ℕ → List Fold → ℕ
times_tested i [] = 0
times_tested i (f ∷ folds) = (if is_tested i f then 1 else 0) + times_tested i folds

is_tested-purged_cv_fold :
    (i n : ℕ) (p : PurgedCvParams) (k : ℕ)
    → i < n
    → is_tested i (purged_cv_fold n p k) ≡ (leb (k * (n / p.n_splits)) i && ltb i (block_end n p k))
is_tested-purged_cv_fold i n p k h = ground (arith, role_at-purged_cv_fold i n p k)

times_tested-purged_cv_from :
    (i count k n : ℕ) (p : PurgedCvParams)
    → i < n
    → suc (k + count) ≡ p.n_splits
    → times_tested i (purged_cv_from (suc count) k n p)
      ≡ (if ltb i (k * (n / p.n_splits)) then 0 else 1)
unfolding times_tested purged_cv_from
times_tested-purged_cv_from i zero k n p h e = ground (arith, is_tested-purged_cv_fold i n p k)
times_tested-purged_cv_from i (suc count) k n p h e = ground (
  arith,
  is_tested-purged_cv_fold i n p k,
  times_tested-purged_cv_from i count (suc k) n p h (omega arith),
  suc-mul k (n / p.n_splits),
)

-- Every row is tested in exactly one fold of the purged cross-validation, if there are at least two
-- folds and as many rows as folds.
pub purged_cv_splits_lem :
    (n : ℕ) (p : PurgedCvParams) (i : ℕ)
    → 2 ≤ p.n_splits
    → p.n_splits ≤ n
    → i < n
    → times_tested i (purged_cv_splits n p) ≡ 1
unfolding purged_cv_splits
purged_cv_splits_lem n p i two le h = elim (Bool-cases (ltb p.n_splits 2 || ltb n p.n_splits)) [
  | inl e ↦ ground arith
  | inr e ↦ rw e (from_start p.n_splits refl)
]
  where
    from_start : (s : ℕ) → s ≡ p.n_splits → times_tested i (purged_cv_from s 0 n p) ≡ 1
    from_start zero e = omega arith
    from_start (suc s) e =
        ground
          (arith, times_tested-purged_cv_from i s 0 n p h (omega arith), zero-mul (n / p.n_splits))
