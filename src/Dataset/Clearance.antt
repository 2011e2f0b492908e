-- ===== src/Dataset/Clearance.antt =====
-- The leakage audit (domain/validation.py of backend/dataset-builder) on the folds of the splitters
-- (domain/splitters.py).
use aqros.Shared.{
  ℕ, zero, suc, ◌+◌, ◌*◌, ◌/◌, ◌-◌, ◌&&◌, ◌||◌, ◌⊎◌, ◌≤◌, ◌<◌, ◌≡◌, refl, inl, inr, Bool, true,
  false, Option, none, some, List, [], ◌∷◌, ltb, leb, arith, All, All-map, Bool-cases,
  some-injective,
}
use aqros.Dataset.Splits.{
  SplitRole, SplitParams, WalkForwardParams, RollingWindowParams, ExpandingWindowParams,
  PurgedCvParams, block_end, min, purge, purge_row, Fold, purged_cv_fold, purged_cv_from,
  purged_cv_splits, rolling_window_splits, expanding_window_splits, compute_splits,
}
use aqros.Dataset.Audit.{
  SplitStrategy, indices_of, min_of, max_of, reaches, audit_forward, between, audit_purged,
  audit_from, audit_fold_integrity,
}
use aqros.Dataset.Request.{SplitRequest, chosen, walk_forward_in_bounds, to_split_params, accepts}
use aqros.Dataset.Windows.{
  IsPlaced, IsForward, All-set_role, walk_forward_splits-IsForward, rolling_window_splits-IsForward,
  expanding_window_splits-IsForward,
}

min_of-All : (b x : ℕ) (xs : List ℕ) → b ≤ x → All (λ i. b ≤ i) xs → b ≤ min_of x xs
unfolding min_of
min_of-All b x [] h a = h
min_of-All b x (y ∷ ys) h (g, a) = ground (arith, min_of-All b y ys g a)

max_of-All : (b x : ℕ) (xs : List ℕ) → x < b → All (λ i. i < b) xs → max_of x xs < b
unfolding max_of
max_of-All b x [] h a = h
max_of-All b x (y ∷ ys) h (g, a) = ground (arith, max_of-All b y ys g a)

-- Rows below a bound do not reach rows from it on.
reaches-All :
    (b : ℕ) (xs ys : List ℕ) → All (λ i. i < b) xs → All (λ i. b ≤ i) ys → reaches xs ys ≡ false
unfolding reaches
reaches-All b [] ys a c = refl
reaches-All b (x ∷ xs) [] a c = refl
reaches-All b (x ∷ xs) (y ∷ ys) (g, a) (h, c) =
    ground (arith, max_of-All b x xs g a, min_of-All b y ys h c)

-- What holds of every row with its role holds of the rows of one role.
All-indices_of :
    (P : ℕ × SplitRole → Type 0) (r : SplitRole) (f : Fold)
    → All P f
    → All (λ i. P (i, r)) (indices_of r f)
unfolding indices_of
All-indices_of P r [] a = tt
All-indices_of P SplitRole.train ((i, SplitRole.train) ∷ f) (h, a) =
    (h, All-indices_of P SplitRole.train f a)
All-indices_of P SplitRole.train ((i, SplitRole.validation) ∷ f) (h, a) =
    All-indices_of P SplitRole.train f a
All-indices_of P SplitRole.train ((i, SplitRole.test) ∷ f) (h, a) =
    All-indices_of P SplitRole.train f a
All-indices_of P SplitRole.validation ((i, SplitRole.train) ∷ f) (h, a) =
    All-indices_of P SplitRole.validation f a
All-indices_of P SplitRole.validation ((i, SplitRole.validation) ∷ f) (h, a) =
    (h, All-indices_of P SplitRole.validation f a)
All-indices_of P SplitRole.validation ((i, SplitRole.test) ∷ f) (h, a) =
    All-indices_of P SplitRole.validation f a
All-indices_of P SplitRole.test ((i, SplitRole.train) ∷ f) (h, a) =
    All-indices_of P SplitRole.test f a
All-indices_of P SplitRole.test ((i, SplitRole.validation) ∷ f) (h, a) =
    All-indices_of P SplitRole.test f a
All-indices_of P SplitRole.test ((i, SplitRole.test) ∷ f) (h, a) =
    (h, All-indices_of P SplitRole.test f a)

-- A fold that looks forward passes the checks of the strategies that do.
audit_forward-IsForward :
    (n k : ℕ) (f : Fold)
    → IsForward n f
    → audit_forward k
        (indices_of SplitRole.train f)
        (indices_of SplitRole.validation f)
        (indices_of SplitRole.test f)
      ≡ []
unfolding audit_forward
audit_forward-IsForward n k f (b, (c, a)) = ground (
  arith,
  reaches-All b (indices_of SplitRole.train f) (indices_of SplitRole.validation f)
      (All-map (λ i h. h.0) _ (All-indices_of (IsPlaced n b c) SplitRole.train f a))
      (All-map (λ i h. h.0) _ (All-indices_of (IsPlaced n b c) SplitRole.validation f a)),
  reaches-All c (indices_of SplitRole.validation f) (indices_of SplitRole.test f)
      (All-map (λ i h. h.1) _ (All-indices_of (IsPlaced n b c) SplitRole.validation f a))
      (All-map (λ i h. h.1) _ (All-indices_of (IsPlaced n b c) SplitRole.test f a)),
  reaches-All b (indices_of SplitRole.train f) (indices_of SplitRole.test f)
      (All-map (λ i h. h.0) _ (All-indices_of (IsPlaced n b c) SplitRole.train f a))
      (All-map (λ i h. h.0) _ (All-indices_of (IsPlaced n b c) SplitRole.test f a)),
)

-- Row `i` of role `r` lies within the test block or outside of it, as the role says.
abbrev IsApart : ℕ → ℕ → ℕ × SplitRole → Type 0
IsApart a b (i, SplitRole.train) = (i < a) ⊎ (b ≤ i)
IsApart a b (i, SplitRole.validation) = Unit
IsApart a b (i, SplitRole.test) = (a ≤ i) × (i < b)

purge_row-IsApart :
    (i a b c d : ℕ) (f : Fold) → All (IsApart a b) f → All (IsApart a b) (purge_row i a b c d f)
unfolding purge_row
purge_row-IsApart i a b c d f h = elim (Bool-cases (leb a i && ltb i b)) [
  | inl e ↦ rw e (All-set_role (IsApart a b) i SplitRole.test f (ground arith) h)
  | inr e ↦ rw e (elim (Bool-cases (leb c i && ltb i d)) [
    | inl g ↦ rw g h
    | inr g ↦ rw g (All-set_role (IsApart a b) i SplitRole.train f (ground arith) h)
  ])
]

purge-IsApart :
    (count i a b c d : ℕ) (f : Fold)
    → All (IsApart a b) f
    → All (IsApart a b) (purge count i a b c d f)
unfolding purge
purge-IsApart zero i a b c d f h = h
purge-IsApart (suc count) i a b c d f h =
    purge-IsApart count (suc i) a b c d _ (purge_row-IsApart i a b c d f h)

between-All :
    (a b low high : ℕ) (xs : List ℕ)
    → a ≤ low
    → high < b
    → All (λ i. IsApart a b (i, SplitRole.train)) xs
    → between low high xs ≡ []
unfolding between
between-All a b low high [] g h all = refl
between-All a b low high (x ∷ xs) g h (apart, all) =
    ground (arith, between-All a b low high xs g h all)

audit_purged-All :
    (a b k : ℕ) (xs ys : List ℕ)
    → All (λ i. IsApart a b (i, SplitRole.train)) xs
    → All (λ i. (a ≤ i) × (i < b)) ys
    → audit_purged k xs ys ≡ []
unfolding audit_purged
audit_purged-All a b k xs [] h g = refl
audit_purged-All a b k xs (y ∷ ys) h (g, all) =
    rw
      (between-All a b (min_of y ys) (max_of y ys) xs
        (min_of-All a y ys (g.0) (All-map (λ i h. h.0) ys all))
        (max_of-All b y ys (g.1) (All-map (λ i h. h.1) ys all)) h)
      refl

-- A fold of the purged cross-validation passes its check.
audit_purged-purged_cv_fold :
    (n : ℕ) (p : PurgedCvParams) (l k : ℕ)
    → audit_purged k
        (indices_of SplitRole.train (purged_cv_fold n p l))
        (indices_of SplitRole.test (purged_cv_fold n p l))
      ≡ []
unfolding purged_cv_fold
audit_purged-purged_cv_fold n p l k =
    let apart =
      purge-IsApart n 0 (l * (n / p.n_splits)) (block_end n p l)
        (l * (n / p.n_splits) - p.embargo_size) (min n (block_end n p l + p.embargo_size)) [] tt in
    audit_purged-All (l * (n / p.n_splits)) (block_end n p l) k _ _
      (All-indices_of (IsApart (l * (n / p.n_splits)) (block_end n p l)) SplitRole.train _ apart)
      (All-indices_of (IsApart (l * (n / p.n_splits)) (block_end n p l)) SplitRole.test _ apart)

audit_from-purged :
    (count l n k : ℕ) (p : PurgedCvParams)
    → audit_from k (purged_cv_from count l n p) SplitStrategy.purged_cv ≡ []
unfolding audit_from purged_cv_from
audit_from-purged zero l n k p = refl
audit_from-purged (suc count) l n k p =
    rw (audit_purged-purged_cv_fold n p l k) (audit_from-purged count (suc l) n (suc k) p)

-- The strategies whose folds look forward.
abbrev looks_forward : SplitStrategy → Bool
looks_forward SplitStrategy.purged_cv = false
looks_forward _ = true

audit_from-IsForward :
    (n k : ℕ) (folds : List Fold) (s : SplitStrategy)
    → looks_forward s ≡ true
    → All (IsForward n) folds
    → audit_from k folds s ≡ []
unfolding audit_from
audit_from-IsForward n k [] s l h = refl
audit_from-IsForward n k (f ∷ folds) SplitStrategy.walk_forward l (h, all) =
    rw (audit_forward-IsForward n k f h) (audit_from-IsForward n (suc k) folds _ l all)
audit_from-IsForward n k (f ∷ folds) SplitStrategy.rolling_window l (h, all) =
    rw (audit_forward-IsForward n k f h) (audit_from-IsForward n (suc k) folds _ l all)
audit_from-IsForward n k (f ∷ folds) SplitStrategy.expanding_window l (h, all) =
    rw (audit_forward-IsForward n k f h) (audit_from-IsForward n (suc k) folds _ l all)
audit_from-IsForward n k (f ∷ folds) SplitStrategy.purged_cv l h = ground arith

-- The splitter ends with folds to which the audit does not object.
abbrev IsCleared : ℕ → SplitParams → SplitStrategy → Type 0
IsCleared n params s =
    (folds : List Fold) × (compute_splits n params ≡ some folds)
    × (audit_fold_integrity folds s ≡ [])

walk_forward-IsCleared :
    (n : ℕ) (p : WalkForwardParams)
    → 0 < p.step_size
    → IsCleared n (SplitParams.walk_forward_params p) SplitStrategy.walk_forward
unfolding compute_splits audit_fold_integrity
walk_forward-IsCleared n p h =
    let (folds, eq, all) = walk_forward_splits-IsForward n p h in
    (folds, eq, audit_from-IsForward n 0 folds SplitStrategy.walk_forward refl all)

purged_cv-IsCleared :
    (n : ℕ) (p : PurgedCvParams)
    → IsCleared n (SplitParams.purged_cv_params p) SplitStrategy.purged_cv
unfolding compute_splits audit_fold_integrity purged_cv_splits audit_from
purged_cv-IsCleared n p = (
  purged_cv_splits n p,
  refl,
  elim (Bool-cases (ltb p.n_splits 2 || ltb n p.n_splits)) [
    | inl e ↦ rw e refl
    | inr e ↦ rw e (audit_from-purged p.n_splits 0 n 0 p)
  ],
)

chosen-IsCleared :
    (n : ℕ) (s : SplitStrategy) (w : Option WalkForwardParams) (r : Option RollingWindowParams)
    (e : Option ExpandingWindowParams) (c : Option PurgedCvParams) (params : SplitParams)
    → walk_forward_in_bounds w ≡ true
    → chosen s w r e c ≡ some params
    → IsCleared n params s
unfolding compute_splits audit_fold_integrity
chosen-IsCleared n SplitStrategy.walk_forward (some p) r e c params b h =
    rw (← some-injective h) (walk_forward-IsCleared n p (ground arith))
chosen-IsCleared n SplitStrategy.rolling_window w (some p) e c params b h =
    rw (← some-injective h) (
      rolling_window_splits n p,
      refl,
      audit_from-IsForward n 0 (rolling_window_splits n p) SplitStrategy.rolling_window refl
          (rolling_window_splits-IsForward n p),
    )
chosen-IsCleared n SplitStrategy.expanding_window w r (some p) c params b h =
    rw (← some-injective h) (
      expanding_window_splits n p,
      refl,
      audit_from-IsForward n 0 (expanding_window_splits n p) SplitStrategy.expanding_window refl
          (expanding_window_splits-IsForward n p),
    )
chosen-IsCleared n SplitStrategy.purged_cv w r e (some p) params b h =
    rw (← some-injective h) (purged_cv-IsCleared n p)
chosen-IsCleared n SplitStrategy.walk_forward none r e c params b h = ground arith
chosen-IsCleared n SplitStrategy.rolling_window w none e c params b h = ground arith
chosen-IsCleared n SplitStrategy.expanding_window w r none c params b h = ground arith
chosen-IsCleared n SplitStrategy.purged_cv w r e none params b h = ground arith

-- For every request that the API accepts, and any number of rows, the splitter that the request
-- asks for ends, and the leakage audit has nothing to object to its folds.
pub compute_splits-IsCleared :
    (n : ℕ) (r : SplitRequest) (params : SplitParams)
    → accepts r ≡ true
    → to_split_params r ≡ some params
    → (folds : List Fold) × (compute_splits n params ≡ some folds)
      × (audit_fold_integrity folds r.split_strategy ≡ [])
unfolding to_split_params accepts
compute_splits-IsCleared n r params a e =
    chosen-IsCleared n r.split_strategy r.walk_forward r.rolling_window r.expanding_window
      r.purged_cv params (ground arith) e
