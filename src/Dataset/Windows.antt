-- ===== src/Dataset/Windows.antt =====
-- The splitters that look forward (domain/splitters.py of backend/dataset-builder): how far the
-- sliding window goes, and the order of the roles in a window.
use native.Mathlib.Nat.{zero-add}
use aqros.Shared.{
  ℕ, zero, suc, ◌+◌, ◌-◌, ◌*◌, ◌≤◌, ◌<◌, ◌≡◌, ◌∙◌, refl, inl, inr, Option, none, some, List, [],
  ◌∷◌, leb, if◌then◌else◌, arith, All, leb-cases, ltb-cases, ==-cases,
}
use aqros.Dataset.Splits.{
  SplitRole, WalkForwardParams, RollingWindowParams, ExpandingWindowParams, Fold, set_role, assign,
  window, walk_forward_span, walk_forward_fold, prepend, walk_forward_from, walk_forward_splits,
  rolling_window_splits, expanding_window_splits,
}

-- Row `i` of role `r` lies where the role may: training before `b`, validation from `b` to `c`, and
-- testing from `c` to `n`.
abbrev pub IsPlaced : ℕ → ℕ → ℕ → ℕ × SplitRole → Type 0
IsPlaced n b c (i, SplitRole.train) = (i < b) × (i < n)
IsPlaced n b c (i, SplitRole.validation) = (b ≤ i) × (i < c) × (i < n)
IsPlaced n b c (i, SplitRole.test) = (b ≤ i) × (c ≤ i) × (i < n)

-- Every row that is trained on comes before every row that is validated on, and these before every
-- row that is tested on; all rows exist.
abbrev pub IsForward : ℕ → Fold → Type 0
IsForward n f = (b : ℕ) × ((c : ℕ) × All (IsPlaced n b c) f)

pub All-set_role :
    (P : ℕ × SplitRole → Type 0) (i : ℕ) (r : SplitRole) (f : Fold)
    → P (i, r)
    → All P f
    → All P (set_role i r f)
unfolding set_role
All-set_role P i r [] p h = (p, tt)
All-set_role P i r ((j, s) ∷ f) p (q, h) = elim (==-cases j i) [
  | inl (e, eq) ↦ rw e (rw eq p, h)
  | inr (e, ne) ↦ rw e (q, All-set_role P i r f p h)
]

-- The rows of a range get a role that the predicate allows them.
All-assign :
    (P : ℕ × SplitRole → Type 0) (count i : ℕ) (r : SplitRole) (f : Fold)
    → ((j : ℕ) → i ≤ j → j < i + count → P (j, r))
    → All P f
    → All P (assign count i r f)
unfolding assign
All-assign P zero i r f p h = h
All-assign P (suc count) i r f p h =
    All-assign P count (suc i) r (set_role i r f) (λ j l g. p j (omega arith) (omega arith))
      (All-set_role P i r f (p i (omega arith) (omega arith)) h)

-- A window within the series looks forward.
pub window-IsForward :
    (n a b c d : ℕ) → a ≤ b → b ≤ c → c ≤ d → d ≤ n → IsForward n (window a b c d)
unfolding window
window-IsForward n a b c d h1 h2 h3 h4 = (
  b,
  (
    c,
    All-assign (IsPlaced n b c) (d - c) c SplitRole.test _ (λ j l g. ground arith)
        (All-assign (IsPlaced n b c) (c - b) b SplitRole.validation _ (λ j l g. ground arith)
          (All-assign (IsPlaced n b c) (b - a) a SplitRole.train [] (λ j l g. ground arith) tt)),
  ),
)

pub walk_forward_fold-IsForward :
    (n : ℕ) (p : WalkForwardParams) (start : ℕ)
    → start + walk_forward_span p ≤ n
    → IsForward n (walk_forward_fold p start)
unfolding walk_forward_fold
walk_forward_fold-IsForward n p start h =
    window-IsForward n start _ _ _ (omega arith) (omega arith) (omega arith) (omega arith)

pub rolling_window_splits-IsForward :
    (n : ℕ) (p : RollingWindowParams) → All (IsForward n) (rolling_window_splits n p)
unfolding rolling_window_splits
rolling_window_splits-IsForward n p =
    elim (ltb-cases n (p.train_size + p.validation_size + p.test_size)) [
      | inl (e, le) ↦ rw e tt
      | inr (e, gt) ↦
          rw e
            (window-IsForward n _ _ _ _ (omega arith) (omega arith) (omega arith) (omega arith), tt)
    ]

pub expanding_window_splits-IsForward :
    (n : ℕ) (p : ExpandingWindowParams) → All (IsForward n) (expanding_window_splits n p)
unfolding expanding_window_splits
expanding_window_splits-IsForward n p = elim (leb-cases n (p.validation_size + p.test_size)) [
  | inl (e, le) ↦ rw e tt
  | inr (e, gt) ↦
      rw e (window-IsForward n _ _ _ _ (omega arith) (omega arith) (omega arith) (omega arith), tt)
]

-- With fuel for the steps that are left, the loop ends, and all its folds look forward.
walk_forward_from-IsForward :
    (fuel n : ℕ) (p : WalkForwardParams) (start : ℕ)
    → 0 < p.step_size
    → suc n - start < fuel
    → (folds : List Fold) × (walk_forward_from fuel n p start ≡ some folds)
      × All (IsForward n) folds
unfolding walk_forward_from
walk_forward_from-IsForward zero n p start s h = elim h [ ]
walk_forward_from-IsForward (suc fuel) n p start s h =
    elim (leb-cases (start + walk_forward_span p) n) [
      | inr (e, gt) ↦ rw e ([], refl, tt)
      | inl (e, le) ↦
          let (folds, eq, all) =
            walk_forward_from-IsForward fuel n p (start + p.step_size) s (omega arith) in
          rw e (
            rw eq (
              walk_forward_fold p start ∷ folds,
              refl,
              (walk_forward_fold-IsForward n p start le, all),
            ))
    ]

pub walk_forward_splits-IsForward :
    (n : ℕ) (p : WalkForwardParams)
    → 0 < p.step_size
    → (folds : List Fold) × (walk_forward_splits n p ≡ some folds) × All (IsForward n) folds
unfolding walk_forward_splits
walk_forward_splits-IsForward n p s =
    walk_forward_from-IsForward (suc (suc n)) n p 0 s (omega arith)

-- `xs[k]`, if it exists.
abbrev pub get_elem? : {A : Type 0} → List A → ℕ → Option A
get_elem? [] k = none
get_elem? (x ∷ xs) zero = some x
get_elem? (x ∷ xs) (suc k) = get_elem? xs k

-- What a result holds at place `k`.
abbrev pub at : {A : Type 0} → ℕ → Option (List A) → Option (Option A)
at k none = none
at k (some xs) = some (get_elem? xs k)

at-prepend : {A : Type 0} (k : ℕ) (x : A) (o : Option (List A)) → at (suc k) (prepend x o) ≡ at k o
at-prepend k x none = refl
at-prepend k x (some xs) = refl

next_start : (start k step : ℕ) → start + suc k * step ≡ start + step + k * step
next_start start k step = grind arith

no_step : (start step : ℕ) → start + 0 * step ≡ start
no_step start step = grind arith

walk_forward_from-at :
    (fuel n : ℕ) (p : WalkForwardParams) (start k : ℕ)
    → 0 < p.step_size
    → suc n - start < fuel
    → at k (walk_forward_from fuel n p start)
      ≡ some (
          if leb (start + k * p.step_size + walk_forward_span p) n
          then some (walk_forward_fold p (start + k * p.step_size))
          else none)
unfolding walk_forward_from
walk_forward_from-at zero n p start k s h = elim h [ ]
walk_forward_from-at (suc fuel) n p start zero s h =
    rw (no_step start p.step_size) (elim (leb-cases (start + walk_forward_span p) n) [
      | inr (e, gt) ↦ rw e refl
      | inl (e, le) ↦
          let (folds, eq, all) =
            walk_forward_from-IsForward fuel n p (start + p.step_size) s (omega arith) in
          rw e (rw eq refl)
    ])
walk_forward_from-at (suc fuel) n p start (suc k) s h =
    elim (leb-cases (start + walk_forward_span p) n) [
      | inr (e, gt) ↦ elim (leb-cases (start + suc k * p.step_size + walk_forward_span p) n) [
        | inl (e2, le) ↦ ground arith
        | inr (e2, gt2) ↦ rw e (rw e2 refl)
      ]
      | inl (e, le) ↦ rw e (
          rw (next_start start k p.step_size) (
            at-prepend k _ _
            ∙ walk_forward_from-at fuel n p (start + p.step_size) k s (omega arith)))
    ]

-- If the step is positive, the sliding window ends, and its fold at place `k` is the window that
-- starts `k` steps from the first row, which is there exactly when that window ends within the
-- series.
pub walk_forward_splits-at :
    (n : ℕ) (p : WalkForwardParams) (k : ℕ)
    → 0 < p.step_size
    → at k (walk_forward_splits n p)
      ≡ some (
          if leb (k * p.step_size + walk_forward_span p) n
          then some (walk_forward_fold p (k * p.step_size))
          else none)
unfolding walk_forward_splits
walk_forward_splits-at n p k s =
    simp zero-add at (walk_forward_from-at (suc (suc n)) n p 0 k s (omega arith))
