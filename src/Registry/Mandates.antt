-- ===== src/Registry/Mandates.antt =====
-- The approved requests that stand behind the versions in production (domain/services.py and
-- adapters/repository.py of backend/model-registry).
use aqros.Shared.{
  ℕ, zero, suc, ◌≤◌, String, ◌≡◌, refl, inl, inr, true, some, List, [], ◌∷◌, ◌++◌, arith, All, Any,
  some-injective,
}
use aqros.Registry.Lifecycle.{LifecycleState, ApprovalState, Approval, four_eyes_satisfied}
use aqros.Registry.Store.{
  PromotionRequest, ModelVersion, get_request, add_approval, set_request_state,
}
use aqros.Registry.Approving.{is_pending}
use aqros.Registry.Tables.{production_count, IsKeyed}

-- The request was approved by four eyes, and is one to move the version into production.
abbrev pub IsMandate : String → ℕ → PromotionRequest → Type 0
IsMandate name v r =
    (r.model_name ≡ name)
    × (r.version ≡ v)
    × (r.to_state ≡ LifecycleState.production)
    × (r.approval_state ≡ ApprovalState.approved)
    × (four_eyes_satisfied r.requester r.approvals ≡ true)

-- A mandate is approved, so what changes a pending request leaves it.
pub Any-add_approval :
    (name : String) (v id : ℕ) (a : Approval) (rs : List PromotionRequest) (r : PromotionRequest)
    → get_request id rs ≡ some r
    → is_pending r.approval_state ≡ true
    → Any (IsMandate name v) rs
    → Any (IsMandate name v) (add_approval id a rs)
unfolding get_request add_approval
Any-add_approval name v id a [] r h p any = elim any [ ]
Any-add_approval name v zero a (q ∷ rs) r h p (inl (x, y, z, w, f)) =
    ground (arith, some-injective h)
Any-add_approval name v zero a (q ∷ rs) r h p (inr any) = inr any
Any-add_approval name v (suc id) a (q ∷ rs) r h p (inl m) = inl m
Any-add_approval name v (suc id) a (q ∷ rs) r h p (inr any) =
    inr (Any-add_approval name v id a rs r h p any)

pub Any-set_request_state :
    (name : String) (v id : ℕ) (s : ApprovalState) (rs : List PromotionRequest)
    (r : PromotionRequest)
    → get_request id rs ≡ some r
    → is_pending r.approval_state ≡ true
    → Any (IsMandate name v) rs
    → Any (IsMandate name v) (set_request_state id s rs)
unfolding get_request set_request_state
Any-set_request_state name v id s [] r h p any = elim any [ ]
Any-set_request_state name v zero s (q ∷ rs) r h p (inl (x, y, z, w, f)) =
    ground (arith, some-injective h)
Any-set_request_state name v zero s (q ∷ rs) r h p (inr any) = inr any
Any-set_request_state name v (suc id) s (q ∷ rs) r h p (inl m) = inl m
Any-set_request_state name v (suc id) s (q ∷ rs) r h p (inr any) =
    inr (Any-set_request_state name v id s rs r h p any)

pub get_request-add_approval :
    (id : ℕ) (a : Approval) (rs : List PromotionRequest) (r : PromotionRequest)
    → get_request id rs ≡ some r
    → get_request id (add_approval id a rs) ≡ some (record r { approvals = r.approvals ++ a ∷ [] })
unfolding get_request add_approval
get_request-add_approval id a [] r h = ground arith
get_request-add_approval zero a (q ∷ rs) r h = rw (← some-injective h) refl
get_request-add_approval (suc id) a (q ∷ rs) r h = get_request-add_approval id a rs r h

-- A request that is settled as approved is a mandate, if it was a request for production and has its
-- approvals.
pub Any-settled :
    (name : String) (v id : ℕ) (rs : List PromotionRequest) (r : PromotionRequest)
    → get_request id rs ≡ some r
    → IsMandate name v (record r { approval_state = ApprovalState.approved })
    → Any (IsMandate name v) (set_request_state id ApprovalState.approved rs)
unfolding get_request set_request_state
Any-settled name v id [] r h m = ground arith
Any-settled name v zero (q ∷ rs) r h m = inl (rw (some-injective h) m)
Any-settled name v (suc id) (q ∷ rs) r h m = inr (Any-settled name v id rs r h m)

module _ {Pinned : Type 0} where
  -- A version in production has a mandate.
  abbrev pub IsPromotedAs : List PromotionRequest → ModelVersion Pinned → LifecycleState → Type 0
  IsPromotedAs rs m LifecycleState.production = Any (IsMandate m.model_name m.version) rs
  IsPromotedAs rs m _ = Unit

  abbrev pub IsPromoted : List PromotionRequest → ModelVersion Pinned → Type 0
  IsPromoted rs m = IsPromotedAs rs m m.lifecycle_state

  -- At most one version of each model is in production, and each has a mandate.
  abbrev pub IsSound : List (ModelVersion Pinned) → List PromotionRequest → Type 0
  IsSound ms rs = IsKeyed ms × ((k : String) → production_count k ms ≤ 1) × All (IsPromoted rs) ms
