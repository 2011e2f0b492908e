-- ===== src/Registry/Gates.antt =====
-- The gates and the four-eyes test of the model registry (domain/lifecycle.py and domain/approval.py
-- of backend/model-registry).
use aqros.Shared.{
  String, ◌≡◌, ◌≢◌, ◌↔◌, ◌⊎◌, ◌∙◌, refl, sym, inl, inr, Bool, true, false, ◌||◌, Option, none, some,
  List, [], ◌∷◌, length, leb, arith, Any, Any-map, Bool-cases,
}
use aqros.Shared.Text.{str_eq, eq_iff}
use aqros.Registry.Lifecycle.{
  LifecycleState, GateKind, human, approve_decision, Approval, transition_allowed, gate_for,
  contains, add, counts, distinct_approvers, four_eyes_satisfied,
}

abbrev pub has_gate : Option GateKind → Bool
has_gate none = false
has_gate (some gate) = true

abbrev pub is_four_eyes : Option GateKind → Bool
is_four_eyes (some GateKind.four_eyes) = true
is_four_eyes _ = false

-- A transition has a gate exactly when it is legal, and every legal transition into PRODUCTION, be it
-- a rollback or not, is gated by four eyes.
pub gate_for-transition_allowed :
    (from_state to_state : LifecycleState) (is_rollback : Bool)
    → (has_gate (gate_for from_state to_state is_rollback)
        ≡ transition_allowed from_state to_state is_rollback)
      × (is_four_eyes (gate_for from_state LifecycleState.production is_rollback)
          ≡ transition_allowed from_state LifecycleState.production is_rollback)
gate_for-transition_allowed from_state to_state is_rollback = (ground arith, ground arith)

-- Only four eyes guard a transition into PRODUCTION.
pub gate_for-production :
    (from_state : LifecycleState) (is_rollback : Bool) (gate : GateKind)
    → gate_for from_state LifecycleState.production is_rollback ≡ some gate
    → gate ≡ GateKind.four_eyes
gate_for-production from_state is_rollback gate h = ground arith

-- The person is human, is not the requester, and approves.
abbrev pub IsVote : String → List Approval → String → Type 0
IsVote requester approvals x =
    Any
      (λ a.
        (a.approver ≡ x)
        × (a.approver_kind ≡ human)
        × (a.decision ≡ approve_decision)
        × (a.approver ≢ requester))
      approvals

abbrev IsCounted : String → List Approval → String → Type 0
IsCounted requester approvals x =
    Any (λ a. (a.approver ≡ x) × (counts requester a ≡ true)) approvals

counts-true :
    (requester : String) (a : Approval)
    → counts requester a ≡ true
    → (a.approver_kind ≡ human) × (a.decision ≡ approve_decision) × (a.approver ≢ requester)
unfolding counts
counts-true requester a h = ground (arith, eq_iff a.approver requester)

counts_vote :
    (requester : String) (a : Approval)
    → a.approver_kind ≡ human
    → a.decision ≡ approve_decision
    → a.approver ≢ requester
    → counts requester a ≡ true
unfolding counts
counts_vote requester a k d n = ground (arith, eq_iff a.approver requester)

abbrev IsDistinct : List String → Type 0
IsDistinct [] = Unit
IsDistinct (x ∷ xs) = (contains x xs ≡ false) × IsDistinct xs

add-IsDistinct : (x : String) (names : List String) → IsDistinct names → IsDistinct (add x names)
add-IsDistinct x names h = elim (Bool-cases (contains x names)) [
  | inl e ↦ rw e h
  | inr e ↦ rw e (e, h)
]

distinct_approvers-IsDistinct :
    (requester : String) (approvals : List Approval) (names : List String)
    → IsDistinct names
    → IsDistinct (distinct_approvers requester approvals names)
unfolding distinct_approvers
distinct_approvers-IsDistinct requester [] names h = h
distinct_approvers-IsDistinct requester (a ∷ approvals) names h =
    elim (Bool-cases (counts requester a)) [
      | inl e ↦ rw e (
          distinct_approvers-IsDistinct requester approvals (add a.approver names)
            (add-IsDistinct a.approver names h))
      | inr e ↦ rw e (distinct_approvers-IsDistinct requester approvals names h)
    ]

contains-add :
    (x y : String) (names : List String)
    → contains x (add y names) ≡ (str_eq y x || contains x names)
unfolding contains
contains-add x y names = elim (Bool-cases (contains y names)) [
  | inr e ↦ rw e refl
  | inl e ↦ rw e (elim (Bool-cases (str_eq y x)) [
    | inl t ↦ rw t (rw (← (eq_iff y x).0 t) e)
    | inr t ↦ rw t refl
  ])
]

-- Who is in the set: who was in it, and who gave a vote that counts.
contains-distinct_approvers :
    (requester x : String) (approvals : List Approval) (names : List String)
    → (contains x (distinct_approvers requester approvals names) ≡ true)
      ↔ ((contains x names ≡ true) ⊎ IsCounted requester approvals x)
unfolding distinct_approvers
contains-distinct_approvers requester x [] names =
    (λ h. inl h, λ h. elim h [ inl e ↦ e | inr e ↦ elim e [ ] ])
contains-distinct_approvers requester x (a ∷ approvals) names =
    elim (Bool-cases (counts requester a)) [
      | inr e ↦ rw e (
          let (f, g) = contains-distinct_approvers requester x approvals names in
          (
            λ h. elim (f h) [ inl c ↦ inl c | inr v ↦ inr (inr v) ],
            λ h. elim h [
              | inl c ↦ g (inl c)
              | inr v ↦ elim v [ inl (q, t) ↦ ground arith | inr w ↦ g (inr w) ]
            ],
          ))
      | inl e ↦ rw e (
          let (f, g) = contains-distinct_approvers requester x approvals (add a.approver names) in
          (
            λ h. elim (f h) [
              | inl c ↦ elim (Bool-cases (str_eq a.approver x)) [
                | inl t ↦ inr (inl ((eq_iff a.approver x).0 t, refl))
                | inr t ↦ inl (ground (arith, contains-add x a.approver names))
              ]
              | inr v ↦ inr (inr v)
            ],
            λ h. elim h [
              | inl c ↦ g (inl (ground (arith, contains-add x a.approver names)))
              | inr v ↦ elim v [
                | inl (q, t) ↦ g (
                    inl
                      (ground (arith, contains-add x a.approver names, (eq_iff a.approver x).1 q)))
                | inr w ↦ g (inr w)
              ]
            ],
          ))
    ]

two_members :
    (xs : List String) (x y : String)
    → x ≢ y
    → contains x xs ≡ true
    → contains y xs ≡ true
    → leb 2 (length xs) ≡ true
unfolding contains
two_members [] x y d h g = ground arith
two_members (z ∷ []) x y d h g =
    elim (d (sym ((eq_iff z x).0 (ground arith)) ∙ (eq_iff z y).0 (ground arith))) [ ]
two_members (z ∷ w ∷ xs) x y d h g = ground arith

first_two :
    (xs : List String)
    → IsDistinct xs
    → leb 2 (length xs) ≡ true
    → (x : String) × ((y : String) × ((x ≢ y) × (contains x xs ≡ true) × (contains y xs ≡ true)))
unfolding contains
first_two [] d h = ground arith
first_two (x ∷ []) d h = ground arith
first_two (x ∷ y ∷ xs) (n, d) h = (
  x,
  (
    y,
    (
      λ e. ground (arith, (eq_iff y x).1 (sym e)),
      ground (arith, (eq_iff x x).1 refl),
      ground (arith, (eq_iff y y).1 refl),
    ),
  ),
)

-- Four eyes are satisfied exactly when two different human persons, neither of them the requester,
-- approve.
pub four_eyes_satisfied_lem :
    (requester : String) (approvals : List Approval)
    → (four_eyes_satisfied requester approvals ≡ true) ↔ (
        (x : String) × ((y : String) × ((x ≢ y)
            × IsVote requester approvals x
            × IsVote requester approvals y)))
unfolding four_eyes_satisfied contains
four_eyes_satisfied_lem requester approvals = (
  λ h.
      let (x, (y, (d, c, e))) =
        first_two (distinct_approvers requester approvals [])
          (distinct_approvers-IsDistinct requester approvals [] tt) h in
      (x, (y, (d, vote x c, vote y e))),
  λ (x, (y, (d, v, w))).
      two_members (distinct_approvers requester approvals []) x y d (member x v) (member y w),
)
  where
    vote :
        (x : String)
        → contains x (distinct_approvers requester approvals []) ≡ true
        → IsVote requester approvals x
    vote x c = elim ((contains-distinct_approvers requester x approvals []).0 c) [
      | inl e ↦ ground arith
      | inr v ↦
          Any-map (λ a (e, c). let (k, d, n) = counts-true requester a c in (e, k, d, n)) approvals
            v
    ]

    member :
        (x : String)
        → IsVote requester approvals x
        → contains x (distinct_approvers requester approvals []) ≡ true
    member x v =
        (contains-distinct_approvers requester x approvals []).1
          (inr (Any-map (λ a (e, k, d, n). (e, counts_vote requester a k d n)) approvals v))
