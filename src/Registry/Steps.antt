-- ===== src/Registry/Steps.antt =====
-- The calls that put no version into production (domain/services.py of backend/model-registry) leave
-- the tables sound.
use aqros.Shared.{
  ℕ, String, ◌≡◌, ◌∙◌, ap, refl, inl, inr, true, false, Option, none, some, List, [], ◌∷◌, ◌++◌,
  arith, Any-append, Bool-cases,
}
use aqros.Shared.Action.{after}
use aqros.Registry.Lifecycle.{
  LifecycleState, ApprovalState, GateKind, PrincipalKind, transition_allowed, gate_for,
}
use aqros.Registry.Store.{
  ValidationEvidence, PromotionRequest, AuditAction, ModelVersion, Tables, get,
  attach_validation_evidence, is_production, get_request,
}
use aqros.Registry.Service.{
  Result, was_in_production, is_duplicate, create_model_version, apply_transition, park, pass_gate,
  with_version, request_transition,
}
use aqros.Registry.Approving.{is_pending, with_pending, reject, rollback}
use aqros.Registry.Tables.{get-has_key, get-attach_found}
use aqros.Registry.Mandates.{
  IsSound, Any-add_approval, Any-set_request_state, get_request-add_approval,
}
use aqros.Registry.Soundness.{requests-IsSound, leave-IsSound, attach-IsSound, register-IsSound}

module _ {Pinned : Type 0} where
  abbrev pub IsSoundTables : Tables Pinned → Type 0
  IsSoundTables t = IsSound t.versions t.requests

  -- A call keeps the tables sound if each row that it finds does.
  with_version-IsSound :
      (o : Option (ModelVersion Pinned)) (use_it : ModelVersion Pinned → Result Pinned)
      (t : Tables Pinned)
      → IsSoundTables t
      → ((m : ModelVersion Pinned) → o ≡ some m → IsSoundTables (after (use_it m)))
      → IsSoundTables (after (with_version o use_it t))
  with_version-IsSound none use_it t s f = s
  with_version-IsSound (some m) use_it t s f = f m refl

  pub with_pending-IsSound :
      (o : Option PromotionRequest) (use_it : PromotionRequest → Result Pinned) (t : Tables Pinned)
      → IsSoundTables t
      → ((r : PromotionRequest)
          → o ≡ some r
          → is_pending r.approval_state ≡ true
          → IsSoundTables (after (use_it r)))
      → IsSoundTables (after (with_pending o use_it t))
  with_pending-IsSound none use_it t s f = s
  with_pending-IsSound (some r) use_it t s f = elim (Bool-cases (is_pending r.approval_state)) [
    | inl p ↦ rw p (f r refl p)
    | inr p ↦ rw p s
  ]

  park-IsSound :
      (r : PromotionRequest) (action : AuditAction) (state : LifecycleState)
      (correlation_id : String) (t : Tables Pinned)
      → IsSoundTables t
      → IsSoundTables (after (park r action state correlation_id t))
  unfolding park
  park-IsSound r action state correlation_id t s = elim (Bool-cases (is_duplicate r t.requests)) [
    | inl e ↦ rw e s
    | inr e ↦ rw e (
        requests-IsSound t.versions t.requests (t.requests ++ r ∷ [])
          (λ name v any. Any-append _ t.requests (r ∷ []) any) s)
  ]

  pub create_model_version-IsSound :
      (o : Option (ModelVersion Pinned)) (m : ModelVersion Pinned) (t : Tables Pinned)
      → get m.model_name m.version t.versions ≡ o
      → m.lifecycle_state ≡ LifecycleState.registered
      → IsSoundTables t
      → IsSoundTables (after (create_model_version o m t))
  create_model_version-IsSound none m t e r s = register-IsSound t.requests t.versions m e r s
  create_model_version-IsSound (some n) m t e r s = s

  pub get_self :
      (name : String) (v : ℕ) (ms : List (ModelVersion Pinned)) (m : ModelVersion Pinned)
      → get name v ms ≡ some m
      → get m.model_name m.version ms ≡ some m
  get_self name v ms m h =
      let (a, b) = get-has_key name v ms m h in
      ap (λ k. get k m.version ms) a ∙ ap (λ w. get name w ms) b ∙ h

  -- The gates that apply at once lead to states other than production.
  pass_gate-IsSound :
      (g : Option GateKind) (m : ModelVersion Pinned) (to_state : LifecycleState)
      (requester justification correlation_id : String) (e : Option ValidationEvidence) (now : ℕ)
      (t : Tables Pinned)
      → get m.model_name m.version t.versions ≡ some m
      → gate_for m.lifecycle_state to_state false ≡ g
      → IsSoundTables t
      → IsSoundTables
          (after (pass_gate g m to_state requester justification correlation_id e now t))
  unfolding apply_transition
  pass_gate-IsSound none m to_state requester justification correlation_id e now t h g s = s
  pass_gate-IsSound (some GateKind.evidence) m to_state requester justification correlation_id none
        now t h g s =
      s
  pass_gate-IsSound (some GateKind.evidence) m to_state requester justification correlation_id
        (some e) now t h g s =
      leave-IsSound t.requests m.model_name m.version to_state
        (attach_validation_evidence m.model_name m.version e t.versions)
        (record m { validation_evidence = some e })
        (get-attach_found m.model_name m.version e t.versions m h)
        (evidence_gate m.lifecycle_state to_state g)
        (attach-IsSound t.requests m.model_name m.version e t.versions s)
    where
      evidence_gate :
          (from_state to_state : LifecycleState)
          → gate_for from_state to_state false ≡ some GateKind.evidence
          → is_production to_state ≡ false
      evidence_gate from_state to_state h = ground arith
  pass_gate-IsSound (some GateKind.no_gate) m to_state requester justification correlation_id e now
        t h g s =
      elim (Bool-cases (is_production to_state)) [
        | inl p ↦ rw p s
        | inr p ↦ rw p (leave-IsSound t.requests m.model_name m.version to_state t.versions m h p s)
      ]
  pass_gate-IsSound (some GateKind.single_approval) m to_state requester justification
        correlation_id e now t h g s =
      park-IsSound _ AuditAction.transition_requested m.lifecycle_state correlation_id t s
  pass_gate-IsSound (some GateKind.four_eyes) m to_state requester justification correlation_id e
        now t h g s =
      park-IsSound _ AuditAction.transition_requested m.lifecycle_state correlation_id t s

  pub request_transition-IsSound :
      (name : String) (v : ℕ) (to_state : LifecycleState)
      (requester justification correlation_id : String) (e : Option ValidationEvidence) (now : ℕ)
      (t : Tables Pinned)
      → IsSoundTables t
      → IsSoundTables (
          after (request_transition name v to_state requester justification correlation_id e now t))
  unfolding request_transition
  request_transition-IsSound name v to_state requester justification correlation_id e now t s =
      with_version-IsSound (get name v t.versions) _ t s (λ m h.
        elim (Bool-cases (transition_allowed m.lifecycle_state to_state false)) [
          | inr n ↦ rw n s
          | inl a ↦ rw a (
              pass_gate-IsSound (gate_for m.lifecycle_state to_state false) m to_state requester
                justification correlation_id e now t (get_self name v t.versions m h) refl s)
        ])

  pub rollback-IsSound :
      (name : String) (v : ℕ) (requester justification correlation_id : String) (now : ℕ)
      (t : Tables Pinned)
      → IsSoundTables t
      → IsSoundTables (after (rollback name v requester justification correlation_id now t))
  unfolding rollback
  rollback-IsSound name v requester justification correlation_id now t s =
      with_version-IsSound (get name v t.versions) _ t s (λ m h.
        elim (Bool-cases (transition_allowed m.lifecycle_state LifecycleState.production true)) [
          | inr n ↦ rw n s
          | inl a ↦ rw a (elim (Bool-cases (was_in_production name v t.history)) [
            | inr n ↦ rw n s
            | inl w ↦
                rw w (
                  park-IsSound _ AuditAction.rollback_requested m.lifecycle_state correlation_id t
                    s)
          ])
        ])

  pub reject-IsSound :
      (id : ℕ) (approver : String) (kind : PrincipalKind) (reason correlation_id : String) (now : ℕ)
      (t : Tables Pinned)
      → IsSoundTables t
      → IsSoundTables (after (reject id approver kind reason correlation_id now t))
  unfolding reject
  reject-IsSound id approver kind reason correlation_id now t s =
      with_pending-IsSound (get_request id t.requests) _ t s (λ r h p.
        requests-IsSound t.versions t.requests _
          (λ name v any.
            Any-set_request_state name v id ApprovalState.rejected _ _
              (get_request-add_approval id _ t.requests r h) p
              (Any-add_approval name v id _ t.requests r h p any))
          s)
