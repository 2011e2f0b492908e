-- ===== src/Audit/Chain.antt =====
-- The entries and the hash chain of
-- backend/audit-ledger/src/aqros_audit_ledger/domain/chain.py. The texts in `detail` are not modelled.
use Prim.Native.String.{◌++◌ as concat}
use aqros.Shared.{
  ℕ, ◌+◌, String, Bool, true, false, Option, none, some, List, [], ◌∷◌, not, if◌then◌else◌,
}
use aqros.Shared.Text.{str_eq}

-- What the chain uses of the standard library: the types of times and payloads with their texts
-- (`isoformat`, and `json.dumps` with sorted keys), and the digest `sha256(text).hexdigest()`.
pub record Codec : Type 1 where
  pub Time : Type 0
  pub Payload : Type 0
  pub isoformat : Time → String
  pub dumps : Payload → String
  pub digest : String → String

abbrev pub genesis_previous_hash : String
genesis_previous_hash = "0000000000000000000000000000000000000000000000000000000000000000"

pub data Outcome : Type 0 where
  allowed denied error : Outcome

abbrev pub outcome_value : Outcome → String
outcome_value allowed = "ALLOWED"
outcome_value denied = "DENIED"
outcome_value error = "ERROR"

pub data ChainVerificationStatus : Type 0 where
  verified tampered broken_link empty : ChainVerificationStatus

pub record ChainVerification : Type 0 where
  pub status : ChainVerificationStatus
  pub entries_checked : ℕ
  pub first_invalid_entry_id : Option String
  pub expected_hash : Option String
  pub actual_hash : Option String

abbrev pub intact : ChainVerificationStatus → Bool
intact verified = true
intact empty = true
intact _ = false

unfoldable pub is_intact : ChainVerification → Bool
is_intact v = intact v.status

-- `separator.join(parts)`
unfoldable pub join : String → List String → String
join separator [] = ""
join separator (p ∷ []) = p
join separator (p ∷ q ∷ ps) = concat p (concat separator (join separator (q ∷ ps)))

module _ (K : Codec) where
  open K use {Time, Payload, isoformat, dumps, digest}

  pub record AuditEntry : Type 0 where
    pub entry_id : String
    pub recorded_at : Time
    pub event_type : String
    pub actor_id : String
    pub action : String
    pub resource : String
    pub outcome : Outcome
    pub payload : Payload
    pub correlation_id : String
    pub previous_hash : String
    pub entry_hash : String

  -- The text that is hashed.
  unfoldable pub hashed_text : AuditEntry → String
  hashed_text e = join "\u{1f}" (
      e.entry_id
      ∷ isoformat e.recorded_at
      ∷ e.event_type
      ∷ e.actor_id
      ∷ e.action
      ∷ e.resource
      ∷ outcome_value e.outcome
      ∷ dumps e.payload
      ∷ e.correlation_id
      ∷ e.previous_hash
      ∷ [])

  unfoldable pub compute_hash : AuditEntry → String
  compute_hash e = digest (hashed_text e)

  unfoldable pub sealed : AuditEntry → AuditEntry
  sealed e = record e { entry_hash = compute_hash e }

  abbrev pub previous_of : Option AuditEntry → String
  previous_of none = genesis_previous_hash
  previous_of (some p) = p.entry_hash

  unfoldable pub chain : Option AuditEntry → AuditEntry → AuditEntry
  unfolding sealed
  chain previous draft =
      sealed (record draft { previous_hash = previous_of previous; entry_hash = "" })

  abbrev failure : ChainVerificationStatus → ℕ → AuditEntry → String → String → ChainVerification
  failure status checked e expected actual = record {
    status = status;
    entries_checked = checked;
    first_invalid_entry_id = some e.entry_id;
    expected_hash = some expected;
    actual_hash = some actual;
  }

  abbrev success : ChainVerificationStatus → ℕ → ChainVerification
  success status checked = record {
    status = status;
    entries_checked = checked;
    first_invalid_entry_id = none;
    expected_hash = none;
    actual_hash = none;
  }

  -- The loop over the entries.
  unfoldable pub verify_from : String → ℕ → List AuditEntry → ChainVerification
  verify_from expected checked [] = success verified checked
  verify_from expected checked (e ∷ es) =
      let rest = verify_from e.entry_hash (checked + 1) es in
      if not (str_eq e.previous_hash expected)
      then failure broken_link checked e expected e.previous_hash
      else if not (str_eq (compute_hash e) e.entry_hash)
      then failure tampered checked e (compute_hash e) e.entry_hash
      else rest

  unfoldable pub verify_chain : List AuditEntry → ChainVerification
  verify_chain [] = success empty 0
  verify_chain (e ∷ es) = verify_from genesis_previous_hash 0 (e ∷ es)
