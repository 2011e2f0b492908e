-- ===== src/Audit/Ledger.antt =====
-- The append-only repository of backend/audit-ledger/src/aqros_audit_ledger/adapters/inmemory.py,
-- with the entries in the order in which they were appended, and the service of domain/service.py.
-- `recorded_at` and `new_id` are the clock's time and the fresh identifier.
use aqros.Shared.{
  ℕ, String, Bool, true, false, Option, none, some, List, [], ◌∷◌, ◌++◌, length, if◌then◌else◌,
}
use aqros.Shared.Text.{str_eq}
use aqros.Audit.Chain.{
  Codec, Outcome, AuditEntry, genesis_previous_hash, ChainVerification, chain, verify_chain,
}

module _ (K : Codec) where
  open K use {Time, Payload}

  pub record AppendRequest : Type 0 where
    pub event_type : String
    pub actor_id : String
    pub action : String
    pub resource : String
    pub outcome : Outcome
    pub payload : Payload
    pub correlation_id : String
    pub entry_id : Option String

  abbrev pub Entries : Type 0
  Entries = List (AuditEntry K)

  -- `get`
  unfoldable pub get : String → Entries → Option (AuditEntry K)
  get k [] = none
  get k (e ∷ es) = if str_eq e.entry_id k then some e else get k es

  unfoldable pub head : Entries → Option (AuditEntry K)
  head [] = none
  head (e ∷ []) = some e
  head (e ∷ f ∷ es) = head (f ∷ es)

  abbrev add_new : Option (AuditEntry K) → AuditEntry K → Entries → AuditEntry K × Entries
  add_new none e es = (e, es ++ e ∷ [])
  add_new (some existing) e es = (existing, es)

  -- `append` of the repository: an identifier that is taken gives the entry that has it.
  unfoldable pub append_entry : AuditEntry K → Entries → AuditEntry K × Entries
  append_entry e es = add_new (get e.entry_id es) e es

  -- `request.entry_id or fresh`: an empty identifier counts as none.
  abbrev pub or_fresh : Option String → String → String
  or_fresh none new_id = new_id
  or_fresh (some k) new_id = if str_eq k "" then new_id else k

  unfoldable pub draft_of : Time → String → AppendRequest → AuditEntry K
  draft_of recorded_at new_id r = record {
    entry_id = or_fresh r.entry_id new_id;
    recorded_at = recorded_at;
    event_type = r.event_type;
    actor_id = r.actor_id;
    action = r.action;
    resource = r.resource;
    outcome = r.outcome;
    payload = r.payload;
    correlation_id = r.correlation_id;
    previous_hash = genesis_previous_hash;
    entry_hash = "";
  }

  -- `append` of the service.
  unfoldable pub append : Time → String → AppendRequest → Entries → AuditEntry K × Entries
  append recorded_at new_id r es =
      append_entry (chain K (head es) (draft_of recorded_at new_id r)) es

  -- `rows[ids.index(start) :]`, and nothing if no entry has the identifier.
  abbrev pub from_id : String → Entries → Entries
  from_id k [] = []
  from_id k (e ∷ es) = if str_eq e.entry_id k then e ∷ es else from_id k es

  abbrev has_id : String → Entries → Bool
  has_id k [] = false
  has_id k (e ∷ es) = if str_eq e.entry_id k then true else has_id k es

  -- `rows[: ids.index(end) + 1]`, for an identifier that some entry has.
  abbrev up_to_id : String → Entries → Entries
  up_to_id k [] = []
  up_to_id k (e ∷ es) = if str_eq e.entry_id k then e ∷ [] else e ∷ up_to_id k es

  abbrev start_at : Option String → Entries → Entries
  start_at none es = es
  start_at (some k) es = from_id k es

  abbrev end_at : Option String → Entries → Entries
  end_at none es = es
  end_at (some k) es = if has_id k es then up_to_id k es else []

  unfoldable pub range_for_verification : Option String → Option String → Entries → Entries
  range_for_verification start_id end_id es = end_at end_id (start_at start_id es)

  unfoldable pub verify : Option String → Option String → Entries → ChainVerification
  verify start_id end_id es = verify_chain K (range_for_verification start_id end_id es)

  unfoldable pub count : Entries → ℕ
  count es = length es
