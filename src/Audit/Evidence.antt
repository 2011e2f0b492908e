-- ===== src/Audit/Evidence.antt =====
-- What the hash chain of backend/audit-ledger/src/aqros_audit_ledger/domain/chain.py gives away: an
-- entry that was altered or taken out.
use aqros.Shared.{
  ◌≡◌, ◌≢◌, refl, All, [], arith, sym, ◌∙◌, ◌⊎◌, inl, inr, String, List, ◌∷◌, ◌++◌, Bool-cases,
}
use aqros.Shared.Text.{str_eq, eq_iff}
use aqros.Audit.Joining.{IsFree, join-injective}
use aqros.Audit.Chain.{
  Outcome, allowed, denied, error, outcome_value, Codec, AuditEntry, hashed_text, compute_hash,
}
use aqros.Audit.Verification.{IsChain, differs, IsChain-at}

outcome_value-injective : (o o' : Outcome) → outcome_value o ≡ outcome_value o' → o ≡ o'
outcome_value-injective allowed allowed h = refl
outcome_value-injective denied denied h = refl
outcome_value-injective error error h = refl
outcome_value-injective allowed denied h = cc ((eq_iff "ALLOWED" "DENIED").1 h)
outcome_value-injective allowed error h = cc ((eq_iff "ALLOWED" "ERROR").1 h)
outcome_value-injective denied allowed h = cc ((eq_iff "DENIED" "ALLOWED").1 h)
outcome_value-injective denied error h = cc ((eq_iff "DENIED" "ERROR").1 h)
outcome_value-injective error allowed h = cc ((eq_iff "ERROR" "ALLOWED").1 h)
outcome_value-injective error denied h = cc ((eq_iff "ERROR" "DENIED").1 h)

module _ (K : Codec) where
  -- Two texts with one digest.
  pub record Collision : Type 0 where
    pub one : String
    pub other : String
    pub distinct : one ≢ other
    pub collide : K.digest one ≡ K.digest other

  -- The texts that an entry's hash covers.
  abbrev pub fields : AuditEntry K → List String
  fields e =
      e.entry_id
      ∷ K.isoformat e.recorded_at
      ∷ e.event_type
      ∷ e.actor_id
      ∷ e.action
      ∷ e.resource
      ∷ outcome_value e.outcome
      ∷ K.dumps e.payload
      ∷ e.correlation_id
      ∷ e.previous_hash
      ∷ []

  -- The entries agree in everything but the stored hash, times and payloads by their texts.
  pub record IsSame (e e' : AuditEntry K) : Type 0 where
    pub same_id : e.entry_id ≡ e'.entry_id
    pub same_time : K.isoformat e.recorded_at ≡ K.isoformat e'.recorded_at
    pub same_type : e.event_type ≡ e'.event_type
    pub same_actor : e.actor_id ≡ e'.actor_id
    pub same_action : e.action ≡ e'.action
    pub same_resource : e.resource ≡ e'.resource
    pub same_outcome : e.outcome ≡ e'.outcome
    pub same_payload : K.dumps e.payload ≡ K.dumps e'.payload
    pub same_correlation : e.correlation_id ≡ e'.correlation_id
    pub same_previous : e.previous_hash ≡ e'.previous_hash

  fields-IsSame : (e e' : AuditEntry K) → fields e ≡ fields e' → IsSame e e'
  fields-IsSame e e' h = record {
    same_id = ground arith;
    same_time = ground arith;
    same_type = ground arith;
    same_actor = ground arith;
    same_action = ground arith;
    same_resource = ground arith;
    same_outcome = outcome_value-injective e.outcome e'.outcome (ground arith);
    same_payload = ground arith;
    same_correlation = ground arith;
    same_previous = ground arith;
  }

  -- If two unbroken chains have the same entry at some place, then the entries before it in the
  -- two chains agree in their identifier, type, actor, action, resource, outcome, correlation and
  -- previous hash and in the texts of their time and payload, if none of the texts of the two entries
  -- has a unit separator in it, or the digest has a collision.
  pub entry_evident :
      (p p' : String) (front front' rest rest' : List (AuditEntry K)) (e e' f : AuditEntry K)
      → IsChain K p (front ++ e ∷ f ∷ rest)
      → IsChain K p' (front' ++ e' ∷ f ∷ rest')
      → All IsFree (fields e)
      → All IsFree (fields e')
      → IsSame e e' ⊎ Collision
  unfolding compute_hash hashed_text
  entry_evident p p' front front' rest rest' e e' f h h' free free' =
      let (a, b, c) = IsChain-at K p front (f ∷ rest) e h in
      let (a', b', c') = IsChain-at K p' front' (f ∷ rest') e' h' in
      elim (Bool-cases (str_eq (hashed_text K e) (hashed_text K e'))) [
        | inl same ↦ inl (
            fields-IsSame e e' (
              join-injective (fields e) (fields e') refl free free'
                ((eq_iff (hashed_text K e) (hashed_text K e')).0 same)))
        | inr other ↦ inr (record {
          one = hashed_text K e;
          other = hashed_text K e';
          distinct = differs K (hashed_text K e) (hashed_text K e') other;
          collide = sym b ∙ sym c.0 ∙ c'.0 ∙ b';
        })
      ]

  -- If an entry can be taken out of an unbroken chain, and the rest is not empty and is still
  -- unbroken, then the hash of the entry is the hash that the entry itself covers.
  pub removal_evident :
      (p : String) (front rest : List (AuditEntry K)) (e f : AuditEntry K)
      → IsChain K p (front ++ e ∷ f ∷ rest)
      → IsChain K p (front ++ f ∷ rest)
      → K.digest (hashed_text K e) ≡ e.previous_hash
  unfolding compute_hash
  removal_evident p front rest e f h h' =
      let (a, b, c) = IsChain-at K p front (f ∷ rest) e h in
      let (a', b', d') = IsChain-at K p front rest f h' in sym b ∙ sym c.0 ∙ a' ∙ sym a
