-- ===== src/Audit/Tests.antt =====
-- The theorems on the audit ledger (backend/audit-ledger) at concrete entries and digests.
use Prim.Native.String.{◌++◌ as concat}
use aqros.Shared.{◌≡◌, refl, ◌↔◌, ◌⊎◌, String, true, Option, none, some, [], ◌∷◌, All}
use aqros.Audit.Chain.{
  Codec, allowed, AuditEntry, genesis_previous_hash, compute_hash, is_intact, verify_chain,
}
use aqros.Audit.Ledger.{AppendRequest, verify}
use aqros.Audit.Verification.{IsChain, verify_chain-IsChain}
use aqros.Audit.Evidence.{IsSame, Collision, fields, entry_evident}
use aqros.Audit.Joining.{is_free, IsFree}
use aqros.Audit.Growth.{append_all, verify-append_all}

-- Times and payloads are texts.
abbrev codec_of : (String → String) → Codec
codec_of digest = record {
  Time = String;
  Payload = String;
  isoformat = λ t. t;
  dumps = λ p. p;
  digest = digest;
}

-- A digest that keeps the text, and one that gives every text the genesis hash.
abbrev marked : Codec
marked = codec_of (λ s. concat "#" s)

abbrev constant : Codec
constant = codec_of (λ s. genesis_previous_hash)

abbrev entry_of : (K : Codec) → K.Time → K.Payload → String → String → String → AuditEntry K
entry_of K t p k previous hash = record {
  entry_id = k;
  recorded_at = t;
  event_type = "order";
  actor_id = "ops";
  action = "cancel";
  resource = "o1";
  outcome = allowed;
  payload = p;
  correlation_id = "";
  previous_hash = previous;
  entry_hash = hash;
}

abbrev constant_entry : String → AuditEntry constant
constant_entry k = entry_of constant "t" "{}" k genesis_previous_hash genesis_previous_hash

abbrev altered : AuditEntry marked
altered = entry_of marked "t" "{}" "e1" genesis_previous_hash "#"

verify_chain-IsChain_example :
    (is_intact (verify_chain constant (constant_entry "a" ∷ constant_entry "b" ∷ [])) ≡ true)
    ↔ IsChain constant genesis_previous_hash (constant_entry "a" ∷ constant_entry "b" ∷ [])
verify_chain-IsChain_example =
    verify_chain-IsChain constant (constant_entry "a" ∷ constant_entry "b" ∷ [])

constant-IsChain :
    (k : String)
    → IsChain constant genesis_previous_hash (constant_entry k ∷ constant_entry "c" ∷ [])
unfolding compute_hash
constant-IsChain k = (refl, refl, (refl, refl, tt))

constant-IsFree : (k : String) → is_free k ≡ true → All IsFree (fields constant (constant_entry k))
constant-IsFree k h =
    (h, (refl, (refl, (refl, (refl, (refl, (refl, (refl, (refl, (refl, tt))))))))))

entry_evident_example :
    IsSame constant (constant_entry "a") (constant_entry "b") ⊎ Collision constant
entry_evident_example =
    entry_evident constant genesis_previous_hash genesis_previous_hash [] [] [] []
      (constant_entry "a") (constant_entry "b") (constant_entry "c") (constant-IsChain "a")
      (constant-IsChain "b") (constant-IsFree "a" refl) (constant-IsFree "b" refl)

abbrev request : Option String → AppendRequest marked
request k = record {
  event_type = "order";
  actor_id = "ops";
  action = "cancel";
  resource = "o1";
  outcome = allowed;
  payload = "{}";
  correlation_id = "";
  entry_id = k;
}

verify-append_all_example :
    is_intact (
      verify marked none none (
        append_all marked
          (("t1", "n1", request none)
            ∷ ("t2", "n2", request (some "a1"))
            ∷ ("t3", "n3", request (some "a1"))
            ∷ [])
          []))
    ≡ true
verify-append_all_example = verify-append_all marked (
    ("t1", "n1", request none)
    ∷ ("t2", "n2", request (some "a1"))
    ∷ ("t3", "n3", request (some "a1"))
    ∷ [])
