-- ===== src/Audit/Growth.antt =====
-- How `append` of backend/audit-ledger/src/aqros_audit_ledger/domain/service.py lets the ledger grow.
use aqros.Shared.{
  ◌≡◌, refl, sym, ◌∙◌, ◌⊎◌, inl, inr, String, true, Option, none, some, List, [], ◌∷◌, ◌++◌, arith,
  Option-cases,
}
use aqros.Shared.Text.{str_eq, eq_iff}
use aqros.Audit.Chain.{
  Codec, AuditEntry, genesis_previous_hash, hashed_text, compute_hash, chain, previous_of,
  is_intact,
}
use aqros.Audit.Ledger.{
  AppendRequest, Entries, get, head, append_entry, append, draft_of, or_fresh,
  range_for_verification, verify,
}
use aqros.Audit.Verification.{IsChain, last_hash, verify_chain-IsChain}

module _ (K : Codec) where
  open K use {Time}

  IsChain-snoc :
      (p : String) (es : Entries K) (e : AuditEntry K)
      → IsChain K p es
      → e.previous_hash ≡ last_hash K p es
      → e.entry_hash ≡ compute_hash K e
      → IsChain K p (es ++ e ∷ [])
  IsChain-snoc p [] e h l c = (l, c, tt)
  IsChain-snoc p (f ∷ es) e h l c = (h.0, h.1, IsChain-snoc f.entry_hash es e h.2 l c)

  abbrev hash_or : String → Option (AuditEntry K) → String
  hash_or p none = p
  hash_or p (some e) = e.entry_hash

  last_hash-head : (p : String) (es : Entries K) → last_hash K p es ≡ hash_or p (head K es)
  unfolding head
  last_hash-head p [] = refl
  last_hash-head p (e ∷ []) = refl
  last_hash-head p (e ∷ f ∷ es) = last_hash-head p (f ∷ es)

  last_hash-previous_of :
      (es : Entries K) → last_hash K genesis_previous_hash es ≡ previous_of K (head K es)
  last_hash-previous_of es = elim (Option-cases (head K es)) [
    | inl missing ↦ rw missing (rw (last_hash-head genesis_previous_hash es) (rw missing refl))
    | inr (e, found) ↦ rw found (rw (last_hash-head genesis_previous_hash es) (rw found refl))
  ]

  chain_links :
      (before : Option (AuditEntry K)) (d : AuditEntry K)
      → ((chain K before d).previous_hash ≡ previous_of K before)
        × ((chain K before d).entry_hash ≡ compute_hash K (chain K before d))
  unfolding chain compute_hash hashed_text
  chain_links before d = (refl, refl)

  chain_id :
      (before : Option (AuditEntry K)) (d : AuditEntry K) → (chain K before d).entry_id ≡ d.entry_id
  unfolding chain
  chain_id before d = refl

  get-snoc :
      (k : String) (es : Entries K) (e : AuditEntry K)
      → str_eq e.entry_id k ≡ true
      → get K k es ≡ none
      → get K k (es ++ e ∷ []) ≡ some e
  unfolding get
  get-snoc k [] e same h = ground arith
  get-snoc k (f ∷ es) e same h = ground (arith, get-snoc k es e same)

  -- Appending to an unbroken chain from the genesis hash leaves an unbroken chain.
  pub append-IsChain :
      (t : Time) (new_id : String) (r : AppendRequest K) (es : Entries K)
      → IsChain K genesis_previous_hash es
      → IsChain K genesis_previous_hash (append K t new_id r es).1
  unfolding append append_entry
  append-IsChain t new_id r es h =
      let e = chain K (head K es) (draft_of K t new_id r) in
      elim (Option-cases (get K e.entry_id es)) [
        | inl fresh ↦ rw fresh (
            IsChain-snoc genesis_previous_hash es e h
              ((chain_links (head K es) (draft_of K t new_id r)).0 ∙ sym (last_hash-previous_of es))
              (chain_links (head K es) (draft_of K t new_id r)).1)
        | inr (old, found) ↦ rw found h
      ]

  append_entry_lem :
      (e : AuditEntry K) (es : Entries K)
      → let (e', es') = append_entry K e es in
        (((get K e.entry_id es ≡ some e') × (es' ≡ es))
          ⊎ ((get K e.entry_id es ≡ none) × (es' ≡ es ++ e' ∷ [])))
        × (get K e.entry_id es' ≡ some e')
  unfolding append_entry
  append_entry_lem e es = elim (Option-cases (get K e.entry_id es)) [
    | inl fresh ↦
        rw fresh
          (inr (refl, refl), get-snoc e.entry_id es e ((eq_iff e.entry_id e.entry_id).1 refl) fresh)
    | inr (old, found) ↦ rw found (inl (refl, refl), found)
  ]

  -- An append either finds an entry under its identifier, returns that entry and leaves the ledger
  -- as it was, or adds the entry that it returns at the end; nothing before it changes. Either way
  -- the ledger then has the entry under its identifier, so that a retry finds it.
  pub append_lem :
      (t : Time) (new_id : String) (r : AppendRequest K) (es : Entries K)
      → let k = or_fresh K r.entry_id new_id in
        let (e, es') = append K t new_id r es in
        (((get K k es ≡ some e) × (es' ≡ es)) ⊎ ((get K k es ≡ none) × (es' ≡ es ++ e ∷ [])))
        × (get K k es' ≡ some e)
  unfolding append chain draft_of
  append_lem t new_id r es = append_entry_lem (chain K (head K es) (draft_of K t new_id r)) es

  -- Appends in sequence, each at its time and with a fresh identifier.
  unfoldable pub append_all : List (Time × String × AppendRequest K) → Entries K → Entries K
  append_all [] es = es
  append_all ((t, new_id, r) ∷ rs) es = append_all rs (append K t new_id r es).1

  append_all-IsChain :
      (rs : List (Time × String × AppendRequest K)) (es : Entries K)
      → IsChain K genesis_previous_hash es
      → IsChain K genesis_previous_hash (append_all rs es)
  unfolding append_all
  append_all-IsChain [] es h = h
  append_all-IsChain ((t, new_id, r) ∷ rs) es h =
      append_all-IsChain rs (append K t new_id r es).1 (append-IsChain t new_id r es h)

  -- A ledger that is built from nothing by any sequence of appends, retries included, is found
  -- intact when the whole of it is verified.
  pub verify-append_all :
      (rs : List (Time × String × AppendRequest K))
      → is_intact (verify K none none (append_all rs [])) ≡ true
  unfolding verify range_for_verification
  verify-append_all rs = (verify_chain-IsChain K (append_all rs [])).1 (append_all-IsChain rs [] tt)
