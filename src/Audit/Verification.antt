-- ===== src/Audit/Verification.antt =====
-- What `verify_chain` of backend/audit-ledger/src/aqros_audit_ledger/domain/chain.py reports.
use aqros.Shared.{
  ℕ, ◌+◌, ◌≡◌, ◌≢◌, refl, sym, ◌↔◌, ◌⊎◌, inl, inr, String, true, false, some, List, [], ◌∷◌, ◌++◌,
  arith, length, Bool-cases,
}
use aqros.Shared.Text.{str_eq, eq_iff}
use aqros.Audit.Chain.{
  Codec, AuditEntry, ChainVerification, verified, tampered, broken_link, genesis_previous_hash,
  compute_hash, verify_from, verify_chain, is_intact,
}

module _ (K : Codec) where
  -- Each entry names the hash of the one before it, the first one a given hash, and has the hash of
  -- its own content.
  abbrev pub IsChain : String → List (AuditEntry K) → Type 0
  IsChain previous [] = Unit
  IsChain previous (e ∷ es) =
      (e.previous_hash ≡ previous) × (e.entry_hash ≡ compute_hash K e) × IsChain e.entry_hash es

  -- The hash that the last entry of a list leaves for the next one.
  abbrev pub last_hash : String → List (AuditEntry K) → String
  last_hash previous [] = previous
  last_hash previous (e ∷ es) = last_hash e.entry_hash es

  -- The first entry that does not fit, with what stands before it.
  pub record IsFirstFailure (previous : String) (start : ℕ) (es : List (AuditEntry K))
      (v : ChainVerification) : Type 0 where
    pub front : List (AuditEntry K)
    pub bad : AuditEntry K
    pub rest : List (AuditEntry K)
    pub split : es ≡ front ++ bad ∷ rest
    pub front-IsChain : IsChain previous front
    pub counted : v.entries_checked ≡ start + length front
    pub named : v.first_invalid_entry_id ≡ some bad.entry_id
    pub why :
        ((v.status ≡ broken_link) × (bad.previous_hash ≢ last_hash previous front))
        ⊎ ((v.status ≡ tampered)
            × (bad.previous_hash ≡ last_hash previous front)
            × (bad.entry_hash ≢ compute_hash K bad))

  IsFirstFailure-push :
      (previous : String) (start : ℕ) (e : AuditEntry K) (es : List (AuditEntry K))
      (v : ChainVerification)
      → e.previous_hash ≡ previous
      → e.entry_hash ≡ compute_hash K e
      → IsFirstFailure e.entry_hash (start + 1) es v
      → IsFirstFailure previous start (e ∷ es) v
  IsFirstFailure-push previous start e es v p h f = record {
    front = e ∷ f.front;
    bad = f.bad;
    rest = f.rest;
    split = cc (f.split);
    front-IsChain = (p, h, f.front-IsChain);
    counted = omega (arith, f.counted);
    named = f.named;
    why = f.why;
  }

  pub differs : (s t : String) → str_eq s t ≡ false → s ≢ t
  differs s t h = λ e. ground (arith, (eq_iff s t).1 e)

  verify_from_lem :
      (previous : String) (start : ℕ) (es : List (AuditEntry K))
      → (((verify_from K previous start es).status ≡ verified)
          × ((verify_from K previous start es).entries_checked ≡ start + length es)
          × IsChain previous es)
        ⊎ IsFirstFailure previous start es (verify_from K previous start es)
  unfolding verify_from
  verify_from_lem previous start [] = inl (refl, omega arith, tt)
  verify_from_lem previous start (e ∷ es) = elim (Bool-cases (str_eq e.previous_hash previous)) [
    | inl same ↦ elim (Bool-cases (str_eq (compute_hash K e) e.entry_hash)) [
      | inl whole ↦
          let p = (eq_iff e.previous_hash previous).0 same in
          let h = sym ((eq_iff (compute_hash K e) e.entry_hash).0 whole) in
          rw same (
            rw whole (elim (verify_from_lem e.entry_hash (start + 1) es) [
              | inl (s, c, ch) ↦ inl (s, omega (arith, c), (p, h, ch))
              | inr f ↦ inr (IsFirstFailure-push previous start e es _ p h f)
            ]))
      | inr altered ↦ rw same (
          rw altered (
            inr (record {
              front = [];
              bad = e;
              rest = es;
              split = refl;
              front-IsChain = tt;
              counted = omega arith;
              named = refl;
              why = inr (
                refl,
                (eq_iff e.previous_hash previous).0 same,
                λ q. differs (compute_hash K e) e.entry_hash altered (sym q),
              );
            })))
    ]
    | inr other ↦ rw other (
        inr (record {
          front = [];
          bad = e;
          rest = es;
          split = refl;
          front-IsChain = tt;
          counted = omega arith;
          named = refl;
          why = inl (refl, differs e.previous_hash previous other);
        }))
  ]

  -- An unbroken run of entries is reported as verified with the number of its entries, or as empty;
  -- of any other run the report names the first entry that does not fit, with the number of entries
  -- before it, and says whether its link or its content fails.
  pub verify_chain_lem :
      (es : List (AuditEntry K))
      → (((verify_chain K es).entries_checked ≡ length es)
          × IsChain genesis_previous_hash es
          × (((verify_chain K es).status ≡ verified) ⊎ (es ≡ [])))
        ⊎ IsFirstFailure genesis_previous_hash 0 es (verify_chain K es)
  unfolding verify_chain
  verify_chain_lem [] = inl (refl, tt, inr refl)
  verify_chain_lem (e ∷ es) = ground (arith, verify_from_lem genesis_previous_hash 0 (e ∷ es))

  pub IsChain-at :
      (p : String) (front rest : List (AuditEntry K)) (e : AuditEntry K)
      → IsChain p (front ++ e ∷ rest)
      → IsChain (last_hash p front) (e ∷ rest)
  IsChain-at p [] rest e h = h
  IsChain-at p (f ∷ front) rest e h = IsChain-at f.entry_hash front rest e h.2

  is_intact-verify_chain :
      (es : List (AuditEntry K))
      → IsChain genesis_previous_hash es
      → is_intact (verify_chain K es) ≡ true
  unfolding is_intact
  is_intact-verify_chain es h = elim (verify_chain_lem es) [
    | inl (c, ch, inl ok) ↦ rw ok refl
    | inl (c, ch, inr none_) ↦ rw none_ (unfold verify_chain in refl)
    | inr f ↦
        let (p, q, r) = IsChain-at genesis_previous_hash f.front f.rest f.bad (rw (← f.split) h) in
        elim f.why [ inl (s, n) ↦ absurd (n p) | inr (s, m, n) ↦ absurd (n q) ]
  ]

  IsChain-of_intact :
      (es : List (AuditEntry K))
      → is_intact (verify_chain K es) ≡ true
      → IsChain genesis_previous_hash es
  unfolding is_intact
  IsChain-of_intact es h = elim (verify_chain_lem es) [
    | inl (c, ch, w) ↦ ch
    | inr f ↦ elim f.why [
      | inl (s, n) ↦ absurd (ground (arith, h, s))
      | inr (s, m, n) ↦ absurd (ground (arith, h, s))
    ]
  ]

  -- The report of a run of entries is intact exactly when each entry has the hash of its own content
  -- and names the hash of the entry before it, the first one the genesis hash.
  pub verify_chain-IsChain :
      (es : List (AuditEntry K))
      → (is_intact (verify_chain K es) ≡ true) ↔ IsChain genesis_previous_hash es
  verify_chain-IsChain es = (IsChain-of_intact es, is_intact-verify_chain es)
