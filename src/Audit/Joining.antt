-- ===== src/Audit/Joining.antt =====
-- What the text that is hashed says of the fields that it joins (`compute_hash` in
-- backend/audit-ledger/src/aqros_audit_ledger/domain/chain.py).
use mathlib.Core.Path.{ap}
use Prim.Native.Char.{Char, char, code}
use Prim.Native.String.{◌++◌ as concat}
use text.Mathlib.TextLemmas.{nil-append, cons-append}
use aqros.Shared.{
  length, Bool, true, not, ◌&&◌, ◌==◌, ◌≡◌, ◌≢◌, refl, sym, ◌∙◌, String, List, [], ◌∷◌, All, arith,
}
use aqros.Audit.Chain.{join}

abbrev separator : Char
separator = char 31 tt

-- The text has no unit separator.
abbrev pub is_free : String → Bool
is_free String.[] = true
is_free (String.◌∷◌ c s) = not (code c == 31) && is_free s

abbrev pub IsFree : String → Type 0
IsFree s = is_free s ≡ true

IsFree-cons : (c : Char) (s : String) → IsFree (String.◌∷◌ c s) → (code c ≢ 31) × IsFree s
IsFree-cons c s h = (λ e. ground arith, ground arith)

abbrev first_of : Char → String → Char
first_of d String.[] = d
first_of d (String.◌∷◌ c s) = c

abbrev rest_of : String → String
rest_of String.[] = String.[]
rest_of (String.◌∷◌ c s) = s

after_separator : (r : String) → concat "\u{1f}" r ≡ String.◌∷◌ separator r
after_separator r = cons-append separator "" r ∙ ap (λ t. String.◌∷◌ separator t) (nil-append r)

cons_parts : (c d : Char) (p q : String) → String.◌∷◌ c p ≡ String.◌∷◌ d q → (c ≡ d) × (p ≡ q)
cons_parts c d p q e = (ap (first_of c) e, ap rest_of e)

-- What stands before the first separator, and what stands after it.
separated :
    (p q r s : String)
    → IsFree p
    → IsFree q
    → concat p (String.◌∷◌ separator r) ≡ concat q (String.◌∷◌ separator s)
    → (p ≡ q) × (r ≡ s)
separated String.[] String.[] r s fp fq e =
    (refl, (cons_parts separator separator r s (sym (nil-append _) ∙ e ∙ nil-append _)).1)
separated String.[] (String.◌∷◌ d q) r s fp fq e =
    let (n, later) = IsFree-cons d q fq in
    let (same, rest) = cons_parts _ _ _ _ (sym (nil-append _) ∙ e ∙ cons-append d q _) in
    absurd (n (ap code (sym same)))
separated (String.◌∷◌ c p) String.[] r s fp fq e =
    let (n, later) = IsFree-cons c p fp in
    let (same, rest) = cons_parts _ _ _ _ (sym (cons-append c p _) ∙ e ∙ nil-append _) in
    absurd (n (ap code same))
separated (String.◌∷◌ c p) (String.◌∷◌ d q) r s fp fq e =
    let (same, rest) = cons_parts _ _ _ _ (sym (cons-append c p _) ∙ e ∙ cons-append d q _) in
    let (same', rest') = separated p q r s (IsFree-cons c p fp).1 (IsFree-cons d q fq).1 rest in
    (ap (λ t. String.◌∷◌ c t) same' ∙ ap (λ a. String.◌∷◌ a q) same, rest')

-- Of two lists of as many texts without a separator, the joined texts tell them apart.
pub join-injective :
    (ps qs : List String)
    → length ps ≡ length qs
    → All IsFree ps
    → All IsFree qs
    → join "\u{1f}" ps ≡ join "\u{1f}" qs
    → ps ≡ qs
unfolding join
join-injective [] [] n fp fq e = refl
join-injective [] (q ∷ qs) n fp fq e = ground arith
join-injective (p ∷ ps) [] n fp fq e = ground arith
join-injective (p ∷ []) (q ∷ []) n fp fq e = ap (λ t. t ∷ []) e
join-injective (p ∷ []) (q ∷ q' ∷ qs) n fp fq e = ground arith
join-injective (p ∷ p' ∷ ps) (q ∷ []) n fp fq e = ground arith
join-injective (p ∷ p' ∷ ps) (q ∷ q' ∷ qs) n (f, fp) (g, fq) e =
    let (same, rest) =
      separated p q (join "\u{1f}" (p' ∷ ps)) (join "\u{1f}" (q' ∷ qs)) f g
        (ap (concat p) (sym (after_separator _)) ∙ e ∙ ap (concat q) (after_separator _)) in
    ap (λ t. t ∷ p' ∷ ps) same
    ∙ ap (λ ts. q ∷ ts) (join-injective (p' ∷ ps) (q' ∷ qs) (ground arith) fp fq rest)
