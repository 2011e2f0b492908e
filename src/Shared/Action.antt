-- ===== src/Shared/Action.antt =====
-- What a method call that changes an object and may raise comes to: `done` with what it returns
-- (the new object, for a method that returns nothing), or `raised` with the error and the object as
-- it stands then, since what was written before a raise stays written.
use mathlib.Core.Path.{◌≡◌, subst}
use mathlib.Core.Bool.{Bool, true, false}
use native.Mathlib.Omega.{arith}

pub data Outcome (E S A : Type 0) : Type 0 where
  done : A → Outcome E S A
  raised : E → S → Outcome E S A

infixl 5 ◌>>=◌
abbrev pub ◌>>=◌ : {E S A B : Type 0} → Outcome E S A → (A → Outcome E S B) → Outcome E S B
done a >>= f = f a
raised e s >>= f = raised e s

-- The object after the call, whether it returned or raised.
abbrev pub after : {E S : Type 0} → Outcome E S S → S
after (done s) = s
after (raised e s) = s

abbrev pub is_done : {E S A : Type 0} → Outcome E S A → Bool
is_done (done a) = true
is_done (raised e s) = false

-- `if condition: raise error`
abbrev pub raise_if : {E S : Type 0} → Bool → E → S → Outcome E S S
raise_if true e s = raised e s
raise_if false e s = done s

-- What a call promises of the value that it returns, if it returns.
abbrev pub Ensures {ℓ} : {E S A : Type 0} → (A → Type ℓ) → Outcome E S A → Type ℓ
Ensures P (done a) = P a
Ensures P (raised e s) = Unit

pub Ensures-bind {ℓ κ} :
    {E S A B : Type 0} (P : A → Type ℓ) (Q : B → Type κ) (m : Outcome E S A) (f : A → Outcome E S B)
    → Ensures P m
    → ((a : A) → P a → Ensures Q (f a))
    → Ensures Q (m >>= f)
Ensures-bind P Q (done a) f h g = g a h
Ensures-bind P Q (raised e s) f h g = tt

pub Ensures-map {ℓ κ} :
    {E S A : Type 0} (P : A → Type ℓ) (Q : A → Type κ) (m : Outcome E S A)
    → ((a : A) → P a → Q a)
    → Ensures P m
    → Ensures Q m
Ensures-map P Q (done a) f h = f a h
Ensures-map P Q (raised e s) f h = tt

pub done-injective : {E S A : Type 0} {a b : A} → ◌≡◌ {A = Outcome E S A} (done a) (done b) → a ≡ b
done-injective h = ground arith

pub Ensures-done {ℓ} :
    {E S A : Type 0} (P : A → Type ℓ) (m : Outcome E S A) (a : A) → Ensures P m → m ≡ done a → P a
Ensures-done P (done b) a h e = subst P (done-injective e) h
Ensures-done P (raised x s) a h e = cc

pub Ensures-any : {E S A : Type 0} (m : Outcome E S A) → Ensures (λ a. Unit {0}) m
Ensures-any (done a) = tt
Ensures-any (raised e s) = tt
