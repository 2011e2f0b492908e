-- ===== src/Oms/Rules.antt =====
-- Rules for the steps of a route: a property that every failing reply with an unchanged repository
-- has holds of a step and what follows, if it holds of what follows where the step succeeds.
use aqros.Shared.{ℕ, ◌≡◌, refl, Bool, true, false, Option, none, some, arith}
use aqros.Shared.Action.{Outcome, done, raised, raise_if, is_done, after, ◌>>=◌}
use aqros.Oms.Order.{Order, OrderType, TimeInForce}
use aqros.Oms.Methods.{OrderError}
use aqros.Oms.Requests.{CreateRequest}
use aqros.Oms.Repository.{Repository, Found, absent, one, several}
use aqros.Oms.Service.{Route, or_status, attempt, free, check_request}

-- The repository that a route leaves, whether it replies or raises.
abbrev pub left : Route (Order × Repository) → Repository
left (done (o, repo)) = repo
left (raised status repo) = repo

after-check_request :
    (req : CreateRequest) (order_type : OrderType) (tif : TimeInForce) (repo : Repository)
    → after (check_request req order_type tif repo) ≡ repo
unfolding check_request
after-check_request req order_type tif repo = ground arith

module _ {ℓ} (P : Route (Order × Repository) → Type ℓ) (repo : Repository)
    (failing : (status : ℕ) → P (raised status repo)) where
  pub route-raise_if :
      (c : Bool) (status : ℕ) (f : Repository → Route (Order × Repository))
      → (c ≡ false → P (f repo))
      → P (raise_if c status repo >>= f)
  route-raise_if true status f h = failing status
  route-raise_if false status f h = h refl

  pub route-or_status :
      {A : Type 0} (o : Option A) (status : ℕ) (f : A → Route (Order × Repository))
      → ((a : A) → o ≡ some a → P (f a))
      → P (or_status o status repo >>= f)
  route-or_status none status f h = failing status
  route-or_status (some a) status f h = h a refl

  pub route-attempt :
      (m : Outcome OrderError Order Order) (f : Order → Route (Order × Repository))
      → ((o : Order) → m ≡ done o → P (f o))
      → P (attempt m repo >>= f)
  route-attempt (done o) f h = h o refl
  route-attempt (raised e o) f h = failing 500

  pub route-free :
      (found : Found) (f : Repository → Route (Order × Repository))
      → (found ≡ absent → P (f repo))
      → P (free found repo >>= f)
  route-free absent f h = h refl
  route-free (one o) f h = failing 409
  route-free several f h = failing 500

  route-step :
      (m : Route Repository) (f : Repository → Route (Order × Repository))
      → after m ≡ repo
      → (is_done m ≡ true → P (f repo))
      → P (m >>= f)
  route-step (done r) f e h = rw e (h refl)
  route-step (raised status r) f e h = rw e (failing status)

  pub route-check_request :
      (req : CreateRequest) (order_type : OrderType) (tif : TimeInForce)
      (f : Repository → Route (Order × Repository))
      → (is_done (check_request req order_type tif repo) ≡ true → P (f repo))
      → P (check_request req order_type tif repo >>= f)
  route-check_request req order_type tif f h =
      route-step (check_request req order_type tif repo) f
        (after-check_request req order_type tif repo) h
