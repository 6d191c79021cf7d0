-- ===== src/Core/Sessions.antt =====
-- A request's `AsyncSession`. Statements act on the session's own view; `commit` makes that view
-- durable and `rollback` drops it. When the request ends, what was not committed is lost.
use workspaces_backend.Base.{Bool, true, false, Option, none, some, List, [], ◌∷◌}
use workspaces_backend.Core.Exceptions.{
  Error, integrity_error, http, multiple_results_found, invalid_request_error, Result, ok, err,
}

pub record Session (D : Type 0) : Type 0 where
  pub committed : D
  pub working : D

abbrev pub Action : Type 0 → Type 0 → Type 0
Action D A = Session D → Result A × Session D

-- What follows a step: an exception skips the rest.
abbrev pub continue :
    {D A B : Type 0} → (A → Action D B) → Result A × Session D → Result B × Session D
continue f (ok a, s) = f a s
continue f (err e, s) = (err e, s)

infixl 5 ◌>>=◌ ◌>>◌
unfoldable pub ◌>>=◌ : {D A B : Type 0} → Action D A → (A → Action D B) → Action D B
◌>>=◌ m f s = continue f (m s)

abbrev pub ◌>>◌ : {D A B : Type 0} → Action D A → Action D B → Action D B
m >> k = m >>= λ _. k

module _ {D A : Type 0} where
  unfoldable pub pure : A → Action D A
  pure a s = (ok a, s)

  unfoldable pub raise : Error → Action D A
  raise e s = (err e, s)

  -- A SELECT, with the exceptions that its caller raises on the rows that come back.
  unfoldable pub query : (D → Result A) → Action D A
  query q s = (q s.working, s)

  -- `except IntegrityError as e: rollback(); raise translate(e)`
  abbrev pub handled : (Error → Error) → Result A × Session D → Result A × Session D
  handled translate (err (integrity_error c), s) =
      (err (translate (integrity_error c)), record s { working = s.committed })
  handled translate (ok a, s) = (ok a, s)
  handled translate (err (http e), s) = (err (http e), s)
  handled translate (err multiple_results_found, s) = (err multiple_results_found, s)
  handled translate (err invalid_request_error, s) = (err invalid_request_error, s)

  unfoldable pub rolling_back : (Error → Error) → Action D A → Action D A
  rolling_back translate m s = handled translate (m s)

module _ {D : Type 0} where
  unfoldable pub raise_if : Bool → Error → Action D (Unit {0})
  raise_if true e s = (err e, s)
  raise_if false e s = (ok tt, s)

  unfoldable pub execute : (D → D) → Action D (Unit {0})
  execute g s = (ok tt, record s { working = g s.working })

  unfoldable pub commit : Action D (Unit {0})
  commit s = (ok tt, record { committed = s.working; working = s.working })

  -- `get_osm_session` closes the session when the request ends, with or without an exception.
  abbrev pub at_end : {A : Type 0} → Result A × Session D → D
  at_end r = r.1.committed

abbrev pub scalar_one_or_none : {A : Type 0} → List A → Result (Option A)
scalar_one_or_none [] = ok none
scalar_one_or_none (x ∷ []) = ok (some x)
scalar_one_or_none (x ∷ y ∷ r) = err multiple_results_found

-- `x = result.scalar_one_or_none(); if x is None: raise e`
abbrev pub scalar_one_or_raise : {A : Type 0} → Error → List A → Result A
scalar_one_or_raise e [] = err e
scalar_one_or_raise e (x ∷ []) = ok x
scalar_one_or_raise e (x ∷ y ∷ r) = err multiple_results_found
