-- ===== src/Core/Rules.antt =====
-- Rules for reasoning about a handler one step at a time: what holds of every way in which the
-- first step can end, and of the rest from there, holds of the whole.
use workspaces_backend.Base.{
  ◌≡◌, refl, ap, Bool, true, false, List, [], ◌∷◌, Option, none, some, ◌⊎◌, inl, inr,
}
use Prim.Native.String.{String}
use workspaces_backend.Core.Exceptions.{integrity_error, Error, Result, ok, err}
use workspaces_backend.Core.Sessions.{
  continue, handled, pure, raise, rolling_back, Session, Action, ◌>>=◌, query, raise_if, execute,
  commit, scalar_one_or_raise, scalar_one_or_none,
}

-- What is claimed of the end of an action that begins in a session. A record, so that the action
-- stays as it was written.
pub record Ends {D B : Type 0} (P : Result B × Session D → Type 0) (m : Action D B) (s : Session D)
    : Type 0 where
  pub at : P (m s)

-- A definition that opens the session's statements where it is unfolded.
unfoldable pub run : {D A : Type 0} → Action D A → Session D → Result A × Session D
unfolding ◌>>=◌ pure raise query rolling_back raise_if execute commit
run m s = m s

module _ {D A B : Type 0} where
  pub >>=-ok :
      (m : Action D A) (k : A → Action D B) (s : Session D) {a : A} {s' : Session D}
      → m s ≡ (ok a, s')
      → (m >>= k) s ≡ k a s'
  unfolding run
  >>=-ok m k s e = ap (continue k) e

  pub >>=-err :
      (m : Action D A) (k : A → Action D B) (s : Session D) {x : Error} {s' : Session D}
      → m s ≡ (err x, s')
      → (m >>= k) s ≡ (err x, s')
  unfolding run
  >>=-err m k s e = ap (continue k) e

module _ {D A : Type 0} where
  pub rolling_back-ok :
      (f : Error → Error) (m : Action D A) (s : Session D) {a : A} {s' : Session D}
      → m s ≡ (ok a, s')
      → rolling_back f m s ≡ (ok a, s')
  unfolding run
  rolling_back-ok f m s e = ap (handled f) e

  pub rolling_back-integrity_error :
      (f : Error → Error) (m : Action D A) (s : Session D) {c : String} {s' : Session D}
      → m s ≡ (err (integrity_error c), s')
      → rolling_back f m s
        ≡ (err (f (integrity_error c)), record { committed = s'.committed; working = s'.committed })
  unfolding run
  rolling_back-integrity_error f m s e = ap (handled f) e

module _ {D A B : Type 0} {P : Result B × Session D → Type 0} where
  -- A step that is known to succeed.
  pub bind_ok :
      (m : Action D A) (k : A → Action D B) {s : Session D} {a : A} {s' : Session D}
      → m s ≡ (ok a, s')
      → Ends P (k a) s'
      → Ends P (m >>= k) s
  bind_ok m k {s} e rest = record { at = rw (>>=-ok m k s e) rest.at }

  pub bind_query :
      (q : D → Result A) (k : A → Action D B) {s : Session D}
      → ((a : A) → q s.working ≡ ok a → Ends P (k a) s)
      → ((e : Error) → P (err e, s))
      → Ends P (query q >>= k) s
  unfolding run
  bind_query q k {s} yes_case no_case = go (q s.working) refl
    where
      go : (r : Result A) → q s.working ≡ r → Ends P (query q >>= k) s
      go (ok a) e = record { at = rw e (yes_case a e).at }
      go (err x) e = record { at = rw e (no_case x) }

  -- A SELECT whose answer is known.
  pub bind_found :
      (q : D → Result A) (k : A → Action D B) {s : Session D} {a : A}
      → q s.working ≡ ok a
      → Ends P (k a) s
      → Ends P (query q >>= k) s
  unfolding run
  bind_found q k e rest = record { at = rw e rest.at }

  -- A step of which a claim is known.
  pub bind_known :
      {Q : Result A × Session D → Type 0} (m : Action D A) (k : A → Action D B) {s : Session D}
      → Ends Q m s
      → ((a : A) (s' : Session D) → Q (ok a, s') → Ends P (k a) s')
      → ((e : Error) (s' : Session D) → Q (err e, s') → P (err e, s'))
      → Ends P (m >>= k) s
  unfolding run
  bind_known {Q} m k {s} h yes_case no_case = go (m s) refl h.at
    where
      go : (r : Result A × Session D) → m s ≡ r → Q r → Ends P (m >>= k) s
      go (ok a, s') e q = record { at = rw e (yes_case a s' q).at }
      go (err x, s') e q = record { at = rw e (no_case x s' q) }

module _ {D A : Type 0} {P : Result A × Session D → Type 0} where
  pub end_query :
      (q : D → Result A) {s : Session D} → ((r : Result A) → P (r, s)) → Ends P (query q) s
  unfolding run
  end_query q {s} h = record { at = h (q s.working) }

  pub end_query_with :
      (q : D → Result A) {s : Session D}
      → ((r : Result A) → q s.working ≡ r → P (r, s))
      → Ends P (query q) s
  unfolding run
  end_query_with q {s} h = record { at = h (q s.working) refl }

  pub end_found :
      (q : D → Result A) {s : Session D} {r : Result A}
      → q s.working ≡ r
      → P (r, s)
      → Ends P (query q) s
  unfolding run
  end_found q e h = record { at = rw e h }

  pub end_pure : (a : A) {s : Session D} → P (ok a, s) → Ends P (pure a) s
  unfolding run
  end_pure a h = record { at = h }

module _ {D : Type 0} {P : Result (Unit {0}) × Session D → Type 0} where
  pub end_commit :
      {s : Session D}
      → P (ok tt, record { committed = s.working; working = s.working })
      → Ends P commit s
  unfolding run
  end_commit h = record { at = h }

module _ {D B : Type 0} {P : Result B × Session D → Type 0} where
  pub bind_raise_if :
      (c : Bool) (e : Error) (k : Unit {0} → Action D B) {s : Session D}
      → (c ≡ false → Ends P (k tt) s)
      → P (err e, s)
      → Ends P (raise_if c e >>= k) s
  unfolding run
  bind_raise_if true e k rest stop = record { at = stop }
  bind_raise_if false e k rest stop = record { at = (rest refl).at }

  -- A guard that is known to pass.
  pub bind_pass :
      (c : Bool) (e : Error) (k : Unit {0} → Action D B) {s : Session D}
      → c ≡ false
      → Ends P (k tt) s
      → Ends P (raise_if c e >>= k) s
  unfolding run
  bind_pass c e k pass rest = record { at = rw (pass, raise_if) rest.at }

  pub bind_execute :
      (g : D → D) (k : Unit {0} → Action D B) {s : Session D}
      → Ends P (k tt) (record s { working = g s.working })
      → Ends P (execute g >>= k) s
  unfolding run
  bind_execute g k rest = record { at = rest.at }

  pub bind_commit :
      (k : Unit {0} → Action D B) {s : Session D}
      → Ends P (k tt) (record { committed = s.working; working = s.working })
      → Ends P (commit >>= k) s
  unfolding run
  bind_commit k rest = record { at = rest.at }

pub Result-cases :
    {A : Type 0} (r : Result A) → ((a : A) × (r ≡ ok a)) ⊎ ((e : Error) × (r ≡ err e))
Result-cases (ok a) = inl (a, refl)
Result-cases (err e) = inr (e, refl)

-- One row or an error: the only row that the statement selected.
pub scalar_one_or_raise-eq-ok :
    {A : Type 0} (e : Error) (xs : List A) (a : A) → scalar_one_or_raise e xs ≡ ok a → xs ≡ a ∷ []
scalar_one_or_raise-eq-ok e [] a h = cc
scalar_one_or_raise-eq-ok e (x ∷ []) a h = cc
scalar_one_or_raise-eq-ok e (x ∷ y ∷ r) a h = cc

pub scalar_one_or_none-eq-ok :
    {A : Type 0} (xs : List A) (o : Option A)
    → scalar_one_or_none xs ≡ ok o
    → ((xs ≡ []) × (o ≡ none)) ⊎ ((a : A) × (xs ≡ a ∷ []) × (o ≡ some a))
scalar_one_or_none-eq-ok [] o h = inl (refl, cc)
scalar_one_or_none-eq-ok (x ∷ []) o h = inr (x, refl, cc)
scalar_one_or_none-eq-ok (x ∷ y ∷ r) o h = absurd (cc)
