-- ===== src/Core/Preservation.antt =====
-- Actions that keep a property of the tables, however they end, in the durable view and in the
-- session's own.
use workspaces_backend.Base.{Bool, true, false, if◌then◌else◌}
use workspaces_backend.Core.Exceptions.{
  Error, integrity_error, http, multiple_results_found, invalid_request_error, Result, ok, err,
}
use workspaces_backend.Core.Sessions.{
  Session, Action, ◌>>=◌, pure, query, raise_if, execute, commit, rolling_back, handled,
}
use workspaces_backend.Core.Rules.{Ends, run, bind_known}

abbrev pub Both : {D A : Type 0} → (D → Type 0) → Result A × Session D → Type 0
Both I r = I r.1.working × I r.1.committed

pub record Keeps {D A : Type 0} (I : D → Type 0) (m : Action D A) : Type 0 where
  pub keeps : (s : Session D) → I s.working → I s.committed → Ends (Both I) m s

module _ {D A B : Type 0} {I : D → Type 0} where
  pub keep_bind :
      (m : Action D A) (k : A → Action D B)
      → Keeps I m
      → ((a : A) → Keeps I (k a))
      → Keeps I (m >>= k)
  keep_bind m k h rest = record {
    keeps =
        λ s v c. bind_known m k (h.keeps s v c) (λ a s' q. (rest a).keeps s' q.0 q.1) (λ e s' q. q);
  }

module _ {D A : Type 0} (I : D → Type 0) where
  -- What holds of both views still does after a rollback.
  pub end_rolling_back :
      (f : Error → Error) (m : Action D A) {s : Session D}
      → Ends (Both I) m s
      → Ends (Both I) (rolling_back f m) s
  unfolding run
  end_rolling_back f m {s} h = record { at = go (m s) h.at }
    where
      go : (r : Result A × Session D) → Both I r → Both I (handled f r)
      go (ok a, t) q = q
      go (err (integrity_error c), t) q = (q.1, q.1)
      go (err (http e), t) q = q
      go (err multiple_results_found, t) q = q
      go (err invalid_request_error, t) q = q

module _ {D A : Type 0} {I : D → Type 0} where
  pub keep_pure : (a : A) → Keeps I (pure a)
  unfolding run
  keep_pure a = record { keeps = λ s v c. record { at = (v, c) } }

  pub keep_query : (q : D → Result A) → Keeps I (query q)
  unfolding run
  keep_query q = record { keeps = λ s v c. record { at = (v, c) } }

  -- A statement written out on the session.
  pub keep_step :
      (m : Action D A) → ((s : Session D) → I s.working → I s.committed → Both I (m s)) → Keeps I m
  keep_step m h = record { keeps = λ s v c. record { at = h s v c } }

  pub keep_rolling_back :
      (f : Error → Error) (m : Action D A) → Keeps I m → Keeps I (rolling_back f m)
  keep_rolling_back f m h = record { keeps = λ s v c. end_rolling_back I f m (h.keeps s v c) }

  pub keep_if : (c : Bool) (m n : Action D A) → Keeps I m → Keeps I n → Keeps I (if c then m else n)
  keep_if true m n h k = h
  keep_if false m n h k = k

module _ {D : Type 0} {I : D → Type 0} where
  pub keep_raise_if : (c : Bool) (e : Error) → Keeps I (raise_if c e)
  unfolding run
  keep_raise_if true e = record { keeps = λ s v c. record { at = (v, c) } }
  keep_raise_if false e = record { keeps = λ s v c. record { at = (v, c) } }

  pub keep_execute : (g : D → D) → ((db : D) → I db → I (g db)) → Keeps I (execute g)
  unfolding run
  keep_execute g h = record { keeps = λ s v c. record { at = (h s.working v, c) } }

  pub keep_commit : Keeps I commit
  unfolding run
  keep_commit = record { keeps = λ s v c. record { at = (v, v) } }
