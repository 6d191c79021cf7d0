-- ===== src/Workspaces/Properties/Preservation.antt =====
-- Steps of a request that keep what holds of each database on its own.
use workspaces_backend.Base.{◌≡◌, refl, subst}
use workspaces_backend.Core.{
  Action, ◌>>=◌, pure, Keeps, Ends, Result, ok, err, Error, integrity_error, http,
  multiple_results_found, invalid_request_error, Session, run, bind_known,
}
use workspaces_backend.Workspaces.Schema.{TaskDb, OsmDb}
use workspaces_backend.Tasking.Schema.{Uuid}
use workspaces_backend.Workspaces.World.{
  World, commit_tasks, commit_osm, evict_user_from_cache, rolling_back_tasks, rolled_back_tasks,
  evicted,
}

abbrev pub Split : (TaskDb → Type 0) → (OsmDb → Type 0) → World → Type 0
Split P Q w = P w.tasks × Q w.osm

module _ (P : TaskDb → Type 0) (Q : OsmDb → Type 0) where
  pub keep_commit_tasks : Keeps (Split P Q) commit_tasks
  unfolding commit_tasks
  keep_commit_tasks = record { keeps = λ s v c. record { at = (v, (v.0, c.1)) } }

  pub keep_commit_osm : Keeps (Split P Q) commit_osm
  unfolding commit_osm
  keep_commit_osm = record { keeps = λ s v c. record { at = (v, (c.0, v.1)) } }

  pub keep_evict : (uid : Uuid) → Keeps (Split P Q) (evict_user_from_cache uid)
  unfolding evict_user_from_cache
  keep_evict uid = record { keeps = λ s v c. record { at = (v, c) } }

-- What is claimed of a request that succeeds.
abbrev pub Succeeds :
    {A : Type 0} → (A → Session World → Type 0) → Result A × Session World → Type 0
Succeeds {A} Q r = (a : A) → r.0 ≡ ok a → Q a r.1

module _ {A : Type 0} (Q : A → Session World → Type 0) where
  pub failed : (e : Error) (s : Session World) → Succeeds Q (err e, s)
  failed e s a h = absurd (cc h)

  pub succeed_rolling_back :
      (e : Error) (m : Action World A) {s : Session World}
      → Ends (Succeeds Q) m s
      → Ends (Succeeds Q) (rolling_back_tasks e m) s
  unfolding rolling_back_tasks
  succeed_rolling_back e m {s} h = record { at = go (m s) h.at }
    where
      go : (r : Result A × Session World) → Succeeds Q r → Succeeds Q (rolled_back_tasks e r)
      go (ok a, t) q = q
      go (err (integrity_error c), t) q = failed e _
      go (err (http x), t) q = failed (http x) t
      go (err multiple_results_found, t) q = failed multiple_results_found t
      go (err invalid_request_error, t) q = failed invalid_request_error t

  pub succeed_pure : (a : A) {s : Session World} → Q a s → Ends (Succeeds Q) (pure a) s
  unfolding run
  succeed_pure a {s} q = record { at = λ b e. subst (λ c. Q c s) (go a b e) q }
    where
      go : (a b : A) → ok a ≡ ok b → a ≡ b
      go a b e = cc e

  pub succeed_known :
      {B : Type 0} {R : B → Session World → Type 0} (m : Action World B) (k : B → Action World A)
      {s : Session World}
      → Ends (Succeeds R) m s
      → ((b : B) (t : Session World) → R b t → Ends (Succeeds Q) (k b) t)
      → Ends (Succeeds Q) (m >>= k) s
  succeed_known m k h rest = bind_known m k h (λ b t q. rest b t (q b refl)) (λ e t q. failed e t)

abbrev pub with_tasks : Session World → Session World
with_tasks s = record s { committed = record s.committed { tasks = s.working.tasks } }

abbrev pub with_osm : Session World → Session World
with_osm s = record s { committed = record s.committed { osm = s.working.osm } }

module _ {P : Result (Unit {0}) × Session World → Type 0} where
  pub end_commit_osm : {s : Session World} → P (ok tt, with_osm s) → Ends P commit_osm s
  unfolding commit_osm
  end_commit_osm h = record { at = h }

  pub end_commit_tasks : {s : Session World} → P (ok tt, with_tasks s) → Ends P commit_tasks s
  unfolding commit_tasks
  end_commit_tasks h = record { at = h }

module _ {A : Type 0} {P : Result A × Session World → Type 0} (k : Unit {0} → Action World A)
    {s : Session World} where
  pub bind_commit_osm : Ends P (k tt) (with_osm s) → Ends P (commit_osm >>= k) s
  unfolding commit_osm run
  bind_commit_osm h = record { at = h.at }

  pub bind_commit_tasks : Ends P (k tt) (with_tasks s) → Ends P (commit_tasks >>= k) s
  unfolding commit_tasks run
  bind_commit_tasks h = record { at = h.at }

  pub bind_evict :
      (uid : Uuid)
      → Ends P
          (k tt)
          (record { committed = evicted uid s.committed; working = evicted uid s.working })
      → Ends P (evict_user_from_cache uid >>= k) s
  unfolding evict_user_from_cache run
  bind_evict uid h = record { at = h.at }

pub end_weaker :
    {A : Type 0} {Q R : A → Session World → Type 0} (m : Action World A) {s : Session World}
    → Ends (Succeeds Q) m s
    → ((a : A) (t : Session World) → Q a t → R a t)
    → Ends (Succeeds R) m s
end_weaker m h k = record { at = λ a e. k a _ (h.at a e) }

pub end_evict :
    {P : Result (Unit {0}) × Session World → Type 0} (uid : Uuid) {s : Session World}
    → P (ok tt, record { committed = evicted uid s.committed; working = evicted uid s.working })
    → Ends P (evict_user_from_cache uid) s
unfolding evict_user_from_cache
end_evict uid h = record { at = h }
