-- ===== src/Workspaces/Jobs.antt =====
-- `JobRepository` of api/src/workspaces/jobs/repository.py. `JobPatch` is modelled with the one
-- field that the code sets, the request.
use Prim.Native.String.{String}
use workspaces_backend.Base.{
  ℕ, ◌+◌, Bool, true, false, ◌&&◌, not, ◌==◌, List, [], ◌∷◌, ◌++◌, filter, update_where,
  delete_where, Dict,
}
use workspaces_backend.Core.{
  Result, ok, Action, ◌>>=◌, ◌>>◌, pure, query, raise_if, execute, not_found_exception,
  forbidden_exception, scalar_one_or_raise,
}
use workspaces_backend.Security.UserInfo.{UserInfo, contains, is_workspace_contributor}
use workspaces_backend.Workspaces.Schema.{OsmDb, Job, JobRequest}
use workspaces_backend.Workspaces.World.{World, on_osm, commit_osm}
use workspaces_backend.Workspaces.Queries.{row_count, is_one}

-- the loop of `_accessible_workspace_ids`
unfoldable pub all_ids : Dict (List ℕ) → List ℕ
all_ids [] = []
all_ids ((_, ids) ∷ d) = ids ++ all_ids d

unfoldable pub accessible_ids : UserInfo → List ℕ
accessible_ids user = all_ids user.accessible_workspace_ids

abbrev pub is_job : ℕ → Job → Bool
is_job job_id j = j.id == job_id

abbrev pub is_own_job : UserInfo → ℕ → Job → Bool
is_own_job user job_id j = j.id == job_id && contains j.workspace_id (accessible_ids user)

-- `create`, whose INSERT takes its id from a sequence
unfoldable pub create_job : String → String → JobRequest → ℕ → Action World ℕ
create_job job_type status request workspace_id = do
  id ← query (λ w. ok w.osm.next_job_id)
  execute (
      on_osm (λ db. record db {
        jobs =
            db.jobs
            ++ (record {
              id = id;
              job_type = job_type;
              status = status;
              request = request;
              workspace_id = workspace_id;
            })
              ∷ [];
        next_job_id = db.next_job_id + 1;
      }))
  commit_osm
  pure id

unfoldable pub get_job : UserInfo → ℕ → OsmDb → Result Job
get_job user job_id db =
    scalar_one_or_raise (not_found_exception "Job with id {job_id} not found")
      (filter (is_own_job user job_id) db.jobs)

-- `_getJobById`
unfoldable pub get_any_job : ℕ → OsmDb → Result Job
get_any_job job_id db =
    scalar_one_or_raise (not_found_exception "Job with id {job_id} not found")
      (filter (is_job job_id) db.jobs)

-- the condition of the UPDATE, with and without `ignore_permissions`
abbrev pub may_update : Bool → UserInfo → ℕ → Job → Bool
may_update true user job_id = is_job job_id
may_update false user job_id = is_own_job user job_id

unfoldable pub update_job : UserInfo → ℕ → JobRequest → Bool → Action World Job
update_job user job_id request ignore_permissions = do
  count ← query (λ w. ok (row_count (may_update ignore_permissions user job_id) w.osm.jobs))
  execute (
      on_osm (λ db. record db {
        jobs =
            update_where (may_update ignore_permissions user job_id)
              (λ j. record j { request = request }) db.jobs;
      }))
  raise_if (not (is_one count)) (not_found_exception "Update failed for job id {job_id}")
  commit_osm
  query (λ w. get_any_job job_id w.osm)

unfoldable pub delete_job : UserInfo → ℕ → Action World (Unit {0})
delete_job user job_id = do
  count ← query (λ w. ok (row_count (is_own_job user job_id) w.osm.jobs))
  execute (on_osm (λ db. record db { jobs = delete_where (is_own_job user job_id) db.jobs }))
  raise_if (not (is_one count)) (not_found_exception "Job delete failed for id {job_id}")
  commit_osm

unfoldable pub get_workspace_jobs : UserInfo → ℕ → Action World (List Job)
get_workspace_jobs user workspace_id = do
  raise_if (not (is_workspace_contributor user workspace_id))
      (forbidden_exception "User does not have permissions to view jobs in that workspace.")
  query (λ w. ok (filter (λ j. j.workspace_id == workspace_id) w.osm.jobs))
