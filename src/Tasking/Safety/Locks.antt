-- ===== src/Tasking/Safety/Locks.antt =====
-- The lock operations against the invariant (api/src/tasking/tasks/repository.py).
use workspaces_backend.Base.{
  ℕ, ◌≡◌, refl, sym, ◌∙◌, true, false, List, [], ◌∷◌, ◌++◌, Option, some, any, All-map, arith, ◌+◌,
}
use workspaces_backend.Core.{
  Result, ok, Error, Session, bind_query, bind_raise_if, ◌>>◌, Ends, run, rolling_back, execute,
  commit, query, bind_ok, rolling_back-ok, >>=-ok, end_query,
}
use workspaces_backend.Security.UserInfo.{UserInfo}
use workspaces_backend.Tasking.Schema.{
  Db, TaskingProject, TaskingTask, TaskingLock, RoleType, Uuid, Datetime, is_open, AuditEventType,
  Details,
}
use workspaces_backend.Tasking.Geometry.{Shapely}
use workspaces_backend.Tasking.Dtos.{TaskResponse}
use workspaces_backend.Tasking.Tasks.Queries.{locks_task, locks_for_user, audit}
use workspaces_backend.Tasking.Tasks.Locks.{
  eligible, new_lock, insert_lock, index_violation, lock_task, interfere,
}
use workspaces_backend.Tasking.Invariant.{Inv, IsSound, is_workable, insert_lock-IsSound}
use workspaces_backend.Tasking.Safety.Reads.{
  IsKept, FoundTask, FoundProject, get_task-Found, get_project-Found, get_active_lock-free,
  get_active_lock_for_user-free,
}

-- The eligibility table lets only those pass who may work on the task.
pub eligible-is_workable :
    (t : TaskingTask) (user : Uuid) (role : Option RoleType)
    → eligible t user role ≡ ok tt
    → is_workable t.status t.last_mapper_id user ≡ true
unfolding eligible
eligible-is_workable t user role h = ground arith

index_violation-free :
    (l : TaskingLock) (ls : List TaskingLock)
    → any (locks_task l.task_id) ls ≡ false
    → any (locks_for_user l.project_id l.user_auth_uid) ls ≡ false
    → index_violation l ls ≡ ok tt
unfolding index_violation
index_violation-free l ls free idle = rw (free, idle)

-- The insert goes through where neither unique index is violated.
pub insert_lock-free :
    (lock : ℕ → TaskingLock) (s : Session Db)
    → let l = lock s.working.next_lock_id in
      any (locks_task l.task_id) s.working.locks ≡ false
      → any (locks_for_user l.project_id l.user_auth_uid) s.working.locks ≡ false
      → insert_lock lock s ≡ (
        ok tt,
        record s {
          working = record s.working {
            locks = s.working.locks ++ lock s.working.next_lock_id ∷ [];
            next_lock_id = s.working.next_lock_id + 1;
          };
        },
      )
unfolding insert_lock
insert_lock-free lock s free idle =
    rw (index_violation-free (lock s.working.next_lock_id) s.working.locks free idle, insert_lock)

-- The new row agrees with the task and the project that the guards have read.
new_lock-IsSound :
    (db : Db) (project : TaskingProject) (task : TaskingTask) (i user now : ℕ)
    → Inv db
    → FoundProject db i project
    → is_open project.status ≡ true
    → FoundTask db i task
    → is_workable task.status task.last_mapper_id user ≡ true
    → any (locks_task task.id) db.locks ≡ false
    → any (locks_for_user i user) db.locks ≡ false
    → IsSound db.projects db.tasks
        (db.locks ++ new_lock project task i user now db.next_lock_id ∷ [])
        db.next_project_id
        db.next_task_id
unfolding new_lock
new_lock-IsSound db project task i user now v fp is_open_ ft work free idle =
    insert_lock-IsSound v _ (omega (arith, fp.below, fp.same_id, ft.below)) free idle
      (All-map (λ u. u.id ≡ task.id → u ≡ task) _
        (λ u same a e. let is_task = same (sym e) in rw is_task (ft.in_project, refl, work))
        db.tasks ft.only)
      (All-map (λ q. q.id ≡ project.id → q ≡ project) _
        (λ q same a e.
          let is_project = same (sym e ∙ sym fp.same_id) in
          rw is_project (ground arith, fp.not_deleted))
        db.projects fp.only)

abbrev with_lock : TaskingLock → Db → Db
with_lock l db = record db { locks = db.locks ++ l ∷ []; next_lock_id = db.next_lock_id + 1 }

insert_lock-commit :
    (lock : ℕ → TaskingLock) (g : Db → Db) (s : Session Db)
    → let l = lock s.working.next_lock_id in
      any (locks_task l.task_id) s.working.locks ≡ false
      → any (locks_for_user l.project_id l.user_auth_uid) s.working.locks ≡ false
      → (insert_lock lock >> (execute g >> commit)) s ≡ (
        ok tt,
        record {
          committed = g (with_lock (lock s.working.next_lock_id) s.working);
          working = g (with_lock (lock s.working.next_lock_id) s.working);
        },
      )
unfolding run
insert_lock-commit lock g s free idle =
    >>=-ok (insert_lock lock) (λ _. execute g >> commit) s (insert_lock-free lock s free idle)

-- The insert, its audit row and the commit, where no index is violated.
insert-Ends :
    (lock : ℕ → TaskingLock) (translate : Error → Error) (event : AuditEventType)
    (i task_id user : ℕ) (facts : Details) (q : Db → Result TaskResponse) (s : Session Db)
    → let l = lock s.working.next_lock_id in
      any (locks_task l.task_id) s.working.locks ≡ false
      → any (locks_for_user l.project_id l.user_auth_uid) s.working.locks ≡ false
      → IsSound s.working.projects s.working.tasks
          (s.working.locks ++ l ∷ [])
          s.working.next_project_id
          s.working.next_task_id
      → Ends IsKept
          (interfere (λ db. db)
            >> (rolling_back translate (
                  insert_lock lock >> (execute (audit event i (some task_id) user facts) >> commit))
                >> query q))
          s
unfolding audit
insert-Ends lock translate event i task_id user facts q s free idle v =
    bind_ok (interfere (λ db. db)) _ refl (
      bind_ok (rolling_back translate _) _
        (rolling_back-ok translate _ s
          (insert_lock-commit lock (audit event i (some task_id) user facts) s free idle))
        (end_query q (λ _. v)))

module _ (lib : Shapely) (now : Datetime) (w i n : ℕ) (user : UserInfo) where
  -- Acquiring a lock, with nothing committed between its reads and its insert.
  pub lock_task-IsKept :
      (s : Session Db)
      → Inv s.working
      → Inv s.committed
      → Ends IsKept (lock_task lib now (λ db. db) w i n user) s
  unfolding lock_task
  lock_task-IsKept s v c =
      bind_query _ _
        (λ project hp.
          bind_raise_if _ _ _
            (λ opened.
              bind_query _ _
                (λ task ht.
                  bind_query _ _
                    (λ role _.
                      bind_query _ _
                        (λ _ he.
                          bind_query _ _
                            (λ held hh.
                              bind_raise_if _ _ _
                                (λ free.
                                  bind_query _ _
                                    (λ other ho.
                                      bind_raise_if _ _ _
                                        (λ idle.
                                          insert-Ends (new_lock project task i user.user_uuid now) _
                                            _ i task.id _ _ _ s
                                            (unfold new_lock in
                                              get_active_lock-free task.id s.working held hh free)
                                            (unfold new_lock in
                                              get_active_lock_for_user-free i user.user_uuid
                                                s.working other ho idle)
                                            (new_lock-IsSound s.working project task i
                                              user.user_uuid now v
                                              (get_project-Found w i s.working project v hp)
                                              (ground arith)
                                              (get_task-Found i n s.working task v ht)
                                              (eligible-is_workable task user.user_uuid role he)
                                              (get_active_lock-free task.id s.working held hh free)
                                              (get_active_lock_for_user-free i user.user_uuid
                                                s.working other ho idle)))
                                        c)
                                    (λ e. c))
                                c)
                            (λ e. c))
                        (λ e. c))
                    (λ e. c))
                (λ e. c))
            c)
        (λ e. c)
