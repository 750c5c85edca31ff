-- ===== src/Api/Tasks.antt =====
-- backend/app/api/v1/tasks.py: the retry of a task.
use software_factory_ai.Common.{ℕ, none, some, [], ◌∷◌, String, ltb, contains}
use software_factory_ai.Common.Rows.{find_row, update_row}
use software_factory_ai.States.{
  run_status_eq, TaskStatus, TaskStatus-discrete, task_status_eq, approval_status_eq,
}
use software_factory_ai.Database.{Database, Draw, User, Task}
use software_factory_ai.Database.Queries.{record_audit_event}
use software_factory_ai.Api.Auth.{Response, ok, ◌>>=◌, ◌>>◌, require, found, require_role}
use software_factory_ai.Api.Operations.{Committed, human_audit}

-- `task.status` before a retry, FAILED or BLOCKED
abbrev pub task_status_name : TaskStatus → String
task_status_name TaskStatus.blocked = "BLOCKED"
task_status_name _ = "FAILED"

unfoldable pub retry_task : (ℕ → Draw) → User → String → Database → Response (Committed Task)
unfolding require_role find_row update_row record_audit_event contains TaskStatus-discrete
retry_task w caller task_id db = do
  user ← require_role "DEVELOPER" caller
  task ← found (find_row (λ t. t.id) db.tasks task_id)
  require (contains (TaskStatus.failed ∷ TaskStatus.blocked ∷ []) task.status) 409
  require (ltb task.attempt task.max_attempts) 409
  let task' = record task { status = TaskStatus.ready; updated_at = (w 0).now }
  ok (record {
    db =
        record_audit_event (w 1)
          (human_audit user "task.retried" "task" task.id none
            (some (("status", some (task_status_name task.status)) ∷ []))
            (some (("status", some "READY") ∷ [])))
          (record db { tasks = update_row (λ t. t.id) task.id (λ _. task') db.tasks });
    row = task';
    events = [];
  })
