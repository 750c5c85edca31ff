-- ===== src/Api/Runs.antt =====
-- backend/app/api/v1/runs.py: the operations that change runs.
use software_factory_ai.Common.{ℕ, Bool, true, false, none, some, [], ◌∷◌, ◌++◌, String, contains}
use software_factory_ai.Common.Rows.{find_row, update_row}
use software_factory_ai.States.{
  RunStatus, RunStatus-discrete, run_status_eq, task_status_eq, approval_status_eq, Transition,
  valid, invalid, run_transitions, validate_transition,
}
use software_factory_ai.Database.{Database, Draw, User, Demand, WorkflowRun}
use software_factory_ai.Database.Queries.{record_audit_event}
use software_factory_ai.Api.Auth.{Response, ok, ◌>>=◌, ◌>>◌, require, found, require_role}
use software_factory_ai.Api.Operations.{Committed, human_audit}

abbrev pub run_status_name : RunStatus → String
run_status_name RunStatus.created = "CREATED"
run_status_name RunStatus.queued = "QUEUED"
run_status_name RunStatus.running = "RUNNING"
run_status_name RunStatus.waiting_tool = "WAITING_TOOL"
run_status_name RunStatus.waiting_agent = "WAITING_AGENT"
run_status_name RunStatus.waiting_human = "WAITING_HUMAN"
run_status_name RunStatus.retrying = "RETRYING"
run_status_name RunStatus.partially_completed = "PARTIALLY_COMPLETED"
run_status_name RunStatus.completed = "COMPLETED"
run_status_name RunStatus.failed_retryable = "FAILED_RETRYABLE"
run_status_name RunStatus.failed_final = "FAILED_FINAL"
run_status_name RunStatus.cancelled = "CANCELLED"

-- The row that start_run adds and queues before it commits; w 0 gives the id and w 1 the
-- correlation id.
abbrev pub new_run : (ℕ → Draw) → Demand → WorkflowRun
new_run w demand = record {
  id = (w 0).id;
  project_id = demand.project_id;
  demand_id = demand.id;
  graph_version = "software_delivery@1.0.0";
  status = RunStatus.queued;
  current_node = none;
  started_at = none;
  finished_at = none;
  correlation_id = (w 1).id;
  updated_at = (w 0).now;
}

unfoldable pub start_run : (ℕ → Draw) → User → String → Database → Response (Committed WorkflowRun)
unfolding require_role find_row record_audit_event
start_run w caller demand_id db = do
  user ← require_role "DEVELOPER" caller
  demand ← found (find_row (λ d. d.id) db.demands demand_id)
  let run = new_run w demand
  ok (record {
    db =
        record_audit_event (w 2)
          (human_audit user "workflow.started" "workflow_run" run.id (some run.correlation_id) none
            none)
          (record db { runs = db.runs ++ run ∷ [] });
    row = run;
    events =
        (
          "workflow.run.requested",
          ("workflow_run_id", run.id)
              ∷ ("demand_id", demand.id)
              ∷ ("project_id", demand.project_id)
              ∷ ("correlation_id", run.correlation_id)
              ∷ [],
        )
        ∷ [];
  })

abbrev pub is_valid {ℓ} : {S : Type ℓ} → Transition S → Bool
is_valid valid = true
is_valid (invalid s t allowed) = false

abbrev pub set_run : WorkflowRun → Database → Database
set_run run db = record db { runs = update_row (λ r. r.id) run.id (λ _. run) db.runs }

unfoldable pub cancel_run : (ℕ → Draw) → User → String → Database → Response (Committed WorkflowRun)
unfolding require_role find_row update_row record_audit_event validate_transition run_transitions
    RunStatus-discrete
cancel_run w caller run_id db = do
  user ← require_role "FACTORY_MANAGER" caller
  run ← found (find_row (λ r. r.id) db.runs run_id)
  require (is_valid (validate_transition run.status RunStatus.cancelled run_transitions)) 409
  let run' = record run {
    status = RunStatus.cancelled;
    finished_at = some (w 0).now;
    updated_at = (w 0).now;
  }
  ok (record {
    db =
        record_audit_event (w 1)
          (human_audit user "workflow.cancelled" "workflow_run" run.id (some run.correlation_id)
            (some (("status", some (run_status_name run.status)) ∷ []))
            (some (("status", some "CANCELLED") ∷ [])))
          (set_run run' db);
    row = run';
    events = [];
  })

unfoldable pub retry_run : (ℕ → Draw) → User → String → Database → Response (Committed WorkflowRun)
unfolding require_role find_row update_row record_audit_event contains RunStatus-discrete
retry_run w caller run_id db = do
  user ← require_role "DEVELOPER" caller
  run ← found (find_row (λ r. r.id) db.runs run_id)
  require (contains (RunStatus.failed_retryable ∷ []) run.status) 409
  let run' = record run { status = RunStatus.retrying; updated_at = (w 0).now }
  ok (record {
    db =
        record_audit_event (w 1)
          (human_audit user "workflow.retried" "workflow_run" run.id (some run.correlation_id) none
            none)
          (set_run run' db);
    row = run';
    events = [];
  })
