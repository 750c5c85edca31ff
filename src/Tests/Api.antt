-- ===== src/Tests/Api.antt =====
-- The operations of the API on small tables.
use software_factory_ai.Common.{ℕ, ◌≡◌, refl, true, none, some, List, [], ◌∷◌, String}
use software_factory_ai.Common.Rows.{find_row}
use software_factory_ai.States.{
  RunStatus, run_status_eq, TaskStatus, task_status_eq, ApprovalStatus, run_transitions, Allowed,
}
use software_factory_ai.Database.{Database, Draw, User, WorkflowRun, Task, Approval, empty}
use software_factory_ai.Api.Auth.{Response, ok, http_error, role_level}
use software_factory_ai.Api.Operations.{Committed}
use software_factory_ai.Api.Runs.{cancel_run, retry_run}
use software_factory_ai.Api.Approvals.{decide, approve, reject}
use software_factory_ai.Api.Transitions.{Written, cancel_run-ok, decide-ok, decide-final}
use software_factory_ai.Api.Waking.{approve_wakes}
use software_factory_ai.Delivery.Approvals.{wait_for_approval}
use software_factory_ai.Tests.Graph.{waiting_tables}

abbrev draws : ℕ → Draw
draws k = record { id = "new"; now = k }

abbrev pub person : String → User
person role = record {
  id = "1";
  username = "ana";
  password_hash = "hash";
  role = role;
  enabled = true;
  refresh_token_hash = none;
}

abbrev run_in : RunStatus → WorkflowRun
run_in status = record {
  id = "run";
  project_id = "project";
  demand_id = "demand";
  graph_version = "software_delivery@1.0.0";
  status = status;
  current_node = none;
  started_at = none;
  finished_at = none;
  correlation_id = "correlation";
  updated_at = 0;
}

abbrev pub runs_in : RunStatus → Database
runs_in status = record empty { runs = run_in status ∷ [] }

abbrev committed : {A : Type 0} → Committed A → Response (Committed A) → Committed A
committed c (ok a) = a
committed c (http_error code) = c

abbrev cancelled : Committed WorkflowRun
cancelled =
    committed (record { db = empty; row = run_in RunStatus.created; events = [] })
      (cancel_run draws (person "ADMIN") "run" (runs_in RunStatus.running))

cancel_run-ok_example :
    (run : WorkflowRun) × (find_row (λ r. r.id) (runs_in RunStatus.running).runs "run" ≡ some run)
    × Allowed run_transitions run.status RunStatus.cancelled
    × (cancelled.row.status ≡ RunStatus.cancelled)
    × Written
        (λ r. r.id)
        "run"
        cancelled.row
        (runs_in RunStatus.running).runs
        cancelled.db.runs
        "run"
unfolding cancel_run
cancel_run-ok_example =
    cancel_run-ok draws (person "ADMIN") "run" (runs_in RunStatus.running) cancelled "run" refl

abbrev retried : Committed WorkflowRun
retried =
    committed (record { db = empty; row = run_in RunStatus.created; events = [] })
      (retry_run draws (person "DEVELOPER") "run" (runs_in RunStatus.failed_retryable))

abbrev pub sample_task : Task
sample_task = record {
  id = "task";
  workflow_run_id = "run";
  parent_task_id = none;
  type = "code";
  title = "title";
  description = none;
  assigned_agent_id = none;
  status = TaskStatus.blocked;
  attempt = 1;
  max_attempts = 3;
  priority = 5;
  updated_at = 0;
}

abbrev sample_approval : List Approval → Approval
sample_approval (a ∷ rest) = a
sample_approval [] = record {
  id = "";
  workflow_run_id = "";
  task_id = none;
  approval_type = "";
  status = ApprovalStatus.requested;
  requested_from = none;
  decided_by = none;
  rationale = none;
  summary = none;
  impacts = [];
  risks = [];
  alternatives = [];
  recommendation = none;
  artifacts = [];
  requested_at = 0;
  decided_at = none;
}

abbrev rejected_by_ana : Committed Approval
rejected_by_ana =
    committed (record { db = empty; row = sample_approval []; events = [] })
      (decide draws "approval" ApprovalStatus.rejected (some "no") (person "APPROVER")
        waiting_tables)

decide-ok_example :
    (approval : Approval) × (find_row (λ a. a.id) waiting_tables.approvals "approval"
      ≡ some approval)
    × (approval.status ≡ ApprovalStatus.requested)
    × (rejected_by_ana.row.status ≡ ApprovalStatus.rejected)
    × (rejected_by_ana.row.rationale ≡ some "no")
    × Written
        (λ a. a.id)
        "approval"
        rejected_by_ana.row
        waiting_tables.approvals
        rejected_by_ana.db.approvals
        "approval"
unfolding decide
decide-ok_example =
    decide-ok draws "approval" ApprovalStatus.rejected (some "no") (person "APPROVER")
      waiting_tables rejected_by_ana "approval" refl

decide-final_example :
    decide draws "approval" ApprovalStatus.approved none (person "ADMIN") rejected_by_ana.db
    ≡ http_error 409
unfolding decide
decide-final_example =
    decide-final draws draws "approval" ApprovalStatus.rejected ApprovalStatus.approved (some "no")
      none (person "APPROVER") (person "ADMIN") waiting_tables rejected_by_ana (λ e. cc) refl

viewer_level : role_level "VIEWER" ≡ 10
unfolding role_level
viewer_level = refl

abbrev untouched : ℕ → Database → Database
untouched k db = db

abbrev approved_by_ana : Committed Approval
approved_by_ana =
    committed (record { db = empty; row = sample_approval []; events = [] })
      (approve draws "approval" none (person "APPROVER") waiting_tables)

approve_wakes_example :
    wait_for_approval 1 untouched 0 "approval" approved_by_ana.db
    ≡ some (approved_by_ana.db, ApprovalStatus.approved)
unfolding approve decide
approve_wakes_example =
    approve_wakes draws (person "APPROVER") "approval" none waiting_tables approved_by_ana 0 0
      untouched refl

abbrev turned_down_by_ana : Committed Approval
turned_down_by_ana =
    committed (record { db = empty; row = sample_approval []; events = [] })
      (reject draws "approval" none (person "APPROVER") waiting_tables)
