-- ===== src/Database/Queries.antt =====
-- orchestrator/db.py: what the orchestrator reads from and writes to the tables.
use mathlib.Core.Option
use software_factory_ai.Common.{
  ℕ, ◌+◌, Bool, ◌&&◌, Option, none, some, List, [], ◌∷◌, ◌++◌, String, ltb, if◌then◌else◌, contains,
}
use software_factory_ai.Common.Dict.{Dict}
use software_factory_ai.Common.Rows.{find_row, update_row}
use software_factory_ai.Contracts.{Finding}
use software_factory_ai.States.{
  RunStatus, TaskStatus, ApprovalStatus, run_status_eq, RunStatus-discrete,
}
use software_factory_ai.Database.{Database, Draw, Demand, WorkflowRun}

unfoldable pub create_task :
    Draw
    → (workflow_run_id type title agent_id : String) → (priority : ℕ) → Database
    → Database × String
create_task w workflow_run_id type title agent_id priority db = (
  record db {
    tasks =
        db.tasks
        ++ record {
          id = w.id;
          workflow_run_id = workflow_run_id;
          parent_task_id = none;
          type = type;
          title = title;
          description = none;
          assigned_agent_id = some agent_id;
          status = TaskStatus.ready;
          attempt = 0;
          max_attempts = 3;
          priority = priority;
          updated_at = w.now;
        }
          ∷ [];
  },
  w.id,
)

unfoldable pub get_task_status : String → Database → Option TaskStatus
get_task_status task_id db = Option.map (λ t. t.status) (find_row (λ t. t.id) db.tasks task_id)

-- The keyword arguments of `update_run`; `none` is one that is not given.
pub record RunValues : Type 0 where
  pub status : Option RunStatus
  pub current_node : Option String
  pub finished_at : Option ℕ

abbrev pub set_status : RunStatus → RunValues
set_status s = record { status = some s; current_node = none; finished_at = none }

abbrev pub finish_with : RunStatus → ℕ → RunValues
finish_with s t = record { status = some s; current_node = none; finished_at = some t }

abbrev pub given {ℓ} : {A : Type ℓ} → Option A → A → A
given none old = old
given (some new) old = new

abbrev pub given_some {ℓ} : {A : Type ℓ} → Option A → Option A → Option A
given_some none old = old
given_some (some new) old = some new

abbrev pub apply_values : ℕ → RunValues → WorkflowRun → WorkflowRun
apply_values now v r = record r {
  status = given v.status r.status;
  current_node = given_some v.current_node r.current_node;
  finished_at = given_some v.finished_at r.finished_at;
  updated_at = now;
}

unfoldable pub update_run : ℕ → String → RunValues → Database → Database
update_run now run_id values db = record db {
  runs = update_row (λ r. r.id) run_id (apply_values now values) db.runs;
}

-- The keyword arguments of `record_audit_event`.
pub record Audit : Type 0 where
  pub event_type : String
  pub actor_type : String
  pub actor_id : String
  pub entity_type : Option String
  pub entity_id : Option String
  pub correlation_id : Option String
  pub before_state : Option (Dict String (Option String))
  pub after_state : Option (Dict String (Option String))
  pub metadata : Option (Dict String String)

-- The call with the default actor and no states.
abbrev pub orchestrator_audit :
    (event_type entity_type entity_id correlation_id : String) → Option (Dict String String) → Audit
orchestrator_audit event_type entity_type entity_id correlation_id metadata = record {
  event_type = event_type;
  actor_type = "orchestrator";
  actor_id = "orchestrator";
  entity_type = some entity_type;
  entity_id = some entity_id;
  correlation_id = some correlation_id;
  before_state = none;
  after_state = none;
  metadata = metadata;
}

unfoldable pub record_audit_event : Draw → Audit → Database → Database
record_audit_event w a db = record db {
  audit_events =
      db.audit_events
      ++ record {
        id = w.id;
        correlation_id = a.correlation_id;
        actor_type = a.actor_type;
        actor_id = some a.actor_id;
        event_type = a.event_type;
        entity_type = a.entity_type;
        entity_id = a.entity_id;
        before_state = a.before_state;
        after_state = a.after_state;
        metadata = a.metadata;
        created_at = w.now;
      }
        ∷ [];
}

-- The arguments of `create_approval` that its callers give.
pub record ApprovalRequest : Type 0 where
  pub workflow_run_id : String
  pub approval_type : String
  pub summary : String
  pub recommendation : String
  pub artifacts : List String
  pub risks : List Finding

unfoldable pub create_approval : Draw → ApprovalRequest → Database → Database × String
create_approval w a db = (
  record db {
    approvals =
        db.approvals
        ++ record {
          id = w.id;
          workflow_run_id = a.workflow_run_id;
          task_id = none;
          approval_type = a.approval_type;
          status = ApprovalStatus.requested;
          requested_from = some "APPROVER";
          decided_by = none;
          rationale = none;
          summary = some a.summary;
          impacts = [];
          risks = a.risks;
          alternatives = [];
          recommendation = some a.recommendation;
          artifacts = a.artifacts;
          requested_at = w.now;
          decided_at = none;
        }
          ∷ [];
  },
  w.id,
)

unfoldable pub get_approval_status : String → Database → Option ApprovalStatus
get_approval_status approval_id db =
    Option.map (λ a. a.status) (find_row (λ a. a.id) db.approvals approval_id)

abbrev pub flatten {ℓ} : {A : Type ℓ} → Option (Option A) → Option A
flatten none = none
flatten (some o) = o

unfoldable pub get_approval_rationale : String → Database → Option String
get_approval_rationale approval_id db =
    flatten (Option.map (λ a. a.rationale) (find_row (λ a. a.id) db.approvals approval_id))

unfoldable pub record_decision :
    Draw
    → (workflow_run_id decision_type rationale selected_option decided_by : String) → Database
    → Database
record_decision w workflow_run_id decision_type rationale selected_option decided_by db =
    record db {
      decisions =
          db.decisions
          ++ record {
            id = w.id;
            workflow_run_id = workflow_run_id;
            decision_type = decision_type;
            rationale = some rationale;
            options_considered = [];
            selected_option = some selected_option;
            decided_by = some decided_by;
          }
            ∷ [];
    }

-- The dict that a run is handed to the workflow as.
pub record RunRequest : Type 0 where
  pub workflow_run_id : String
  pub project_id : String
  pub demand_id : String
  pub correlation_id : String
  pub demand_title : String
  pub demand_description : String

abbrev pub request_of : WorkflowRun → Demand → RunRequest
request_of r d = record {
  workflow_run_id = r.id;
  project_id = r.project_id;
  demand_id = r.demand_id;
  correlation_id = r.correlation_id;
  demand_title = d.title;
  demand_description = given d.description "";
}

-- SELECT … FROM workflow_runs JOIN demands ON demands.id = demand_id WHERE test. demands.id is
-- the primary key, so a run joins one demand at most.
unfoldable pub select_requests :
    (WorkflowRun → Bool) → Database → List WorkflowRun → List RunRequest
select_requests test db [] = []
select_requests test db (r ∷ rows) =
    let rest = select_requests test db rows in
    if test r
    then (elim (find_row (λ d. d.id) db.demands r.demand_id) [
      | none ↦ rest
      | some d ↦ request_of r d ∷ rest
    ])
    else rest

-- runs.c.status.in_(["QUEUED", "RETRYING"])
abbrev pub is_queued : WorkflowRun → Bool
is_queued r = contains (RunStatus.queued ∷ RunStatus.retrying ∷ []) r.status

unfoldable pub fetch_queued_runs : Database → List RunRequest
unfolding select_requests contains RunStatus-discrete
fetch_queued_runs db = select_requests is_queued db db.runs

-- A resumable status, and no write for longer than the threshold. `updated_at < now - threshold`
-- is written as a sum, since subtraction on ℕ stops at 0.
abbrev pub is_stale : (now threshold : ℕ) → WorkflowRun → Bool
is_stale now threshold r =
    contains (RunStatus.running ∷ RunStatus.waiting_human ∷ []) r.status
    && ltb (r.updated_at + threshold) now

-- STALE_RUNNING_THRESHOLD_SECONDS
abbrev pub stale_running_threshold_seconds : ℕ
stale_running_threshold_seconds = 180

unfoldable pub fetch_stale_running_runs : (now threshold : ℕ) → Database → List RunRequest
unfolding select_requests contains RunStatus-discrete
fetch_stale_running_runs now threshold db = select_requests (is_stale now threshold) db db.runs
