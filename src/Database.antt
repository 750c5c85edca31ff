-- ===== src/Database.antt =====
-- backend/app/models/entities.py: the rows of the tables that the orchestrator, the workers and
-- the API share. A table is the list of its rows; a time is a number of seconds. The columns
-- created_at and updated_at are kept where the program reads them.
pub mod Queries
pub mod Settings
use software_factory_ai.Common.{ℕ, Bool, Option, List, [], String}
use software_factory_ai.Common.Dict.{Dict}
use software_factory_ai.Contracts.{Finding, Severity}
use software_factory_ai.States.{RunStatus, TaskStatus, ApprovalStatus, ProjectStatus}

pub record Project : Type 0 where
  pub id : String
  pub name : String
  pub description : Option String
  pub status : ProjectStatus
  pub repository_url : Option String
  pub workspace_path : Option String

pub record Demand : Type 0 where
  pub id : String
  pub project_id : String
  pub title : String
  pub description : Option String
  pub priority : ℕ
  pub requester : Option String
  pub business_value : Option String
  pub status : String

pub record WorkflowRun : Type 0 where
  pub id : String
  pub project_id : String
  pub demand_id : String
  pub graph_version : String
  pub status : RunStatus
  pub current_node : Option String
  pub started_at : Option ℕ
  pub finished_at : Option ℕ
  pub correlation_id : String
  pub updated_at : ℕ

pub record Task : Type 0 where
  pub id : String
  pub workflow_run_id : String
  pub parent_task_id : Option String
  pub type : String
  pub title : String
  pub description : Option String
  pub assigned_agent_id : Option String
  pub status : TaskStatus
  pub attempt : ℕ
  pub max_attempts : ℕ
  pub priority : ℕ
  pub updated_at : ℕ

-- AgentExecution.status
pub data ExecutionStatus : Type 0 where
  running completed failed : ExecutionStatus

pub record AgentExecution : Type 0 where
  pub id : String
  pub task_id : String
  pub agent_id : String
  pub model : Option String
  pub prompt_version : Option String
  pub status : ExecutionStatus
  pub input_reference : Option String
  pub output_reference : Option String
  pub token_usage : ℕ
  pub duration_ms : ℕ
  pub error_code : Option String

pub record Artifact : Type 0 where
  pub id : String
  pub project_id : String
  pub workflow_run_id : Option String
  pub task_id : Option String
  pub type : String
  pub name : String
  pub storage_key : String
  pub checksum : Option String
  pub version : ℕ
  pub created_by : Option String

pub record FindingRow : Type 0 where
  pub id : String
  pub task_id : String
  pub agent_execution_id : Option String
  pub category : String
  pub severity : Severity
  pub description : String
  pub evidence : List String
  pub recommendation : Option String
  pub status : String

pub record Decision : Type 0 where
  pub id : String
  pub workflow_run_id : String
  pub decision_type : String
  pub rationale : Option String
  pub options_considered : List String
  pub selected_option : Option String
  pub decided_by : Option String

pub record Approval : Type 0 where
  pub id : String
  pub workflow_run_id : String
  pub task_id : Option String
  pub approval_type : String
  pub status : ApprovalStatus
  pub requested_from : Option String
  pub decided_by : Option String
  pub rationale : Option String
  pub summary : Option String
  pub impacts : List String
  pub risks : List Finding
  pub alternatives : List String
  pub recommendation : Option String
  pub artifacts : List String
  pub requested_at : ℕ
  pub decided_at : Option ℕ

pub record AuditEvent : Type 0 where
  pub id : String
  pub correlation_id : Option String
  pub actor_type : String
  pub actor_id : Option String
  pub event_type : String
  pub entity_type : Option String
  pub entity_id : Option String
  pub before_state : Option (Dict String (Option String))
  pub after_state : Option (Dict String (Option String))
  pub metadata : Option (Dict String String)
  pub created_at : ℕ

pub record User : Type 0 where
  pub id : String
  pub username : String
  pub password_hash : String
  pub role : String
  pub enabled : Bool
  pub refresh_token_hash : Option String

pub record Database : Type 0 where
  pub projects : List Project
  pub demands : List Demand
  pub runs : List WorkflowRun
  pub tasks : List Task
  pub approvals : List Approval
  pub decisions : List Decision
  pub audit_events : List AuditEvent
  pub executions : List AgentExecution
  pub artifacts : List Artifact
  pub findings : List FindingRow
  pub users : List User

-- What one write draws from outside the program: a fresh uuid4 and the time of day. The k-th
-- write of a handler draws `w k`.
pub record Draw : Type 0 where
  pub id : String
  pub now : ℕ

abbrev pub empty : Database
empty = record {
  projects = [];
  demands = [];
  runs = [];
  tasks = [];
  approvals = [];
  decisions = [];
  audit_events = [];
  executions = [];
  artifacts = [];
  findings = [];
  users = [];
}
