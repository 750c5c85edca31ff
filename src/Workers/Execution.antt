-- ===== src/Workers/Execution.antt =====
-- workers/base/consumer.py, _execute and _store_code_files: one command, where nothing raises.
use software_factory_ai.Common.{
  text_append, ℕ, ◌+◌, Bool, true, false, Option, none, some, List, [], ◌∷◌, String, if◌then◌else◌,
  ◌==◌, string_eq,
}
use software_factory_ai.Common.Dict.{put}
use software_factory_ai.Common.Text.{after_slashes}
use software_factory_ai.Contracts.{
  AgentStatus, agent_status_name, AgentResult, CodeFile, MessageEnvelope,
}
use software_factory_ai.States.{TaskStatus}
use software_factory_ai.Database.{Database, Draw, ExecutionStatus}
use software_factory_ai.Database.Queries.{given}
use software_factory_ai.Workers.Persistence.{
  update_task_status, record_agent_execution, record_artifact, record_findings, record_audit_event,
}
use software_factory_ai.Workers.Consumer.{Shared}

-- What the executor says of a call.
pub record Meta : Type 0 where
  pub model : Option String
  pub token_usage : ℕ
  pub duration_ms : ℕ
  pub error_code : Option String

-- The answers from outside while a command runs: whether the agent is there and enabled, the
-- executor's result, what MinIO returns for an object (its reference and checksum), whether the
-- row of a code file can be written, and the fresh values.
pub record Outside : Type 0 where
  pub enabled : Bool
  pub executed : AgentResult × Meta
  pub new_execution_id : String
  pub output_reference : AgentResult → Option String
  pub stored : CodeFile → Option (String × Option String)
  pub recorded : CodeFile → Bool
  pub draws : ℕ → Draw
  pub file_draws : ℕ → Draw
  pub finding_draws : ℕ → Draw
  pub duration_text : String

-- The result for an agent that is missing or disabled.
abbrev pub not_found : Outside → String → AgentResult × Meta
not_found o agent_id = (
  record {
    agent_id = agent_id;
    execution_id = o.new_execution_id;
    status = AgentStatus.failed;
    summary = text_append "Agente " (text_append agent_id " não encontrado ou desabilitado");
    findings = [];
    artifacts = [];
    code_files = [];
    next_recommended_agents = [];
  },
  record { model = none; token_usage = 0; duration_ms = 0; error_code = some "agent_not_found" },
)

-- One file of `_store_code_files`. Its copy in the workspace is outside the tables.
abbrev pub store_code_file :
    Outside → Draw → MessageEnvelope → (task_id agent_id : String) → CodeFile → Database → Database
store_code_file o w e task_id agent_id f db = if f.path == "" then db else elim (o.stored f) [
  | none ↦ db
  | some (reference, checksum) ↦ elim e.project_id [
    | none ↦ db
    | some project_id ↦
        if o.recorded f
        then record_artifact w project_id (given e.workflow_run_id "") task_id "code" f.path
            (after_slashes 3 reference) checksum (some agent_id) db
        else db
  ]
]

unfoldable pub store_code_files :
    Outside
    → ℕ
    → MessageEnvelope
    → (task_id agent_id : String) → List CodeFile
    → Database
    → Database
unfolding record_artifact after_slashes
store_code_files o k e task_id agent_id [] db = db
store_code_files o k e task_id agent_id (f ∷ files) db =
    store_code_files o (k + 1) e task_id agent_id files
      (store_code_file o (o.file_draws k) e task_id agent_id f db)

-- The status of the task for each status of the result.
abbrev pub final_status : AgentStatus → TaskStatus
final_status AgentStatus.approved = TaskStatus.done
final_status AgentStatus.changes_requested = TaskStatus.done
final_status AgentStatus.blocked = TaskStatus.blocked
final_status AgentStatus.failed = TaskStatus.failed

abbrev pub execution_status : AgentStatus → ExecutionStatus
execution_status AgentStatus.failed = ExecutionStatus.failed
execution_status _ = ExecutionStatus.completed

abbrev pub execution_event : AgentStatus → String
execution_event AgentStatus.failed = "agent.execution.failed"
execution_event _ = "agent.execution.completed"

unfoldable pub result_of : Outside → String → AgentResult × Meta
result_of o agent_id = if o.enabled then o.executed else not_found o agent_id

unfoldable pub execute : Outside → MessageEnvelope → Shared → Shared
unfolding update_task_status record_audit_event record_agent_execution record_findings
    store_code_files result_of put
execute o e k =
    let task_id = given e.task_id "" in
    let agent_id = given e.agent_id "" in
    let started =
      record_audit_event (o.draws 1) "agent.execution.started" agent_id "task" task_id
        (some e.correlation_id) none
        (update_task_status (o.draws 0).now task_id TaskStatus.in_progress true k.db) in
    let (result, meta) = result_of o agent_id in
    let filed = store_code_files o 0 e task_id agent_id result.code_files started in
    let (recorded, execution_id) =
      record_agent_execution (o.draws 2) task_id agent_id meta.model
        (execution_status result.status) e.payload_reference (o.output_reference result)
        meta.token_usage meta.duration_ms meta.error_code filed in
    let found = record_findings o.finding_draws task_id execution_id result.findings recorded in
    let settled =
      update_task_status (o.draws 3).now task_id (final_status result.status) false found in
    record k {
      db =
          record_audit_event (o.draws 4) (execution_event result.status) agent_id "task" task_id
            (some e.correlation_id)
            (some
              (("status", agent_status_name result.status) ∷ ("duration_ms", o.duration_text) ∷ []))
            settled;
      results = put k.results task_id result;
    }
