-- ===== src/Delivery/Stages.antt =====
-- orchestrator/nodes/stages.py: the nodes that hand a stage to its agents.
pub mod Laws
use software_factory_ai.Common.{
  ℕ, Bool, true, false, ◌||◌, Option, none, some, List, [], ◌∷◌, map, String, if◌then◌else◌, ◌==◌,
}
use software_factory_ai.Common.Lists.{any, flat}
use software_factory_ai.Common.Text.{take_chars, join_texts}
use software_factory_ai.Contracts.{
  AgentStatus, AgentStatus-discrete, agent_status_eq, agent_status_name, Severity,
  Severity-discrete, severity_eq, AgentResult, Finding,
}
use software_factory_ai.States.{RunStatus}
use software_factory_ai.Database.{Database, Draw}
use software_factory_ai.Database.Queries.{
  RunValues, set_status, update_run, record_audit_event, orchestrator_audit,
}
use software_factory_ai.Delivery.State.{
  Stage, stage_name, Position, StageResult, DeliveryState, Update, no_update,
}

-- any(r.get("status") == status for r in results)
abbrev pub some_status : AgentStatus → List AgentResult → Bool
some_status s = any (λ r. r.status == s)

abbrev pub some_critical : List Finding → Bool
some_critical = any (λ f. f.severity == Severity.critical)

-- The status of the stage from the results of its agents.
unfoldable pub stage_outcome : List AgentResult → AgentStatus
unfolding any flat
stage_outcome results =
    let blocked = some_status AgentStatus.blocked results in
    let failed = some_status AgentStatus.failed results in
    let changes = some_status AgentStatus.changes_requested results in
    let critical = some_critical (flat (λ r. r.findings) results) in
    if blocked || failed
    then AgentStatus.failed
    else if changes || critical
    then AgentStatus.changes_requested
    else AgentStatus.approved

-- What `_run_stage` returns; a stage with no enabled agent has no results and is approved.
unfoldable pub stage_update : Stage → List AgentResult → Update
unfolding stage_outcome
stage_update stage [] = record no_update {
  current_stage = some (Position.at stage);
  stage_results = some (
      (
        stage,
        record {
          status = AgentStatus.approved;
          summary = "sem agentes configurados";
          results = [];
        },
      )
      ∷ []);
}
stage_update stage (r ∷ rest) =
    let results = r ∷ rest in
    record no_update {
      current_stage = some (Position.at stage);
      stage_results = some (
          (
            stage,
            record {
              status = stage_outcome results;
              summary = join_texts "; " (map (λ r. take_chars 200 r.summary) results);
              results = results;
            },
          )
          ∷ []);
      findings_by_stage = some ((stage, flat (λ r. r.findings) results) ∷ []);
      artifacts = some (flat (λ r. r.artifacts) results);
      code_files = some (flat (λ r. r.code_files) results);
    }

-- The writes of `_run_stage` once the agents have answered.
unfoldable pub stage_writes :
    (ℕ → Draw) → Stage → List AgentResult → DeliveryState → Database → Database
unfolding update_run record_audit_event stage_outcome
stage_writes w stage [] s db = db
stage_writes w stage (r ∷ rest) s db =
    let moved =
      update_run (w 0).now s.workflow_run_id
        (record { status = none; current_node = some (stage_name stage); finished_at = none }) db in
    record_audit_event (w 1)
      (orchestrator_audit "state.changed" "workflow_run" s.workflow_run_id s.correlation_id (
        some (
          ("stage", stage_name stage)
          ∷ ("status", agent_status_name (stage_outcome (r ∷ rest)))
          ∷ [])))
      moved

-- _run_stage, on the results that its agents returned and the tables as they stand then.
unfoldable pub run_stage :
    (ℕ → Draw) → Stage → List AgentResult → DeliveryState → Database → Database × Update
unfolding stage_update stage_writes
run_stage w stage results s db = (stage_writes w stage results s db, stage_update stage results)

-- triage also marks the run as running.
unfoldable pub triage : (ℕ → Draw) → List AgentResult → DeliveryState → Database → Database × Update
unfolding run_stage
triage w results s db =
    let (db', update) = run_stage w Stage.triage results s db in
    (update_run (w 2).now s.workflow_run_id (set_status RunStatus.running) db', update)
