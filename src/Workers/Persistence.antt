-- ===== src/Workers/Persistence.antt =====
-- workers/base/persistence.py: the writes of the workers.
use software_factory_ai.Common.{
  ℕ, ◌+◌, Bool, Option, none, some, List, [], ◌∷◌, ◌++◌, String, if◌then◌else◌, string_eq,
}
use software_factory_ai.Common.Dict.{Dict}
use software_factory_ai.Common.Rows.{find_row, update_row}
use software_factory_ai.Contracts.{Finding}
use software_factory_ai.States.{TaskStatus}
use software_factory_ai.Database.{Database, Draw, Task, ExecutionStatus, FindingRow}

-- (row[0] if row else 0) + 1
abbrev pub next_attempt : Option Task → ℕ
next_attempt none = 0 + 1
next_attempt (some t) = t.attempt + 1

unfoldable pub update_task_status :
    (now : ℕ) → String → TaskStatus → (increment_attempt : Bool) → Database → Database
unfolding find_row
update_task_status now task_id status increment_attempt db =
    let attempt = next_attempt (find_row (λ t. t.id) db.tasks task_id) in
    record db {
      tasks =
          update_row (λ t. t.id) task_id
            (λ t. record t {
              status = status;
              attempt = if increment_attempt then attempt else t.attempt;
              updated_at = now;
            })
            db.tasks;
    }

-- The row that is inserted, and its id.
unfoldable pub record_agent_execution :
    Draw
    → (task_id agent_id : String) (model : Option String) (status : ExecutionStatus)
      (input_reference output_reference : Option String) (token_usage duration_ms : ℕ)
      (error_code : Option String)
    → Database
    → Database × String
record_agent_execution w task_id agent_id model status input_reference output_reference token_usage
      duration_ms error_code db =
    (
      record db {
        executions =
            db.executions
            ++ record {
              id = w.id;
              task_id = task_id;
              agent_id = agent_id;
              model = model;
              prompt_version = some "base@1.0.0";
              status = status;
              input_reference = input_reference;
              output_reference = output_reference;
              token_usage = token_usage;
              duration_ms = duration_ms;
              error_code = error_code;
            }
              ∷ [];
      },
      w.id,
    )

unfoldable pub record_artifact :
    Draw
    → (project_id workflow_run_id task_id type name storage_key : String)
      (checksum created_by : Option String)
    → Database
    → Database
record_artifact w project_id workflow_run_id task_id type name storage_key checksum created_by db =
    record db {
      artifacts =
          db.artifacts
          ++ record {
            id = w.id;
            project_id = project_id;
            workflow_run_id = some workflow_run_id;
            task_id = some task_id;
            type = type;
            name = name;
            storage_key = storage_key;
            checksum = checksum;
            version = 1;
            created_by = created_by;
          }
            ∷ [];
    }

-- One OPEN row for each finding, in order; the k-th row draws `w k`.
unfoldable pub finding_rows :
    (ℕ → Draw) → ℕ → (task_id execution_id : String) → List Finding → List FindingRow
finding_rows w k task_id execution_id [] = []
finding_rows w k task_id execution_id (f ∷ findings) =
    record {
      id = (w k).id;
      task_id = task_id;
      agent_execution_id = some execution_id;
      category = f.category;
      severity = f.severity;
      description = f.description;
      evidence = f.evidence;
      recommendation = some f.recommendation;
      status = "OPEN";
    }
    ∷ finding_rows w (k + 1) task_id execution_id findings

unfoldable pub record_findings :
    (ℕ → Draw) → (task_id execution_id : String) → List Finding → Database → Database
unfolding finding_rows
record_findings w task_id execution_id findings db = record db {
  findings = db.findings ++ finding_rows w 0 task_id execution_id findings;
}

unfoldable pub record_audit_event :
    Draw
    → (event_type actor_id entity_type entity_id : String) → Option String
    → Option (Dict String String)
    → Database
    → Database
record_audit_event w event_type actor_id entity_type entity_id correlation_id metadata db =
    record db {
      audit_events =
          db.audit_events
          ++ record {
            id = w.id;
            correlation_id = correlation_id;
            actor_type = "agent";
            actor_id = some actor_id;
            event_type = event_type;
            entity_type = some entity_type;
            entity_id = some entity_id;
            before_state = none;
            after_state = none;
            metadata = metadata;
            created_at = w.now;
          }
            ∷ [];
    }
