-- ===== src/Delivery/Dispatch.antt =====
-- orchestrator/nodes/dispatch.py, dispatch_agent: the task of an agent, its command, and the wait
-- for its result.
pub mod Replies
use software_factory_ai.Common.{
  ℕ, zero, suc, Bool, true, false, Option, none, some, List, [], ◌∷◌, ◌++◌, String, if◌then◌else◌,
  contains, text_append,
}
use software_factory_ai.Common.Dict.{get}
use software_factory_ai.Common.{string_eq}
use software_factory_ai.Contracts.{AgentStatus, AgentResult, MessageEnvelope, Payload}
use software_factory_ai.States.{TaskStatus, TaskStatus-discrete, task_status_eq}
use software_factory_ai.Database.{Database, Draw}
use software_factory_ai.Database.Queries.{
  create_task, record_audit_event, orchestrator_audit, get_task_status,
}
use software_factory_ai.Workers.Consumer.{Shared}

-- The arguments, with `agent_definition` by the two keys that are read.
pub record Request : Type 0 where
  pub workflow_run_id : String
  pub correlation_id : String
  pub agent_id : String
  pub agent_name : String
  pub queue : String
  pub stage : String
  pub context : String
  pub priority : ℕ
  pub project_id : Option String

-- What is returned, each with the `task_id` that is put into the dict: the worker's result, or a
-- failure with the task's status, or the timeout.
pub data Reply : Type 0 where
  received : (task_id : String) → AgentResult → Reply
  without_result : (task_id : String) → TaskStatus → Reply
  timeout : (task_id : String) → Reply

-- The status that the stage reads of a reply.
abbrev pub reply_status : Reply → AgentStatus
reply_status (received task_id r) = r.status
reply_status (without_result task_id s) = AgentStatus.failed
reply_status (timeout task_id) = AgentStatus.failed

-- MessageEnvelope(…), with the defaults of its other fields
abbrev pub command_of : Draw → Request → (task_id : String) → MessageEnvelope
command_of w r task_id = record {
  message_id = w.id;
  correlation_id = r.correlation_id;
  causation_id = none;
  workflow_run_id = some r.workflow_run_id;
  project_id = r.project_id;
  task_id = some task_id;
  agent_id = some r.agent_id;
  command = "execute_agent";
  priority = r.priority;
  attempt = 1;
  created_at = w.now;
  payload_reference = none;
  payload = some (record { stage = r.stage; context = r.context });
}

abbrev pub audited : Draw → (event_type task_id correlation_id key value : String) → Shared → Shared
audited w event_type task_id correlation_id key value sh = record sh {
  db =
      record_audit_event w
        (orchestrator_audit event_type "task" task_id correlation_id (some ((key, value) ∷ [])))
        sh.db;
}

-- The other processes: what they do during the k-th sleep of the wait.
abbrev pub Others : Type 0
Others = ℕ → Shared → Shared

-- if status in ("FAILED", "CANCELLED")
abbrev pub has_ended : TaskStatus → Bool
has_ended s = contains (TaskStatus.failed ∷ TaskStatus.cancelled ∷ []) s

-- The status of a task that has ended.
abbrev pub ended_status : Option TaskStatus → Option TaskStatus
ended_status none = none
ended_status (some s) = if has_ended s then some s else none

-- The wait, for a number of polls before the deadline.
unfoldable pub wait_for_result :
    (polls : ℕ) → Others → (k : ℕ) → (task_id : String) → Shared → Reply × Shared
unfolding get get_task_status contains TaskStatus-discrete
wait_for_result zero others k task_id sh = (timeout task_id, sh)
wait_for_result (suc polls) others k task_id sh = elim (get sh.results task_id) [
  | some r ↦ (received task_id r, sh)
  | none ↦ elim (ended_status (get_task_status task_id sh.db)) [
    | some s ↦ (without_result task_id s, sh)
    | none ↦ wait_for_result polls others (suc k) task_id (others k sh)
  ]
]

-- The task, its audit, the command and the second audit.
unfoldable pub send_command : (w : ℕ → Draw) → Request → Shared → Shared × String
unfolding create_task record_audit_event
send_command w r sh =
    let (db, task_id) =
      create_task (w 0) r.workflow_run_id r.stage
        (text_append r.stage (text_append ": " r.agent_name)) r.agent_id r.priority sh.db in
    let created = record sh {
      db =
          record_audit_event (w 1)
            (orchestrator_audit "task.created" "task" task_id r.correlation_id
              (some (("agent_id", r.agent_id) ∷ ("stage", r.stage) ∷ [])))
            db;
    } in
    let sent = record created { queue = sh.queue ++ command_of (w 2) r task_id ∷ [] } in
    (audited (w 3) "task.queued" task_id r.correlation_id "queue" r.queue sent, task_id)

unfoldable pub dispatch_agent :
    (polls : ℕ) → Others → (w : ℕ → Draw) → Request → Shared → Reply × Shared
unfolding send_command wait_for_result
dispatch_agent polls others w r sh =
    let (sent, task_id) = send_command w r sh in wait_for_result polls others 0 task_id sent
