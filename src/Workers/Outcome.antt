-- ===== src/Workers/Outcome.antt =====
-- What a command leaves behind: the status of its task and the result for the orchestrator.
use mathlib.Core.Option
use software_factory_ai.Common.{
  ℕ, ◌+◌, ◌≡◌, refl, ap, ◌∙◌, Bool, true, false, Option, none, some, List, [], ◌∷◌, String,
  Bool-cases, ◌⊎◌, inl, inr, if◌then◌else◌, ==_refl, string_eq, arith,
}
use software_factory_ai.Common.Dict.{get, get-put}
use software_factory_ai.Common.Rows.{find_row, update_row, find_row-update_row}
use software_factory_ai.Contracts.{AgentStatus, AgentResult, CodeFile, MessageEnvelope}
use software_factory_ai.States.{TaskStatus}
use software_factory_ai.Database.{Database, Draw, Task}
use software_factory_ai.Database.Queries.{given}
use software_factory_ai.Workers.Persistence.{
  next_attempt, update_task_status, record_agent_execution, record_artifact, record_findings,
  record_audit_event,
}
use software_factory_ai.Workers.Consumer.{Shared}
use software_factory_ai.Workers.Execution.{
  Outside, store_code_file, store_code_files, result_of, final_status, execute,
}

-- The status of a task among the rows.
abbrev pub status_in : String → List Task → Option TaskStatus
status_in task_id tasks = Option.map (λ t. t.status) (find_row (λ t. t.id) tasks task_id)

status-update :
    (task_id : String) (f : Task → Task) (status old : TaskStatus) (tasks : List Task)
    → ((t : Task) → (f t).id ≡ t.id)
    → ((t : Task) → (f t).status ≡ status)
    → status_in task_id tasks ≡ some old
    → status_in task_id (update_row (λ t. t.id) task_id f tasks) ≡ some status
status-update task_id f status old tasks same sets h =
    go (find_row (λ t. t.id) tasks task_id) h
      (find_row-update_row (λ t. t.id) task_id task_id f tasks same ∙ rw (==_refl task_id) refl)
  where
    go :
        (o : Option Task)
        → Option.map (λ t. t.status) o ≡ some old
        → find_row (λ t. t.id) (update_row (λ t. t.id) task_id f tasks) task_id ≡ Option.map f o
        → status_in task_id (update_row (λ t. t.id) task_id f tasks) ≡ some status
    go none h k = cc
    go (some t) h k = ap (Option.map (λ t. t.status)) k ∙ ap some (sets t)

abbrev changed : ℕ → TaskStatus → Bool → Database → String → Task → Task
changed now status increment db task_id t = record t {
  status = status;
  attempt = if increment then next_attempt (find_row (λ t. t.id) db.tasks task_id) else t.attempt;
  updated_at = now;
}

update_task_status-status :
    (now : ℕ) (task_id : String) (status old : TaskStatus) (increment : Bool) (db : Database)
    → status_in task_id db.tasks ≡ some old
    → status_in task_id (update_task_status now task_id status increment db).tasks ≡ some status
unfolding update_task_status
update_task_status-status now task_id status old increment db h =
    status-update task_id (changed now status increment db task_id) status old db.tasks (λ t. refl)
      (λ t. refl) h

store_code_file-tasks :
    (o : Outside) (w : Draw) (e : MessageEnvelope) (task_id agent_id : String) (f : CodeFile)
    (db : Database)
    → (store_code_file o w e task_id agent_id f db).tasks ≡ db.tasks
unfolding record_artifact
store_code_file-tasks o w e task_id agent_id f db = ground arith

store_code_files-tasks :
    (o : Outside) (k : ℕ) (e : MessageEnvelope) (task_id agent_id : String) (files : List CodeFile)
    (db : Database)
    → (store_code_files o k e task_id agent_id files db).tasks ≡ db.tasks
unfolding store_code_files
store_code_files-tasks o k e task_id agent_id [] db = refl
store_code_files-tasks o k e task_id agent_id (f ∷ files) db =
    store_code_files-tasks o (k + 1) e task_id agent_id files
      (store_code_file o (o.file_draws k) e task_id agent_id f db)
    ∙ store_code_file-tasks o (o.file_draws k) e task_id agent_id f db

-- The task of a command that is in the tables gets the final status of the result, which is put
-- under the task's id.
pub execute-settles :
    (o : Outside) (e : MessageEnvelope) (k : Shared) (old : TaskStatus)
    → status_in (given e.task_id "") k.db.tasks ≡ some old
    → (status_in (given e.task_id "") (execute o e k).db.tasks
        ≡ some (final_status (result_of o (given e.agent_id "")).0.status))
      × (get (execute o e k).results (given e.task_id "")
          ≡ some (result_of o (given e.agent_id "")).0)
unfolding execute update_task_status record_audit_event record_agent_execution record_findings
execute-settles o e k old h =
    let task_id = given e.task_id "" in
    let agent_id = given e.agent_id "" in
    let result = (result_of o agent_id).0 in
    let begun =
      update_task_status-status (o.draws 0).now task_id TaskStatus.in_progress old true k.db h in
    let started =
      record_audit_event (o.draws 1) "agent.execution.started" agent_id "task" task_id
        (some e.correlation_id) none
        (update_task_status (o.draws 0).now task_id TaskStatus.in_progress true k.db) in
    (
      update_task_status-status (o.draws 3).now task_id (final_status result.status)
          TaskStatus.in_progress false
          (store_code_files o 0 e task_id agent_id result.code_files started)
          (ap (status_in task_id)
              (store_code_files-tasks o 0 e task_id agent_id result.code_files started)
            ∙ begun),
      get-put k.results task_id task_id result ∙ rw (==_refl task_id) refl,
    )

-- The status of a task for the answer of its agent: a task whose agent asks for changes is done
-- too, and the delivery graph reads the answer.
pub data SettlesAs : AgentStatus → TaskStatus → Type 0 where
  approved : SettlesAs AgentStatus.approved TaskStatus.done
  changes_requested : SettlesAs AgentStatus.changes_requested TaskStatus.done
  blocked : SettlesAs AgentStatus.blocked TaskStatus.blocked
  failed : SettlesAs AgentStatus.failed TaskStatus.failed

final_status-SettlesAs : (s : AgentStatus) → SettlesAs s (final_status s)
final_status-SettlesAs AgentStatus.approved = SettlesAs.approved
final_status-SettlesAs AgentStatus.changes_requested = SettlesAs.changes_requested
final_status-SettlesAs AgentStatus.blocked = SettlesAs.blocked
final_status-SettlesAs AgentStatus.failed = SettlesAs.failed

-- The result is the one of the executor, or the failure for an agent that is missing or disabled.
abbrev pub GivenBy : Outside → AgentResult → Type 0
GivenBy o r =
    ((o.enabled ≡ true) × (r ≡ o.executed.0))
    ⊎ ((o.enabled ≡ false) × (r.status ≡ AgentStatus.failed))

result_of-GivenBy : (o : Outside) (agent_id : String) → GivenBy o (result_of o agent_id).0
unfolding result_of
result_of-GivenBy o agent_id = elim (Bool-cases o.enabled) [
  | inl e ↦ rw e (inl (refl, refl))
  | inr e ↦ rw e (inr (refl, refl))
]

-- What a command leaves: a status of its task, and a result under the task's id for the
-- orchestrator to read.
abbrev pub Settled : Outside → (task_id : String) → Shared → AgentResult → TaskStatus → Type 0
Settled o task_id k r t =
    (status_in task_id k.db.tasks ≡ some t)
    × (get k.results task_id ≡ some r)
    × SettlesAs r.status t
    × GivenBy o r

-- Where the task of a command is in the tables, the command leaves under the task's id the result
-- of the executor, or of a missing or disabled agent the status failed, and the task as DONE where
-- the agent approved or asked for changes, BLOCKED where it is blocked and FAILED where it failed.
pub execute-Settled :
    (o : Outside) (e : MessageEnvelope) (k : Shared) (old : TaskStatus)
    → status_in (given e.task_id "") k.db.tasks ≡ some old
    → (r : AgentResult) × (t : TaskStatus) × Settled o (given e.task_id "") (execute o e k) r t
execute-Settled o e k old h =
    let (status, result) = execute-settles o e k old h in
    let r = (result_of o (given e.agent_id "")).0 in
    (
      r,
      final_status r.status,
      (status, result, final_status-SettlesAs r.status, result_of-GivenBy o (given e.agent_id "")),
    )
