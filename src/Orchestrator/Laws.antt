-- ===== src/Orchestrator/Laws.antt =====
-- What a run of the workflow leaves in the tables and in the process.
use mathlib.Core.Option
use software_factory_ai.Common.{
  ℕ, zero, suc, ◌+◌, ◌<◌, ◌≡◌, refl, ap, ◌∙◌, Bool, true, false, ◌&&◌, Option, none, some, List, [],
  ◌∷◌, String, if◌then◌else◌, ==_refl, contains, string_eq, arith, Bool-cases, inl, inr,
}
use software_factory_ai.Common.Lists.{select}
use software_factory_ai.Common.Rows.{find_row, find_row-update_row}
use software_factory_ai.States.{RunStatus}
use software_factory_ai.Database.{Database, Draw, WorkflowRun}
use software_factory_ai.Database.Queries.{
  RunRequest, RunValues, set_status, finish_with, update_run, record_audit_event, apply_values,
  given,
}
use software_factory_ai.Delivery.State.{DeliveryState}
use software_factory_ai.Delivery.Graph.Run.{initial_state}
use software_factory_ai.Orchestrator.{
  Outcome, finished, raised, Faults, attempts, mark_run_status, is_delivered, finish_run, try_run,
  handle_failure, handled, Process, discard, run_workflow,
}

-- The status of a run in the tables.
abbrev pub run_status : String → Database → Option RunStatus
run_status run_id db = Option.map (λ r. r.status) (find_row (λ r. r.id) db.runs run_id)

update_run-status :
    (now : ℕ) (run_id : String) (values : RunValues) (db : Database) (status old : RunStatus)
    → values.status ≡ some status
    → run_status run_id db ≡ some old
    → run_status run_id (update_run now run_id values db) ≡ some status
unfolding update_run
update_run-status now run_id values db status old e h = go (find_row (λ r. r.id) db.runs run_id) h (
    find_row-update_row (λ r. r.id) run_id run_id (apply_values now values) db.runs (λ r. refl)
    ∙ rw (==_refl run_id) refl)
  where
    go :
        (o : Option WorkflowRun)
        → Option.map (λ r. r.status) o ≡ some old
        → find_row (λ r. r.id) (update_run now run_id values db).runs run_id
          ≡ Option.map (apply_values now values) o
        → run_status run_id (update_run now run_id values db) ≡ some status
    go none h k = cc
    go (some r) h k = ap (Option.map (λ r. r.status)) k ∙ ap (λ o. some (given o r.status)) e

attempts-true :
    (n k j : ℕ) (reaches : ℕ → Bool) → j < n → reaches (k + j) ≡ true → attempts n reaches k ≡ true
unfolding attempts
attempts-true zero k j reaches b h = absurd (omega arith)
attempts-true (suc n) k zero reaches b h =
    let e : k ≡ k + 0 = omega arith in rw (ap reaches e ∙ h) refl
attempts-true (suc n) k (suc j) reaches b h =
    let e : suc k + j ≡ k + suc j = omega arith in
    ground (arith, attempts-true n (suc k) j reaches (omega arith) (ap reaches e ∙ h))

discard-absent :
    (run_id : String) (ids : List String) → contains ids run_id ≡ false → discard run_id ids ≡ ids
unfolding discard select contains
discard-absent run_id [] h = refl
discard-absent run_id (j ∷ ids) h = ground (arith, discard-absent run_id ids)

-- When a run of the workflow returns, whatever failed, the runs that the process counts as
-- running are as they were before.
pub run_workflow-running :
    (f : Faults) (w : ℕ → Draw) (ainvoke : Option DeliveryState → Database → Outcome)
    (resume has_checkpoint : Bool) (run : RunRequest) (p : Process)
    → (run_workflow f w ainvoke resume has_checkpoint run p).running ≡ p.running
unfolding run_workflow discard select
run_workflow-running f w ainvoke resume has_checkpoint run p =
    elim (Bool-cases (contains p.running run.workflow_run_id)) [
      | inl e ↦ rw e refl
      | inr e ↦ rw (e, ==_refl run.workflow_run_id) (discard-absent run.workflow_run_id p.running e)
    ]

pub attempts-reach :
    (j : ℕ) (reaches : ℕ → Bool) → j < 5 → reaches j ≡ true → attempts 5 reaches 0 ≡ true
attempts-reach j reaches b h =
    let e : 0 + j ≡ j = omega arith in attempts-true 5 0 j reaches b (ap reaches e ∙ h)

mark-reached :
    (reaches : ℕ → Bool) (error : String) (now : ℕ) (run_id : String) (values : RunValues)
    (db : Database)
    → attempts 5 reaches 0 ≡ true
    → mark_run_status reaches error now run_id values db ≡ (none, update_run now run_id values db)
unfolding mark_run_status
mark-reached reaches error now run_id values db h = rw h refl

-- The tables that the graph starts from: the run is marked as running.
abbrev pub marked_running : (ℕ → Draw) → RunRequest → Process → Database
marked_running w run p =
    update_run (w 0).now run.workflow_run_id (set_status RunStatus.running) p.db

-- The input of the graph: nothing where a checkpoint is resumed.
abbrev pub graph_input : (resume has_checkpoint : Bool) → RunRequest → Option DeliveryState
graph_input resume has_checkpoint run =
    if resume && has_checkpoint then none else some (initial_state run)

abbrev pub final_status : DeliveryState → RunStatus
final_status s = if is_delivered s then RunStatus.completed else RunStatus.cancelled

finish-status :
    (f : Faults) (w : ℕ → Draw) (run : RunRequest) (s : DeliveryState) (db : Database)
    (old : RunStatus)
    → attempts 5 f.finish 0 ≡ true
    → f.completed_audit ≡ true
    → run_status run.workflow_run_id db ≡ some old
    → run_status run.workflow_run_id (handled (handle_failure f w run) (finish_run f w run s db))
      ≡ some (final_status s)
unfolding finish_run record_audit_event
finish-status f w run s db old reach written h = elim (Bool-cases (is_delivered s)) [
  | inl e ↦
      rw
        (
          e,
          mark-reached f.finish f.error (w 1).now run.workflow_run_id
              (finish_with RunStatus.completed (w 1).now) db reach,
          written,
        )
        (update_run-status (w 1).now run.workflow_run_id (finish_with RunStatus.completed (w 1).now)
          db RunStatus.completed old refl h)
  | inr e ↦
      rw
        (
          e,
          mark-reached f.finish f.error (w 1).now run.workflow_run_id
              (finish_with RunStatus.cancelled (w 1).now) db reach,
        )
        (update_run-status (w 1).now run.workflow_run_id (finish_with RunStatus.cancelled (w 1).now)
          db RunStatus.cancelled old refl h)
]

-- Where the run is not running yet, one of the five attempts of the first and of the last write
-- reaches the database, the audit of a completion is written, and the graph ends in a state with
-- tables that hold the run: the run's status is then COMPLETED if the state is delivered and
-- CANCELLED otherwise.
pub run_workflow-finished :
    (f : Faults) (w : ℕ → Draw) (ainvoke : Option DeliveryState → Database → Outcome)
    (resume has_checkpoint : Bool) (run : RunRequest) (p : Process) (s : DeliveryState)
    (db : Database) (old : RunStatus) (i j : ℕ)
    → contains p.running run.workflow_run_id ≡ false
    → i < 5
    → f.begin i ≡ true
    → j < 5
    → f.finish j ≡ true
    → f.completed_audit ≡ true
    → ainvoke (graph_input resume has_checkpoint run) (marked_running w run p) ≡ finished s db
    → run_status run.workflow_run_id db ≡ some old
    → run_status run.workflow_run_id (run_workflow f w ainvoke resume has_checkpoint run p).db
      ≡ some (final_status s)
unfolding run_workflow try_run
run_workflow-finished f w ainvoke resume has_checkpoint run p s db old i j new bi hi bj hj written
      answer h =
    let begun = attempts-reach i f.begin bi hi in
    let done = attempts-reach j f.finish bj hj in
    rw
      (
        new,
        mark-reached f.begin f.error (w 0).now run.workflow_run_id (set_status RunStatus.running)
            p.db begun,
        answer,
      )
      (finish-status f w run s db old done written h)

-- A failure that no attempt can write leaves the status as it was.
failure-status :
    (f : Faults) (w : ℕ → Draw) (run : RunRequest) (error : String) (db : Database)
    (old : RunStatus)
    → run_status run.workflow_run_id db ≡ some old
    → run_status run.workflow_run_id (handle_failure f w run error db)
      ≡ some (if attempts 5 f.failure 0 then RunStatus.failed_retryable else old)
unfolding handle_failure mark_run_status record_audit_event
failure-status f w run error db old h = elim (Bool-cases (attempts 5 f.failure 0)) [
  | inl e ↦
      let failed =
        update_run-status (w 3).now run.workflow_run_id
          (finish_with RunStatus.failed_retryable (w 3).now) db RunStatus.failed_retryable old refl
          h in
      elim (Bool-cases f.failed_audit) [ inl a ↦ rw (e, a) failed | inr a ↦ rw (e, a) failed ]
  | inr e ↦ rw e h
]

-- Where the run is not running yet, one of the five attempts of the first write reaches the
-- database, and the graph raises with tables that hold the run: the run's status is then
-- FAILED_RETRYABLE if one of the five attempts of that write reaches the database, and as the
-- graph left it otherwise.
pub run_workflow-raised :
    (f : Faults) (w : ℕ → Draw) (ainvoke : Option DeliveryState → Database → Outcome)
    (resume has_checkpoint : Bool) (run : RunRequest) (p : Process) (error : String) (db : Database)
    (old : RunStatus) (i : ℕ)
    → contains p.running run.workflow_run_id ≡ false
    → i < 5
    → f.begin i ≡ true
    → ainvoke (graph_input resume has_checkpoint run) (marked_running w run p) ≡ raised error db
    → run_status run.workflow_run_id db ≡ some old
    → run_status run.workflow_run_id (run_workflow f w ainvoke resume has_checkpoint run p).db
      ≡ some (if attempts 5 f.failure 0 then RunStatus.failed_retryable else old)
unfolding run_workflow try_run
run_workflow-raised f w ainvoke resume has_checkpoint run p error db old i new bi hi answer h =
    rw
      (
        new,
        mark-reached f.begin f.error (w 0).now run.workflow_run_id (set_status RunStatus.running)
            p.db (attempts-reach i f.begin bi hi),
        answer,
      )
      (failure-status f w run error db old h)
