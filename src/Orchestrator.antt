-- ===== src/Orchestrator.antt =====
-- orchestrator/main.py: one run of the workflow in the process of the orchestrator.
pub mod Laws
pub mod Recovery
use software_factory_ai.Common.{
  ℕ, zero, suc, Bool, true, false, not, ◌||◌, ◌&&◌, Option, none, some, List, [], ◌∷◌, String,
  if◌then◌else◌, ◌==◌, contains, string_eq,
}
use software_factory_ai.Common.Lists.{select}
use software_factory_ai.Common.Text.{take_chars}
use software_factory_ai.States.{RunStatus}
use software_factory_ai.Database.{Database, Draw}
use software_factory_ai.Database.Queries.{
  Audit, RunRequest, RunValues, set_status, finish_with, update_run, record_audit_event,
  orchestrator_audit, fetch_queued_runs, fetch_stale_running_runs, stale_running_threshold_seconds,
}
use software_factory_ai.Delivery.State.{Position, DeliveryState}
use software_factory_ai.Delivery.Graph.Run.{initial_state}

-- What `graph.ainvoke` answers, with the tables as they stand then.
pub data Outcome : Type 0 where
  finished : DeliveryState → Database → Outcome
  raised : String → Database → Outcome

-- The faults of the database during one run: whether the k-th attempt of a write reaches it.
pub record Faults : Type 0 where
  pub begin : ℕ → Bool
  pub finish : ℕ → Bool
  pub failure : ℕ → Bool
  pub completed_audit : Bool
  pub failed_audit : Bool
  pub error : String

-- _retry_on_db_error: whether one of n attempts succeeds.
unfoldable pub attempts : ℕ → (ℕ → Bool) → ℕ → Bool
attempts zero reaches k = false
attempts (suc n) reaches k = reaches k || attempts n reaches (suc k)

-- An effect on the tables, which may raise an exception with a text.
abbrev pub Effect : Type 0
Effect = Option String × Database

infixl 5 ◌>>=◌
abbrev pub ◌>>=◌ : Effect → (Database → Effect) → Effect
(some e, db) >>= f = (some e, db)
(none, db) >>= f = f db

-- except Exception
abbrev pub handled : (String → Database → Database) → Effect → Database
handled handler (some e, db) = handler e db
handled handler (none, db) = db

-- _mark_run_status
unfoldable pub mark_run_status : (ℕ → Bool) → String → ℕ → String → RunValues → Database → Effect
unfolding attempts update_run
mark_run_status reaches error now run_id values db =
    if attempts 5 reaches 0 then (none, update_run now run_id values db) else (some error, db)

abbrev pub is_delivered : DeliveryState → Bool
is_delivered s = elim s.current_stage [
  | none ↦ false
  | some position ↦ elim position [
    | Position.at stage ↦ false
    | Position.delivered ↦ true
    | Position.cancelled ↦ false
  ]
]

-- record_audit_event, which reaches the database or raises.
abbrev pub audit : Bool → String → Draw → Audit → Database → Effect
audit reaches error w a db = if reaches then (none, record_audit_event w a db) else (some error, db)

unfoldable pub finish_run : Faults → (ℕ → Draw) → RunRequest → DeliveryState → Database → Effect
unfolding mark_run_status record_audit_event
finish_run f w run s db =
    if is_delivered s
    then mark_run_status f.finish f.error (w 1).now run.workflow_run_id
        (finish_with RunStatus.completed (w 1).now) db
      >>= audit f.completed_audit f.error (w 2) (
          orchestrator_audit "workflow.completed" "workflow_run" run.workflow_run_id
            run.correlation_id none)
    else mark_run_status f.finish f.error (w 1).now run.workflow_run_id
        (finish_with RunStatus.cancelled (w 1).now) db

-- What follows the graph: its own exception goes on.
abbrev pub proceed : (DeliveryState → Database → Effect) → Outcome → Effect
proceed finish (raised e db) = (some e, db)
proceed finish (finished s db) = finish s db

-- The body of the try block. The graph gets no input where a checkpoint is resumed.
unfoldable pub try_run :
    Faults
    → (ℕ → Draw)
    → (Option DeliveryState → Database → Outcome)
    → (resume has_checkpoint : Bool) → RunRequest
    → Database
    → Effect
unfolding mark_run_status finish_run initial_state
try_run f w ainvoke resume has_checkpoint run db =
    mark_run_status f.begin f.error (w 0).now run.workflow_run_id (set_status RunStatus.running) db
    >>= λ db'.
        proceed (finish_run f w run)
          (ainvoke (if resume && has_checkpoint then none else some (initial_state run)) db')

-- The handler of the exceptions: a failure that cannot be written leaves the run as it is.
unfoldable pub handle_failure : Faults → (ℕ → Draw) → RunRequest → String → Database → Database
unfolding mark_run_status record_audit_event
handle_failure f w run error db =
    handled (λ e db'. db')
      (mark_run_status f.failure f.error (w 3).now run.workflow_run_id
          (finish_with RunStatus.failed_retryable (w 3).now) db
        >>= audit f.failed_audit f.error (w 4) (
            orchestrator_audit "workflow.failed" "workflow_run" run.workflow_run_id
              run.correlation_id (some (("error", take_chars 500 error) ∷ []))))

-- The process: `_running` and the tables that it shares.
pub record Process : Type 0 where
  pub running : List String
  pub db : Database

-- _running.discard
unfoldable pub discard : String → List String → List String
unfolding select
discard run_id = select (λ j. not (j == run_id))

unfoldable pub run_workflow :
    Faults
    → (ℕ → Draw)
    → (Option DeliveryState → Database → Outcome)
    → (resume has_checkpoint : Bool) → RunRequest
    → Process
    → Process
unfolding contains try_run handle_failure discard
run_workflow f w ainvoke resume has_checkpoint run p =
    if contains p.running run.workflow_run_id then p else record {
      running = discard run.workflow_run_id (run.workflow_run_id ∷ p.running);
      db = handled (handle_failure f w run) (try_run f w ainvoke resume has_checkpoint run p.db);
    }

-- poll_database: the queued runs that the process does not run yet.
unfoldable pub runs_to_start : Process → List RunRequest
unfolding select contains fetch_queued_runs
runs_to_start p =
    select (λ run. not (contains p.running run.workflow_run_id)) (fetch_queued_runs p.db)

-- _reconcile_stale_running_runs: the stale runs that are resumed at a time.
unfoldable pub runs_to_resume : ℕ → Process → List RunRequest
unfolding select contains fetch_stale_running_runs
runs_to_resume now p =
    select (λ run. not (contains p.running run.workflow_run_id))
      (fetch_stale_running_runs now stale_running_threshold_seconds p.db)
