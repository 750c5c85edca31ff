-- ===== src/Tests/Orchestrator.antt =====
-- The workflow of one run, with a database that fails once and a graph that ends at once.
use software_factory_ai.Common.{
  string_eq, ℕ, zero, suc, ◌≡◌, refl, Bool, true, false, Option, none, some, [], ◌∷◌, inl, arith,
  contains, if◌then◌else◌,
}
use software_factory_ai.Common.Rows.{find_row, update_row}
use software_factory_ai.States.{RunStatus}
use software_factory_ai.Database.{Database, Draw, Demand, WorkflowRun}
use software_factory_ai.Database.Queries.{update_run}
use software_factory_ai.Delivery.State.{DeliveryState, Position}
use software_factory_ai.Delivery.Graph.Run.{initial_state}
use software_factory_ai.Orchestrator.{
  Outcome, finished, raised, Faults, attempts, Process, run_workflow, runs_to_resume,
}
use software_factory_ai.Orchestrator.Laws.{
  run_status, marked_running, final_status, run_workflow-finished, run_workflow-raised,
}
use software_factory_ai.Orchestrator.Recovery.{Requested, stuck_run_resumed}
use software_factory_ai.Tests.Graph.{demo}
use software_factory_ai.Tests.Api.{runs_in}

abbrev draws : ℕ → Draw
draws k = record { id = "new"; now = k }

-- Each write reaches the database at the second attempt.
abbrev second : ℕ → Bool
second zero = false
second (suc n) = true

abbrev faults : Faults
faults = record {
  begin = second;
  finish = second;
  failure = second;
  completed_audit = true;
  failed_audit = true;
  error = "connection";
}

abbrev delivered_state : DeliveryState
delivered_state = record (initial_state demo) { current_stage = some Position.delivered }

abbrev delivers : Option DeliveryState → Database → Outcome
delivers input db = finished delivered_state db

abbrev fails : Option DeliveryState → Database → Outcome
fails input db = raised "recursion limit" db

abbrev idle : Process
idle = record { running = []; db = runs_in RunStatus.queued }

run_workflow-finished_example :
    run_status "run" (run_workflow faults draws delivers false false demo idle).db
    ≡ some (final_status delivered_state)
unfolding contains update_run update_row find_row
run_workflow-finished_example =
    run_workflow-finished faults draws delivers false false demo idle delivered_state
      (marked_running draws demo idle) RunStatus.running 1 1 refl (omega arith) refl (omega arith)
      refl refl refl refl

run_workflow-raised_example :
    run_status "run" (run_workflow faults draws fails false false demo idle).db
    ≡ some (if attempts 5 second 0 then RunStatus.failed_retryable else RunStatus.running)
unfolding contains update_run update_row find_row
run_workflow-raised_example =
    run_workflow-raised faults draws fails false false demo idle "recursion limit"
      (marked_running draws demo idle) RunStatus.running 1 refl (omega arith) refl refl refl

-- A database that is down when the failure is written.
abbrev down : ℕ → Bool
down k = false

abbrev lost_faults : Faults
lost_faults = record faults { failure = down }

abbrev demand : Demand
demand = record {
  id = "demand";
  project_id = "project";
  title = "title";
  description = none;
  priority = 5;
  requester = none;
  business_value = none;
  status = "OPEN";
}

-- The run as the graph left it.
abbrev stuck : WorkflowRun
stuck = record {
  id = "run";
  project_id = "project";
  demand_id = "demand";
  graph_version = "software_delivery@1.0.0";
  status = RunStatus.running;
  current_node = none;
  started_at = none;
  finished_at = none;
  correlation_id = "correlation";
  updated_at = 0;
}

abbrev with_demand : Process
with_demand = record {
  running = [];
  db = record (runs_in RunStatus.queued) { demands = demand ∷ [] };
}

stuck_run_resumed_example :
    Requested "run"
      (runs_to_resume 999 (run_workflow lost_faults draws fails false false demo with_demand))
unfolding contains update_run update_row find_row attempts
stuck_run_resumed_example =
    stuck_run_resumed lost_faults draws fails false false demo with_demand "recursion limit"
      (marked_running draws demo with_demand) stuck demand 1 999 refl (omega arith) refl refl refl
      refl (inl refl) refl (omega arith)
