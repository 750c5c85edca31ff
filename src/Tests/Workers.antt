-- ===== src/Tests/Workers.antt =====
-- Commands of a worker's queue, one that fails and one that is done.
use software_factory_ai.Common.{
  ◌≡◌, refl, Bool, true, false, none, some, [], ◌∷◌, contains, string_eq,
}
use software_factory_ai.Common.Rows.{find_row}
use software_factory_ai.Contracts.{AgentStatus, AgentResult, MessageEnvelope}
use software_factory_ai.States.{TaskStatus}
use software_factory_ai.Database.{empty}
use software_factory_ai.Workers.Consumer.{Shared, Faults, acked, handle}
use software_factory_ai.Workers.Execution.{Outside, execute}
use software_factory_ai.Workers.Retries.{claimed, Retried, handle-failed, handle-once}
use software_factory_ai.Workers.Outcome.{Settled, execute-Settled}
use software_factory_ai.Tests.Graph.{result}
use software_factory_ai.Tests.Api.{sample_task}

abbrev command : MessageEnvelope
command = record {
  message_id = "message";
  correlation_id = "correlation";
  causation_id = none;
  workflow_run_id = some "run";
  project_id = some "project";
  task_id = some "task";
  agent_id = some "qa";
  command = "execute_agent";
  priority = 5;
  attempt = 1;
  created_at = 0;
  payload_reference = none;
  payload = none;
}

abbrev pub shared : Shared
shared = record {
  processed = [];
  results = [];
  queue = [];
  db = record empty { tasks = sample_task ∷ [] };
}

abbrev answering : Bool → MessageEnvelope → Shared → Bool × Shared
answering answer e k = (answer, k)

-- Redis answers; the broker takes the command back or not.
abbrev pub faults : Bool → Faults
faults republishes = record { claims = true; releases = true; republishes = republishes }

handle-failed_example :
    (contains
        (handle 3 (answering false) (faults false) (some command) shared).1.processed
        "message"
      ≡ false)
    × Retried 3
        (faults false)
        command
        (claimed command shared)
        (handle 3 (answering false) (faults false) (some command) shared)
unfolding contains
handle-failed_example =
    handle-failed 3 (answering false) (faults false) command shared (claimed command shared) refl
      refl refl refl

handle-once_example :
    (handle 3 (answering true) (faults true) (some command) shared
      ≡ (acked, claimed command shared))
    × (handle 3 (answering false) (faults false) (some command) (claimed command shared)
        ≡ (acked, claimed command shared))
unfolding contains
handle-once_example =
    handle-once 3 (answering true) (answering false) (faults true) (faults false) command shared
      (claimed command shared) refl refl refl refl refl

abbrev pub outside : Outside
outside = record {
  enabled = true;
  executed = (
    result AgentStatus.approved,
    record { model = none; token_usage = 0; duration_ms = 7; error_code = none },
  );
  new_execution_id = "execution";
  output_reference = λ r. none;
  stored = λ f. none;
  recorded = λ f. true;
  draws = λ k. record { id = "id"; now = k };
  file_draws = λ k. record { id = "id"; now = k };
  finding_draws = λ k. record { id = "id"; now = k };
  duration_text = "7";
}

execute-Settled_example :
    (r : AgentResult) × (t : TaskStatus) × Settled outside "task"
      (execute outside command shared)
      r
      t
unfolding find_row
execute-Settled_example = execute-Settled outside command shared TaskStatus.blocked refl
