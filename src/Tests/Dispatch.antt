-- ===== src/Tests/Dispatch.antt =====
-- A command that the worker handles while the orchestrator sleeps.
use software_factory_ai.Common.{
  zero, suc, ◌≡◌, refl, ℕ, true, none, some, String, string_eq, contains,
}
use software_factory_ai.Common.Dict.{get}
use software_factory_ai.Common.Rows.{find_row}
use software_factory_ai.Database.{Draw}
use software_factory_ai.Workers.Consumer.{handle}
use software_factory_ai.Workers.Execution.{execute, result_of}
use software_factory_ai.Delivery.Dispatch.{
  Request, received, command_of, Others, dispatch_agent, wait_for_result,
}
use software_factory_ai.Delivery.Dispatch.Replies.{
  Answers, wait_for_result-Answers, dispatch_agent-handled,
}
use software_factory_ai.Tests.Workers.{outside, shared, faults}

abbrev request : Request
request = record {
  workflow_run_id = "run";
  correlation_id = "correlation";
  agent_id = "qa";
  agent_name = "QA";
  queue = "factory.validation";
  stage = "functional_qa";
  context = "{}";
  priority = 5;
  project_id = none;
}

abbrev draw_id : ℕ → String
draw_id zero = "task-0"
draw_id (suc zero) = "audit-1"
draw_id _ = "message-2"

abbrev draws : ℕ → Draw
draws k = record { id = draw_id k; now = 0 }

-- The worker handles the command in each sleep.
abbrev worker : Others
worker k sh =
    (handle 3 (λ e s. (true, execute outside e s)) (faults true)
      (some (command_of (draws 2) request "task-0")) sh).1

dispatch_agent-handled_example :
    (dispatch_agent 2 worker draws request shared).0 ≡ received "task-0" (result_of outside "qa").0
unfolding find_row contains get
dispatch_agent-handled_example =
    dispatch_agent-handled 0 3 worker draws request shared outside (faults true) (refl, refl) refl
      refl (λ k. refl)

wait_for_result-Answers_example :
    Answers 2 worker 0 "task-0" shared (wait_for_result 2 worker 0 "task-0" shared)
wait_for_result-Answers_example = wait_for_result-Answers 2 worker 0 "task-0" shared
