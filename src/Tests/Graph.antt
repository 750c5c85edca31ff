-- ===== src/Tests/Graph.antt =====
-- The delivery graph on a demand that everybody approves.
use software_factory_ai.Common.{
  map, String, ℕ, zero, suc, ◌≤◌, ◌<◌, ◌+◌, ◌*◌, ◌≡◌, refl, ◌↔◌, ◌⊎◌, Option, none, some, List, [],
  ◌∷◌, arith, string_eq,
}
use software_factory_ai.Common.Dict.{get, or_else, last_of}
use software_factory_ai.Common.Rows.{find_row}
use software_factory_ai.Common.Lists.{length, take}
use software_factory_ai.Contracts.{AgentStatus, AgentResult, CodeFile}
use software_factory_ai.States.{ApprovalStatus, ApprovalStatus-discrete}
use software_factory_ai.Database.{Database, Approval, empty}
use software_factory_ai.Database.Queries.{RunRequest, get_approval_status}
use software_factory_ai.Delivery.State.{Gate, DeliveryState, merge_code_files, by_path}
use software_factory_ai.Delivery.Merge.{newest_file}
use software_factory_ai.Delivery.Stages.{stage_outcome}
use software_factory_ai.Delivery.Stages.Laws.{Clean, approved_stage}
use software_factory_ai.Delivery.Approvals.{wait_for_approval}
use software_factory_ai.Delivery.Approvals.Waiting.{after_sleeps, wait-returns}
use software_factory_ai.Delivery.Graph.{scope_approval, release_approval, delivered, cycles_of}
use software_factory_ai.Delivery.Graph.Run.{
  Reply, Config, start, steps, advance, ended, recursion_error, invoke, initial_state,
}
use software_factory_ai.Delivery.Graph.Bounds.{cycles_bounded}
use software_factory_ai.Delivery.Graph.Termination.{
  approved_reviews, run_bounded, run_comes_out, IsFinal,
}
use software_factory_ai.Delivery.Graph.Gates.{Passed, delivered-Passed}
use software_factory_ai.Delivery.Graph.Execution.{World, Execution, reached, execute}
use software_factory_ai.Delivery.Graph.Consent.{Approved, delivered-Approved}

abbrev pub demo : RunRequest
demo = record {
  workflow_run_id = "run";
  project_id = "project";
  demand_id = "demand";
  correlation_id = "correlation";
  demand_title = "title";
  demand_description = "text";
}

abbrev agreed : Reply
agreed = record { results = []; status = ApprovalStatus.approved; rationale = "" }

abbrev repeat {ℓ} : {A : Type ℓ} → ℕ → A → List A
repeat zero a = []
repeat (suc n) a = a ∷ repeat n a

abbrev or_start : Option Config → Config
or_start none = start demo
or_start (some c) = c

-- The configuration before the delivered node.
unfoldable at_the_end : Config
unfolding steps
at_the_end = or_start (steps 3 (repeat 15 agreed) (start demo))

arrived : steps 3 (repeat 15 agreed) (start demo) ≡ some at_the_end
unfolding at_the_end steps advance initial_state ApprovalStatus-discrete
arrived = refl

at_delivered : at_the_end.node ≡ delivered
unfolding at_the_end steps advance initial_state ApprovalStatus-discrete
at_delivered = refl

delivered-Passed_example : Passed 3 Gate.security (repeat 15 agreed) (start demo)
delivered-Passed_example =
    delivered-Passed 3 demo (repeat 15 agreed) at_the_end Gate.security arrived at_delivered

cycles_bounded_example : cycles_of at_the_end.state Gate.qa ≤ 3
cycles_bounded_example = cycles_bounded 3 demo (repeat 15 agreed) at_the_end Gate.qa arrived

run_bounded_example :
    length (repeat 15 agreed)
    < (20 + 44 * 3) * (1 + approved_reviews 3 (repeat 15 agreed) (start demo))
run_bounded_example = run_bounded 3 demo (repeat 15 agreed) at_the_end arrived

-- The limit of main.py, for a run whose agents and people always approve.
run_comes_out_example :
    ((s : DeliveryState) × (invoke 3 100 (repeat 100 agreed) (start demo) ≡ ended s) × IsFinal s)
    ⊎ ((invoke 3 100 (repeat 100 agreed) (start demo) ≡ recursion_error)
        × (100
            < (20 + 44 * 3) * (1 + approved_reviews 3 (take 100 (repeat 100 agreed)) (start demo))))
run_comes_out_example = run_comes_out 3 100 demo (repeat 100 agreed) (omega arith)

-- A person who approves whatever is asked, at the next poll.
abbrev approve_all : ℕ → Database → Database
approve_all k db = record db {
  approvals = map {A = Approval} (λ a. record a { status = ApprovalStatus.approved }) db.approvals;
}

abbrev world : World
world = record {
  polls = 2;
  others = approve_all;
  draws = λ k. record { id = "id"; now = k };
  results = [];
}

abbrev tables_of : Execution → Database
tables_of (Execution.ended s db) = db
tables_of (reached c db) = db
tables_of _ = empty

abbrev config_of : Execution → Config
config_of (reached c db) = c
config_of _ = start demo

unfoldable delivering : Execution
unfolding execute
delivering = execute 3 (repeat 15 world) (start demo) empty

delivering_reached :
    execute 3 (repeat 15 world) (start demo) empty
    ≡ reached (config_of delivering) (tables_of delivering)
unfolding delivering execute initial_state ApprovalStatus-discrete find_row
delivering_reached = refl

delivering_node : (config_of delivering).node ≡ delivered
unfolding delivering execute initial_state ApprovalStatus-discrete find_row
delivering_node = refl

delivered-Approved_example :
    Approved 3 Gate.scope scope_approval "scope" (repeat 15 world) (start demo) empty
    × Approved 3 Gate.release release_approval "release" (repeat 15 world) (start demo) empty
delivered-Approved_example =
    delivered-Approved 3 demo (repeat 15 world) (config_of delivering) empty (tables_of delivering)
      delivering_reached delivering_node

-- One agent that approves with a finding that is not critical, and one that asks for changes.
abbrev pub result : AgentStatus → AgentResult
result status = record {
  agent_id = "qa";
  execution_id = "execution";
  status = status;
  summary = "";
  findings = [];
  artifacts = [];
  code_files = [];
  next_recommended_agents = [];
}

approved_stage_example :
    (stage_outcome (result AgentStatus.approved ∷ result AgentStatus.failed ∷ [])
      ≡ AgentStatus.approved)
    ↔ Clean (result AgentStatus.approved ∷ result AgentStatus.failed ∷ [])
approved_stage_example =
    approved_stage (result AgentStatus.approved ∷ result AgentStatus.failed ∷ [])

abbrev old_list : List String
old_list = "a" ∷ []

abbrev new_list : List String
new_list = "b" ∷ "a" ∷ []

abbrev file : String → CodeFile
file content = record { path = "main.py"; content = content; language = none }

newest_file_example :
    get (by_path (merge_code_files (file "old" ∷ []) (file "new" ∷ []))) "main.py"
    ≡ or_else
        (last_of (by_path (file "new" ∷ [])) "main.py")
        (last_of (by_path (file "old" ∷ [])) "main.py")
newest_file_example = newest_file (file "old" ∷ []) (file "new" ∷ []) "main.py"

-- One approval that waits, and is decided during the first sleep.
abbrev asked : Approval
asked = record {
  id = "approval";
  workflow_run_id = "run";
  task_id = none;
  approval_type = "scope";
  status = ApprovalStatus.requested;
  requested_from = none;
  decided_by = none;
  rationale = none;
  summary = none;
  impacts = [];
  risks = [];
  alternatives = [];
  recommendation = none;
  artifacts = [];
  requested_at = 0;
  decided_at = none;
}

abbrev pub waiting_tables : Database
waiting_tables = record empty { approvals = asked ∷ [] }

wait-returns_example :
    (r : Database × ApprovalStatus) × (wait_for_approval 2 approve_all 0 "approval" waiting_tables
      ≡ some r)
unfolding after_sleeps get_approval_status ApprovalStatus-discrete find_row
wait-returns_example =
    wait-returns 2 approve_all 0 1 "approval" waiting_tables ApprovalStatus.approved (omega arith)
      refl (λ e. cc)
