-- ===== src/Delivery/Graph/Run.antt =====
-- The edges of `build_graph`, and the runs of the graph that they make: a node returns an update,
-- the reducers join it to the state, and the edge of the node is taken.
use software_factory_ai.Common.{ℕ, zero, suc, Option, none, some, List, [], ◌∷◌, false, String}
use software_factory_ai.Contracts.{AgentResult}
use software_factory_ai.Database.Queries.{RunRequest}
use software_factory_ai.States.{ApprovalStatus}
use software_factory_ai.Delivery.State.{Stage, Gate, DeliveryState, Update, apply_update}
use software_factory_ai.Delivery.Stages.{stage_update}
use software_factory_ai.Delivery.Approvals.{
  scope_update, release_update, review_update, clarification_update,
}
use software_factory_ai.Delivery.Graph.{
  Node, stage, intake_clarification, scope_approval, release_approval, human_review, delivered,
  cancelled, scope_cycle, architecture_cycle, code_review_cycle, tests_cycle, qa_cycle,
  security_cycle, operational_cycle, release_cycle, escalate, route_intake_analysis, route_scope,
  route_architecture_gate, route_code_review, route_tests, route_qa, route_security,
  route_operational, route_release, route_human_review, cycle_update, escalate_update,
  delivered_update, cancelled_update,
}

-- orchestrator/main.py, run_workflow: the state that a run without a checkpoint starts from.
unfoldable pub initial_state : RunRequest → DeliveryState
initial_state run = record {
  workflow_run_id = run.workflow_run_id;
  project_id = run.project_id;
  demand_id = run.demand_id;
  correlation_id = run.correlation_id;
  demand_title = run.demand_title;
  demand_description = run.demand_description;
  clarification_notes = [];
  current_stage = none;
  stage_results = [];
  artifacts = [];
  code_files = [];
  findings_by_stage = [];
  cycles = [];
  decisions = [];
  scope_approved = false;
  architecture_approved = false;
  release_approved = false;
  human_review_required = false;
  failure_reason = none;
  escalated_gate = none;
}

-- What the world answers while one node runs: the results of the stage's agents, or the decision
-- of a person and its justification. A node reads the part that it asks for.
pub record Reply : Type 0 where
  pub results : List AgentResult
  pub status : ApprovalStatus
  pub rationale : String

-- graph.add_node: the update that each node returns.
unfoldable pub update_of : Reply → Node → DeliveryState → Update
unfolding stage_update cycle_update
update_of reply (stage st) s = stage_update st reply.results
update_of reply intake_clarification s = clarification_update s reply.status reply.rationale
update_of reply scope_approval s = scope_update reply.status
update_of reply release_approval s = release_update reply.status
update_of reply human_review s = review_update reply.status
update_of reply delivered s = delivered_update
update_of reply cancelled s = cancelled_update
update_of reply scope_cycle s = cycle_update Gate.scope s
update_of reply architecture_cycle s = cycle_update Gate.architecture s
update_of reply code_review_cycle s = cycle_update Gate.code_review s
update_of reply tests_cycle s = cycle_update Gate.tests s
update_of reply qa_cycle s = cycle_update Gate.qa s
update_of reply security_cycle s = cycle_update Gate.security s
update_of reply operational_cycle s = cycle_update Gate.operational s
update_of reply release_cycle s = cycle_update Gate.release s
update_of reply (escalate gate) s = escalate_update gate

-- A node that is about to run, and the state that it gets.
pub record Config : Type 0 where
  pub node : Node
  pub state : DeliveryState

-- graph.set_entry_point
abbrev pub start : RunRequest → Config
start run = record { node = stage Stage.triage; state = initial_state run }

abbrev pub follow : DeliveryState → Option Node → Option Config
follow s none = none
follow s (some n) = some (record { node = n; state = s })

-- What `graph.ainvoke` comes to: the state in which the graph ends, a node that still waits for its
-- reply, or the GraphRecursionError where the limit is used up and the graph has not ended.
pub data Invocation : Type 0 where
  ended : DeliveryState → Invocation
  pending : Invocation
  recursion_error : Invocation

module _ (max_cycles : ℕ) where
  -- add_edge and add_conditional_edges; `none` is END.
  unfoldable pub next_node : Node → DeliveryState → Option Node
  unfolding route_intake_analysis route_scope route_architecture_gate route_code_review route_tests
      route_qa route_security route_operational route_release route_human_review
  next_node (stage Stage.triage) s = some (stage Stage.intake_analysis)
  next_node (stage Stage.intake_analysis) s = some (route_intake_analysis max_cycles s)
  next_node intake_clarification s = some (stage Stage.intake_analysis)
  next_node (stage Stage.product_discovery) s = some (stage Stage.requirements)
  next_node (stage Stage.requirements) s = some scope_approval
  next_node scope_approval s = some (route_scope max_cycles s)
  next_node scope_cycle s = some (stage Stage.product_discovery)
  next_node (stage Stage.architecture) s = some (route_architecture_gate max_cycles s)
  next_node architecture_cycle s = some (stage Stage.architecture)
  next_node (stage Stage.technical_planning) s = some (stage Stage.development)
  next_node (stage Stage.development) s = some (stage Stage.code_review)
  next_node (stage Stage.code_review) s = some (route_code_review max_cycles s)
  next_node code_review_cycle s = some (stage Stage.development)
  next_node (stage Stage.automated_tests) s = some (route_tests max_cycles s)
  next_node tests_cycle s = some (stage Stage.development)
  next_node (stage Stage.functional_qa) s = some (route_qa max_cycles s)
  next_node qa_cycle s = some (stage Stage.development)
  next_node (stage Stage.security_compliance) s = some (route_security max_cycles s)
  next_node security_cycle s = some (stage Stage.development)
  next_node (stage Stage.operational_validation) s = some (route_operational max_cycles s)
  next_node operational_cycle s = some (stage Stage.technical_planning)
  next_node (stage Stage.documentation_release) s = some release_approval
  next_node release_approval s = some (route_release max_cycles s)
  next_node release_cycle s = some (stage Stage.technical_planning)
  next_node (escalate gate) s = some human_review
  next_node human_review s = some (route_human_review s)
  next_node delivered s = none
  next_node cancelled s = none

  -- One node; `none` when its edge goes to END.
  unfoldable pub advance : Reply → Config → Option Config
  unfolding update_of next_node apply_update
  advance reply c =
      let s = apply_update c.state (update_of reply c.node c.state) in follow s (next_node c.node s)

  -- One node for each reply; `none` when the graph ends before they are used.
  unfoldable pub steps : List Reply → Config → Option Config
  steps [] c = some c
  steps (reply ∷ rest) c = elim (advance reply c) [ none ↦ none | some c' ↦ steps rest c' ]

  -- graph.ainvoke with a `recursion_limit`, the number of nodes that may run.
  unfoldable pub invoke : (recursion_limit : ℕ) → List Reply → Config → Invocation
  invoke zero replies c = recursion_error
  invoke (suc limit) [] c = pending
  invoke (suc limit) (reply ∷ rest) c = elim (advance reply c) [
    | none ↦ ended (apply_update c.state (update_of reply c.node c.state))
    | some d ↦ invoke limit rest d
  ]
