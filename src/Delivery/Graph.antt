-- ===== src/Delivery/Graph.antt =====
-- orchestrator/graphs/software_delivery.py: the routers, the nodes and the edges of the graph.
pub mod Run
pub mod Counters
pub mod Effects
pub mod Bounds
pub mod Budget
pub mod Potential
pub mod Termination
pub mod Progress
pub mod Gates
pub mod Execution
pub mod Backing
pub mod Consent
use software_factory_ai.Common.{
  ℕ, ◌+◌, Bool, true, false, Option, none, some, List, [], ◌∷◌, String, leb, if◌then◌else◌, ◌==◌,
}
use software_factory_ai.Common.Dict.{Dict, get, get_or, merge}
use software_factory_ai.Contracts.{AgentStatus, AgentStatus-discrete, agent_status_eq, AgentResult}
use software_factory_ai.States.{ApprovalStatus}
use software_factory_ai.Delivery.State.{
  Stage, Stage-discrete, stage_eq, Gate, Gate-discrete, gate_eq, Position, StageResult,
  DeliveryState, Update, no_update, apply_update,
}
use software_factory_ai.Delivery.Stages.{stage_update}
use software_factory_ai.Delivery.Approvals.{
  scope_update, release_update, review_update, clarification_update,
}

-- The nodes that `build_graph` adds. A stage's node has the stage's name.
pub data Node : Type 0 where
  stage : Stage → Node
  intake_clarification scope_approval release_approval human_review delivered cancelled : Node
  scope_cycle architecture_cycle code_review_cycle tests_cycle : Node
  qa_cycle security_cycle operational_cycle release_cycle : Node
  escalate : Gate → Node

-- state.get("cycles", {}).get(gate, 0)
unfoldable pub cycles_of : DeliveryState → Gate → ℕ
unfolding get Gate-discrete
cycles_of s gate = get_or s.cycles gate 0

-- _bump
unfoldable pub bump : DeliveryState → Gate → ℕ
unfolding cycles_of
bump s gate = cycles_of s gate + 1

-- _stage_status: `get("status", "approved")` of the stage's result
abbrev pub status_or_approved : Option StageResult → AgentStatus
status_or_approved none = AgentStatus.approved
status_or_approved (some r) = r.status

unfoldable pub stage_status : DeliveryState → Stage → AgentStatus
unfolding get Stage-discrete
stage_status s st = status_or_approved (get s.stage_results st)

abbrev pub is_approved : AgentStatus → Bool
is_approved AgentStatus.approved = true
is_approved _ = false

-- MAX_CYCLES is a setting of the deployment, and so a parameter here.
module _ (max_cycles : ℕ) where
  -- _cycles_exceeded
  unfoldable pub cycles_exceeded : DeliveryState → Gate → Bool
  unfolding cycles_of
  cycles_exceeded s gate = leb max_cycles (cycles_of s gate)

  unfoldable pub route_intake_analysis : DeliveryState → Node
  unfolding stage_status cycles_exceeded
  route_intake_analysis s =
      if is_approved (stage_status s Stage.intake_analysis)
      then stage Stage.product_discovery
      else if cycles_exceeded s Gate.intake
      then escalate Gate.intake
      else intake_clarification

  unfoldable pub route_scope : DeliveryState → Node
  unfolding cycles_exceeded
  route_scope s =
      if s.scope_approved
      then stage Stage.architecture
      else if cycles_exceeded s Gate.scope
      then escalate Gate.scope
      else scope_cycle

  unfoldable pub route_architecture_gate : DeliveryState → Node
  unfolding stage_status cycles_exceeded
  route_architecture_gate s =
      if is_approved (stage_status s Stage.architecture)
      then stage Stage.technical_planning
      else if cycles_exceeded s Gate.architecture
      then escalate Gate.architecture
      else architecture_cycle

  unfoldable pub route_code_review : DeliveryState → Node
  unfolding stage_status cycles_exceeded
  route_code_review s =
      if is_approved (stage_status s Stage.code_review)
      then stage Stage.automated_tests
      else if cycles_exceeded s Gate.code_review
      then escalate Gate.code_review
      else code_review_cycle

  unfoldable pub route_tests : DeliveryState → Node
  unfolding stage_status cycles_exceeded
  route_tests s =
      if is_approved (stage_status s Stage.automated_tests)
      then stage Stage.functional_qa
      else if cycles_exceeded s Gate.tests
      then escalate Gate.tests
      else tests_cycle

  unfoldable pub route_qa : DeliveryState → Node
  unfolding stage_status cycles_exceeded
  route_qa s =
      if is_approved (stage_status s Stage.functional_qa)
      then stage Stage.security_compliance
      else if cycles_exceeded s Gate.qa
      then escalate Gate.qa
      else qa_cycle

  unfoldable pub route_security : DeliveryState → Node
  unfolding stage_status cycles_exceeded
  route_security s =
      if is_approved (stage_status s Stage.security_compliance)
      then stage Stage.operational_validation
      else if cycles_exceeded s Gate.security
      then escalate Gate.security
      else security_cycle

  unfoldable pub route_operational : DeliveryState → Node
  unfolding stage_status cycles_exceeded
  route_operational s =
      if is_approved (stage_status s Stage.operational_validation)
      then stage Stage.documentation_release
      else if cycles_exceeded s Gate.operational
      then escalate Gate.operational
      else operational_cycle

  unfoldable pub route_release : DeliveryState → Node
  unfolding cycles_exceeded
  route_release s =
      if s.release_approved
      then delivered
      else if cycles_exceeded s Gate.release
      then escalate Gate.release
      else release_cycle

-- RESUME_AFTER_GATE
unfoldable pub resume_after_gate : Gate → Node
resume_after_gate Gate.intake = stage Stage.product_discovery
resume_after_gate Gate.scope = stage Stage.architecture
resume_after_gate Gate.architecture = stage Stage.technical_planning
resume_after_gate Gate.code_review = stage Stage.automated_tests
resume_after_gate Gate.tests = stage Stage.functional_qa
resume_after_gate Gate.qa = stage Stage.security_compliance
resume_after_gate Gate.security = stage Stage.operational_validation
resume_after_gate Gate.operational = stage Stage.documentation_release
resume_after_gate Gate.release = delivered

-- RESUME_AFTER_GATE.get(gate, "technical_planning")
abbrev pub resume_point : Option Gate → Node
resume_point none = stage Stage.technical_planning
resume_point (some gate) = resume_after_gate gate

unfoldable pub route_human_review : DeliveryState → Node
unfolding resume_after_gate
route_human_review s = if s.human_review_required then cancelled else resume_point s.escalated_gate

-- _cycle_node and _escalate_node, and the two last nodes
unfoldable pub cycle_update : Gate → DeliveryState → Update
unfolding bump
cycle_update gate s = record no_update { cycles = some ((gate, bump s gate) ∷ []) }

abbrev pub escalate_update : Gate → Update
escalate_update gate = record no_update { escalated_gate = some gate }

abbrev pub delivered_update : Update
delivered_update = record no_update { current_stage = some Position.delivered }

abbrev pub cancelled_update : Update
cancelled_update = record no_update {
  current_stage = some Position.cancelled;
  failure_reason = some "revisão humana negou continuidade";
}
