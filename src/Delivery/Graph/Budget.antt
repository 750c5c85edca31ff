-- ===== src/Delivery/Graph/Budget.antt =====
-- The measure of a run: the straight way to the end, and what the cycles that are left can cost.
use software_factory_ai.Common.{
  ℕ, ◌+◌, ◌-◌, ◌*◌, ◌≤◌, ◌<◌, ◌≡◌, refl, arith, ◌==◌, if◌then◌else◌, Bool, true, false,
}
use software_factory_ai.Delivery.State.{Stage, Gate, Gate-discrete, gate_eq}
use software_factory_ai.Delivery.Graph.{
  Node, stage, intake_clarification, scope_approval, release_approval, human_review, delivered,
  cancelled, scope_cycle, architecture_cycle, code_review_cycle, tests_cycle, qa_cycle,
  security_cycle, operational_cycle, release_cycle, escalate,
}

-- How many nodes are left on the straight way to the end.
abbrev pub distance : Node → ℕ
distance (stage Stage.triage) = 19
distance (stage Stage.intake_analysis) = 18
distance intake_clarification = 17
distance (stage Stage.product_discovery) = 17
distance (stage Stage.requirements) = 16
distance scope_approval = 15
distance scope_cycle = 14
distance (stage Stage.architecture) = 14
distance architecture_cycle = 13
distance (stage Stage.technical_planning) = 13
distance (stage Stage.development) = 12
distance (stage Stage.code_review) = 11
distance code_review_cycle = 10
distance (stage Stage.automated_tests) = 10
distance tests_cycle = 9
distance (stage Stage.functional_qa) = 9
distance qa_cycle = 8
distance (stage Stage.security_compliance) = 8
distance security_cycle = 7
distance (stage Stage.operational_validation) = 7
distance operational_cycle = 6
distance (stage Stage.documentation_release) = 6
distance release_approval = 5
distance release_cycle = 4
distance (escalate gate) = 3
distance human_review = 2
distance delivered = 1
distance cancelled = 1

-- How many nodes one more cycle of a gate costs.
abbrev pub detour : Gate → ℕ
detour Gate.intake = 2
detour Gate.scope = 4
detour Gate.architecture = 2
detour Gate.code_review = 3
detour Gate.tests = 4
detour Gate.qa = 5
detour Gate.security = 6
detour Gate.operational = 8
detour Gate.release = 10

-- The nodes that the cycles which are left can cost.
pub budget : (Gate → ℕ) → ℕ
budget left =
    2 * left Gate.intake
    + 4 * left Gate.scope
    + 2 * left Gate.architecture
    + 3 * left Gate.code_review
    + 4 * left Gate.tests
    + 5 * left Gate.qa
    + 6 * left Gate.security
    + 8 * left Gate.operational
    + 10 * left Gate.release

pub budget-le : (m : ℕ) (left : Gate → ℕ) → ((g : Gate) → left g ≤ m) → budget left ≤ 44 * m
unfolding budget
budget-le m left h = omega (
  arith,
  h Gate.intake,
  h Gate.scope,
  h Gate.architecture,
  h Gate.code_review,
  h Gate.tests,
  h Gate.qa,
  h Gate.security,
  h Gate.operational,
  h Gate.release,
)

pub budget-step :
    (old new : Gate → ℕ) (k : Gate)
    → ((g : Gate) → new g + (if k == g then 1 else 0) ≡ old g)
    → budget new + detour k ≡ budget old
unfolding budget Gate-discrete
budget-step old new Gate.intake h = omega (
  arith,
  h Gate.intake,
  h Gate.scope,
  h Gate.architecture,
  h Gate.code_review,
  h Gate.tests,
  h Gate.qa,
  h Gate.security,
  h Gate.operational,
  h Gate.release,
)
budget-step old new _ h = omega (
  arith,
  h Gate.intake,
  h Gate.scope,
  h Gate.architecture,
  h Gate.code_review,
  h Gate.tests,
  h Gate.qa,
  h Gate.security,
  h Gate.operational,
  h Gate.release,
)

pub budget-same : (old new : Gate → ℕ) → ((g : Gate) → new g ≡ old g) → budget new ≡ budget old
unfolding budget
budget-same old new h = omega (
  arith,
  h Gate.intake,
  h Gate.scope,
  h Gate.architecture,
  h Gate.code_review,
  h Gate.tests,
  h Gate.qa,
  h Gate.security,
  h Gate.operational,
  h Gate.release,
)

-- The cycles that a gate has left, before and after one is counted.
pub left-bump :
    (m old_k old_g new : ℕ) (same : Bool)
    → (same ≡ true → old_k ≡ old_g)
    → new ≡ (if same then old_k + 1 else old_g)
    → old_k < m
    → (m - new) + (if same then 1 else 0) ≡ m - old_g
left-bump m old_k old_g new true e h lt = omega (arith, e refl)
left-bump m old_k old_g new false e h lt = omega arith
