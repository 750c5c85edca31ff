-- ===== src/Delivery/Graph/Progress.antt =====
-- How many gates a configuration has behind it, and what one node does to that number.
use mathlib.Core.Option.{some-injective}
use software_factory_ai.Common.{
  subst, not, ℕ, ◌+◌, ◌≤◌, ◌≡◌, refl, Bool, true, false, Option, none, some, ◌⊎◌, inl, inr, arith,
  ◌==◌, if◌then◌else◌, ◌∙◌, sym, ap,
}
use software_factory_ai.States.{ApprovalStatus, ApprovalStatus-discrete, approval_status_eq}
use software_factory_ai.Delivery.State.{Stage, Gate, DeliveryState, apply_update}
use software_factory_ai.Delivery.Stages.{stage_outcome}
use software_factory_ai.Delivery.Graph.{
  Node, stage, intake_clarification, scope_approval, release_approval, human_review, delivered,
  cancelled, scope_cycle, architecture_cycle, code_review_cycle, tests_cycle, qa_cycle,
  security_cycle, operational_cycle, release_cycle, escalate, is_approved, stage_status,
  resume_after_gate, resume_point,
}
use software_factory_ai.Delivery.Graph.Run.{Reply, Config, update_of, next_node}
use software_factory_ai.Delivery.Graph.Counters.{stage_status-update}

-- The order of the gates.
abbrev pub gate_index : Gate → ℕ
gate_index Gate.intake = 0
gate_index Gate.scope = 1
gate_index Gate.architecture = 2
gate_index Gate.code_review = 3
gate_index Gate.tests = 4
gate_index Gate.qa = 5
gate_index Gate.security = 6
gate_index Gate.operational = 7
gate_index Gate.release = 8

-- The gates that lie before a node; a review stands where the gate that asked for it stands.
abbrev pub level_at : Node → Option Gate → ℕ
level_at (stage Stage.product_discovery) e = 1
level_at (stage Stage.requirements) e = 1
level_at scope_approval e = 1
level_at scope_cycle e = 1
level_at (stage Stage.architecture) e = 2
level_at architecture_cycle e = 2
level_at (stage Stage.technical_planning) e = 3
level_at (stage Stage.development) e = 3
level_at (stage Stage.code_review) e = 3
level_at code_review_cycle e = 3
level_at (stage Stage.automated_tests) e = 4
level_at tests_cycle e = 4
level_at (stage Stage.functional_qa) e = 5
level_at qa_cycle e = 5
level_at (stage Stage.security_compliance) e = 6
level_at security_cycle e = 6
level_at (stage Stage.operational_validation) e = 7
level_at operational_cycle e = 7
level_at (stage Stage.documentation_release) e = 8
level_at release_approval e = 8
level_at release_cycle e = 8
level_at delivered e = 9
level_at (escalate gate) e = gate_index gate
level_at human_review (some gate) = gate_index gate
level_at _ e = 0

abbrev pub level : Config → ℕ
level c = level_at c.node c.state.escalated_gate

-- The gate that a node decides, and whether it lets the work through.
abbrev pub decides : Node → Option Gate
decides (stage Stage.intake_analysis) = some Gate.intake
decides scope_approval = some Gate.scope
decides (stage Stage.architecture) = some Gate.architecture
decides (stage Stage.code_review) = some Gate.code_review
decides (stage Stage.automated_tests) = some Gate.tests
decides (stage Stage.functional_qa) = some Gate.qa
decides (stage Stage.security_compliance) = some Gate.security
decides (stage Stage.operational_validation) = some Gate.operational
decides release_approval = some Gate.release
decides _ = none

abbrev pub verdict : Reply → Node → Bool
verdict reply (stage st) = is_approved (stage_outcome reply.results)
verdict reply _ = reply.status == ApprovalStatus.approved

-- A gate is passed where its agents or its approver approve, or where a person approves the
-- review that the gate escalated to.
abbrev pub Passes : Gate → Reply → Node → Option Gate → Type 0
Passes g reply n e =
    ((decides n ≡ some g) × (verdict reply n ≡ true))
    ⊎ ((n ≡ human_review) × (e ≡ some g) × (reply.status ≡ ApprovalStatus.approved))

-- One node keeps the level, lowers it, or passes the gate at it.
abbrev pub Moves : Reply → Node → Option Gate → ℕ → Type 0
Moves reply n e after =
    (after ≤ level_at n e)
    ⊎ ((g : Gate) × (gate_index g ≡ level_at n e) × (after ≡ level_at n e + 1) × Passes g reply n e)

-- A node with a router of the usual shape: on, out to a review, or back.
gate-Moves :
    (reply : Reply) (n n' on out back : Node) (e e' : Option Gate) (g : Gate) (pass spent : Bool)
    → some (if pass then on else if spent then out else back) ≡ some n'
    → decides n ≡ some g
    → (pass ≡ true → verdict reply n ≡ true)
    → gate_index g ≡ level_at n e
    → level_at on e' ≡ level_at n e + 1
    → level_at out e' ≤ level_at n e
    → level_at back e' ≤ level_at n e
    → Moves reply n e (level_at n' e')
gate-Moves reply n n' on out back e e' g true spent h d v i up o b =
    inr (g, i, ap (λ m. level_at m e') (sym (some-injective _ _ h)) ∙ up, inl (d, v refl))
gate-Moves reply n n' on out back e e' g false true h d v i up o b =
    inl (subst (λ m. level_at m e' ≤ level_at n e) (some-injective _ _ h) o)
gate-Moves reply n n' on out back e e' g false false h d v i up o b =
    inl (subst (λ m. level_at m e' ≤ level_at n e) (some-injective _ _ h) b)

resume-level : (g : Gate) (e : Option Gate) → level_at (resume_after_gate g) e ≡ gate_index g + 1
unfolding resume_after_gate
resume-level Gate.intake e = refl
resume-level _ e = refl

-- A review goes on behind the gate that asked for it, or to the cancelled node.
resume-Moves :
    (reply : Reply) (n' : Node) (e : Option Gate) (g : Gate) (approves : Bool)
    → (approves ≡ true → reply.status ≡ ApprovalStatus.approved)
    → e ≡ some g
    → some (if not approves then cancelled else resume_point e) ≡ some n'
    → Moves reply human_review e (level_at n' e)
resume-Moves reply n' e g true a x h = inr (
  g,
  sym (ap (level_at human_review) x),
  ap (λ m. level_at m e) (sym (some-injective _ _ h) ∙ ap resume_point x)
      ∙ resume-level g e
      ∙ ap (λ (k : ℕ). k + 1) (sym (ap (level_at human_review) x)),
  inr (refl, x, a refl),
)
resume-Moves reply n' e g false a x h =
    inl (subst (λ m. level_at m e ≤ level_at human_review e) (some-injective _ _ h) (omega arith))

module _ (max_cycles : ℕ) (reply : Reply) (s : DeliveryState) where
  abbrev after : Node → DeliveryState
  after n = apply_update s (update_of reply n s)

  -- The edge of a node that decides nothing goes to one node.
  edge-Moves :
      (n n' m : Node) (e' : Option Gate)
      → some m ≡ some n'
      → level_at m e' ≤ level_at n s.escalated_gate
      → Moves reply n s.escalated_gate (level_at n' e')
  edge-Moves n n' m e' h le =
      inl (subst (λ m. level_at m e' ≤ level_at n s.escalated_gate) (some-injective _ _ h) le)

  stage_verdict :
      (st : Stage)
      → is_approved (stage_status (after (stage st)) st) ≡ true
      → verdict reply (stage st) ≡ true
  unfolding update_of
  stage_verdict st h = ap is_approved (sym (stage_status-update s st reply.results)) ∙ h

  stage_gate-Moves :
      (st : Stage) (n' on back : Node) (g : Gate) (spent : Bool)
      → some (
          if is_approved (stage_status (after (stage st)) st)
          then on
          else if spent
          then escalate g
          else back)
        ≡ some n'
      → decides (stage st) ≡ some g
      → let e = s.escalated_gate in
        let e' = (after (stage st)).escalated_gate in
        gate_index g ≡ level_at (stage st) e
        → level_at on e' ≡ level_at (stage st) e + 1
        → level_at back e' ≤ level_at (stage st) e
        → Moves reply (stage st) e (level_at n' e')
  stage_gate-Moves st n' on back g spent h d i up b =
      gate-Moves reply (stage st) n' on (escalate g) back s.escalated_gate
        (after (stage st)).escalated_gate g _ spent h d (stage_verdict st) i up (omega (arith, i)) b

  stage-Moves :
      (st : Stage) (n' : Node)
      → next_node max_cycles (stage st) (after (stage st)) ≡ some n'
      → Moves reply (stage st) s.escalated_gate (level_at n' (after (stage st)).escalated_gate)
  unfolding next_node
  stage-Moves Stage.intake_analysis n' h =
      stage_gate-Moves Stage.intake_analysis n' (stage Stage.product_discovery) intake_clarification
        Gate.intake _ h refl refl refl (omega arith)
  stage-Moves Stage.architecture n' h =
      stage_gate-Moves Stage.architecture n' (stage Stage.technical_planning) architecture_cycle
        Gate.architecture _ h refl refl refl (omega arith)
  stage-Moves Stage.code_review n' h =
      stage_gate-Moves Stage.code_review n' (stage Stage.automated_tests) code_review_cycle
        Gate.code_review _ h refl refl refl (omega arith)
  stage-Moves Stage.automated_tests n' h =
      stage_gate-Moves Stage.automated_tests n' (stage Stage.functional_qa) tests_cycle Gate.tests _
        h refl refl refl (omega arith)
  stage-Moves Stage.functional_qa n' h =
      stage_gate-Moves Stage.functional_qa n' (stage Stage.security_compliance) qa_cycle Gate.qa _ h
        refl refl refl (omega arith)
  stage-Moves Stage.security_compliance n' h =
      stage_gate-Moves Stage.security_compliance n' (stage Stage.operational_validation)
        security_cycle Gate.security _ h refl refl refl (omega arith)
  stage-Moves Stage.operational_validation n' h =
      stage_gate-Moves Stage.operational_validation n' (stage Stage.documentation_release)
        operational_cycle Gate.operational _ h refl refl refl (omega arith)
  stage-Moves Stage.triage n' h =
      edge-Moves (stage Stage.triage) n' (stage Stage.intake_analysis) _ h (omega arith)
  stage-Moves Stage.product_discovery n' h =
      edge-Moves (stage Stage.product_discovery) n' (stage Stage.requirements) _ h (omega arith)
  stage-Moves Stage.requirements n' h =
      edge-Moves (stage Stage.requirements) n' scope_approval _ h (omega arith)
  stage-Moves Stage.technical_planning n' h =
      edge-Moves (stage Stage.technical_planning) n' (stage Stage.development) _ h (omega arith)
  stage-Moves Stage.development n' h =
      edge-Moves (stage Stage.development) n' (stage Stage.code_review) _ h (omega arith)
  stage-Moves Stage.documentation_release n' h =
      edge-Moves (stage Stage.documentation_release) n' release_approval _ h (omega arith)

  review-Moves :
      (n' : Node)
      → ((g : Gate) × (s.escalated_gate ≡ some g))
      → next_node max_cycles human_review (after human_review) ≡ some n'
      → Moves reply human_review s.escalated_gate (level_at n' (after human_review).escalated_gate)
  unfolding next_node update_of apply_update ApprovalStatus-discrete
  review-Moves n' (g, e) h =
      resume-Moves reply n' s.escalated_gate g _
        (approval_status_eq.beq_iff reply.status ApprovalStatus.approved).0 e h

  pub node-Moves :
      (n n' : Node)
      → (n ≡ human_review → (g : Gate) × (s.escalated_gate ≡ some g))
      → next_node max_cycles n (after n) ≡ some n'
      → Moves reply n s.escalated_gate (level_at n' (after n).escalated_gate)
  unfolding next_node update_of apply_update
  node-Moves (stage st) n' r h = stage-Moves st n' h
  node-Moves human_review n' r h = review-Moves n' (r refl) h
  node-Moves scope_approval n' r h =
      gate-Moves reply scope_approval n' (stage Stage.architecture) (escalate Gate.scope)
        scope_cycle s.escalated_gate s.escalated_gate Gate.scope _ _ h refl (λ v. v) refl refl
        (omega arith) (omega arith)
  node-Moves release_approval n' r h =
      gate-Moves reply release_approval n' delivered (escalate Gate.release) release_cycle
        s.escalated_gate s.escalated_gate Gate.release _ _ h refl (λ v. v) refl refl (omega arith)
        (omega arith)
  node-Moves delivered n' r h = cc
  node-Moves cancelled n' r h = cc
  node-Moves (escalate g) n' r h = edge-Moves (escalate g) n' human_review (some g) h (omega arith)
  node-Moves intake_clarification n' r h =
      edge-Moves intake_clarification n' (stage Stage.intake_analysis) _ h (omega arith)
  node-Moves scope_cycle n' r h =
      edge-Moves scope_cycle n' (stage Stage.product_discovery) _ h (omega arith)
  node-Moves architecture_cycle n' r h =
      edge-Moves architecture_cycle n' (stage Stage.architecture) _ h (omega arith)
  node-Moves code_review_cycle n' r h =
      edge-Moves code_review_cycle n' (stage Stage.development) _ h (omega arith)
  node-Moves tests_cycle n' r h =
      edge-Moves tests_cycle n' (stage Stage.development) _ h (omega arith)
  node-Moves qa_cycle n' r h = edge-Moves qa_cycle n' (stage Stage.development) _ h (omega arith)
  node-Moves security_cycle n' r h =
      edge-Moves security_cycle n' (stage Stage.development) _ h (omega arith)
  node-Moves operational_cycle n' r h =
      edge-Moves operational_cycle n' (stage Stage.technical_planning) _ h (omega arith)
  node-Moves release_cycle n' r h =
      edge-Moves release_cycle n' (stage Stage.technical_planning) _ h (omega arith)
