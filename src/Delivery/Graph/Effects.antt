-- ===== src/Delivery/Graph/Effects.antt =====
-- One step taken apart: the counters after a node, and the edge that is taken.
use mathlib.Core.Option.{some-injective}
use software_factory_ai.Common.{
  [], ℕ, ◌+◌, ◌≡◌, refl, Option, none, some, List, [], ◌∷◌, arith, ◌==◌, if◌then◌else◌,
}
use software_factory_ai.Contracts.{AgentResult}
use software_factory_ai.States.{ApprovalStatus, ApprovalStatus-discrete, approval_status_eq}
use software_factory_ai.Delivery.State.{Stage, Gate, gate_eq, DeliveryState, apply_update}
use software_factory_ai.Delivery.Stages.{stage_update}
use software_factory_ai.Delivery.Approvals.{clarification_update, review_update}
use software_factory_ai.Delivery.Graph.{
  Node, stage, intake_clarification, human_review, scope_cycle, architecture_cycle,
  code_review_cycle, tests_cycle, qa_cycle, security_cycle, operational_cycle, release_cycle,
  cycles_of,
}
use software_factory_ai.Delivery.Graph.Run.{
  Reply, Config, follow, update_of, next_node, advance, steps,
}
use software_factory_ai.Delivery.Graph.Counters.{cycles_of-same, cycles_of-bump, cycles_of-reset}

-- The gate whose counter a node increments.
abbrev pub cycle_gate : Node → Option Gate
cycle_gate intake_clarification = some Gate.intake
cycle_gate scope_cycle = some Gate.scope
cycle_gate architecture_cycle = some Gate.architecture
cycle_gate code_review_cycle = some Gate.code_review
cycle_gate tests_cycle = some Gate.tests
cycle_gate qa_cycle = some Gate.qa
cycle_gate security_cycle = some Gate.security
cycle_gate operational_cycle = some Gate.operational
cycle_gate release_cycle = some Gate.release
cycle_gate _ = none

abbrev pub bumped : Option Gate → DeliveryState → Gate → ℕ
bumped none s g = cycles_of s g
bumped (some k) s g = if k == g then cycles_of s k + 1 else cycles_of s g

-- The counters after a node: an approved review sets all to 0.
abbrev pub counter_after : Reply → Node → DeliveryState → Gate → ℕ
counter_after reply human_review s g = elim reply.status [
  | ApprovalStatus.approved ↦ 0
  | _ ↦ cycles_of s g
]
counter_after reply n s g = bumped (cycle_gate n) s g

stage_update-cycles :
    (st : Stage) (results : List AgentResult) → (stage_update st results).cycles ≡ none
unfolding stage_update
stage_update-cycles st [] = refl
stage_update-cycles st (r ∷ rest) = refl

clarification-cycles :
    (s : DeliveryState) (status : ApprovalStatus) (rationale : _)
    → (clarification_update s status rationale).cycles
      ≡ some ((Gate.intake, cycles_of s Gate.intake + 1) ∷ [])
unfolding cycles_of
clarification-cycles s status rationale = ground arith

review-counters :
    (s : DeliveryState) (g : Gate) (status : ApprovalStatus)
    → cycles_of (apply_update s (review_update status)) g
      ≡ (elim status [ ApprovalStatus.approved ↦ 0 | _ ↦ cycles_of s g ])
unfolding ApprovalStatus-discrete
review-counters s g ApprovalStatus.approved = cycles_of-reset s g
review-counters s g _ = cycles_of-same s _ g refl

pub cycles_of-update :
    (reply : Reply) (n : Node) (s : DeliveryState) (g : Gate)
    → cycles_of (apply_update s (update_of reply n s)) g ≡ counter_after reply n s g
unfolding update_of
cycles_of-update reply (stage st) s g = cycles_of-same s _ g (stage_update-cycles st reply.results)
cycles_of-update reply intake_clarification s g =
    cycles_of-bump s _ Gate.intake g (clarification-cycles s reply.status reply.rationale)
cycles_of-update reply human_review s g = review-counters s g reply.status
cycles_of-update reply scope_cycle s g = cycles_of-bump s _ Gate.scope g refl
cycles_of-update reply architecture_cycle s g = cycles_of-bump s _ Gate.architecture g refl
cycles_of-update reply code_review_cycle s g = cycles_of-bump s _ Gate.code_review g refl
cycles_of-update reply tests_cycle s g = cycles_of-bump s _ Gate.tests g refl
cycles_of-update reply qa_cycle s g = cycles_of-bump s _ Gate.qa g refl
cycles_of-update reply security_cycle s g = cycles_of-bump s _ Gate.security g refl
cycles_of-update reply operational_cycle s g = cycles_of-bump s _ Gate.operational g refl
cycles_of-update reply release_cycle s g = cycles_of-bump s _ Gate.release g refl
cycles_of-update reply _ s g = cycles_of-same s _ g refl

-- The state that a node leaves.
abbrev pub state_after : Reply → Config → DeliveryState
state_after reply c = apply_update c.state (update_of reply c.node c.state)

module _ (max_cycles : ℕ) where
  follow-inv :
      (s : DeliveryState) (o : Option Node) (c' : Config)
      → follow s o ≡ some c'
      → (o ≡ some c'.node) × (c'.state ≡ s)
  follow-inv s none c' h = cc
  follow-inv s (some n) c' h = ground arith

  pub advance-inv :
      (reply : Reply) (c c' : Config)
      → advance max_cycles reply c ≡ some c'
      → (next_node max_cycles c.node (state_after reply c) ≡ some c'.node)
        × (c'.state ≡ state_after reply c)
  unfolding advance
  advance-inv reply c c' h = follow-inv _ _ c' h

  pub steps-nil-inv : (c c' : Config) → steps max_cycles [] c ≡ some c' → c ≡ c'
  unfolding steps
  steps-nil-inv c c' h = some-injective _ _ h

  pub steps-cons-inv :
      (reply : Reply) (rest : List Reply) (c c' : Config)
      → steps max_cycles (reply ∷ rest) c ≡ some c'
      → (d : Config) × (advance max_cycles reply c ≡ some d) × (steps max_cycles rest d ≡ some c')
  unfolding steps
  steps-cons-inv reply rest c c' h = by_first (advance max_cycles reply c) h
    where
      by_first :
          (o : Option Config)
          → (elim o [ none ↦ none | some d ↦ steps max_cycles rest d ]) ≡ some c'
          → (d : Config) × (o ≡ some d) × (steps max_cycles rest d ≡ some c')
      by_first none e = cc
      by_first (some d) e = (d, refl, e)
