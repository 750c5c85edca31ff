-- ===== src/Delivery/Graph/Potential.antt =====
-- A potential falls at every node, and only an approved human review can raise it.
use mathlib.Core.Option.{some-injective}
use native.Mathlib.Nat.{add-zero}
use software_factory_ai.Common.{
  ap, sym, subst, ◌∙◌, ◌≢◌, ℕ, ◌+◌, ◌-◌, ◌*◌, ◌≤◌, ◌<◌, ◌≡◌, refl, Option, none, some, arith, ◌==◌,
  if◌then◌else◌, Bool, true, false, Bool-cases, inl, inr,
}
use software_factory_ai.States.{ApprovalStatus, ApprovalStatus-discrete}
use software_factory_ai.Delivery.State.{Stage, Gate, gate_eq, DeliveryState, apply_update}
use software_factory_ai.Delivery.Graph.{
  Node, stage, intake_clarification, human_review, cancelled, scope_cycle, architecture_cycle,
  code_review_cycle, tests_cycle, qa_cycle, security_cycle, operational_cycle, release_cycle,
  cycles_of,
}
use software_factory_ai.Delivery.Graph.Run.{update_of, Reply, Config, next_node, advance}
use software_factory_ai.Delivery.Graph.Effects.{
  cycle_gate, counter_after, cycles_of-update, state_after, advance-inv,
}
use software_factory_ai.Delivery.Graph.Bounds.{Ready}
use software_factory_ai.Delivery.Graph.Budget.{
  distance, detour, budget, budget-le, budget-step, budget-same, left-bump,
}

-- The cost of one cycle, where the node counts one.
abbrev pub cost : Option Gate → ℕ
cost none = 0
cost (some k) = detour k

abbrev pub is_review : Node → Bool
is_review human_review = true
is_review _ = false

abbrev pub approved_count : ApprovalStatus → ℕ
approved_count ApprovalStatus.approved = 1
approved_count _ = 0

-- One where a review is approved.
abbrev pub approvals : Reply → Node → ℕ
approvals reply human_review = approved_count reply.status
approvals reply _ = 0

is_review-inv : (n : Node) → is_review n ≡ true → n ≡ human_review
is_review-inv human_review h = refl
is_review-inv _ h = cc

module _ (max_cycles : ℕ) where
  abbrev pub potential : Config → ℕ
  potential c = distance c.node + budget (λ g. max_cycles - cycles_of c.state g)

  -- What an approved review gives: a whole new run of the graph.
  abbrev pub renewal : ℕ
  renewal = 20 + 44 * max_cycles

  next_node-distance :
      (n n' : Node) (s : DeliveryState)
      → is_review n ≡ false
      → next_node max_cycles n s ≡ some n'
      → distance n' + 1 ≤ distance n + cost (cycle_gate n)
  unfolding next_node
  next_node-distance (stage Stage.triage) n' s r h = ground arith
  next_node-distance (stage st) n' s r h = ground arith
  next_node-distance _ n' s r h = ground arith

  -- A node other than a review pays for its way out of the budget.
  budget-after :
      (reply : Reply) (c : Config)
      → Ready max_cycles c
      → is_review c.node ≡ false
      → budget (λ g. max_cycles - cycles_of (state_after reply c) g) + cost (cycle_gate c.node)
        ≡ budget (λ g. max_cycles - cycles_of c.state g)
  budget-after reply c r h = by_node c.node h r.room (cycles_of-update reply c.node c.state)
    where
      by_gate :
          (new : Gate → ℕ) (k : Gate)
          → cycles_of c.state k < max_cycles
          → ((g : Gate) → new g ≡ (if k == g then cycles_of c.state k + 1 else cycles_of c.state g))
          → budget (λ g. max_cycles - new g) + detour k
            ≡ budget (λ g. max_cycles - cycles_of c.state g)
      by_gate new k lt e =
          budget-step (λ g. max_cycles - cycles_of c.state g) (λ g. max_cycles - new g) k
            λ g.
              left-bump max_cycles (cycles_of c.state k) (cycles_of c.state g) (new g) (k == g)
                (λ same. ap (cycles_of c.state) ((gate_eq.beq_iff k g).0 same)) (e g) lt

      by_node :
          (n : Node)
          → is_review n ≡ false
          → ((k : Gate) → cycle_gate n ≡ some k → cycles_of c.state k < max_cycles)
          → ((g : Gate) → cycles_of (state_after reply c) g ≡ counter_after reply n c.state g)
          → budget (λ g. max_cycles - cycles_of (state_after reply c) g) + cost (cycle_gate n)
            ≡ budget (λ g. max_cycles - cycles_of c.state g)
      by_node human_review f m e = cc
      by_node intake_clarification f m e = by_gate _ Gate.intake (m Gate.intake refl) e
      by_node scope_cycle f m e = by_gate _ Gate.scope (m Gate.scope refl) e
      by_node architecture_cycle f m e = by_gate _ Gate.architecture (m Gate.architecture refl) e
      by_node code_review_cycle f m e = by_gate _ Gate.code_review (m Gate.code_review refl) e
      by_node tests_cycle f m e = by_gate _ Gate.tests (m Gate.tests refl) e
      by_node qa_cycle f m e = by_gate _ Gate.qa (m Gate.qa refl) e
      by_node security_cycle f m e = by_gate _ Gate.security (m Gate.security refl) e
      by_node operational_cycle f m e = by_gate _ Gate.operational (m Gate.operational refl) e
      by_node release_cycle f m e = by_gate _ Gate.release (m Gate.release refl) e
      by_node _ f m e =
          add-zero _
          ∙ budget-same (λ g. max_cycles - cycles_of c.state g)
              (λ g. max_cycles - cycles_of (state_after reply c) g)
              (λ g. ap (λ (n : ℕ). max_cycles - n) (e g))

  distance-le : (n : Node) → distance n ≤ 19
  distance-le (stage Stage.triage) = omega arith
  distance-le (stage st) = ground arith
  distance-le _ = omega arith

  -- A review that is not approved goes to the cancelled node, and leaves the counters.
  review_denied :
      (reply : Reply) (s : DeliveryState) (status : ApprovalStatus)
      → reply.status ≡ status
      → status ≢ ApprovalStatus.approved
      → next_node max_cycles human_review (apply_update s (update_of reply human_review s))
        ≡ some cancelled
  unfolding next_node apply_update update_of ApprovalStatus-discrete
  review_denied reply s ApprovalStatus.approved e h = absurd (h refl)
  review_denied reply s _ e h = rw e refl

  review-potential :
      (reply : Reply) (s : DeliveryState) (n' : Node) (status : ApprovalStatus)
      → reply.status ≡ status
      → let after = apply_update s (update_of reply human_review s) in
        next_node max_cycles human_review after ≡ some n'
        → distance n' + budget (λ g. max_cycles - cycles_of after g) + 1
          ≤ 2 + budget (λ g. max_cycles - cycles_of s g) + renewal * approvals reply human_review
  review-potential reply s n' ApprovalStatus.approved e h = rw (ap approved_count e) (
      omega (
        arith,
        distance-le n',
        budget-le max_cycles
            (λ g. max_cycles - cycles_of (apply_update s (update_of reply human_review s)) g)
            (λ g. omega arith),
      ))
  review-potential reply s n' status e h = omega (
    arith,
    ap distance (some-injective _ _ (sym h ∙ review_denied reply s status e (λ same. cc same))),
    budget-same (λ g. max_cycles - cycles_of s g)
        (λ g. max_cycles - cycles_of (apply_update s (update_of reply human_review s)) g)
        (λ g.
          ap (λ (n : ℕ). max_cycles - n)
            (cycles_of-update reply human_review s g
              ∙ ap
                  (λ (st : ApprovalStatus). elim st [
                    | ApprovalStatus.approved ↦ 0
                    | _ ↦ cycles_of s g
                  ])
                  e)),
  )

  -- One node costs at least one unit; an approved review may bring a renewal.
  pub advance-potential :
      (reply : Reply) (c c' : Config)
      → Ready max_cycles c
      → advance max_cycles reply c ≡ some c'
      → potential c' + 1 ≤ potential c + renewal * approvals reply c.node
  advance-potential reply c c' r h =
      let (taken, left) = advance-inv max_cycles reply c c' h in
      rw left (elim (Bool-cases (is_review c.node)) [
        | inl review ↦
            subst
              (λ n.
                next_node max_cycles n (apply_update c.state (update_of reply n c.state))
                  ≡ some c'.node
                → distance c'.node
                    + budget (λ g.
                      max_cycles - cycles_of (apply_update c.state (update_of reply n c.state)) g)
                    + 1
                  ≤ distance n
                    + budget (λ g. max_cycles - cycles_of c.state g)
                    + renewal * approvals reply n)
              (sym (is_review-inv c.node review))
              (review-potential reply c.state c'.node reply.status refl) taken
        | inr other ↦ omega (
          arith,
          next_node-distance c.node c'.node (state_after reply c) other taken,
          budget-after reply c r other,
        )
      ])
