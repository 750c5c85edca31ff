-- ===== src/Delivery/Graph/Bounds.antt =====
-- The invariant of the configurations that a run meets: no counter passes MAX_CYCLES.
use software_factory_ai.Common.{
  subst, ℕ, ◌≤◌, ◌<◌, ◌≡◌, refl, Option, none, some, List, [], ◌∷◌, arith, ◌∙◌, ap,
}
use software_factory_ai.States.{approval_status_eq}
use software_factory_ai.Database.Queries.{RunRequest}
use software_factory_ai.Delivery.State.{Stage, Gate, gate_eq, DeliveryState, apply_update}
use software_factory_ai.Delivery.Graph.{
  Node, stage, intake_clarification, scope_approval, human_review, escalate, cycles_of,
  resume_after_gate,
}
use software_factory_ai.Delivery.Graph.Run.{
  Reply, Config, initial_state, start, update_of, next_node, advance, steps,
}
use software_factory_ai.Delivery.Graph.Effects.{
  cycle_gate, counter_after, bumped, cycles_of-update, state_after, advance-inv, steps-cons-inv,
  steps-nil-inv,
}

module _ (max_cycles : ℕ) where
  -- A router takes the way back only while the gate has cycles left.
  next_node-room :
      (n n' : Node) (s : DeliveryState) (g : Gate)
      → next_node max_cycles n s ≡ some n'
      → cycle_gate n' ≡ some g
      → cycles_of s g < max_cycles
  unfolding next_node resume_after_gate
  next_node-room (stage Stage.triage) n' s g h e = ground arith
  next_node-room (stage st) n' s g h e = ground arith
  next_node-room scope_approval n' s g h e = ground arith
  next_node-room human_review n' s g h e = ground arith
  next_node-room _ n' s g h e = ground arith

  next_node-human_review :
      (n : Node) (s : DeliveryState)
      → next_node max_cycles n s ≡ some human_review
      → (g : Gate) × (n ≡ escalate g)
  unfolding next_node
  next_node-human_review (stage Stage.triage) s h = absurd (cc)
  next_node-human_review (escalate g) s h = (g, refl)
  next_node-human_review (stage st) s h = absurd (ground arith)
  next_node-human_review _ s h = absurd (ground arith)

  -- What a configuration of a run satisfies: the counters are within the limit, a node that
  -- counts a cycle has one left, and a review knows the gate that asked for it.
  pub record Ready (c : Config) : Type 0 where
    pub bounded : (g : Gate) → cycles_of c.state g ≤ max_cycles
    pub room : (g : Gate) → cycle_gate c.node ≡ some g → cycles_of c.state g < max_cycles
    pub escalated : c.node ≡ human_review → (g : Gate) × (c.state.escalated_gate ≡ some g)

  counter_after_bounded :
      (reply : Reply) (c : Config) (g : Gate)
      → Ready c
      → counter_after reply c.node c.state g ≤ max_cycles
  counter_after_bounded reply c g r = by_node c.node (r.bounded g) r.room
    where
      by_gate :
          (o : Option Gate)
          → cycles_of c.state g ≤ max_cycles
          → ((k : Gate) → o ≡ some k → cycles_of c.state k < max_cycles)
          → bumped o c.state g ≤ max_cycles
      by_gate none b m = b
      by_gate (some k) b m = ground (arith, m k refl)

      by_node :
          (n : Node)
          → cycles_of c.state g ≤ max_cycles
          → ((k : Gate) → cycle_gate n ≡ some k → cycles_of c.state k < max_cycles)
          → counter_after reply n c.state g ≤ max_cycles
      by_node human_review b m = ground arith
      by_node (stage st) b m = b
      by_node (escalate k) b m = b
      by_node intake_clarification b m = by_gate (some Gate.intake) b m
      by_node _ b m = by_gate _ b m

  escalated-update :
      (reply : Reply) (n : Node) (s : DeliveryState) (g : Gate)
      → n ≡ escalate g
      → (apply_update s (update_of reply n s)).escalated_gate ≡ some g
  unfolding apply_update update_of
  escalated-update reply n s g e = rw e refl

  pub advance-Ready :
      (reply : Reply) (c c' : Config) → Ready c → advance max_cycles reply c ≡ some c' → Ready c'
  advance-Ready reply c c' r h =
      let (taken, left) = advance-inv max_cycles reply c c' h in
      record {
        bounded = λ g.
            rw (left, cycles_of-update reply c.node c.state g) (counter_after_bounded reply c g r);
        room = λ g e. rw left (next_node-room c.node c'.node (state_after reply c) g taken e);
        escalated = λ e.
            let (g, from) =
              next_node-human_review c.node (state_after reply c) (taken ∙ ap some e) in
            (g, rw left (escalated-update reply c.node c.state g from));
      }

  pub steps-Ready :
      (replies : List Reply) (c c' : Config)
      → Ready c
      → steps max_cycles replies c ≡ some c'
      → Ready c'
  steps-Ready [] c c' r h = subst Ready (steps-nil-inv max_cycles c c' h) r
  steps-Ready (reply ∷ rest) c c' r h =
      let (d, first, later) = steps-cons-inv max_cycles reply rest c c' h in
      steps-Ready rest d c' (advance-Ready reply c d r first) later

  pub start-Ready : (run : RunRequest) → Ready (start run)
  unfolding initial_state cycles_of
  start-Ready run = record {
    bounded = λ g. omega arith;
    room = λ g e. cc;
    escalated = λ e. absurd (cc);
  }

-- From the start of a run, whatever the agents and the people answer, no gate's counter passes
-- MAX_CYCLES.
pub cycles_bounded :
    (max_cycles : ℕ) (run : RunRequest) (replies : List Reply) (c : Config) (g : Gate)
    → steps max_cycles replies (start run) ≡ some c
    → cycles_of c.state g ≤ max_cycles
cycles_bounded max_cycles run replies c g h =
    (steps-Ready max_cycles replies (start run) c (start-Ready max_cycles run) h).bounded g
