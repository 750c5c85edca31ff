-- ===== src/Delivery/Graph/Gates.antt =====
-- Nothing is delivered past a gate: a run that delivers has passed every gate, in the order of the
-- flow or by the review that the gate escalated to.
use software_factory_ai.Common.{
  ℕ, ◌≤◌, ◌<◌, ◌≡◌, some, inl, inr, List, [], ◌∷◌, arith, ap, subst, sym, refl, dec_le,
}
use software_factory_ai.Database.Queries.{RunRequest}
use software_factory_ai.Delivery.State.{Gate}
use software_factory_ai.Delivery.Graph.{delivered}
use software_factory_ai.Delivery.Graph.Run.{Reply, Config, start, advance, steps}
use software_factory_ai.Delivery.Graph.Effects.{advance-inv, steps-nil-inv, steps-cons-inv}
use software_factory_ai.Delivery.Graph.Bounds.{Ready, advance-Ready, start-Ready}
use software_factory_ai.Delivery.Graph.Progress.{
  gate_index, level_at, level, Passes, Moves, node-Moves,
}

-- A node somewhere along a run passes the gate.
pub data Passed (max_cycles : ℕ) (g : Gate) : List Reply → Config → Type 0 where
  here :
      {reply : Reply} {rest : List Reply} {c : Config}
      → Passes g reply c.node c.state.escalated_gate
      → Passed max_cycles g (reply ∷ rest) c
  later :
      {reply : Reply} {rest : List Reply} {c d : Config}
      → advance max_cycles reply c ≡ some d
      → Passed max_cycles g rest d
      → Passed max_cycles g (reply ∷ rest) c

pub gate_index-injective : (g h : Gate) → gate_index g ≡ gate_index h → g ≡ h
gate_index-injective Gate.intake Gate.intake e = refl
gate_index-injective g h e = ground arith

pub gate_index-lt : (g : Gate) → gate_index g < 9
gate_index-lt Gate.intake = omega arith
gate_index-lt _ = omega arith

module _ (max_cycles : ℕ) where
  pub advance-Moves :
      (reply : Reply) (c d : Config)
      → Ready max_cycles c
      → advance max_cycles reply c ≡ some d
      → Moves reply c.node c.state.escalated_gate (level d)
  advance-Moves reply c d r h =
      let (taken, left) = advance-inv max_cycles reply c d h in
      subst (λ s. Moves reply c.node c.state.escalated_gate (level_at d.node s.escalated_gate))
        (sym left) (node-Moves max_cycles reply c.state c.node d.node r.escalated taken)

  -- A run that starts at or before a gate and ends behind it has passed it.
  steps-Passed :
      (g : Gate) (replies : List Reply) (c c' : Config)
      → Ready max_cycles c
      → steps max_cycles replies c ≡ some c'
      → level c ≤ gate_index g
      → gate_index g < level c'
      → Passed max_cycles g replies c
  steps-Passed g [] c c' r h lo hi =
      absurd (omega (arith, ap level (steps-nil-inv max_cycles c c' h)))
  steps-Passed g (reply ∷ rest) c c' r h lo hi =
      let (d, first, rest_steps) = steps-cons-inv max_cycles reply rest c c' h in
      let ready = advance-Ready max_cycles reply c d r first in
      elim (advance-Moves reply c d r first) [
        | inl down ↦ later first (steps-Passed g rest d c' ready rest_steps (omega arith) hi)
        | inr (k, at, up, pass) ↦ elim (dec_le (level d) (gate_index g)) [
          | yes below ↦ later first (steps-Passed g rest d c' ready rest_steps below hi)
          | no above ↦ here (
              subst (λ x. Passes x reply c.node c.state.escalated_gate)
                (gate_index-injective k g (omega arith)) pass)
        ]
      ]

-- A run that reaches the delivered node has passed each of the nine gates on the way.
pub delivered-Passed :
    (max_cycles : ℕ) (run : RunRequest) (replies : List Reply) (c : Config) (g : Gate)
    → steps max_cycles replies (start run) ≡ some c
    → c.node ≡ delivered
    → Passed max_cycles g replies (start run)
delivered-Passed max_cycles run replies c g h e =
    steps-Passed max_cycles g replies (start run) c (start-Ready max_cycles run) h (omega arith)
      (subst (λ n. gate_index g < level_at n c.state.escalated_gate) (sym e) (gate_index-lt g))
