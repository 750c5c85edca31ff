-- ===== src/Delivery/Graph/Consent.antt =====
-- The consent of people in the runs of the graph by its whole nodes, with the tables and the other
-- processes: what was in the tables when a gate of a person was passed.
use software_factory_ai.Common.{
  ◌∙◌, ap, sym, subst, refl, Option-cases, inl, inr, ℕ, ◌≤◌, ◌<◌, ◌≡◌, true, Option, none, some,
  List, [], ◌∷◌, String, arith, dec_le, ◌==◌,
}
use software_factory_ai.States.{ApprovalStatus, approval_status_eq}
use software_factory_ai.Database.{Database}
use software_factory_ai.Database.Queries.{RunRequest}
use software_factory_ai.Delivery.State.{Stage, Gate, DeliveryState}
use software_factory_ai.Delivery.Graph.{
  Node, stage, scope_approval, release_approval, human_review, delivered,
}
use software_factory_ai.Delivery.Graph.Run.{Reply, Config, start, follow, advance}
use software_factory_ai.Delivery.Graph.Bounds.{Ready, advance-Ready, start-Ready}
use software_factory_ai.Delivery.Graph.Progress.{
  gate_index, level_at, level, decides, verdict, Passes,
}
use software_factory_ai.Delivery.Graph.Gates.{gate_index-injective, gate_index-lt, advance-Moves}
use software_factory_ai.Delivery.Graph.Execution.{
  World, run_node, Execution, waiting, reached, ended, arrive, finish_node, execute,
}
use software_factory_ai.Delivery.Graph.Backing.{Consented, Backed, node-Backed}

module _ (max_cycles : ℕ) where
  arrive-reached :
      (s : DeliveryState) (o : Option Node) (db db' : Database) (d : Config)
      → arrive s o db ≡ reached d db'
      → follow s o ≡ some d
  arrive-reached s none db db' d h = cc
  arrive-reached s (some n) db db' d h = cc

  node-reached :
      (v : World) (c d : Config) (db db' : Database)
      → finish_node max_cycles c (run_node v c.node c.state db) ≡ reached d db'
      → (reply : Reply) × (advance max_cycles reply c ≡ some d)
        × Backed v c.node c.state db reply.status
  unfolding advance
  node-reached v c d db db' h = elim (Option-cases (run_node v c.node c.state db)) [
    | inl e ↦ cc (sym h ∙ ap (finish_node max_cycles c) e)
    | inr ((db1, u), e) ↦
        let (reply, same, backed) = node-Backed v c.node c.state db db1 u e in
        (
          reply,
          rw same (arrive-reached _ _ db1 db' d (sym (ap (finish_node max_cycles c) e) ∙ h)),
          backed,
        )
  ]

  execute-cons :
      (v : World) (vs : List World) (c c' : Config) (db db' : Database)
      → execute max_cycles (v ∷ vs) c db ≡ reached c' db'
      → (d : Config) × (db1 : Database) × (finish_node max_cycles c (run_node v c.node c.state db)
          ≡ reached d db1)
        × (execute max_cycles vs d db1 ≡ reached c' db')
  unfolding execute
  execute-cons v vs c c' db db' h = go (finish_node max_cycles c (run_node v c.node c.state db)) h
    where
      go :
          (x : Execution)
          → (elim x as (λ _. Execution) [
            | waiting ↦ waiting
            | ended s db1 ↦ ended s db1
            | reached d db1 ↦ execute max_cycles vs d db1
          ])
            ≡ reached c' db'
          → (d : Config) × (db1 : Database) × (x ≡ reached d db1)
            × (execute max_cycles vs d db1 ≡ reached c' db')
      go waiting k = cc
      go (ended s db1) k = cc
      go (reached d db1) k = (d, db1, refl, k)

  -- A node somewhere along an execution passes the gate, with what backs it.
  data Crossed (g : Gate) : List World → Config → Database → Type 0 where
    here :
        {v : World} {vs : List World} {c : Config} {db : Database}
        → (reply : Reply) → Passes g reply c.node c.state.escalated_gate
        → Backed v c.node c.state db reply.status
        → Crossed g (v ∷ vs) c db
    later :
        {v : World} {vs : List World} {c d : Config} {db db' : Database}
        → finish_node max_cycles c (run_node v c.node c.state db) ≡ reached d db'
        → Crossed g vs d db'
        → Crossed g (v ∷ vs) c db

  execute-nil :
      (c c' : Config) (db db' : Database) → execute max_cycles [] c db ≡ reached c' db' → c ≡ c'
  unfolding execute
  execute-nil c c' db db' h = cc

  execute-Crossed :
      (g : Gate) (vs : List World) (c c' : Config) (db db' : Database)
      → Ready max_cycles c
      → execute max_cycles vs c db ≡ reached c' db'
      → level c ≤ gate_index g
      → gate_index g < level c'
      → Crossed g vs c db
  execute-Crossed g [] c c' db db' r h lo hi =
      let same : c ≡ c' = execute-nil c c' db db' h in absurd (omega (arith, ap level same))
  execute-Crossed g (v ∷ vs) c c' db db' r h lo hi =
      let (d, db1, first, rest) = execute-cons v vs c c' db db' h in
      let (reply, went, backed) = node-reached v c d db db1 first in
      let ready = advance-Ready max_cycles reply c d r went in
      elim (advance-Moves max_cycles reply c d r went) [
        | inl down ↦ later first (execute-Crossed g vs d c' db1 db' ready rest (omega arith) hi)
        | inr (k, at, up, pass) ↦ elim (dec_le (level d) (gate_index g)) [
          | yes below ↦ later first (execute-Crossed g vs d c' db1 db' ready rest below hi)
          | no above ↦
              here reply
                (subst (λ x. Passes x reply c.node c.state.escalated_gate)
                  (gate_index-injective k g (omega arith)) pass)
                backed
        ]
      ]

  -- Somewhere along an execution, the tables have APPROVED for a request of a gate's type at the
  -- gate's node, or for a request of the review that the gate escalated to.
  pub data Approved (g : Gate) (n : Node) (approval_type : String)
      : List World → Config → Database → Type 0 where
    at_gate :
        {v : World} {vs : List World} {c : Config} {db : Database}
        → c.node ≡ n
        → Consented v c.state approval_type db ApprovalStatus.approved
        → Approved g n approval_type (v ∷ vs) c db
    at_review :
        {v : World} {vs : List World} {c : Config} {db : Database}
        → c.node ≡ human_review
        → c.state.escalated_gate ≡ some g
        → Consented v c.state "human_review" db ApprovalStatus.approved
        → Approved g n approval_type (v ∷ vs) c db
    further :
        {v : World} {vs : List World} {c d : Config} {db db' : Database}
        → finish_node max_cycles c (run_node v c.node c.state db) ≡ reached d db'
        → Approved g n approval_type vs d db'
        → Approved g n approval_type (v ∷ vs) c db

  module _ (g : Gate) (n : Node) (approval_type : String)
      (node_of : (m : Node) → decides m ≡ some g → m ≡ n)
      (consents : (v : World) (s : DeliveryState) (db : Database) (status : ApprovalStatus)
        → Backed v n s db status
        → Consented v s approval_type db status)
      (approves : (reply : Reply)
        → verdict reply n ≡ true
        → reply.status ≡ ApprovalStatus.approved) where
    Crossed-Approved :
        (vs : List World) (c : Config) (db : Database)
        → Crossed g vs c db
        → Approved g n approval_type vs c db
    Crossed-Approved [] c db x = elim x [ ]
    Crossed-Approved (v ∷ vs) c db (here reply (inl (decided_here, passed)) backed) =
        let at = node_of c.node decided_here in
        at_gate at (
          subst (Consented v c.state approval_type db)
            (approves reply (subst (λ m. verdict reply m ≡ true) at passed))
            (consents v c.state db reply.status
              (subst (λ m. Backed v m c.state db reply.status) at backed)))
    Crossed-Approved (v ∷ vs) c db (here reply (inr (at, escalated, approved)) backed) =
        at_review at escalated (
          subst (Consented v c.state "human_review" db) approved
            (subst (λ m. Backed v m c.state db reply.status) at backed))
    Crossed-Approved (v ∷ vs) c db (later first rest) = further first (Crossed-Approved vs _ _ rest)

scope_node : (m : Node) → decides m ≡ some Gate.scope → m ≡ scope_approval
scope_node (stage Stage.triage) h = cc
scope_node (stage st) h = cc
scope_node scope_approval h = refl
scope_node _ h = cc

release_node : (m : Node) → decides m ≡ some Gate.release → m ≡ release_approval
release_node (stage Stage.triage) h = cc
release_node (stage st) h = cc
release_node release_approval h = refl
release_node _ h = cc

approved_of :
    (status : ApprovalStatus)
    → (status == ApprovalStatus.approved) ≡ true
    → status ≡ ApprovalStatus.approved
approved_of status h = (approval_status_eq.beq_iff status ApprovalStatus.approved).0 h

-- Nothing is delivered without people, whatever the agents and the other processes do: an
-- execution that reaches the delivered node had APPROVED in the tables for a request of the scope
-- gate, and for one of the release gate, at a poll of the gate's node, or for a request of the
-- review that the gate escalated to, at a poll of that.
pub delivered-Approved :
    (max_cycles : ℕ) (run : RunRequest) (vs : List World) (c : Config) (db db' : Database)
    → execute max_cycles vs (start run) db ≡ reached c db'
    → c.node ≡ delivered
    → Approved max_cycles Gate.scope scope_approval "scope" vs (start run) db
      × Approved max_cycles Gate.release release_approval "release" vs (start run) db
delivered-Approved max_cycles run vs c db db' h e =
    let crossed = λ (g : Gate).
      execute-Crossed max_cycles g vs (start run) c db db' (start-Ready max_cycles run) h
        (omega arith)
        (subst (λ n. gate_index g < level_at n c.state.escalated_gate) (sym e) (gate_index-lt g)) in
    (
      Crossed-Approved max_cycles Gate.scope scope_approval "scope" scope_node (λ v s d t b. b)
          (λ reply p. approved_of reply.status p) vs (start run) db (crossed Gate.scope),
      Crossed-Approved max_cycles Gate.release release_approval "release" release_node
          (λ v s d t b. b) (λ reply p. approved_of reply.status p) vs (start run) db
          (crossed Gate.release),
    )
