-- ===== src/Delivery/Graph/Execution.antt =====
-- The graph run by its whole nodes, with the tables and the other processes, and the replies that
-- such a run amounts to.
use software_factory_ai.Common.{ℕ, ◌≡◌, Option, none, some, List, [], ◌∷◌, String}
use software_factory_ai.Contracts.{AgentResult}
use software_factory_ai.States.{ApprovalStatus, RunStatus}
use software_factory_ai.Database.Queries.{given, get_approval_rationale, update_run, set_status}
use software_factory_ai.Database.{Database, Draw}
use software_factory_ai.Delivery.State.{Stage, Gate, DeliveryState, Update, apply_update}
use software_factory_ai.Delivery.Stages.{run_stage, triage}
use software_factory_ai.Delivery.Approvals as Approvals
use software_factory_ai.Delivery.Approvals.{
  Others, decide_update, clarification_update, clarification_asked, clarification_answered,
  request_and_wait, wait_for_approval, scope_update, release_update, review_update,
}
use software_factory_ai.Delivery.Graph.{
  Node, stage, intake_clarification, scope_approval, release_approval, human_review, delivered,
  cancelled, scope_cycle, architecture_cycle, code_review_cycle, tests_cycle, qa_cycle,
  security_cycle, operational_cycle, release_cycle, escalate, cycle_update, escalate_update,
  delivered_update, cancelled_update,
}
use software_factory_ai.Delivery.Graph.Run.{Reply, update_of, Config, next_node}

-- What a node meets while it runs: the answers of its agents, the fresh values of its writes, the
-- other processes and the number of polls until it is looked at.
pub record World : Type 0 where
  pub polls : ℕ
  pub others : Others
  pub draws : ℕ → Draw
  pub results : List AgentResult

unfoldable pub run_node : World → Node → DeliveryState → Database → Option (Database × Update)
unfolding Approvals.intake_clarification Approvals.scope_approval Approvals.release_approval
    Approvals.human_review_required run_stage triage cycle_update
run_node v (stage Stage.triage) s db = some (triage v.draws v.results s db)
run_node v (stage st) s db = some (run_stage v.draws st v.results s db)
run_node v intake_clarification s db = Approvals.intake_clarification v.polls v.others v.draws s db
run_node v scope_approval s db = Approvals.scope_approval v.polls v.others v.draws s db
run_node v release_approval s db = Approvals.release_approval v.polls v.others v.draws s db
run_node v human_review s db = Approvals.human_review_required v.polls v.others v.draws s db
run_node v delivered s db = some (db, delivered_update)
run_node v cancelled s db = some (db, cancelled_update)
run_node v scope_cycle s db = some (db, cycle_update Gate.scope s)
run_node v architecture_cycle s db = some (db, cycle_update Gate.architecture s)
run_node v code_review_cycle s db = some (db, cycle_update Gate.code_review s)
run_node v tests_cycle s db = some (db, cycle_update Gate.tests s)
run_node v qa_cycle s db = some (db, cycle_update Gate.qa s)
run_node v security_cycle s db = some (db, cycle_update Gate.security s)
run_node v operational_cycle s db = some (db, cycle_update Gate.operational s)
run_node v release_cycle s db = some (db, cycle_update Gate.release s)
run_node v (escalate gate) s db = some (db, escalate_update gate)

decide_update-inv :
    (f : ApprovalStatus → Update) (o : Option (Database × ApprovalStatus)) (db : Database)
    (u : Update)
    → decide_update f o ≡ some (db, u)
    → (status : ApprovalStatus) × (f status ≡ u)
decide_update-inv f none db u h = cc
decide_update-inv f (some (db', status)) db u h = (status, cc)

some_update :
    (db db' : Database) (u u' : Update)
    → ◌≡◌ {A = Option (Database × Update)} (some (db, u)) (some (db', u'))
    → u ≡ u'
some_update db db' u u' h = cc

abbrev pub reply_of : World → ApprovalStatus → String → Reply
reply_of v status rationale = record { results = v.results; status = status; rationale = rationale }

answered :
    (w : ℕ → Draw) (s : DeliveryState) (approval_id : String)
    (o : Option (Database × ApprovalStatus)) (db : Database) (u : Update)
    → (elim o as (λ _. Option (Database × Update)) [
      | none ↦ none
      | some (db', status) ↦ some (clarification_answered w s approval_id status db')
    ])
      ≡ some (db, u)
    → (status : ApprovalStatus) × (rationale : String) × (clarification_update s status rationale
        ≡ u)
unfolding clarification_answered
answered w s approval_id none db u h = cc
answered w s approval_id (some (db', status)) db u h = (
  status,
  given
      (get_approval_rationale approval_id
        (update_run (w 3).now s.workflow_run_id (set_status RunStatus.running) db'))
      "",
  some_update _ db _ u h,
)

-- Whatever a node does, its update is the one of some reply.
pub node_replies :
    (v : World) (n : Node) (s : DeliveryState) (db db' : Database) (u : Update)
    → run_node v n s db ≡ some (db', u)
    → (reply : Reply) × (update_of reply n s ≡ u)
unfolding run_node update_of Approvals.intake_clarification
node_replies v (stage Stage.triage) s db db' u h =
    (reply_of v ApprovalStatus.approved "", some_update _ db' _ u h)
node_replies v (stage st) s db db' u h =
    (reply_of v ApprovalStatus.approved "", some_update _ db' _ u h)
node_replies v intake_clarification s db db' u h =
    let (asked, approval_id) = clarification_asked v.draws s db in
    let (status, rationale, e) =
      answered v.draws s approval_id (wait_for_approval v.polls v.others 0 approval_id asked) db' u
        h in
    (reply_of v status rationale, e)
node_replies v scope_approval s db db' u h =
    let (status, e) = decide_update-inv scope_update _ db' u h in (reply_of v status "", e)
node_replies v release_approval s db db' u h =
    let (status, e) = decide_update-inv release_update _ db' u h in (reply_of v status "", e)
node_replies v human_review s db db' u h =
    let (status, e) = decide_update-inv review_update _ db' u h in (reply_of v status "", e)
node_replies v _ s db db' u h = (reply_of v ApprovalStatus.approved "", some_update _ db' _ u h)

-- Where a run of whole nodes stands: in a node that waits, before a node, or at the end.
pub data Execution : Type 0 where
  waiting : Execution
  reached : Config → Database → Execution
  ended : DeliveryState → Database → Execution

abbrev pub arrive : DeliveryState → Option Node → Database → Execution
arrive s none db = ended s db
arrive s (some n) db = reached (record { node = n; state = s }) db

module _ (max_cycles : ℕ) where
  abbrev pub finish_node : Config → Option (Database × Update) → Execution
  finish_node c none = waiting
  finish_node c (some (db, u)) =
      let s = apply_update c.state u in arrive s (next_node max_cycles c.node s) db

  -- The nodes of a run, one for each world.
  unfoldable pub execute : List World → Config → Database → Execution
  unfolding run_node apply_update next_node
  execute [] c db = reached c db
  execute (v ∷ vs) c db = elim (finish_node c (run_node v c.node c.state db)) [
    | waiting ↦ waiting
    | ended s db' ↦ ended s db'
    | reached c' db' ↦ execute vs c' db'
  ]
