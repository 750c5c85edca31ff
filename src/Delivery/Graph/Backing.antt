-- ===== src/Delivery/Graph/Backing.antt =====
-- What backs the decision of a node that asks people, in the tables.
use mathlib.Core.Option.{some-injective}
use software_factory_ai.Common.{
  ◌∙◌, ap, refl, Option-cases, inl, inr, ℕ, zero, suc, ◌≡◌, Option, none, some, String,
}
use software_factory_ai.States.{ApprovalStatus}
use software_factory_ai.Database.{Database}
use software_factory_ai.Database.Queries.{get_approval_status}
use software_factory_ai.Delivery.State.{DeliveryState, Update}
use software_factory_ai.Delivery.Approvals.{
  decided, Others, wait_for_approval, request_for, request_approval, request_and_wait,
  decide_update, scope_update, release_update, review_update,
}
use software_factory_ai.Delivery.Approvals.Waiting.{after_sleeps, decided-some}
use software_factory_ai.Delivery.Graph.{Node, scope_approval, release_approval, human_review}
use software_factory_ai.Delivery.Graph.Run.{Reply, update_of}
use software_factory_ai.Delivery.Graph.Execution.{World, run_node, node_replies, reply_of}

-- A wait returns what some of its polls finds in the tables.
wait-after :
    (polls : ℕ) (others : Others) (k : ℕ) (approval_id : String) (db : Database)
    (r : Database × ApprovalStatus)
    → wait_for_approval polls others k approval_id db ≡ some r
    → (n : ℕ) × (get_approval_status approval_id (after_sleeps others k n db) ≡ some r.1)
unfolding wait_for_approval after_sleeps
wait-after zero others k approval_id db r h = cc
wait-after (suc polls) others k approval_id db r h =
    go (decided (get_approval_status approval_id db)) refl
      (wait-after polls others (suc k) approval_id (others k db) r) h
  where
    go :
        (o : Option ApprovalStatus)
        → decided (get_approval_status approval_id db) ≡ o
        → (wait_for_approval polls others (suc k) approval_id (others k db) ≡ some r
            → (n : ℕ) × (get_approval_status approval_id
                  (after_sleeps others (suc k) n (others k db))
                ≡ some r.1))
        → (elim o [
          | some s ↦ some (db, s)
          | none ↦ wait_for_approval polls others (suc k) approval_id (others k db)
        ])
          ≡ some r
        → (n : ℕ) × (get_approval_status approval_id (after_sleeps others k n db) ≡ some r.1)
    go none e later h = let (n, found) = later h in (suc n, found)
    go (some s) e later h =
        let same : s ≡ r.1 = ap (λ x. x.1) (some-injective _ _ h) in
        (zero, (decided-some _ s e).0 ∙ ap some same)

-- A request for approval of a type is made, and the tables of one of the node's polls have a
-- status for it.
abbrev pub Consented :
    World → DeliveryState → (approval_type : String) → Database → ApprovalStatus → Type 0
Consented v s approval_type db status =
    (summary : String) × (recommendation : String) × (n : ℕ) × (get_approval_status
        (request_approval v.draws s (request_for s approval_type summary recommendation) db).1
        (after_sleeps v.others 0 n
          (request_approval v.draws s (request_for s approval_type summary recommendation) db).0)
      ≡ some status)

request_and_wait-Consented :
    (v : World) (s : DeliveryState) (approval_type summary recommendation : String)
    (db db' : Database) (status : ApprovalStatus)
    → request_and_wait v.polls v.others v.draws s approval_type summary recommendation db
      ≡ some (db', status)
    → Consented v s approval_type db status
unfolding request_and_wait
request_and_wait-Consented v s approval_type summary recommendation db db' status h =
    let asked =
      request_approval v.draws s (request_for s approval_type summary recommendation) db in
    elim (Option-cases (wait_for_approval v.polls v.others 0 asked.1 asked.0)) [
      | inl e ↦ cc (rw (e, request_and_wait) at h)
      | inr (r, e) ↦
          let (n, found) = wait-after v.polls v.others 0 asked.1 asked.0 r e in
          let same : r.1 ≡ status =
            ap (λ x. x.1) (some-injective _ _ (rw (e, request_and_wait) at h)) in
          (summary, recommendation, n, found ∙ ap some same)
    ]

decide_update-some :
    (f : ApprovalStatus → Update) (o : Option (Database × ApprovalStatus)) (db : Database)
    (u : Update)
    → decide_update f o ≡ some (db, u)
    → (status : ApprovalStatus) × (o ≡ some (db, status)) × (f status ≡ u)
decide_update-some f none db u h = cc
decide_update-some f (some (db', status)) db u h = (status, cc, cc)

-- What backs the decision that a node of people takes.
abbrev pub Backed : World → Node → DeliveryState → Database → ApprovalStatus → Type 0
Backed v scope_approval s db status = Consented v s "scope" db status
Backed v release_approval s db status = Consented v s "release" db status
Backed v human_review s db status = Consented v s "human_review" db status
Backed v _ s db status = Unit

pub node-Backed :
    (v : World) (n : Node) (s : DeliveryState) (db db' : Database) (u : Update)
    → run_node v n s db ≡ some (db', u)
    → (reply : Reply) × (update_of reply n s ≡ u) × Backed v n s db reply.status
unfolding run_node update_of
node-Backed v scope_approval s db db' u h =
    let (status, asked, e) = decide_update-some scope_update _ db' u h in
    (reply_of v status "", e, request_and_wait-Consented v s "scope" _ _ db db' status asked)
node-Backed v release_approval s db db' u h =
    let (status, asked, e) = decide_update-some release_update _ db' u h in
    (reply_of v status "", e, request_and_wait-Consented v s "release" _ _ db db' status asked)
node-Backed v human_review s db db' u h =
    let (status, asked, e) = decide_update-some review_update _ db' u h in
    (reply_of v status "", e, request_and_wait-Consented v s "human_review" _ _ db db' status asked)
node-Backed v n s db db' u h = let (reply, e) = node_replies v n s db db' u h in (reply, e, tt)
