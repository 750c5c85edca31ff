-- ===== src/Api/Waking.antt =====
-- The decisions of the API as the waiting nodes of the orchestrator see them.
use software_factory_ai.Common.{ℕ, suc, ◌≡◌, refl, ap, some, Option, String}
use software_factory_ai.States.{ApprovalStatus}
use software_factory_ai.Database.{Database, Draw, User, Approval}
use software_factory_ai.Database.Queries.{get_approval_status}
use software_factory_ai.Delivery.Approvals.{Others, wait_for_approval}
use software_factory_ai.Api.Auth.{ok, require_role}
use software_factory_ai.Api.Operations.{Committed}
use software_factory_ai.Api.Approvals.{decide, approve, reject}
use software_factory_ai.Api.Transitions.{bind-inv, decide-ok, Written-find_row}

-- The status that a decision leaves in the tables.
decide-status :
    (w : ℕ → Draw) (approval_id : String) (decision : ApprovalStatus) (rationale : Option String)
    (user : User) (db : Database) (c : Committed Approval)
    → decide w approval_id decision rationale user db ≡ ok c
    → get_approval_status approval_id c.db ≡ some decision
unfolding get_approval_status
decide-status w approval_id decision rationale user db c h =
    let (_, _, _, s, _, here) =
      decide-ok w approval_id decision rationale user db c approval_id h in
    rw (Written-find_row (λ a. a.id) approval_id c.row db.approvals c.db.approvals here) (ap some s)

-- Where an approval by a person is accepted, a node that waits for that approval returns APPROVED
-- at its next poll of the tables that the API left.
pub approve_wakes :
    (w : ℕ → Draw) (caller : User) (approval_id : String) (rationale : Option String)
    (db : Database) (c : Committed Approval) (polls k : ℕ) (others : Others)
    → approve w approval_id rationale caller db ≡ ok c
    → wait_for_approval (suc polls) others k approval_id c.db ≡ some (c.db, ApprovalStatus.approved)
unfolding approve wait_for_approval
approve_wakes w caller approval_id rationale db c polls k others h =
    let (user, _, accepted) = bind-inv (require_role "APPROVER" caller) _ c h in
    rw
      (
        decide-status w approval_id ApprovalStatus.approved rationale user db c accepted,
        wait_for_approval,
      )
      refl

-- Where a rejection by a person is accepted, a node that waits for that approval returns REJECTED
-- at its next poll of the tables that the API left.
reject_wakes :
    (w : ℕ → Draw) (caller : User) (approval_id : String) (rationale : Option String)
    (db : Database) (c : Committed Approval) (polls k : ℕ) (others : Others)
    → reject w approval_id rationale caller db ≡ ok c
    → wait_for_approval (suc polls) others k approval_id c.db ≡ some (c.db, ApprovalStatus.rejected)
unfolding reject wait_for_approval
reject_wakes w caller approval_id rationale db c polls k others h =
    let (user, _, accepted) = bind-inv (require_role "APPROVER" caller) _ c h in
    rw
      (
        decide-status w approval_id ApprovalStatus.rejected rationale user db c accepted,
        wait_for_approval,
      )
      refl
