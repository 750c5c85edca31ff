-- ===== src/Api/Approvals.antt =====
-- backend/app/api/v1/approvals.py: the decisions of approvers.
use software_factory_ai.Common.{ℕ, Option, none, some, [], ◌∷◌, String, ◌==◌}
use software_factory_ai.Common.Rows.{find_row, update_row}
use software_factory_ai.States.{
  run_status_eq, task_status_eq, ApprovalStatus, ApprovalStatus-discrete, approval_status_eq,
  approval_status_name,
}
use software_factory_ai.Database.{Database, Draw, User, Approval}
use software_factory_ai.Database.Queries.{record_audit_event}
use software_factory_ai.Api.Auth.{Response, ok, ◌>>=◌, ◌>>◌, require, found, require_role}
use software_factory_ai.Api.Operations.{Committed, human_audit}

-- decision.lower(), for the two decisions of the API
abbrev pub decision_event : ApprovalStatus → String
decision_event ApprovalStatus.approved = "approval.approved"
decision_event ApprovalStatus.rejected = "approval.rejected"
decision_event ApprovalStatus.requested = "approval.requested"
decision_event ApprovalStatus.expired = "approval.expired"
decision_event ApprovalStatus.cancelled = "approval.cancelled"

-- _decide
unfoldable pub decide :
    (ℕ → Draw)
    → String
    → ApprovalStatus
    → Option String
    → User
    → Database
    → Response (Committed Approval)
unfolding find_row update_row record_audit_event ApprovalStatus-discrete
decide w approval_id decision rationale user db = do
  approval ← found (find_row (λ a. a.id) db.approvals approval_id)
  require (approval.status == ApprovalStatus.requested) 409
  let approval' = record approval {
    status = decision;
    decided_by = some user.username;
    rationale = rationale;
    decided_at = some (w 0).now;
  }
  ok (record {
    db =
        record_audit_event (w 1)
          (human_audit user (decision_event decision) "approval" approval.id none none (
            some
              (("status", some (approval_status_name decision)) ∷ ("rationale", rationale) ∷ [])))
          (record db {
            approvals = update_row (λ a. a.id) approval.id (λ _. approval') db.approvals;
          });
    row = approval';
    events =
        (
          decision_event decision,
          ("approval_id", approval.id)
              ∷ ("workflow_run_id", approval.workflow_run_id)
              ∷ ("approval_type", approval.approval_type)
              ∷ ("decided_by", user.username)
              ∷ [],
        )
        ∷ [];
  })

unfoldable pub approve :
    (ℕ → Draw) → String → Option String → User → Database → Response (Committed Approval)
unfolding require_role decide
approve w approval_id rationale caller db = do
  user ← require_role "APPROVER" caller
  decide w approval_id ApprovalStatus.approved rationale user db

unfoldable pub reject :
    (ℕ → Draw) → String → Option String → User → Database → Response (Committed Approval)
unfolding require_role decide
reject w approval_id rationale caller db = do
  user ← require_role "APPROVER" caller
  decide w approval_id ApprovalStatus.rejected rationale user db
