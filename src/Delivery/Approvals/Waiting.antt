-- ===== src/Delivery/Approvals/Waiting.antt =====
-- The wait of a node for a decision: what it returns, and that it returns.
use mathlib.Core.Option.{some-injective}
use software_factory_ai.Common.{
  ap, subst, ◌∙◌, ℕ, zero, suc, ◌<◌, ◌≡◌, refl, ◌≢◌, Option, none, some, String, arith,
}
use software_factory_ai.States.{ApprovalStatus, approval_status_eq}
use software_factory_ai.Database.{Database}
use software_factory_ai.Database.Queries.{get_approval_status}
use software_factory_ai.Delivery.Approvals.{decided, Others, wait_for_approval}

-- The tables after a number of sleeps from the k-th on.
unfoldable pub after_sleeps : Others → ℕ → ℕ → Database → Database
after_sleeps others k zero db = db
after_sleeps others k (suc n) db = after_sleeps others (suc k) n (others k db)

pub decided-some :
    (o : Option ApprovalStatus) (s : ApprovalStatus)
    → decided o ≡ some s
    → (o ≡ some s) × (s ≢ ApprovalStatus.requested)
decided-some none s h = cc
decided-some (some ApprovalStatus.requested) s h = cc
decided-some (some ApprovalStatus.approved) s h = ground arith
decided-some (some t) s h = ground arith

some-decided :
    (o : Option ApprovalStatus) (s : ApprovalStatus)
    → o ≡ some s
    → s ≢ ApprovalStatus.requested
    → decided o ≡ some s
some-decided none s h n = cc
some-decided (some ApprovalStatus.requested) s h n = ground arith
some-decided (some t) s h n = ground arith

-- What a waiting node returns is the status of the approval in the tables at that time, and not
-- REQUESTED.
wait-decided :
    (polls : ℕ) (others : Others) (k : ℕ) (approval_id : String) (db db' : Database)
    (status : ApprovalStatus)
    → wait_for_approval polls others k approval_id db ≡ some (db', status)
    → (get_approval_status approval_id db' ≡ some status) × (status ≢ ApprovalStatus.requested)
unfolding wait_for_approval
wait-decided zero others k approval_id db db' status h = cc
wait-decided (suc polls) others k approval_id db db' status h =
    go (decided (get_approval_status approval_id db)) refl
      (wait-decided polls others (suc k) approval_id (others k db) db' status) h
  where
    go :
        (o : Option ApprovalStatus)
        → decided (get_approval_status approval_id db) ≡ o
        → (wait_for_approval polls others (suc k) approval_id (others k db) ≡ some (db', status)
            → (get_approval_status approval_id db' ≡ some status)
              × (status ≢ ApprovalStatus.requested))
        → (elim o [
          | some s ↦ some (db, s)
          | none ↦ wait_for_approval polls others (suc k) approval_id (others k db)
        ])
          ≡ some (db', status)
        → (get_approval_status approval_id db' ≡ some status) × (status ≢ ApprovalStatus.requested)
    go none e later h = later h
    go (some s) e later h =
        let both : db ≡ db' = ap (λ r. r.0) (some-injective _ _ h) in
        let same : s ≡ status = ap (λ r. r.1) (some-injective _ _ h) in
        subst
          (λ d.
            (get_approval_status approval_id d ≡ some status) × (status ≢ ApprovalStatus.requested))
          both (decided-some _ status (e ∙ ap some same))

-- A decision that is in the tables after n sleeps, for n below the number of polls, makes the
-- waiting node return, by that poll at the latest.
pub wait-returns :
    (polls : ℕ) (others : Others) (k n : ℕ) (approval_id : String) (db : Database)
    (status : ApprovalStatus)
    → n < polls
    → get_approval_status approval_id (after_sleeps others k n db) ≡ some status
    → status ≢ ApprovalStatus.requested
    → (r : Database × ApprovalStatus) × (wait_for_approval polls others k approval_id db ≡ some r)
unfolding wait_for_approval after_sleeps
wait-returns zero others k n approval_id db status b g d = absurd (omega arith)
wait-returns (suc polls) others k zero approval_id db status b g d =
    ((db, status), rw (some-decided _ status g d, wait_for_approval) refl)
wait-returns (suc polls) others k (suc n) approval_id db status b g d =
    go (decided (get_approval_status approval_id db))
      (wait-returns polls others (suc k) n approval_id (others k db) status (omega arith) g d)
  where
    go :
        (o : Option ApprovalStatus)
        → ((r : Database × ApprovalStatus) × (wait_for_approval polls others
                (suc k)
                approval_id
                (others k db)
              ≡ some r))
        → (r : Database × ApprovalStatus) × ((elim o [
          | some s ↦ some (db, s)
          | none ↦ wait_for_approval polls others (suc k) approval_id (others k db)
        ])
            ≡ some r)
    go none later = later
    go (some s) later = ((db, s), refl)
