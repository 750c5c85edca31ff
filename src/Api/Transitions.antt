-- ===== src/Api/Transitions.antt =====
-- What an accepted operation of the API did to the tables.
use software_factory_ai.Common.{
  ℕ, ◌<◌, ◌≡◌, refl, ◌∙◌, subst, ◌≢◌, Bool, true, false, Option, none, some, List, [], ◌∷◌, String,
  ltb, if◌then◌else◌, ◌==◌, ==_refl, string_eq, contains, arith,
}
use software_factory_ai.Common.Rows.{find_row, find_row-replace}
use software_factory_ai.States.{
  RunStatus, RunStatus-discrete, run_status_eq, TaskStatus, TaskStatus-discrete, task_status_eq,
  ApprovalStatus, ApprovalStatus-discrete, approval_status_eq, Transition, valid, invalid,
  run_transitions, task_transitions, validate_transition, Allowed,
}
use software_factory_ai.Database.{Database, Draw, User, WorkflowRun, Task, Approval}
use software_factory_ai.Database.Queries.{record_audit_event}
use software_factory_ai.Api.Auth.{require_role, Response, ok, http_error, ◌>>=◌, require, found}
use software_factory_ai.Api.Operations.{Committed}
use software_factory_ai.Api.Runs.{is_valid, cancel_run, retry_run}
use software_factory_ai.Api.Tasks.{retry_task}
use software_factory_ai.Api.Approvals.{decide}

pub bind-inv {ℓ κ} :
    {A : Type ℓ} {B : Type κ} (m : Response A) (f : A → Response B) (b : B)
    → (m >>= f) ≡ ok b
    → (a : A) × (m ≡ ok a) × (f a ≡ ok b)
bind-inv (ok a) f b h = (a, refl, h)
bind-inv (http_error code) f b h = cc

pub ok-injective {ℓ} : {A : Type ℓ} (a b : A) → (Response.ok a) ≡ ok b → a ≡ b
ok-injective a b h = cc

pub require-inv : (test : Bool) (code : ℕ) (u : Unit {0}) → require test code ≡ ok u → test ≡ true
require-inv true code u h = refl
require-inv false code u h = cc

pub found-inv {ℓ} : {A : Type ℓ} (o : Option A) (a : A) → found o ≡ ok a → o ≡ some a
found-inv none a h = cc
found-inv (some b) a h = cc

pub valid-inv {ℓ} : {S : Type ℓ} (t : Transition S) → is_valid t ≡ true → t ≡ valid
valid-inv valid h = refl
valid-inv (invalid s t allowed) h = cc

-- The row of the key is the new row, and each other key finds what it found.
abbrev pub Written {ℓ} :
    {A : Type ℓ} → (A → String) → String → A → List A → List A → String → Type ℓ
Written key id a before after j =
    find_row key after j ≡ (if id == j then some a else find_row key before j)

-- A cancellation that is accepted found the run in a status from which RUN_TRANSITIONS allows
-- CANCELLED, and leaves under its id the row as CANCELLED; under any other id the tables find
-- what they found.
pub cancel_run-ok :
    (w : ℕ → Draw) (caller : User) (run_id : String) (db : Database) (c : Committed WorkflowRun)
    (j : String)
    → cancel_run w caller run_id db ≡ ok c
    → (run : WorkflowRun) × (find_row (λ r. r.id) db.runs run_id ≡ some run)
      × Allowed run_transitions run.status RunStatus.cancelled
      × (c.row.status ≡ RunStatus.cancelled)
      × Written (λ r. r.id) run_id c.row db.runs c.db.runs j
unfolding cancel_run record_audit_event
cancel_run-ok w caller run_id db c j h =
    let (user, _, h1) = bind-inv (require_role "FACTORY_MANAGER" caller) _ _ h in
    let (run, f, h2) = bind-inv (found (find_row (λ r. r.id) db.runs run_id)) _ _ h1 in
    let (u, r, h3) =
      bind-inv
        (require (is_valid (validate_transition run.status RunStatus.cancelled run_transitions))
          409)
        _ _ h2 in
    let found_run = found-inv _ _ f in
    let allowed = valid-inv _ (require-inv _ _ _ r) in
    let row =
      subst
        (λ c.
          (c.row.status ≡ RunStatus.cancelled)
          × Written (λ r. r.id) run_id c.row db.runs c.db.runs j)
        (ok-injective _ _ h3)
        (refl, find_row-replace (λ r. r.id) db.runs run_id j run _ found_run refl) in
    (run, found_run, allowed, row.0, row.1)

only_retryable :
    (s : RunStatus)
    → contains (RunStatus.failed_retryable ∷ []) s ≡ true
    → s ≡ RunStatus.failed_retryable
unfolding contains RunStatus-discrete
only_retryable RunStatus.failed_retryable h = refl
only_retryable _ h = cc

only_stopped :
    (s : TaskStatus)
    → contains (TaskStatus.failed ∷ TaskStatus.blocked ∷ []) s ≡ true
    → Allowed task_transitions s TaskStatus.ready
unfolding contains TaskStatus-discrete validate_transition task_transitions
only_stopped TaskStatus.failed h = refl
only_stopped TaskStatus.blocked h = refl
only_stopped _ h = cc

ltb-lt : (m n : ℕ) → ltb m n ≡ true → m < n
ltb-lt m n h = ground arith

-- A retry of a run that is accepted found the run FAILED_RETRYABLE, and leaves under its id the
-- row as RETRYING; under any other id the tables find what they found.
retry_run-ok :
    (w : ℕ → Draw) (caller : User) (run_id : String) (db : Database) (c : Committed WorkflowRun)
    (j : String)
    → retry_run w caller run_id db ≡ ok c
    → (run : WorkflowRun) × (find_row (λ r. r.id) db.runs run_id ≡ some run)
      × (run.status ≡ RunStatus.failed_retryable)
      × (c.row.status ≡ RunStatus.retrying)
      × Written (λ r. r.id) run_id c.row db.runs c.db.runs j
unfolding retry_run record_audit_event
retry_run-ok w caller run_id db c j h =
    let (user, _, h1) = bind-inv (require_role "DEVELOPER" caller) _ _ h in
    let (run, f, h2) = bind-inv (found (find_row (λ r. r.id) db.runs run_id)) _ _ h1 in
    let (u, r, h3) =
      bind-inv (require (contains (RunStatus.failed_retryable ∷ []) run.status) 409) _ _ h2 in
    let found_run = found-inv _ _ f in
    let row =
      subst
        (λ c.
          (c.row.status ≡ RunStatus.retrying)
          × Written (λ r. r.id) run_id c.row db.runs c.db.runs j)
        (ok-injective _ _ h3)
        (refl, find_row-replace (λ r. r.id) db.runs run_id j run _ found_run refl) in
    (run, found_run, only_retryable run.status (require-inv _ _ _ r), row.0, row.1)

-- A retry of a task that is accepted found it in a status from which TASK_TRANSITIONS allows
-- READY and with attempts left, and leaves under its id the row as READY; under any other id the
-- tables find what they found.
retry_task-ok :
    (w : ℕ → Draw) (caller : User) (task_id : String) (db : Database) (c : Committed Task)
    (j : String)
    → retry_task w caller task_id db ≡ ok c
    → (task : Task) × (find_row (λ t. t.id) db.tasks task_id ≡ some task)
      × Allowed task_transitions task.status TaskStatus.ready
      × (task.attempt < task.max_attempts)
      × (c.row.status ≡ TaskStatus.ready)
      × Written (λ t. t.id) task_id c.row db.tasks c.db.tasks j
unfolding retry_task record_audit_event
retry_task-ok w caller task_id db c j h =
    let (user, _, h1) = bind-inv (require_role "DEVELOPER" caller) _ _ h in
    let (task, f, h2) = bind-inv (found (find_row (λ t. t.id) db.tasks task_id)) _ _ h1 in
    let (u, r, h3) =
      bind-inv (require (contains (TaskStatus.failed ∷ TaskStatus.blocked ∷ []) task.status) 409) _
        _ h2 in
    let (u', r', h4) = bind-inv (require (ltb task.attempt task.max_attempts) 409) _ _ h3 in
    let found_task = found-inv _ _ f in
    let row =
      subst
        (λ c.
          (c.row.status ≡ TaskStatus.ready)
          × Written (λ t. t.id) task_id c.row db.tasks c.db.tasks j)
        (ok-injective _ _ h4)
        (refl, find_row-replace (λ t. t.id) db.tasks task_id j task _ found_task refl) in
    (
      task,
      found_task,
      only_stopped task.status (require-inv _ _ _ r),
      ltb-lt _ _ (require-inv _ _ _ r'),
      row.0,
      row.1,
    )

-- A decision that is accepted found the approval REQUESTED, and leaves under its id the row with
-- the new status and rationale; under any other id the tables find what they found.
pub decide-ok :
    (w : ℕ → Draw) (approval_id : String) (decision : ApprovalStatus) (rationale : Option String)
    (user : User) (db : Database) (c : Committed Approval) (j : String)
    → decide w approval_id decision rationale user db ≡ ok c
    → (approval : Approval) × (find_row (λ a. a.id) db.approvals approval_id ≡ some approval)
      × (approval.status ≡ ApprovalStatus.requested)
      × (c.row.status ≡ decision)
      × (c.row.rationale ≡ rationale)
      × Written (λ a. a.id) approval_id c.row db.approvals c.db.approvals j
unfolding decide record_audit_event
decide-ok w approval_id decision rationale user db c j h =
    let (approval, f, h1) =
      bind-inv (found (find_row (λ a. a.id) db.approvals approval_id)) _ _ h in
    let (u, r, h2) = bind-inv (require (approval.status == ApprovalStatus.requested) 409) _ _ h1 in
    let found_approval = found-inv _ _ f in
    let row =
      subst
        (λ c.
          (c.row.status ≡ decision)
          × (c.row.rationale ≡ rationale)
          × Written (λ a. a.id) approval_id c.row db.approvals c.db.approvals j)
        (ok-injective _ _ h2)
        (
          refl,
          refl,
          find_row-replace (λ a. a.id) db.approvals approval_id j approval _ found_approval refl,
        ) in
    (
      approval,
      found_approval,
      (approval_status_eq.beq_iff _ _).0 (require-inv _ _ _ r),
      row.0,
      row.1,
      row.2,
    )

-- The row that a decision leaves behind is the decided one.
pub Written-find_row {ℓ} :
    {A : Type ℓ} (key : A → String) (id : String) (a : A) (before after : List A)
    → Written key id a before after id
    → find_row key after id ≡ some a
Written-find_row key id a before after h = h ∙ (rw (==_refl id) refl)

not_requested :
    (s : ApprovalStatus) → s ≢ ApprovalStatus.requested → (s == ApprovalStatus.requested) ≡ false
unfolding ApprovalStatus-discrete
not_requested ApprovalStatus.requested n = absurd (n refl)
not_requested _ n = refl

-- Once an approval is decided, with a status other than REQUESTED, any further decision on it is
-- refused with 409.
pub decide-final :
    (w w' : ℕ → Draw) (approval_id : String) (decision decision' : ApprovalStatus)
    (rationale rationale' : Option String) (user user' : User) (db : Database)
    (c : Committed Approval)
    → decision ≢ ApprovalStatus.requested
    → decide w approval_id decision rationale user db ≡ ok c
    → decide w' approval_id decision' rationale' user' c.db ≡ http_error 409
unfolding decide
decide-final w w' approval_id decision decision' rationale rationale' user user' db c n h =
    let (_, _, _, s, _, here) =
      decide-ok w approval_id decision rationale user db c approval_id h in
    rw (Written-find_row (λ a. a.id) approval_id c.row db.approvals c.db.approvals here)
      (rw (s, not_requested decision n) refl)
