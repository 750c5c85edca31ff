-- ===== src/States.antt =====
-- shared/contracts/states.py: the statuses, the three transition tables and their check.
pub mod Laws
pub mod Reachability
use software_factory_ai.Common.{
  ◌≡◌, Bool, true, false, List, [], ◌∷◌, Eq, eq_of_discrete, contains, if◌then◌else◌, String,
}

pub data ProjectStatus : Type 0 where
  draft planning active waiting_approval blocked completed cancelled archived : ProjectStatus

pub data RunStatus : Type 0 where
  created queued running waiting_tool waiting_agent waiting_human retrying : RunStatus
  partially_completed completed failed_retryable failed_final cancelled : RunStatus

pub data TaskStatus : Type 0 where
  backlog ready in_progress in_review changes_requested in_test security_review : TaskStatus
  operational_review ready_for_release done blocked failed cancelled : TaskStatus

pub data ApprovalStatus : Type 0 where
  requested approved rejected expired cancelled : ApprovalStatus

unfoldable pub ProjectStatus-discrete : Discrete ProjectStatus
ProjectStatus-discrete = hlevel

unfoldable pub RunStatus-discrete : Discrete RunStatus
RunStatus-discrete = hlevel

unfoldable pub TaskStatus-discrete : Discrete TaskStatus
TaskStatus-discrete = hlevel

unfoldable pub ApprovalStatus-discrete : Discrete ApprovalStatus
ApprovalStatus-discrete = hlevel

instance abbrev pub project_status_eq : Eq ProjectStatus
project_status_eq = eq_of_discrete ProjectStatus-discrete

instance abbrev pub run_status_eq : Eq RunStatus
run_status_eq = eq_of_discrete RunStatus-discrete

instance abbrev pub task_status_eq : Eq TaskStatus
task_status_eq = eq_of_discrete TaskStatus-discrete

instance abbrev pub approval_status_eq : Eq ApprovalStatus
approval_status_eq = eq_of_discrete ApprovalStatus-discrete

-- PROJECT_TRANSITIONS. Each table is total over its statuses, so `table.get(current, set())` is
-- the row itself; a set is the list of its elements.
unfoldable pub project_transitions : ProjectStatus → List ProjectStatus
project_transitions draft = planning ∷ cancelled ∷ []
project_transitions planning = active ∷ blocked ∷ cancelled ∷ []
project_transitions active = waiting_approval ∷ blocked ∷ completed ∷ cancelled ∷ []
project_transitions waiting_approval = active ∷ blocked ∷ cancelled ∷ []
project_transitions blocked = active ∷ cancelled ∷ []
project_transitions completed = archived ∷ []
project_transitions cancelled = archived ∷ []
project_transitions archived = []

-- RUN_TRANSITIONS
unfoldable pub run_transitions : RunStatus → List RunStatus
run_transitions created = queued ∷ cancelled ∷ []
run_transitions queued = running ∷ cancelled ∷ []
run_transitions running =
    waiting_tool ∷ waiting_agent ∷ waiting_human ∷ retrying ∷ partially_completed ∷ completed
    ∷ failed_retryable ∷ failed_final ∷ cancelled ∷ []
run_transitions waiting_tool = running ∷ failed_retryable ∷ cancelled ∷ []
run_transitions waiting_agent = running ∷ failed_retryable ∷ cancelled ∷ []
run_transitions waiting_human = running ∷ cancelled ∷ []
run_transitions retrying = running ∷ failed_final ∷ cancelled ∷ []
run_transitions partially_completed = running ∷ completed ∷ cancelled ∷ []
run_transitions failed_retryable = retrying ∷ failed_final ∷ cancelled ∷ []
run_transitions completed = []
run_transitions failed_final = []
run_transitions cancelled = []

-- TASK_TRANSITIONS
unfoldable pub task_transitions : TaskStatus → List TaskStatus
task_transitions backlog = ready ∷ cancelled ∷ []
task_transitions ready = in_progress ∷ blocked ∷ cancelled ∷ []
task_transitions in_progress = in_review ∷ blocked ∷ failed ∷ cancelled ∷ []
task_transitions in_review = changes_requested ∷ in_test ∷ blocked ∷ cancelled ∷ []
task_transitions changes_requested = in_progress ∷ cancelled ∷ []
task_transitions in_test = security_review ∷ changes_requested ∷ failed ∷ cancelled ∷ []
task_transitions security_review = operational_review ∷ changes_requested ∷ blocked ∷ cancelled ∷ []
task_transitions operational_review = ready_for_release ∷ changes_requested ∷ cancelled ∷ []
task_transitions ready_for_release = done ∷ blocked ∷ cancelled ∷ []
task_transitions done = []
task_transitions blocked = ready ∷ in_progress ∷ cancelled ∷ []
task_transitions failed = ready ∷ cancelled ∷ []
task_transitions cancelled = []

-- `None`, or the exception InvalidTransitionError with the allowed targets of its message.
pub data Transition {ℓ} (S : Type ℓ) : Type ℓ where
  valid : Transition S
  invalid : S → S → List S → Transition S

-- validate_transition(current, target, table)
unfoldable pub validate_transition {ℓ} :
    {S : Type ℓ} ⦃e : Eq S⦄ → S → S → (S → List S) → Transition S
unfolding contains
validate_transition current target table =
    let allowed = table current in
    if contains allowed target then valid else invalid current target allowed

-- One validated change of status.
abbrev pub Allowed {ℓ} : {S : Type ℓ} ⦃e : Eq S⦄ → (S → List S) → S → S → Type ℓ
Allowed table s t = validate_transition s t table ≡ valid

-- The words that the rows carry, where the program puts one in a text.
abbrev pub approval_status_name : ApprovalStatus → String
approval_status_name requested = "REQUESTED"
approval_status_name approved = "APPROVED"
approval_status_name rejected = "REJECTED"
approval_status_name expired = "EXPIRED"
approval_status_name cancelled = "CANCELLED"
