-- ===== src/States/Laws.antt =====
-- Histories of validated changes of status, and what one change can do.
use software_factory_ai.Common.{
  ℕ, ◌+◌, ◌≤◌, ◌≡◌, refl, ◌↔◌, Bool, true, false, List, [], ◌∷◌, arith, Eq,
}
use software_factory_ai.States.{
  RunStatus, RunStatus-discrete, TaskStatus, TaskStatus-discrete, run_transitions, task_transitions,
  validate_transition, Allowed, run_status_eq, task_status_eq,
}

abbrev pub is_terminal : RunStatus → Bool
is_terminal RunStatus.completed = true
is_terminal RunStatus.failed_final = true
is_terminal RunStatus.cancelled = true
is_terminal _ = false

pub Allowed-not-terminal : (s t : RunStatus) → Allowed run_transitions s t → is_terminal s ≡ false
unfolding validate_transition run_transitions
Allowed-not-terminal RunStatus.completed t h = cc
Allowed-not-terminal RunStatus.failed_final t h = cc
Allowed-not-terminal RunStatus.cancelled t h = cc
Allowed-not-terminal _ t h = refl

-- A run can be cancelled exactly while its status is not terminal.
cancel_iff :
    (s : RunStatus) → Allowed run_transitions s RunStatus.cancelled ↔ (is_terminal s ≡ false)
unfolding validate_transition run_transitions RunStatus-discrete
cancel_iff RunStatus.created = (λ h. refl, λ h. refl)
cancel_iff RunStatus.completed = (λ h. cc, λ h. cc)
cancel_iff RunStatus.failed_final = (λ h. cc, λ h. cc)
cancel_iff RunStatus.cancelled = (λ h. cc, λ h. cc)
cancel_iff _ = (λ h. refl, λ h. refl)

module _ {ℓ} {S : Type ℓ} ⦃e : Eq S⦄ (table : S → List S) where
  -- The statuses after `s`, in order, each change validated.
  abbrev pub Chain : S → List S → Type ℓ
  Chain s [] = Unit
  Chain s (t ∷ ts) = Allowed table s t × Chain t ts

abbrev pub last {ℓ} : {S : Type ℓ} → S → List S → S
last s [] = s
last s (t ∷ ts) = last t ts

-- How far along the delivery gates a task is.
abbrev pub rank : TaskStatus → ℕ
rank TaskStatus.in_review = 1
rank TaskStatus.in_test = 2
rank TaskStatus.security_review = 3
rank TaskStatus.operational_review = 4
rank TaskStatus.ready_for_release = 5
rank TaskStatus.done = 6
rank _ = 0

-- A validated change takes a task at most one review further.
pub rank-Allowed : (s t : TaskStatus) → Allowed task_transitions s t → rank t ≤ rank s + 1
unfolding validate_transition task_transitions TaskStatus-discrete
rank-Allowed TaskStatus.backlog t h = ground arith
rank-Allowed _ t h = ground arith
