-- ===== src/States/Reachability.antt =====
-- What the transition tables imply about whole histories of a run or a task.
use software_factory_ai.Common.{
  ◌≤◌, ◌<◌, ◌≡◌, refl, ◌⊎◌, inl, inr, Bool, true, false, List, [], ◌∷◌, arith, contains, dec_lt,
  contains-cons_self, contains-cons,
}
use software_factory_ai.States.{
  RunStatus, RunStatus-discrete, TaskStatus, TaskStatus-discrete, run_status_eq, task_status_eq,
  run_transitions, task_transitions, validate_transition, Allowed,
}
use software_factory_ai.States.Laws.{
  is_terminal, Allowed-not-terminal, Chain, last, rank, rank-Allowed,
}

-- A run that is completed, failed for good or cancelled has no further history of validated
-- changes.
terminal_absorbs :
    (s : RunStatus) (ts : List RunStatus)
    → is_terminal s ≡ true
    → Chain run_transitions s ts
    → ts ≡ []
terminal_absorbs s [] h c = refl
terminal_absorbs s (t ∷ ts) h c = cc (h, Allowed-not-terminal s t c.0)

-- The statuses that a run can have before it first runs.
abbrev not_started : RunStatus → Bool
not_started RunStatus.created = true
not_started RunStatus.queued = true
not_started RunStatus.cancelled = true
not_started _ = false

not_started-step :
    (s t : RunStatus)
    → not_started s ≡ true
    → Allowed run_transitions s t
    → (t ≡ RunStatus.running) ⊎ (not_started t ≡ true)
unfolding validate_transition run_transitions RunStatus-discrete
not_started-step RunStatus.created t n h = ground arith
not_started-step _ t n h = ground arith

-- A run that starts CREATED, QUEUED or CANCELLED and completes by validated changes was RUNNING
-- in between.
completed_has_run :
    (s : RunStatus) (ts : List RunStatus)
    → not_started s ≡ true
    → Chain run_transitions s ts
    → last s ts ≡ RunStatus.completed
    → contains ts RunStatus.running ≡ true
completed_has_run s [] n c h = cc
completed_has_run s (t ∷ ts) n c h = elim (not_started-step s t n c.0) [
  | inl e ↦ contains-cons_self RunStatus.running t ts e
  | inr n' ↦ contains-cons RunStatus.running t ts (completed_has_run t ts n' c.1 h)
]

-- The task's history meets each rank up to the one that it ends at.
rank_met :
    (g s : TaskStatus) (ts : List TaskStatus)
    → ((t : TaskStatus) → rank t ≡ rank g → t ≡ g)
    → Chain task_transitions s ts
    → rank s < rank g
    → rank g ≤ rank (last s ts)
    → contains ts g ≡ true
rank_met g s [] only c lo hi = absurd (omega arith)
rank_met g s (t ∷ ts) only c lo hi = elim (dec_lt (rank t) (rank g)) [
  | yes below ↦ contains-cons g t ts (rank_met g t ts only c.1 below hi)
  | no above ↦ contains-cons_self g t ts (only t (omega (arith, rank-Allowed s t c.0)))
]

-- The five reviews between the start of a task and its end.
abbrev pub reviews : List TaskStatus
reviews =
    TaskStatus.in_review ∷ TaskStatus.in_test ∷ TaskStatus.security_review
    ∷ TaskStatus.operational_review ∷ TaskStatus.ready_for_release ∷ []

same_rank : (g t : TaskStatus) → contains reviews g ≡ true → rank t ≡ rank g → t ≡ g
unfolding contains TaskStatus-discrete
same_rank TaskStatus.in_review TaskStatus.in_review h e = refl
same_rank g t h e = ground arith

review_rank : (g : TaskStatus) → contains reviews g ≡ true → (0 < rank g) × (rank g ≤ 6)
unfolding contains TaskStatus-discrete
review_rank g h = ground arith

-- A task that goes from a status before review to DONE by validated changes was in each of the
-- five review statuses on the way.
pub done_was_reviewed :
    (g s : TaskStatus) (ts : List TaskStatus)
    → contains reviews g ≡ true
    → rank s ≡ 0
    → Chain task_transitions s ts
    → last s ts ≡ TaskStatus.done
    → contains ts g ≡ true
done_was_reviewed g s ts r z c h =
    rank_met g s ts (λ t e. same_rank g t r e) c (omega (arith, review_rank g r))
      (rw h (review_rank g r).1)
