-- ===== src/Tests/States.antt =====
-- The transition tables on concrete histories.
use software_factory_ai.Common.{◌≡◌, refl, true, List, [], ◌∷◌, contains}
use software_factory_ai.States.{
  run_status_eq, TaskStatus, TaskStatus-discrete, task_status_eq, task_transitions,
  validate_transition,
}
use software_factory_ai.States.Reachability.{done_was_reviewed}

abbrev whole_way : List TaskStatus
whole_way =
    TaskStatus.ready ∷ TaskStatus.in_progress ∷ TaskStatus.in_review ∷ TaskStatus.in_test
    ∷ TaskStatus.security_review ∷ TaskStatus.operational_review ∷ TaskStatus.ready_for_release
    ∷ TaskStatus.done ∷ []

done_was_reviewed_example : contains whole_way TaskStatus.security_review ≡ true
unfolding validate_transition task_transitions TaskStatus-discrete
done_was_reviewed_example =
    done_was_reviewed TaskStatus.security_review TaskStatus.backlog whole_way refl refl
      (refl, (refl, (refl, (refl, (refl, (refl, (refl, (refl, tt)))))))) refl
