-- ===== src/Delivery/Graph/Counters.antt =====
-- What one node leaves in the cycle counters, in the stage results and in the flags.
use software_factory_ai.Common.{
  ℕ, ◌+◌, ◌≡◌, refl, none, some, List, [], ◌∷◌, arith, ◌==◌, if◌then◌else◌, map, ==_refl,
}
use software_factory_ai.Common.Dict.{get-merge, last_of, get-merge_one}
use software_factory_ai.Contracts.{AgentResult}
use software_factory_ai.States.{ApprovalStatus, ApprovalStatus-discrete}
use software_factory_ai.Delivery.State.{
  Stage, stage_eq, Gate, Gate-discrete, gate_eq, StageResult, DeliveryState, Update, apply_update,
}
use software_factory_ai.Delivery.Stages.{stage_update, stage_outcome}
use software_factory_ai.Delivery.Approvals.{all_gates, review_update}
use software_factory_ai.Delivery.Graph.{cycles_of, stage_status}

module _ (s : DeliveryState) where
  -- A node that returns no counter leaves them all.
  pub cycles_of-same :
      (u : Update) (g : Gate) → u.cycles ≡ none → cycles_of (apply_update s u) g ≡ cycles_of s g
  unfolding cycles_of apply_update
  cycles_of-same u g h = rw h refl

  pub cycles_of-bump :
      (u : Update) (gate g : Gate)
      → u.cycles ≡ some ((gate, cycles_of s gate + 1) ∷ [])
      → cycles_of (apply_update s u) g ≡ (if gate == g then cycles_of s gate + 1 else cycles_of s g)
  unfolding cycles_of apply_update
  cycles_of-bump u gate g h =
      rw (h, get-merge_one s.cycles gate g (cycles_of s gate + 1)) (ground arith)

  reset_values : (g : Gate) → last_of {V = ℕ} (map (λ gate. (gate, 0)) all_gates) g ≡ some 0
  unfolding last_of Gate-discrete
  reset_values Gate.intake = refl
  reset_values _ = refl

  pub cycles_of-reset :
      (g : Gate) → cycles_of (apply_update s (review_update ApprovalStatus.approved)) g ≡ 0
  unfolding cycles_of apply_update ApprovalStatus-discrete
  cycles_of-reset g =
      rw (get-merge s.cycles (map (λ gate. (gate, 0)) all_gates) g, reset_values g) refl

  stage_update-status :
      (st : Stage) (results : List AgentResult)
      → (r : StageResult) × ((stage_update st results).stage_results ≡ some ((st, r) ∷ []))
        × (r.status ≡ stage_outcome results)
  unfolding stage_update
  stage_update-status st [] = (_, refl, refl)
  stage_update-status st (r ∷ rest) = (_, refl, refl)

  pub stage_status-update :
      (st : Stage) (results : List AgentResult)
      → stage_status (apply_update s (stage_update st results)) st ≡ stage_outcome results
  unfolding stage_status apply_update
  stage_status-update st results =
      let (r, e, h) = stage_update-status st results in
      rw (e, get-merge_one s.stage_results st st r, ==_refl st) h
