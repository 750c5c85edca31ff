-- ===== src/Delivery/Graph/Termination.antt =====
-- The runs of the graph end.
use software_factory_ai.Common.{
  subst, ℕ, zero, suc, ◌+◌, ◌*◌, ◌≤◌, ◌<◌, ◌-◌, ◌≡◌, refl, Option, none, some, ◌⊎◌, inl, inr, List,
  [], ◌∷◌, arith, Option-cases,
}
use software_factory_ai.Common.Lists.{length, take, length-take}
use software_factory_ai.Database.Queries.{RunRequest}
use software_factory_ai.Delivery.State.{Position, Stage, DeliveryState, apply_update}
use software_factory_ai.Delivery.Graph.{Node, stage, delivered, cancelled, cycles_of}
use software_factory_ai.Delivery.Graph.Run.{
  Reply, Config, start, follow, update_of, next_node, advance, steps, ended, recursion_error,
  invoke,
}
use software_factory_ai.Delivery.Graph.Effects.{state_after, steps-nil-inv, steps-cons-inv}
use software_factory_ai.Delivery.Graph.Bounds.{Ready, advance-Ready, start-Ready}
use software_factory_ai.Delivery.Graph.Budget.{budget-le}
use software_factory_ai.Delivery.Graph.Potential.{approvals, potential, renewal, advance-potential}

-- The two stages that a run can end in.
abbrev pub IsFinal : DeliveryState → Type 0
IsFinal s =
    (s.current_stage ≡ some Position.delivered) ⊎ (s.current_stage ≡ some Position.cancelled)

module _ (max_cycles : ℕ) where
  -- How many reviews are approved along a run.
  unfoldable pub approved_reviews : List Reply → Config → ℕ
  approved_reviews [] c = 0
  approved_reviews (reply ∷ rest) c =
      approvals reply c.node
      + (elim (advance max_cycles reply c) [ none ↦ 0 | some d ↦ approved_reviews rest d ])

  steps-potential :
      (replies : List Reply) (c c' : Config)
      → Ready max_cycles c
      → steps max_cycles replies c ≡ some c'
      → length replies + potential max_cycles c'
        ≤ potential max_cycles c + renewal max_cycles * approved_reviews replies c
  unfolding approved_reviews
  steps-potential [] c c' r h = rw (steps-nil-inv max_cycles c c' h) (omega arith)
  steps-potential (reply ∷ rest) c c' r h =
      let (d, first, later) = steps-cons-inv max_cycles reply rest c c' h in
      let step = advance-potential max_cycles reply c d r first in
      let further = steps-potential rest d c' (advance-Ready max_cycles reply c d r first) later in
      rw (first, approved_reviews) (omega (arith, step, further))

  -- The graph ends at the delivered or the cancelled node only.
  advance-none :
      (reply : Reply) (c : Config)
      → advance max_cycles reply c ≡ none
      → (c.node ≡ delivered) ⊎ (c.node ≡ cancelled)
  unfolding advance next_node
  advance-none reply c h = by_node c.node _ (stops _ _ h)
    where
      stops : (s : DeliveryState) (o : Option Node) → follow s o ≡ none → o ≡ none
      stops s none e = refl
      stops s (some n) e = cc

      by_node :
          (n : Node) (s : DeliveryState)
          → next_node max_cycles n s ≡ none
          → (n ≡ delivered) ⊎ (n ≡ cancelled)
      by_node delivered s e = inl refl
      by_node cancelled s e = inr refl
      by_node (stage Stage.triage) s e = absurd (cc)
      by_node (stage st) s e = absurd (cc)
      by_node _ s e = absurd (cc)

  update_of-IsFinal :
      (reply : Reply) (n : Node) (s : DeliveryState)
      → (n ≡ delivered) ⊎ (n ≡ cancelled)
      → IsFinal (apply_update s (update_of reply n s))
  unfolding apply_update update_of
  update_of-IsFinal reply n s (inl e) = rw e (inl refl)
  update_of-IsFinal reply n s (inr e) = rw e (inr refl)

  -- How a run comes out within a limit: it ends delivered or cancelled, or its limit is the number
  -- of nodes of a run that has not ended.
  ComesOut : (limit : ℕ) → List Reply → Config → Type 0
  ComesOut limit replies c =
      ((s : DeliveryState) × (invoke max_cycles limit replies c ≡ ended s) × IsFinal s)
      ⊎ ((c' : Config) × (invoke max_cycles limit replies c ≡ recursion_error)
          × (steps max_cycles (take limit replies) c ≡ some c'))

  ComesOut-next :
      (limit : ℕ) (reply : Reply) (rest : List Reply) (c d : Config)
      → advance max_cycles reply c ≡ some d
      → ComesOut limit rest d
      → ComesOut (suc limit) (reply ∷ rest) c
  unfolding ComesOut steps invoke
  ComesOut-next limit reply rest c d went (inl (s, e, f)) = inl (s, rw (went, invoke) e, f)
  ComesOut-next limit reply rest c d went (inr (c', e, f)) =
      inr (c', rw (went, invoke) e, rw (went, steps) f)

  comes_out :
      (limit : ℕ) (replies : List Reply) (c : Config)
      → limit ≤ length replies
      → ComesOut limit replies c
  unfolding ComesOut steps invoke
  comes_out zero replies c l = inr (c, refl, refl)
  comes_out (suc limit) [] c l = absurd (omega arith)
  comes_out (suc limit) (reply ∷ rest) c l = elim (Option-cases (advance max_cycles reply c)) [
    | inl stopped ↦ inl (
      state_after reply c,
      rw (stopped, invoke) refl,
      update_of-IsFinal reply c.node c.state (advance-none reply c stopped),
    )
    | inr (d, went) ↦ ComesOut-next limit reply rest c d went (comes_out limit rest d (omega arith))
  ]

-- From the start of a run, whatever the agents and the people answer: the nodes that have run
-- while the graph has not ended are fewer than 20 + 44 * MAX_CYCLES for the start and for each
-- approved human review.
pub run_bounded :
    (max_cycles : ℕ) (run : RunRequest) (replies : List Reply) (c : Config)
    → steps max_cycles replies (start run) ≡ some c
    → length replies
      < (20 + 44 * max_cycles) * (1 + approved_reviews max_cycles replies (start run))
run_bounded max_cycles run replies c h = omega (
  arith,
  steps-potential max_cycles replies (start run) c (start-Ready max_cycles run) h,
  budget-le max_cycles (λ g. max_cycles - cycles_of (start run).state g) (λ g. omega arith),
)

length-take_all {ℓ} : {A : Type ℓ} (n : ℕ) (xs : List A) → n ≤ length xs → length (take n xs) ≡ n
length-take_all n xs h = omega (arith, length-take n xs)

-- From the start of a run, whatever the agents and the people answer, with as many answers as the
-- recursion limit: the graph ends, delivered or cancelled, or it raises the GraphRecursionError,
-- which a limit of (20 + 44 * MAX_CYCLES) * (1 + the number of human reviews that are approved
-- within it) or more excludes.
pub run_comes_out :
    (max_cycles limit : ℕ) (run : RunRequest) (replies : List Reply)
    → limit ≤ length replies
    → ((s : DeliveryState) × (invoke max_cycles limit replies (start run) ≡ ended s) × IsFinal s)
      ⊎ ((invoke max_cycles limit replies (start run) ≡ recursion_error)
          × (limit
              < (20 + 44 * max_cycles)
                * (1 + approved_reviews max_cycles (take limit replies) (start run))))
unfolding ComesOut
run_comes_out max_cycles limit run replies enough =
    elim (comes_out max_cycles limit replies (start run) enough) [
      | inl done ↦ inl done
      | inr (c, raised, went) ↦
          let bound = run_bounded max_cycles run (take limit replies) c went in
          inr (
            raised,
            subst
                (λ n.
                  n
                  < (20 + 44 * max_cycles)
                    * (1 + approved_reviews max_cycles (take limit replies) (start run)))
                (length-take_all limit replies enough) bound,
          )
    ]
