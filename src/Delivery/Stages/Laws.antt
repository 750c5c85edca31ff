-- ===== src/Delivery/Stages/Laws.antt =====
-- The status of a stage against the results of its agents.
use software_factory_ai.Common.{◌≡◌, refl, ◌↔◌, Bool, true, false, ◌||◌, List, [], ◌∷◌, arith, ◌==◌}
use software_factory_ai.Common.Lists.{any, any-append, flat}
use software_factory_ai.Contracts.{
  AgentStatus, AgentStatus-discrete, agent_status_eq, severity_eq, AgentResult,
}
use software_factory_ai.Delivery.Stages.{some_status, some_critical, stage_outcome}

-- Each agent approved, and none left a critical finding.
abbrev pub Clean : List AgentResult → Type 0
Clean [] = Unit
Clean (r ∷ rs) = (r.status ≡ AgentStatus.approved) × (some_critical r.findings ≡ false) × Clean rs

-- The four tests of a stage, all negative.
abbrev Quiet : List AgentResult → Type 0
Quiet rs =
    (some_status AgentStatus.blocked rs ≡ false)
    × (some_status AgentStatus.failed rs ≡ false)
    × (some_status AgentStatus.changes_requested rs ≡ false)
    × (some_critical (flat (λ r. r.findings) rs) ≡ false)

approved_iff :
    (s : AgentStatus)
    → ((s == AgentStatus.blocked) ≡ false)
        × ((s == AgentStatus.failed) ≡ false)
        × ((s == AgentStatus.changes_requested) ≡ false)
      ↔ (s ≡ AgentStatus.approved)
unfolding AgentStatus-discrete
approved_iff AgentStatus.approved = (λ h. refl, λ h. (refl, refl, refl))
approved_iff AgentStatus.blocked = (λ h. cc, λ h. cc)
approved_iff AgentStatus.failed = (λ h. cc, λ h. cc)
approved_iff AgentStatus.changes_requested = (λ h. cc, λ h. cc)

or-false : (a b : Bool) → (a || b) ≡ false → (a ≡ false) × (b ≡ false)
or-false false b h = (refl, h)
or-false true b h = cc

false-or : (a b : Bool) → a ≡ false → b ≡ false → (a || b) ≡ false
false-or a b h k = ground arith

Quiet-Clean : (rs : List AgentResult) → Quiet rs → Clean rs
unfolding any flat
Quiet-Clean [] h = tt
Quiet-Clean (r ∷ rs) (b, f, c, k) =
    let (b1, b2) = or-false _ _ b in
    let (f1, f2) = or-false _ _ f in
    let (c1, c2) = or-false _ _ c in
    let (k1, k2) = or-false _ _ (rw any-append at k) in
    ((approved_iff r.status).0 (b1, f1, c1), k1, Quiet-Clean rs (b2, f2, c2, k2))

Clean-Quiet : (rs : List AgentResult) → Clean rs → Quiet rs
unfolding any flat
Clean-Quiet [] h = (refl, refl, refl, refl)
Clean-Quiet (r ∷ rs) (a, k, rest) =
    let (b1, f1, c1) = (approved_iff r.status).1 a in
    let (b2, f2, c2, k2) = Clean-Quiet rs rest in
    (false-or _ _ b1 b2, false-or _ _ f1 f2, false-or _ _ c1 c2, rw any-append (false-or _ _ k k2))

approved-Quiet : (rs : List AgentResult) → stage_outcome rs ≡ AgentStatus.approved ↔ Quiet rs
unfolding stage_outcome
approved-Quiet rs = ground arith

-- A stage is approved exactly if each of its agents approved and none left a critical finding.
pub approved_stage : (rs : List AgentResult) → (stage_outcome rs ≡ AgentStatus.approved) ↔ Clean rs
approved_stage rs =
    (λ h. Quiet-Clean rs ((approved-Quiet rs).0 h), λ h. (approved-Quiet rs).1 (Clean-Quiet rs h))
