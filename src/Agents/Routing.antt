-- ===== src/Agents/Routing.antt =====
-- orchestrator/routing/router.py and the choice of a stage's agents in orchestrator/nodes/stages.py.
pub mod Switch
use mathlib.Core.Option.{some-injective}
use software_factory_ai.Agents.Effective.{merge_definition-enabled}
use software_factory_ai.Common.{
  false, ap, sym, ◌∙◌, Bool-cases, inl, inr, suc, refl, subst, ℕ, ◌≡◌, Bool, true, Option, none,
  some, List, [], ◌∷◌, String, if◌then◌else◌, string_eq,
}
use software_factory_ai.Common.Dict.{Dict, get, get_or}
use software_factory_ai.Json.{Json, bool, text, Fields, get_field, is_true}
use software_factory_ai.Agents.{Registry}
use software_factory_ai.Agents.Config.{
  Merged, merged, crashed, Overrides, Override, Cache, effective_definition, merge_definition,
  is_fresh, load_effective_configs,
}

-- STAGE_AGENTS
abbrev pub stage_agents : Dict String (List String)
stage_agents =
    ("triage", "governance.flow-manager" ∷ [])
    ∷ ("intake_analysis", "product.intake-analyst" ∷ [])
    ∷ (
      "product_discovery",
      "product.product-manager" ∷ "product.product-owner" ∷ "product.business-analyst"
          ∷ "product.ux-researcher" ∷ [],
    )
    ∷ ("requirements", "product.requirements-analyst" ∷ "product.ux-ui-designer" ∷ [])
    ∷ (
      "architecture",
      "architecture.solution" ∷ "architecture.software" ∷ "architecture.data"
          ∷ "architecture.integration" ∷ "architecture.security" ∷ [],
    )
    ∷ ("technical_planning", "architecture.tech-lead" ∷ "governance.engineering-manager" ∷ [])
    ∷ ("development", "engineering.backend" ∷ [])
    ∷ ("code_review", "engineering.code-reviewer" ∷ [])
    ∷ ("automated_tests", "validation.test-automation" ∷ [])
    ∷ ("functional_qa", "validation.qa-lead" ∷ "validation.functional-qa" ∷ [])
    ∷ ("security_compliance", "security.appsec" ∷ "security.open-source" ∷ "security.privacy" ∷ [])
    ∷ ("operational_validation", "operations.devops" ∷ "operations.sre" ∷ [])
    ∷ ("documentation_release", "delivery.documentation" ∷ "delivery.release-manager" ∷ [])
    ∷ []

-- DOMAIN_QUEUE
abbrev pub domain_queue : Dict String String
domain_queue =
    ("product", "factory.product")
    ∷ ("architecture", "factory.architecture")
    ∷ ("engineering", "factory.engineering")
    ∷ ("validation", "factory.validation")
    ∷ ("security", "factory.security")
    ∷ ("operations", "factory.operations")
    ∷ ("delivery", "factory.delivery")
    ∷ ("governance", "factory.governance")
    ∷ []

abbrev pub queue_of : Option Json → Option String
queue_of (some (text domain)) = get domain_queue domain
queue_of _ = none

-- queue_for: none is the KeyError.
unfoldable pub queue_for : Fields → Option String
unfolding get get_field
queue_for definition = queue_of (get_field definition "domain")

-- definition.get("enabled", True), as a condition
abbrev pub true_unless : Option Json → Bool
true_unless none = true
true_unless (some v) = is_true v

unfoldable pub is_enabled : Fields → Bool
unfolding get_field
is_enabled d = true_unless (get_field d "enabled")

-- agents_for_stage, for the ids of the stage. A definition goes with its id, which the registry
-- has as its key and the definition as `id`.
unfoldable pub enabled_agents : Registry → List String → List (String × Fields)
unfolding get is_enabled
enabled_agents registry [] = []
enabled_agents registry (id ∷ ids) =
    let rest = enabled_agents registry ids in
    elim (get registry id) [ none ↦ rest | some d ↦ if is_enabled d then (id, d) ∷ rest else rest ]

unfoldable pub agents_for_stage : Registry → String → List (String × Fields)
unfolding enabled_agents get
agents_for_stage registry stage = enabled_agents registry (get_or stage_agents stage [])

-- What the k-th read of the configuration meets: the time, and the table, none on an error of the
-- database.
abbrev pub Reads : Type 0
Reads = ℕ → ℕ × Option Overrides

-- The loop of `_resolve_stage_agents`, none on the TypeError of a merge.
abbrev pub kept : Fields → List Fields → List Fields
kept d ds = if is_enabled d then d ∷ ds else ds

abbrev pub with_definition : Merged → Option (List Fields) → Option (List Fields)
with_definition crashed ds = none
with_definition (merged none) ds = ds
with_definition (merged (some d)) none = none
with_definition (merged (some d)) (some ds) = some (kept d ds)

unfoldable pub resolve :
    (ttl k : ℕ) → Reads → Option Cache → List (String × Fields) → Option (List Fields)
unfolding effective_definition is_enabled
resolve ttl k reads cache [] = some []
resolve ttl k reads cache ((id, base) ∷ agents) =
    let (now, table) = reads k in
    let (found, cache') = effective_definition ttl now table cache (some base) id in
    with_definition found (resolve ttl (suc k) reads cache' agents)

-- _resolve_stage_agents
unfoldable pub resolve_stage_agents :
    (ttl : ℕ) → Reads → Option Cache → Registry → String → Option (List Fields)
unfolding resolve agents_for_stage
resolve_stage_agents ttl reads cache registry stage =
    resolve ttl 0 reads cache (agents_for_stage registry stage)

with_definition-disabled :
    (found : Merged) (rest : Option (List Fields)) (ds : List Fields)
    → ((d : Fields) → found ≡ merged (some d) → is_enabled d ≡ false)
    → with_definition found rest ≡ some ds
    → rest ≡ some ds
with_definition-disabled crashed rest ds off h = cc
with_definition-disabled (merged none) rest ds off h = h
with_definition-disabled (merged (some d)) none ds off h = cc
with_definition-disabled (merged (some d)) (some es) ds off h = rw (off d refl) at h

is_enabled-off : (d : Fields) → get_field d "enabled" ≡ some (bool false) → is_enabled d ≡ false
unfolding is_enabled
is_enabled-off d e = rw e refl

resolve-fresh :
    (ttl k : ℕ) (reads : Reads) (c : Cache) (id : String) (base : Fields)
    (agents : List (String × Fields))
    → is_fresh ttl (reads k).0 (some c) ≡ true
    → resolve ttl k reads (some c) ((id, base) ∷ agents)
      ≡ with_definition
          (merge_definition (some base) (get c.rows id))
          (resolve ttl (suc k) reads (some c) agents)
unfolding resolve effective_definition load_effective_configs
resolve-fresh ttl k reads c id base agents fresh = rw fresh refl

-- An agent whose row in a fresh cache is disabled is left out of the agents of the stage, whatever
-- the file says.
pub resolve-disabled :
    (ttl k : ℕ) (reads : Reads) (c : Cache) (id : String) (base : Fields) (o : Override)
    (agents : List (String × Fields)) (ds : List Fields)
    → is_fresh ttl (reads k).0 (some c) ≡ true
    → get c.rows id ≡ some o
    → o.enabled ≡ false
    → resolve ttl k reads (some c) ((id, base) ∷ agents) ≡ some ds
    → resolve ttl (suc k) reads (some c) agents ≡ some ds
resolve-disabled ttl k reads c id base o agents ds fresh row off h =
    with_definition-disabled (merge_definition (some base) (some o))
      (resolve ttl (suc k) reads (some c) agents) ds
      (λ d e.
        is_enabled-off d (merge_definition-enabled (some base) o d e ∙ ap (λ b. some (bool b)) off))
      (rw row at (sym (resolve-fresh ttl k reads c id base agents fresh) ∙ h))
