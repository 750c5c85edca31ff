-- ===== src/Agents/Sync/Laws.antt =====
-- What the publication of the files leaves of the table, and what it adds.
use mathlib.Core.Option.{some-injective}
use software_factory_ai.Common.{
  ◌≡◌, ◌≢◌, refl, sym, ap, subst, ◌∙◌, false, none, some, List, [], ◌∷◌, String, ◌==◌, string_eq,
  contains, Bool-cases, Option-cases, inl, inr, ==_refl,
}
use software_factory_ai.Common.Rows.{find_row, find_row-update_row, find_row-append}
use software_factory_ai.Json.{is_some}
use software_factory_ai.Database.Settings.{AgentDefinition, Settings}
use software_factory_ai.Agents.Sync.{
  Source, refreshed, inserted, publish, publish_all, ids_of, sync_agent_definitions, find_agent,
}

-- What a person has set for an agent.
abbrev pub Kept : AgentDefinition → AgentDefinition → Type 0
Kept a b = (b.configuration ≡ a.configuration) × (b.enabled ≡ a.enabled)

publish-Kept :
    (existing : List String) (d : Source) (agents : List AgentDefinition) (id : String)
    (a : AgentDefinition)
    → find_agent agents id ≡ some a
    → (b : AgentDefinition) × (find_agent (publish existing d agents) id ≡ some b) × Kept a b
unfolding publish
publish-Kept existing d agents id a h = elim (Bool-cases (contains existing d.id)) [
  | inl t ↦ elim (Bool-cases (d.id == id)) [
    | inl s ↦ (
      refreshed d a,
      rw (t, find_row-update_row (λ x. x.id) d.id id (refreshed d) agents (λ x. refl), s, h) refl,
      (refl, refl),
    )
    | inr s ↦ (
      a,
      rw (t, find_row-update_row (λ x. x.id) d.id id (refreshed d) agents (λ x. refl), s, h) refl,
      (refl, refl),
    )
  ]
  | inr t ↦ (a, rw (t, find_row-append (λ x. x.id) agents (inserted d) id, h) refl, (refl, refl))
]

publish_all-Kept :
    (existing : List String) (ds : List Source) (agents : List AgentDefinition) (id : String)
    (a : AgentDefinition)
    → find_agent agents id ≡ some a
    → (b : AgentDefinition) × (find_agent (publish_all existing ds agents) id ≡ some b) × Kept a b
unfolding publish_all
publish_all-Kept existing [] agents id a h = (a, h, (refl, refl))
publish_all-Kept existing (d ∷ ds) agents id a h =
    let (b, f, (c, e)) = publish-Kept existing d agents id a h in
    let (b', f', (c', e')) = publish_all-Kept existing ds (publish existing d agents) id b f in
    (b', f', (c' ∙ c, e' ∙ e))

-- An agent that is in the table keeps its configuration and whether it is enabled, whatever the
-- files say.
pub sync_agent_definitions-Kept :
    (ds : List Source) (s : Settings) (id : String) (a : AgentDefinition)
    → find_agent s.agents id ≡ some a
    → (b : AgentDefinition) × (find_agent (sync_agent_definitions ds s).agents id ≡ some b)
      × Kept a b
unfolding sync_agent_definitions
sync_agent_definitions-Kept ds s id a h = publish_all-Kept (ids_of s.agents) ds s.agents id a h

-- No two definitions have the same id.
unfoldable pub Unique : List Source → Type 0
Unique [] = Unit
Unique (d ∷ ds) = (find_row (λ e. e.id) ds d.id ≡ none) × Unique ds

-- The ids that `existing` lists are those of the table, for the definitions that are left.
abbrev pub Agree : List String → List Source → List AgentDefinition → Type 0
Agree existing ds agents =
    (e : Source) (id : String)
    → find_row (λ x. x.id) ds id ≡ some e
    → contains existing id ≡ is_some (find_agent agents id)

none-some {ℓ} : {A : Type ℓ} (a : A) → none ≢ some a
none-some a h = cc

-- The write of one definition is found under its id, and changes no other.
publish-found :
    (existing : List String) (d : Source) (agents : List AgentDefinition)
    → contains existing d.id ≡ is_some (find_agent agents d.id)
    → (a : AgentDefinition) × (find_agent (publish existing d agents) d.id ≡ some a)
      × (a.default_configuration ≡ d.configuration)
unfolding publish
publish-found existing d agents h = elim (Option-cases (find_agent agents d.id)) [
  | inl e ↦ (
    inserted d,
    rw (h, e, find_row-append (λ x. x.id) agents (inserted d) d.id, e, ==_refl d.id) refl,
    refl,
  )
  | inr (a, e) ↦ (
    refreshed d a,
    rw
        (
          h,
          e,
          find_row-update_row (λ x. x.id) d.id d.id (refreshed d) agents (λ x. refl),
          e,
          ==_refl d.id,
        )
        refl,
    refl,
  )
]

publish-other :
    (existing : List String) (d : Source) (agents : List AgentDefinition) (id : String)
    → (d.id == id) ≡ false
    → find_agent (publish existing d agents) id ≡ find_agent agents id
unfolding publish
publish-other existing d agents id h = elim (Bool-cases (contains existing d.id)) [
  | inl t ↦ rw (t, find_row-update_row (λ x. x.id) d.id id (refreshed d) agents (λ x. refl), h) refl
  | inr t ↦ elim (Option-cases (find_agent agents id)) [
    | inl e ↦ rw (t, find_row-append (λ x. x.id) agents (inserted d) id, e, h) refl
    | inr (a, e) ↦ rw (t, find_row-append (λ x. x.id) agents (inserted d) id, e) refl
  ]
]

publish_all-other :
    (existing : List String) (ds : List Source) (agents : List AgentDefinition) (id : String)
    → find_row (λ x. x.id) ds id ≡ none
    → find_agent (publish_all existing ds agents) id ≡ find_agent agents id
unfolding publish_all find_row
publish_all-other existing [] agents id h = refl
publish_all-other existing (d ∷ ds) agents id h = elim (Bool-cases (d.id == id)) [
  | inl t ↦ let c : some d ≡ none = rw t at h in absurd (none-some d (sym c))
  | inr t ↦
      publish_all-other existing ds (publish existing d agents) id (rw t at h)
      ∙ publish-other existing d agents id t
]

Agree-publish :
    (existing : List String) (e : Source) (ds : List Source) (agents : List AgentDefinition)
    → find_row (λ x. x.id) ds e.id ≡ none
    → Agree existing (e ∷ ds) agents
    → Agree existing ds (publish existing e agents)
unfolding find_row
Agree-publish existing e ds agents u g e' id f = elim (Bool-cases (e.id == id)) [
  | inl t ↦
      let same : e.id ≡ id = (string_eq.beq_iff e.id id).0 t in
      let c : none ≡ some e' = sym (subst (λ i. find_row (λ x. x.id) ds i ≡ none) same u) ∙ f in
      absurd (none-some e' c)
  | inr t ↦ g e' id (rw t f) ∙ ap is_some (sym (publish-other existing e agents id t))
]

publish_all-found :
    (existing : List String) (ds : List Source) (agents : List AgentDefinition) (id : String)
    (d : Source)
    → Unique ds
    → Agree existing ds agents
    → find_row (λ x. x.id) ds id ≡ some d
    → (a : AgentDefinition) × (find_agent (publish_all existing ds agents) id ≡ some a)
      × (a.default_configuration ≡ d.configuration)
unfolding publish_all find_row Unique
publish_all-found existing [] agents id d u g h = cc
publish_all-found existing (e ∷ ds) agents id d (u, us) g h = elim (Bool-cases (e.id == id)) [
  | inl t ↦
      let same : e.id ≡ id = (string_eq.beq_iff e.id id).0 t in
      let (a, f, c) = publish-found existing e agents (g e e.id (rw (==_refl e.id) refl)) in
      subst
        (λ i.
          (x : AgentDefinition) × (find_agent (publish_all existing ds (publish existing e agents))
              i
            ≡ some x)
          × (x.default_configuration ≡ d.configuration))
        same
        (
          a,
          publish_all-other existing ds (publish existing e agents) e.id u ∙ f,
          c ∙ ap (λ x. x.configuration) (some-injective e d (rw t at h)),
        )
  | inr t ↦
      publish_all-found existing ds (publish existing e agents) id d us
        (Agree-publish existing e ds agents u g) (rw t at h)
]

contains-ids_of :
    (agents : List AgentDefinition) (id : String)
    → contains (ids_of agents) id ≡ is_some (find_agent agents id)
unfolding contains ids_of find_row
contains-ids_of [] id = refl
contains-ids_of (a ∷ agents) id = elim (Bool-cases (a.id == id)) [
  | inl t ↦ rw t refl
  | inr t ↦ rw t (contains-ids_of agents id)
]

-- After the start, each definition of the files is in the table under its id, as the default of
-- its agent.
pub sync_agent_definitions-found :
    (ds : List Source) (s : Settings) (id : String) (d : Source)
    → Unique ds
    → find_row (λ x. x.id) ds id ≡ some d
    → (a : AgentDefinition) × (find_agent (sync_agent_definitions ds s).agents id ≡ some a)
      × (a.default_configuration ≡ d.configuration)
unfolding sync_agent_definitions
sync_agent_definitions-found ds s id d u h =
    publish_all-found (ids_of s.agents) ds s.agents id d u (λ e i f. contains-ids_of s.agents i) h
