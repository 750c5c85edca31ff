-- ===== src/Agents/Routing/Switch.antt =====
-- The switch `enabled` of the table, for the agents that a stage is given.
use mathlib.Core.Option.{some-injective}
use software_factory_ai.Common.{
  subst, sym, ap, ◌∙◌, ℕ, suc, ◌≡◌, refl, Bool, true, false, Option, none, some, List, [], ◌∷◌,
  String, string_eq, contains, contains-cons, contains-cons_self, Bool-cases, Option-cases, inl,
  inr,
}
use software_factory_ai.Common.Dict.{get, get_or}
use software_factory_ai.Json.{bool, Fields, get_field}
use software_factory_ai.Agents.{Registry}
use software_factory_ai.Agents.Config.{
  Merged, merged, crashed, Overrides, Override, Cache, is_fresh, load_effective_configs,
  effective_definition, merge_definition,
}
use software_factory_ai.Agents.Effective.{merge_definition-enabled}
use software_factory_ai.Agents.Routing.{
  stage_agents, is_enabled, enabled_agents, agents_for_stage, Reads, with_definition, resolve,
  resolve_stage_agents,
}

-- An agent of the file, under its id in the registry and in the list.
abbrev pub Listed : Registry → List String → String × Fields → Type 0
Listed registry ids (id, base) = (contains ids id ≡ true) × (get registry id ≡ some base)

AllListed : Registry → List String → List (String × Fields) → Type 0
AllListed registry ids [] = Unit
AllListed registry ids (agent ∷ agents) = Listed registry ids agent × AllListed registry ids agents

enabled_agents-AllListed :
    (registry : Registry) (all ids : List String)
    → ((id : String) → contains ids id ≡ true → contains all id ≡ true)
    → AllListed registry all (enabled_agents registry ids)
unfolding enabled_agents AllListed
enabled_agents-AllListed registry all [] within = tt
enabled_agents-AllListed registry all (id ∷ ids) within =
    let rest =
      enabled_agents-AllListed registry all ids (λ j h. within j (contains-cons j id ids h)) in
    elim (Option-cases (get registry id)) [
      | inl e ↦ rw (e, enabled_agents, AllListed) rest
      | inr (d, e) ↦ elim (Bool-cases (is_enabled d)) [
        | inl t ↦
            rw (e, enabled_agents, AllListed, t)
              ((within id (contains-cons_self id id ids refl), e), rest)
        | inr t ↦ rw (e, enabled_agents, AllListed, t) rest
      ]
    ]

-- The switch of an agent: the column of its row, or without a row that of the file.
abbrev pub SwitchedOn : (base : Fields) → Option Override → Type 0
SwitchedOn base none = is_enabled base ≡ true
SwitchedOn base (some o) = o.enabled ≡ true

-- A definition is the one of an agent of the stage, merged with the agent's row, and switched on.
abbrev pub FromRow : Registry → List String → Overrides → Fields → Type 0
FromRow registry ids rows d =
    (id : String) × (base : Fields) × Listed registry ids (id, base)
    × (merge_definition (some base) (get rows id) ≡ merged (some d))
    × SwitchedOn base (get rows id)

abbrev pub AllFromRow : Registry → List String → Overrides → List Fields → Type 0
AllFromRow registry ids rows [] = Unit
AllFromRow registry ids rows (d ∷ ds) =
    FromRow registry ids rows d × AllFromRow registry ids rows ds

-- A cache is empty or holds the rows.
abbrev pub Holds : Overrides → Option Cache → Type 0
Holds rows none = Unit
Holds rows (some c) = c.rows ≡ rows

load-Holds :
    (ttl now : ℕ) (rows : Overrides) (cache : Option Cache)
    → Holds rows cache
    → ((load_effective_configs ttl false now (some rows) cache).0 ≡ rows)
      × Holds rows (load_effective_configs ttl false now (some rows) cache).1
unfolding load_effective_configs
load-Holds ttl now rows none h = (refl, refl)
load-Holds ttl now rows (some c) h = elim (Bool-cases (is_fresh ttl now (some c))) [
  | inl e ↦ rw e (h, h)
  | inr e ↦ rw e (refl, refl)
]

on_of_enabled :
    (base : Fields) (row : Option Override) (d : Fields)
    → merge_definition (some base) row ≡ merged (some d)
    → is_enabled d ≡ true
    → SwitchedOn base row
unfolding merge_definition is_enabled
on_of_enabled base none d h e = subst (λ x. is_enabled x ≡ true) (same h) e
  where
    same : merged (some base) ≡ merged (some d) → d ≡ base
    same k = cc
on_of_enabled base (some o) d h e = switch o.enabled (merge_definition-enabled (some base) o d h)
  where
    switch : (b : Bool) → get_field d "enabled" ≡ some (bool b) → b ≡ true
    switch b k = sym (rw k refl) ∙ e

module _ (registry : Registry) (ids : List String) (rows : Overrides) where
  with_definition-AllFromRow :
      (id : String) (base : Fields) (found : Merged) (rest : Option (List Fields))
      (ds : List Fields)
      → Listed registry ids (id, base)
      → merge_definition (some base) (get rows id) ≡ found
      → ((es : List Fields) → rest ≡ some es → AllFromRow registry ids rows es)
      → with_definition found rest ≡ some ds
      → AllFromRow registry ids rows ds
  with_definition-AllFromRow id base crashed rest ds l m ih h = cc
  with_definition-AllFromRow id base (merged none) rest ds l m ih h = ih ds h
  with_definition-AllFromRow id base (merged (some d)) none ds l m ih h = cc
  with_definition-AllFromRow id base (merged (some d)) (some es) ds l m ih h =
      subst (AllFromRow registry ids rows) (some-injective _ _ h)
        (elim (Bool-cases (is_enabled d)) [
          | inl e ↦ rw e ((id, base, l, m, on_of_enabled base (get rows id) d m e), ih es refl)
          | inr e ↦ rw e (ih es refl)
        ])

  resolve-AllFromRow :
      (ttl k : ℕ) (reads : Reads) (cache : Option Cache) (agents : List (String × Fields))
      (ds : List Fields)
      → ((j : ℕ) → (reads j).1 ≡ some rows)
      → Holds rows cache
      → AllListed registry ids agents
      → resolve ttl k reads cache agents ≡ some ds
      → AllFromRow registry ids rows ds
  unfolding resolve effective_definition AllListed
  resolve-AllFromRow ttl k reads cache [] ds up holds listed h =
      subst (AllFromRow registry ids rows) (some-injective _ _ h) tt
  resolve-AllFromRow ttl k reads cache ((id, base) ∷ agents) ds up holds (l, listed) h =
      let loaded = load_effective_configs ttl false (reads k).0 (reads k).1 cache in
      let (same, holds') =
        subst
          (λ table.
            ((load_effective_configs ttl false (reads k).0 table cache).0 ≡ rows)
            × Holds rows (load_effective_configs ttl false (reads k).0 table cache).1)
          (sym (up k)) (load-Holds ttl (reads k).0 rows cache holds) in
      with_definition-AllFromRow id base (merge_definition (some base) (get loaded.0 id))
        (resolve ttl (suc k) reads loaded.1 agents) ds l
        (ap (λ t. merge_definition (some base) (get t id)) (sym same))
        (λ es e. resolve-AllFromRow ttl (suc k) reads loaded.1 agents es up holds' listed e) h

-- The switch of the table has effect: where the database answers with the same rows throughout,
-- and the cache is empty or holds those rows, each definition that a stage is given is that of an
-- agent of the stage in the registry, merged with the agent's row, and the row's column is on, or
-- without a row the file's `enabled`.
pub resolve_stage_agents-AllFromRow :
    (ttl : ℕ) (reads : Reads) (cache : Option Cache) (registry : Registry) (stage : String)
    (rows : Overrides) (ds : List Fields)
    → ((k : ℕ) → (reads k).1 ≡ some rows)
    → Holds rows cache
    → resolve_stage_agents ttl reads cache registry stage ≡ some ds
    → AllFromRow registry (get_or stage_agents stage []) rows ds
unfolding resolve_stage_agents agents_for_stage
resolve_stage_agents-AllFromRow ttl reads cache registry stage rows ds up holds h =
    resolve-AllFromRow registry (get_or stage_agents stage []) rows ttl 0 reads cache
      (agents_for_stage registry stage) ds up holds
      (enabled_agents-AllListed registry (get_or stage_agents stage [])
        (get_or stage_agents stage []) (λ id e. e))
      h
