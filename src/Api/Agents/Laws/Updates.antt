-- ===== src/Api/Agents/Laws/Updates.antt =====
-- The configurations of the table, under the edits of the API.
use mathlib.Core.Option.{some-injective}
use software_factory_ai.Common.{
  ◌≡◌, refl, if◌then◌else◌, subst, some, List, [], ◌∷◌, String, ◌==◌, string_eq, Bool-cases, inl,
  inr,
}
use software_factory_ai.Common.Rows.{find_row, update_row, find_row-replace}
use software_factory_ai.Json.{obj, Fields, get_field, same}
use software_factory_ai.Database.{Draw, User}
use software_factory_ai.Database.Settings.{AgentDefinition, Settings}
use software_factory_ai.Api.Auth.{ok, require_role, found}
use software_factory_ai.Api.Transitions.{bind-inv, found-inv, ok-injective}
use software_factory_ai.Api.Agents.{
  Saved, AgentUpdate, validate_configuration, update_agent, stored, save_agent, record_change,
  check_servers, edited, with_prompt, replaced,
}
use software_factory_ai.Api.Agents.Laws.{Accepted}

-- Every agent of the table has a configuration that the API accepts.
unfoldable pub AllAccepted : List AgentDefinition → Type 0
AllAccepted [] = Unit
AllAccepted (a ∷ agents) = Accepted a.configuration × AllAccepted agents

AllAccepted-find_row :
    (agents : List AgentDefinition) (id : String) (a : AgentDefinition)
    → AllAccepted agents
    → find_row (λ b. b.id) agents id ≡ some a
    → Accepted a.configuration
unfolding find_row AllAccepted
AllAccepted-find_row [] id a h e = cc
AllAccepted-find_row (b ∷ agents) id a (here, rest) e = elim (Bool-cases (b.id == id)) [
  | inl t ↦
      let same : b ≡ a = some-injective _ _ (rw t at e) in
      subst (λ x. Accepted x.configuration) same here
  | inr t ↦ AllAccepted-find_row agents id a rest (rw t at e)
]

AllAccepted-update_row :
    (agents : List AgentDefinition) (id : String) (a : AgentDefinition)
    → AllAccepted agents
    → Accepted a.configuration
    → AllAccepted (update_row (λ b. b.id) id (λ _. a) agents)
unfolding update_row AllAccepted
AllAccepted-update_row [] id a h new = tt
AllAccepted-update_row (b ∷ agents) id a (here, rest) new = elim (Bool-cases (b.id == id)) [
  | inl t ↦ rw t (new, AllAccepted-update_row agents id a rest new)
  | inr t ↦ rw t (here, AllAccepted-update_row agents id a rest new)
]

stored-Accepted :
    (c : Fields) (a b : AgentDefinition)
    → Accepted a.configuration
    → stored c a ≡ ok b
    → Accepted b.configuration
stored-Accepted c a b h e = elim (Bool-cases (same (obj c) (obj a.configuration))) [
  | inl t ↦
      let kept : ok a ≡ ok b = rw t at e in
      subst (λ x. Accepted x.configuration) (ok-injective a b kept) h
  | inr t ↦
      let (u, passed, made) =
        bind-inv (validate_configuration c) (λ _. ok (record a { configuration = c })) b
          (rw t at e) in
      subst (λ x. Accepted x.configuration) (ok-injective (record a { configuration = c }) b made)
        passed
]

stored-id : (c : Fields) (a b : AgentDefinition) → stored c a ≡ ok b → b.id ≡ a.id
stored-id c a b e = elim (Bool-cases (same (obj c) (obj a.configuration))) [
  | inl t ↦
      let kept : ok a ≡ ok b = rw t at e in subst (λ x. x.id ≡ a.id) (ok-injective a b kept) refl
  | inr t ↦
      let (u, passed, made) =
        bind-inv (validate_configuration c) (λ _. ok (record a { configuration = c })) b
          (rw t at e) in
      subst (λ x. x.id ≡ a.id) (ok-injective (record a { configuration = c }) b made) refl
]

-- The agents after an edit: each has an accepted configuration, and the edited row stands under
-- its id, with the others as they were.
abbrev pub Edited : (agent_id : String) → Settings → Saved AgentDefinition → Type 0
Edited agent_id s r =
    AllAccepted r.settings.agents
    × ((j : String)
        → find_row (λ a. a.id) r.settings.agents j
          ≡ (if agent_id == j then some r.row else find_row (λ a. a.id) s.agents j))

-- Where every agent of the table has a configuration that the API accepts, an accepted edit of an
-- agent, whatever the body, leaves each with one, writes under the agent's id the row that it
-- returns, and changes no other row.
pub update_agent-Edited :
    (strip : String → String) (w : Draw) (caller : User) (agent_id : String) (body : AgentUpdate)
    (s : Settings) (r : Saved AgentDefinition)
    → AllAccepted s.agents
    → update_agent strip w caller agent_id body s ≡ ok r
    → Edited agent_id s r
unfolding update_agent save_agent record_change
update_agent-Edited strip w caller agent_id body s r h e =
    let (user, _, e1) = bind-inv (require_role "FACTORY_MANAGER" caller) _ r e in
    let (agent, f, e2) = bind-inv (found (find_row (λ a. a.id) s.agents agent_id)) _ r e1 in
    let (_, _, e3) =
      bind-inv (check_servers s (get_field (edited body agent.configuration) "mcp_servers")) _ r
        e2 in
    let (agent', st, e4) =
      bind-inv
        (stored (with_prompt strip body.prompt_template (edited body agent.configuration)) agent) _
        r e3 in
    let row = found-inv _ agent f in
    let new =
      stored-Accepted _ agent agent' (AllAccepted-find_row s.agents agent_id agent h row) st in
    let after = record agent' { enabled = replaced body.enabled agent'.enabled } in
    subst (Edited agent_id s) (ok-injective _ _ e4) (
      AllAccepted-update_row s.agents agent.id after h new,
      λ j.
          find_row-replace (λ a. a.id) s.agents agent_id j agent after row
            (stored-id _ agent agent' st),
    )
