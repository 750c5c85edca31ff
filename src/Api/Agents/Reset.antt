-- ===== src/Api/Agents/Reset.antt =====
-- The reset of an agent against the file that its default was published from.
use software_factory_ai.Common.{
  ◌≡◌, refl, true, some, List, String, ◌≤◌, sym, subst, false, if◌then◌else◌, ◌==◌, string_eq,
}
use software_factory_ai.Common.Rows.{find_row, find_row-replace}
use software_factory_ai.Json.{put_field, bool}
use software_factory_ai.Database.{Draw, User}
use software_factory_ai.Database.Settings.{AgentDefinition, Settings}
use software_factory_ai.Agents.Sync.{Source, sync_agent_definitions}
use software_factory_ai.Agents.Sync.Laws.{Unique, sync_agent_definitions-found}
use software_factory_ai.Api.Auth.{ok, role_level}
use software_factory_ai.Api.Roles.{require_role-ok, level_of_manager}
use software_factory_ai.Api.Agents.{
  Saved, reset_agent, save_agent, is_empty_dict, record_change, state_of,
}

-- A reset by a factory manager, after the start published definitions with different ids, writes
-- into the table a row of the agent with the configuration of its file, which is enabled, whatever
-- was edited before, where the file's definition is not empty. Under any other id the table finds
-- what it found.
pub reset_restores :
    (w : Draw) (caller : User) (ds : List Source) (s : Settings) (id : String) (d : Source)
    → Unique ds
    → find_row (λ x. x.id) ds id ≡ some d
    → is_empty_dict d.configuration ≡ false
    → 50 ≤ role_level caller.role
    → (r : Saved AgentDefinition) × (reset_agent w caller id (sync_agent_definitions ds s) ≡ ok r)
      × (r.row.configuration ≡ d.configuration)
      × (r.row.enabled ≡ true)
      × ((j : String)
          → find_row (λ a. a.id) r.settings.agents j ≡ (
              if id == j
              then some r.row
              else find_row (λ a. a.id) (sync_agent_definitions ds s).agents j))
unfolding reset_agent save_agent record_change
reset_restores w caller ds s id d u h full level =
    let (a, f, c) = sync_agent_definitions-found ds s id d u h in
    let filled : is_empty_dict a.default_configuration ≡ false =
      subst (λ x. is_empty_dict x ≡ false) (sym c) full in
    let after = record a { configuration = a.default_configuration; enabled = true } in
    let state = put_field (state_of true a.default_configuration) "reset" (bool true) in
    (
      save_agent w caller a after state (sync_agent_definitions ds s),
      rw ((require_role-ok "FACTORY_MANAGER" 50 caller level_of_manager).1 level, f, filled) refl,
      c,
      refl,
      λ j. find_row-replace (λ b. b.id) (sync_agent_definitions ds s).agents id j a after f refl,
    )
