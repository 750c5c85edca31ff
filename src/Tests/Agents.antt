-- ===== src/Tests/Agents.antt =====
-- A small definition of an agent, its row, and a registry of one agent.
use software_factory_ai.Common.{
  ◌≡◌, refl, true, false, none, some, [], ◌∷◌, String, string_eq, arith, ◌==◌, if◌then◌else◌,
}
use software_factory_ai.Common.Rows.{find_row}
use software_factory_ai.Json.{
  item, bool, text, arr, obj, nil, Fields, end, field, get_field, put_field,
}
use software_factory_ai.Database.{Draw, User}
use software_factory_ai.Database.Settings.{AgentDefinition, Settings}
use software_factory_ai.Agents.{Registry}
use software_factory_ai.Agents.Config.{
  Override, Overrides, merged, merge_definition, candidate, deep_merge,
}
use software_factory_ai.Agents.Merge.{Distinct, DistinctFields, at_path, deep_merge-at_path}
use software_factory_ai.Agents.Effective.{merge_definition-enabled}
use software_factory_ai.Agents.Routing.{Reads, stage_agents, resolve_stage_agents}
use software_factory_ai.Agents.Routing.Switch.{AllFromRow, resolve_stage_agents-AllFromRow}
use software_factory_ai.Common.Dict.{get_or}
use software_factory_ai.Agents.Sync.{Source, sync_agent_definitions, find_agent}
use software_factory_ai.Agents.Sync.Laws.{Unique, Kept, sync_agent_definitions-Kept}
use software_factory_ai.Api.Auth.{ok, role_level}
use software_factory_ai.Api.Agents.{
  Saved, AgentUpdate, save_agent, state_of, update_agent, reset_agent, validate_configuration,
}
use software_factory_ai.Api.Agents.Laws.{merge_definition-Accepted}
use software_factory_ai.Api.Agents.Laws.Updates.{AllAccepted, Edited, update_agent-Edited}
use software_factory_ai.Api.Agents.Reset.{reset_restores}

abbrev small : Fields
small = field "id" (text "engineering.backend") (
    field "name" (text "Backend") (
      field "version" (text "1.0.0") (
        field "domain" (text "engineering") (
          field "objective" (text "code") (
            field "inputs" (obj (field "required" (arr nil) end)) (
              field "outputs" (obj (field "schema" (text "AgentResult") end)) (
                field "tools" (obj (field "allowed" (arr nil) (field "denied" (arr nil) end))) (
                  field "model" (obj (field "name" (text "llama") end)) (
                    field "quality_gates" (arr nil)
                      (field "retry" (obj end) (field "escalation" (obj end) end)))))))))))

abbrev edited_row : Override
edited_row = record { enabled = false; configuration = small }

-- The model's name is edited in the database.
abbrev edited_model : Fields
edited_model = field "model" (obj (field "name" (text "qwen") end)) end

-- One key of the tools is edited.
abbrev edited_tools : Fields
edited_tools = field "tools" (obj (field "denied" (arr (item (text "git.push") nil)) end)) end

deep_merge-at_path_example :
    at_path ("model" ∷ "name" ∷ []) (obj (deep_merge small edited_model)) ≡ some (text "qwen")
unfolding at_path Distinct get_field
deep_merge-at_path_example =
    deep_merge-at_path ("model" ∷ "name" ∷ []) small edited_model (text "qwen")
      (refl, (refl, tt, tt), tt) refl refl

merge_definition-enabled_example :
    get_field (candidate (some small) edited_row) "enabled" ≡ some (bool false)
unfolding merge_definition
merge_definition-enabled_example =
    merge_definition-enabled (some small) edited_row (candidate (some small) edited_row) refl

small-Distinct : DistinctFields small
unfolding Distinct get_field
small-Distinct = (
  refl,
  tt,
  (
    refl,
    tt,
    (
      refl,
      tt,
      (
        refl,
        tt,
        (
          refl,
          tt,
          (
            refl,
            (refl, tt, tt),
            (
              refl,
              (refl, tt, tt),
              (
                refl,
                (refl, tt, (refl, tt, tt)),
                (refl, (refl, tt, tt), (refl, tt, (refl, tt, (refl, tt, tt)))),
              ),
            ),
          ),
        ),
      ),
    ),
  ),
)

small-Accepted : validate_configuration small ≡ ok tt
unfolding validate_configuration
small-Accepted = refl

merge_definition-Accepted_example :
    merge_definition (some small) (some edited_row)
    ≡ merged (some (candidate (some small) edited_row))
merge_definition-Accepted_example =
    merge_definition-Accepted (some small) edited_row small-Distinct small-Accepted

-- One agent in the table, and a factory manager.
abbrev row : AgentDefinition
row = record {
  id = "engineering.backend";
  name = "Backend";
  version = "1.0.0";
  domain = "engineering";
  configuration = small;
  default_configuration = small;
  stages = "development" ∷ [];
  enabled = true;
}

abbrev settings : Settings
settings = record { agents = row ∷ []; servers = []; changes = [] }

abbrev manager : User
manager = record {
  id = "u1";
  username = "ana";
  password_hash = "hash";
  role = "FACTORY_MANAGER";
  enabled = true;
  refresh_token_hash = none;
}

abbrev draw : Draw
draw = record { id = "d1"; now = 7 }

settings-AllAccepted : AllAccepted settings.agents
unfolding AllAccepted
settings-AllAccepted = (small-Accepted, tt)

-- A body that changes the objective and disables the agent.
abbrev body : AgentUpdate
body = record {
  enabled = some false;
  configuration = none;
  prompt_template = none;
  objective = some "review";
  responsibilities = none;
  model = none;
  tools = none;
  quality_gates = none;
  mcp_servers = none;
}

abbrev saved : Saved AgentDefinition
saved =
    save_agent draw manager row
      (record row { configuration = put_field small "objective" (text "review"); enabled = false })
      (state_of false (put_field small "objective" (text "review"))) settings

update_agent-Edited_example : Edited "engineering.backend" settings saved
unfolding update_agent
update_agent-Edited_example =
    update_agent-Edited (λ t. t) draw manager "engineering.backend" body settings saved
      settings-AllAccepted refl

abbrev file : Source
file = record {
  id = "engineering.backend";
  name = "Backend";
  version = "1.1.0";
  domain = "engineering";
  configuration = small;
  stages = "development" ∷ [];
}

sync_agent_definitions-Kept_example :
    (b : AgentDefinition) × (find_agent
        (sync_agent_definitions (file ∷ []) settings).agents
        "engineering.backend"
      ≡ some b)
    × Kept row b
unfolding find_row
sync_agent_definitions-Kept_example =
    sync_agent_definitions-Kept (file ∷ []) settings "engineering.backend" row refl

reset_restores_example :
    (r : Saved AgentDefinition) × (reset_agent draw manager "engineering.backend"
        (sync_agent_definitions (file ∷ []) settings)
      ≡ ok r)
    × (r.row.configuration ≡ small)
    × (r.row.enabled ≡ true)
    × ((j : String)
        → find_row (λ a. a.id) r.settings.agents j ≡ (
            if "engineering.backend" == j
            then some r.row
            else find_row (λ a. a.id) (sync_agent_definitions (file ∷ []) settings).agents j))
unfolding find_row Unique role_level
reset_restores_example =
    reset_restores draw manager (file ∷ []) settings "engineering.backend" file (refl, tt) refl refl
      (omega arith)

abbrev registry : Registry
registry = ("engineering.backend", small) ∷ []

-- The database answers with one row, in which the agent is enabled.
abbrev enabled_rows : Overrides
enabled_rows = ("engineering.backend", record { enabled = true; configuration = small }) ∷ []

abbrev reads : Reads
reads k = (k, some enabled_rows)

abbrev on_base : Fields
on_base = put_field small "enabled" (bool true)

resolve_stage_agents-AllFromRow_example :
    AllFromRow registry (get_or stage_agents "development" []) enabled_rows (on_base ∷ [])
unfolding resolve_stage_agents
resolve_stage_agents-AllFromRow_example =
    resolve_stage_agents-AllFromRow 10 reads none registry "development" enabled_rows (on_base ∷ [])
      (λ k. refl) tt refl
