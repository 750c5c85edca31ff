-- ===== src/Agents/Sync.antt =====
-- orchestrator/main.py, sync_agents, and orchestrator/db.py, sync_agent_definitions: the files'
-- definitions as rows of `agent_definitions`.
pub mod Laws
use mathlib.Core.Option.{some-injective}
use software_factory_ai.Common.{
  ◌≡◌, ◌≢◌, refl, sym, ap, subst, ◌∙◌, true, false, Option, none, some, List, [], ◌∷◌, ◌++◌, String,
  if◌then◌else◌, ◌==◌, string_eq, contains, Bool-cases, Option-cases, inl, inr, ==_refl,
}
use software_factory_ai.Common.Options.{◌>>=◌}
use software_factory_ai.Common.Dict.{Dict}
use software_factory_ai.Common.Rows.{find_row, update_row, find_row-update_row, find_row-append}
use software_factory_ai.Json.{Json, text, Fields, get_field, is_some}
use software_factory_ai.Database.Settings.{AgentDefinition, Settings}
use software_factory_ai.Agents.{Registry}
use software_factory_ai.Agents.Routing.{stage_agents}

-- What sync_agents hands over for one definition.
pub record Source : Type 0 where
  pub id : String
  pub name : String
  pub version : String
  pub domain : String
  pub configuration : Fields
  pub stages : List String

-- stages_by_agent.get(id, [])
unfoldable pub stages_of : Dict String (List String) → String → List String
unfolding contains
stages_of [] id = []
stages_of ((stage, ids) ∷ stages) id =
    let rest = stages_of stages id in if contains ids id then stage ∷ rest else rest

-- A column of a text: none where the value is no text, which the driver refuses.
abbrev pub text_column : Option Json → Option String
text_column (some (text t)) = some t
text_column _ = none

abbrev pub text_or : String → Option Json → Option String
text_or t none = some t
text_or t (some v) = text_column (some v)

unfoldable pub source_of : String → Fields → Option Source
unfolding get_field stages_of
source_of id d = do
  name ← text_column (get_field d "name")
  version ← text_or "1.0.0" (get_field d "version")
  domain ← text_column (get_field d "domain")
  some (record {
    id = id;
    name = name;
    version = version;
    domain = domain;
    configuration = d;
    stages = stages_of stage_agents id;
  })

unfoldable pub sources_of : Registry → Option (List Source)
unfolding source_of
sources_of [] = some []
sources_of ((id, d) ∷ registry) = do
  source ← source_of id d
  sources ← sources_of registry
  some (source ∷ sources)

abbrev pub refreshed : Source → AgentDefinition → AgentDefinition
refreshed d a = record a {
  name = d.name;
  version = d.version;
  domain = d.domain;
  default_configuration = d.configuration;
  stages = d.stages;
}

abbrev pub inserted : Source → AgentDefinition
inserted d = record {
  id = d.id;
  name = d.name;
  version = d.version;
  domain = d.domain;
  configuration = d.configuration;
  default_configuration = d.configuration;
  stages = d.stages;
  enabled = true;
}

unfoldable pub publish :
    (existing : List String) → Source → List AgentDefinition → List AgentDefinition
unfolding contains update_row
publish existing d agents =
    if contains existing d.id
    then update_row (λ a. a.id) d.id (refreshed d) agents
    else agents ++ inserted d ∷ []

unfoldable pub publish_all :
    (existing : List String) → List Source → List AgentDefinition → List AgentDefinition
unfolding publish
publish_all existing [] agents = agents
publish_all existing (d ∷ ds) agents = publish_all existing ds (publish existing d agents)

unfoldable pub ids_of : List AgentDefinition → List String
ids_of [] = []
ids_of (a ∷ agents) = a.id ∷ ids_of agents

-- sync_agent_definitions
unfoldable pub sync_agent_definitions : List Source → Settings → Settings
unfolding publish_all ids_of
sync_agent_definitions ds s = record s { agents = publish_all (ids_of s.agents) ds s.agents }

abbrev pub find_agent : List AgentDefinition → String → Option AgentDefinition
find_agent agents id = find_row (λ a. a.id) agents id
