-- ===== src/Api/Agents/DryRun.antt =====
-- backend/app/api/v1/agents.py: what the API shows of an agent, and its dry run.
use software_factory_ai.Common.{
  Bool, true, false, not, Option, none, some, List, [], String, if◌then◌else◌, ◌==◌, string_eq,
}
use software_factory_ai.Common.Lists.{any, select}
use software_factory_ai.Common.Rows.{find_row}
use software_factory_ai.Json.{
  Json, text, arr, obj, Fields, end, get_field, has_field, is_true, same, nil,
}
use software_factory_ai.Json.Values.{elements}
use software_factory_ai.Database.{User}
use software_factory_ai.Database.Settings.{AgentDefinition, Settings}
use software_factory_ai.Api.Auth.{
  Response, ok, http_error, ◌>>=◌, ◌>>◌, require, found, require_role,
}
use software_factory_ai.Api.Agents.{is_unhashable}

-- AgentOut
pub record AgentOut : Type 0 where
  pub agent : AgentDefinition
  pub customized : Bool

-- _to_out
unfoldable pub agent_out : AgentDefinition → AgentOut
unfolding same
agent_out a = record {
  agent = a;
  customized = not (same (obj a.configuration) (obj a.default_configuration));
}

-- A key of the configuration that must be a dict: 500 where it has no `get`.
abbrev pub dict_or_empty : Option Json → Response Fields
dict_or_empty none = ok end
dict_or_empty (some (obj d)) = ok d
dict_or_empty (some _) = http_error 500

abbrev pub all_elements : Option (List Json) → Response (List Json)
all_elements none = http_error 500
all_elements (some vs) = ok vs

abbrev pub elements_or_none : Option Json → Response (List Json)
elements_or_none none = ok []
elements_or_none (some v) = all_elements (elements v)

-- key not in input: a key that is no text is in no dict of a JSON body.
abbrev pub lacks : Fields → Json → Bool
lacks d (text t) = not (has_field d t)
lacks d _ = true

abbrev pub missing_inputs : Fields → List Json → Response (List Json)
missing_inputs input vs =
    if any is_unhashable vs then http_error 500 else ok (select (lacks input) vs)

abbrev pub prompt_text : Option Json → Response String
prompt_text none = ok ""
prompt_text (some (text t)) = ok t
prompt_text (some v) = if is_true v then http_error 500 else ok ""

-- The answer of a dry run.
pub record DryRun : Type 0 where
  pub agent_id : String
  pub valid : Bool
  pub missing_required_inputs : List Json
  pub model : Json
  pub allowed_tools : Json
  pub uses_custom_prompt : Bool

abbrev pub is_none_left : List Json → Bool
is_none_left [] = true
is_none_left _ = false

abbrev pub or_value : Option Json → Json → Json
or_value none w = w
or_value (some v) w = v

unfoldable pub test_agent :
    (strip : String → String)
    → User
    → (agent_id : String) → (input : Fields) → Settings
    → Response DryRun
unfolding require_role find_row get_field elements select any
test_agent strip caller agent_id input s = do
  user ← require_role "DEVELOPER" caller
  agent ← found (find_row (λ a. a.id) s.agents agent_id)
  require agent.enabled 409
  inputs ← dict_or_empty (get_field agent.configuration "inputs")
  required ← elements_or_none (get_field inputs "required")
  missing ← missing_inputs input required
  tools ← dict_or_empty (get_field agent.configuration "tools")
  prompt ← prompt_text (get_field agent.configuration "prompt_template")
  ok (record {
    agent_id = agent.id;
    valid = is_none_left missing;
    missing_required_inputs = missing;
    model = or_value (get_field agent.configuration "model") (obj end);
    allowed_tools = or_value (get_field tools "allowed") (arr nil);
    uses_custom_prompt = not (strip prompt == "");
  })
