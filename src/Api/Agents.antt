-- ===== src/Api/Agents.antt =====
-- backend/app/api/v1/agents.py: the configuration of the agents. `strip` is Python's `str.strip`.
pub mod Laws
pub mod Reset
pub mod DryRun
use software_factory_ai.Common.{
  ℕ, Bool, true, false, not, ◌&&◌, ◌||◌, Option, none, some, List, [], ◌∷◌, ◌++◌, String,
  if◌then◌else◌, ◌==◌, string_eq, contains,
}
use software_factory_ai.Common.Lists.{any, select}
use software_factory_ai.Common.Rows.{find_row, update_row}
use software_factory_ai.Json.{
  Json, null, bool, number, text, arr, obj, Fields, end, field, get_field, put_field, has_field,
  is_in, is_some, is_true, same, nil,
}
use software_factory_ai.Json.Values.{elements, text_list, remove_field, is_given, or_dict, texts}
use software_factory_ai.Database.{Draw, User}
use software_factory_ai.Database.Settings.{AgentDefinition, McpServer, ConfigChange, Settings}
use software_factory_ai.Agents.{required_fields, missing_of, or_null}
use software_factory_ai.Api.Auth.{
  Response, ok, http_error, ◌>>=◌, ◌>>◌, require, found, require_role,
}

-- The tables that are committed, and the row that is returned.
pub record Saved (A : Type 0) : Type 0 where
  pub settings : Settings
  pub row : A

-- record_audit, of the event `config.changed`
unfoldable pub record_change :
    Draw
    → (actor_id entity_type entity_id : String) → (before after : Option Fields) → Settings
    → Settings
record_change w actor_id entity_type entity_id before after s = record s {
  changes =
      s.changes
      ++ record {
        id = w.id;
        actor_id = actor_id;
        entity_type = entity_type;
        entity_id = entity_id;
        before_state = before;
        after_state = after;
        created_at = w.now;
      }
        ∷ [];
}

-- _validate_mcp_servers: the elements that are no known name. A dict or a list among them cannot
-- be hashed, and elements of different kinds cannot be sorted for the message: a TypeError, 500.
abbrev pub is_unhashable : Json → Bool
is_unhashable (arr _) = true
is_unhashable (obj _) = true
is_unhashable _ = false

abbrev pub is_null : Json → Bool
is_null null = true
is_null _ = false

abbrev pub is_numeric : Json → Bool
is_numeric (bool _) = true
is_numeric (number _) = true
is_numeric _ = false

abbrev pub is_unknown_text : List String → Json → Bool
is_unknown_text known (text t) = not (contains known t)
is_unknown_text known _ = false

abbrev pub unknown_answer : (nulls numbers texts : Bool) → Response (Unit {0})
unknown_answer false false false = ok tt
unknown_answer true false false = http_error 422
unknown_answer false true false = http_error 422
unknown_answer false false true = http_error 422
unknown_answer _ _ _ = http_error 500

abbrev pub elements_answer : List String → Option (List Json) → Response (Unit {0})
elements_answer known none = http_error 500
elements_answer known (some vs) =
    if any is_unhashable vs
    then http_error 500
    else unknown_answer (any is_null vs) (any is_numeric vs) (any (is_unknown_text known) vs)

unfoldable pub names_of : List McpServer → List String
names_of [] = []
names_of (s ∷ servers) = s.name ∷ names_of servers

unfoldable pub validate_mcp_servers : Settings → Json → Response (Unit {0})
unfolding elements any contains names_of
validate_mcp_servers s names = elements_answer (names_of s.servers) (elements names)

-- if key not in (configuration.get(part) or {}): raise
abbrev pub member_answer : Option Bool → Response (Unit {0})
member_answer none = http_error 500
member_answer (some true) = ok tt
member_answer (some false) = http_error 422

unfoldable pub require_member : (part key : String) → Fields → Response (Unit {0})
unfolding is_in get_field
require_member part key d = member_answer (is_in key (or_dict (get_field d part)))

abbrev pub no_missing : List String → Response (Unit {0})
no_missing [] = ok tt
no_missing (f ∷ fs) = http_error 422

-- _validate_configuration
unfoldable pub validate_configuration : Fields → Response (Unit {0})
unfolding missing_of require_member
validate_configuration d =
    no_missing (missing_of required_fields d)
    >> require_member "inputs" "required" d
    >> require_member "tools" "allowed" d
    >> require_member "tools" "denied" d
    >> require_member "outputs" "schema" d

-- AgentUpdate
pub record AgentUpdate : Type 0 where
  pub enabled : Option Bool
  pub configuration : Option Fields
  pub prompt_template : Option String
  pub objective : Option String
  pub responsibilities : Option (List String)
  pub model : Option Fields
  pub tools : Option Fields
  pub quality_gates : Option (List String)
  pub mcp_servers : Option (List String)

abbrev pub set_if {ℓ} : {A : Type ℓ} → String → (A → Json) → Option A → Fields → Fields
set_if key value none d = d
set_if key value (some a) d = put_field d key (value a)

abbrev pub replaced {ℓ} : {A : Type ℓ} → Option A → A → A
replaced none a = a
replaced (some b) a = b

-- The configuration after the edits of the body, before those of the prompt.
unfoldable pub edited : AgentUpdate → Fields → Fields
unfolding put_field
edited body current = set_if "mcp_servers" text_list body.mcp_servers (
    set_if "quality_gates" text_list body.quality_gates (
      set_if "tools" obj body.tools (
        set_if "model" obj body.model (
          set_if "responsibilities" text_list body.responsibilities
            (set_if "objective" text body.objective (replaced body.configuration current))))))

-- An empty prompt removes the one that is there.
unfoldable pub with_prompt : (strip : String → String) → Option String → Fields → Fields
unfolding put_field remove_field
with_prompt strip none d = d
with_prompt strip (some t) d =
    if strip t == ""
    then remove_field d "prompt_template"
    else put_field d "prompt_template" (text t)

-- {"enabled": …, "configuration": …}
abbrev pub state_of : Bool → Fields → Fields
state_of enabled configuration =
    field "enabled" (bool enabled) (field "configuration" (obj configuration) end)

-- if configuration.get("mcp_servers"): validate them
abbrev pub check_servers : Settings → Option Json → Response (Unit {0})
check_servers s none = ok tt
check_servers s (some v) = if is_true v then validate_mcp_servers s v else ok tt

-- A configuration that differs from the row's is validated, and stored.
abbrev pub stored : Fields → AgentDefinition → Response AgentDefinition
stored configuration agent =
    if same (obj configuration) (obj agent.configuration)
    then ok agent
    else validate_configuration configuration >> ok (record agent { configuration = configuration })

unfoldable pub save_agent :
    Draw → User → (agent after : AgentDefinition) → Fields → Settings → Saved AgentDefinition
unfolding record_change update_row
save_agent w user agent after state s = record {
  settings =
      record_change w user.username "agent_definition" agent.id
        (some (state_of agent.enabled agent.configuration)) (some state)
        (record s { agents = update_row (λ a. a.id) agent.id (λ _. after) s.agents });
  row = after;
}

unfoldable pub update_agent :
    (strip : String → String)
    → Draw
    → User
    → (agent_id : String) → AgentUpdate
    → Settings
    → Response (Saved AgentDefinition)
unfolding require_role find_row edited with_prompt validate_mcp_servers validate_configuration same
    save_agent
update_agent strip w caller agent_id body s = do
  user ← require_role "FACTORY_MANAGER" caller
  agent ← found (find_row (λ a. a.id) s.agents agent_id)
  let configuration = edited body agent.configuration
  check_servers s (get_field configuration "mcp_servers")
  agent' ← stored (with_prompt strip body.prompt_template configuration) agent
  let agent'' = record agent' { enabled = replaced body.enabled agent'.enabled }
  ok (save_agent w user agent agent'' (state_of agent''.enabled agent''.configuration) s)

abbrev pub is_empty_dict : Fields → Bool
is_empty_dict end = true
is_empty_dict _ = false

unfoldable pub reset_agent :
    Draw → User → (agent_id : String) → Settings → Response (Saved AgentDefinition)
unfolding require_role find_row save_agent
reset_agent w caller agent_id s = do
  user ← require_role "FACTORY_MANAGER" caller
  agent ← found (find_row (λ a. a.id) s.agents agent_id)
  require (not (is_empty_dict agent.default_configuration)) 409
  let agent' = record agent { configuration = agent.default_configuration; enabled = true }
  ok (
      save_agent w user agent agent'
        (put_field (state_of true agent.default_configuration) "reset" (bool true)) s)
