-- ===== src/Api/Mcp.antt =====
-- backend/app/api/v1/mcp.py: the servers of the Model Context Protocol and their authorization.
-- `strip` is Python's `str.strip`.
pub mod Callback
pub mod Links
pub mod Discovery
use software_factory_ai.Common.{
  ℕ, Bool, true, false, not, ◌&&◌, ◌||◌, Option, none, some, List, [], ◌∷◌, ◌++◌, String,
  if◌then◌else◌, ◌==◌, string_eq,
}
use software_factory_ai.Common.Dict.{Dict}
use software_factory_ai.Common.Lists.{length}
use software_factory_ai.Common.Rows.{find_row, update_row}
use software_factory_ai.Common.Text.{take_chars}
use software_factory_ai.Json.{
  Json, null, bool, number, text, arr, obj, Fields, end, field, get_field, put_field, is_in,
  is_true,
}
use software_factory_ai.Json.Values.{elements, filled_or, is_filled}
use software_factory_ai.Database.{Draw, User}
use software_factory_ai.Database.Settings.{AgentDefinition, McpServer, ConfigChange, Settings}
use software_factory_ai.Mcp.{Outcome, done, oauth_error, crashed, Outside}
use software_factory_ai.Mcp.Authorization.{
  prepare_authorization, clear_authorization, ensure_fresh_token,
}
use software_factory_ai.Api.Auth.{
  Response, ok, http_error, ◌>>=◌, ◌>>◌, require, found, require_role,
}
use software_factory_ai.Api.Agents.{Saved, record_change, replaced}

-- MAX_ERROR_CHARS
abbrev pub max_error_chars : ℕ
max_error_chars = 2000

-- server_name in (configuration.get("mcp_servers") or [])
abbrev pub member_or_crash : Option Bool → Response Bool
member_or_crash none = http_error 500
member_or_crash (some b) = ok b

abbrev pub declares : String → Option Json → Response Bool
declares name none = ok false
declares name (some v) = if is_true v then member_or_crash (is_in name v) else ok false

-- _agents_using, without its order
unfoldable pub agents_using : (server_name : String) → List AgentDefinition → Response (List String)
unfolding is_in get_field
agents_using name [] = ok []
agents_using name (a ∷ agents) = do
  used ← declares name (get_field a.configuration "mcp_servers")
  rest ← agents_using name agents
  ok (if used then a.id ∷ rest else rest)

abbrev pub or_empty : Option String → String
or_empty t = filled_or t ""

-- _validate_transport_fields
unfoldable pub validate_transport_fields :
    (strip : String → String)
    → (transport : String) → (command url : Option String) → Response (Unit {0})
validate_transport_fields strip transport command url = do
  require (not ((transport == "stdio") && (strip (or_empty command) == ""))) 422
  require (not ((transport == "http") && (strip (or_empty url) == ""))) 422
  ok tt

-- McpServerCreate
pub record McpServerCreate : Type 0 where
  pub name : String
  pub description : Option String
  pub transport : String
  pub command : Option String
  pub args : List String
  pub env : Dict String String
  pub url : Option String
  pub headers : Dict String String
  pub timeout_seconds : ℕ
  pub enabled : Bool

abbrev pub new_server : Draw → McpServerCreate → McpServer
new_server w b = record {
  id = w.id;
  name = b.name;
  description = b.description;
  transport = b.transport;
  command = b.command;
  args = b.args;
  env = b.env;
  url = b.url;
  headers = b.headers;
  timeout_seconds = b.timeout_seconds;
  enabled = b.enabled;
  tools = [];
  last_status = none;
  last_error = none;
  last_checked_at = none;
  oauth_metadata = end;
  oauth_client_id = none;
  oauth_client_secret = none;
  oauth_scope = none;
  oauth_resource = none;
  oauth_access_token = none;
  oauth_refresh_token = none;
  oauth_expires_at = none;
  oauth_state = none;
  oauth_code_verifier = none;
}

abbrev pub is_none {ℓ} : {A : Type ℓ} → Option A → Bool
is_none none = true
is_none (some a) = false

unfoldable pub create_server :
    (strip : String → String)
    → (ℕ → Draw)
    → User
    → McpServerCreate
    → Settings
    → Response (Saved McpServer)
unfolding require_role validate_transport_fields find_row record_change
create_server strip w caller body s = do
  user ← require_role "ADMIN" caller
  validate_transport_fields strip body.transport body.command body.url
  require (is_none (find_row (λ x. x.name) s.servers body.name)) 409
  let server = new_server (w 0) body
  ok (record {
    settings =
        record_change (w 1) user.username "mcp_server" server.id none
          (some (
            field "name" (text server.name)
              (field "transport" (text server.transport) (field "created" (bool true) end))))
          (record s { servers = s.servers ++ server ∷ [] });
    row = server;
  })

-- McpServerUpdate
pub record McpServerUpdate : Type 0 where
  pub description : Option String
  pub transport : Option String
  pub command : Option String
  pub args : Option (List String)
  pub env : Option (Dict String String)
  pub headers : Option (Dict String String)
  pub url : Option String
  pub timeout_seconds : Option ℕ
  pub enabled : Option Bool

abbrev pub replaced_some {ℓ} : {A : Type ℓ} → Option A → Option A → Option A
replaced_some none old = old
replaced_some (some a) old = some a

unfoldable pub apply_update : McpServerUpdate → McpServer → McpServer
apply_update b server = record server {
  description = replaced_some b.description server.description;
  command = replaced_some b.command server.command;
  url = replaced_some b.url server.url;
  args = replaced b.args server.args;
  headers = replaced b.headers server.headers;
  timeout_seconds = replaced b.timeout_seconds server.timeout_seconds;
  transport = replaced b.transport server.transport;
  env = replaced b.env server.env;
  enabled = replaced b.enabled server.enabled;
}

-- The row is written back, with a change of the configuration.
unfoldable pub write_server : McpServer → Settings → Settings
unfolding update_row
write_server server s = record s {
  servers = update_row (λ x. x.id) server.id (λ _. server) s.servers;
}

unfoldable pub save_server :
    Draw → (actor_id : String) → (before after : Option Fields) → McpServer → Settings → Settings
unfolding record_change write_server
save_server w actor_id before after server s =
    record_change w actor_id "mcp_server" server.id before after (write_server server s)

abbrev pub transport_state : McpServer → Fields
transport_state server =
    field "enabled" (bool server.enabled) (field "transport" (text server.transport) end)

unfoldable pub update_server :
    (strip : String → String)
    → Draw
    → User
    → (server_id : String) → McpServerUpdate
    → Settings
    → Response (Saved McpServer)
unfolding require_role find_row apply_update validate_transport_fields save_server
update_server strip w caller server_id body s = do
  user ← require_role "ADMIN" caller
  server ← found (find_row (λ x. x.id) s.servers server_id)
  let server' = apply_update body server
  validate_transport_fields strip server'.transport server'.command server'.url
  ok (record {
    settings =
        save_server w user.username (some (transport_state server)) (some (transport_state server'))
          server' s;
    row = server';
  })

abbrev pub is_empty {ℓ} : {A : Type ℓ} → List A → Bool
is_empty [] = true
is_empty (a ∷ as') = false

-- DELETE FROM mcp_servers WHERE id = server_id
unfoldable pub remove_row : List McpServer → String → List McpServer
remove_row [] id = []
remove_row (x ∷ servers) id =
    let rest = remove_row servers id in if x.id == id then rest else x ∷ rest

unfoldable pub delete_server : Draw → User → (server_id : String) → Settings → Response Settings
unfolding require_role find_row agents_using record_change remove_row
delete_server w caller server_id s = do
  user ← require_role "ADMIN" caller
  server ← found (find_row (λ x. x.id) s.servers server_id)
  in_use ← agents_using server.name s.agents
  require (is_empty in_use) 409
  let s' =
      record_change w user.username "mcp_server" server.id
        (some (field "name" (text server.name) end)) (some (field "deleted" (bool true) end)) s
  ok (record s' { servers = remove_row s.servers server.id })
