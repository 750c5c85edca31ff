-- ===== src/Api/Mcp/Discovery.antt =====
-- backend/app/api/v1/mcp.py: the discovery of a server's tools, and the start and reset of its
-- authorization.
use software_factory_ai.Common.{ℕ, Option, none, some, List, String, if◌then◌else◌, ◌==◌, string_eq}
use software_factory_ai.Common.Lists.{length}
use software_factory_ai.Common.Rows.{find_row}
use software_factory_ai.Common.Text.{take_chars}
use software_factory_ai.Json.{Json, number, text, Fields, end, field, get_field, put_field, is_true}
use software_factory_ai.Json.Values.{filled_or}
use software_factory_ai.Database.{Draw, User}
use software_factory_ai.Database.Settings.{McpServer, Settings}
use software_factory_ai.Mcp.{Outcome, done, oauth_error, crashed, Outside}
use software_factory_ai.Mcp.Authorization.{
  prepare_authorization, clear_authorization, ensure_fresh_token,
}
use software_factory_ai.Api.Auth.{Response, ok, http_error, ◌>>=◌, found, require_role}
use software_factory_ai.Api.Agents.{Saved}
use software_factory_ai.Api.Mcp.{max_error_chars, write_server, save_server}

-- What `discover_tools` of shared/mcp ends with.
pub data Discovery : Type 0 where
  discovered : List Fields → (server_version : Json) → Discovery
  authorization_required : (message : String) → (resource_metadata_url : Option String) → Discovery
  connection_error : (message : String) → Discovery
  other_error : (message : String) → Discovery

abbrev pub with_error : (status message : String) → McpServer → McpServer
with_error status message server = record server {
  last_status = some status;
  last_error = some (take_chars max_error_chars message);
}

abbrev pub with_hint : Option String → McpServer → McpServer
with_hint none server = server
with_hint (some url) server = if url == "" then server else record server {
  oauth_metadata = put_field server.oauth_metadata "resource_metadata_url" (text url);
}

-- The answer of a discovery, whose other branches record no change.
unfoldable pub after_discovery :
    Outside → Draw → User → McpServer → Discovery → Settings → Saved McpServer
unfolding take_chars put_field write_server save_server
after_discovery o w user server (discovered tools version) s =
    let server' = record server { tools = tools; last_status = some "OK"; last_error = none } in
    record {
      settings =
          save_server w user.username none
            (some (
              field "discovered_tools" (number (o.decimal (length tools)))
                (field "server_version" version end)))
            server' s;
      row = server';
    }
after_discovery o w user server (authorization_required message url) s =
    let server' = with_hint url (with_error "AUTH_REQUIRED" message server) in
    record { settings = write_server server' s; row = server' }
after_discovery o w user server (connection_error message) s =
    let server' = with_error "ERROR" message server in
    record { settings = write_server server' s; row = server' }
after_discovery o w user server (other_error message) s =
    let server' = with_error "ERROR" message server in
    record { settings = write_server server' s; row = server' }

-- An MCPOAuthError with the answer of a handler, any other exception with 500.
abbrev pub outcome_or {ℓ} : {A : Type ℓ} → ℕ → Outcome A → Response A
outcome_or code (done a) = ok a
outcome_or code (oauth_error e) = http_error code
outcome_or code crashed = http_error 500

-- discover_server_tools: `discover` is the connection with the server, and the token that is given
-- to it.
unfoldable pub discover_server_tools :
    Outside
    → (discover : McpServer → Option String → Discovery) → Draw
    → User
    → (server_id : String) → Settings
    → Response (Saved McpServer)
unfolding require_role find_row ensure_fresh_token after_discovery
discover_server_tools o discover w caller server_id s = do
  user ← require_role "ADMIN" caller
  server ← found (find_row (λ x. x.id) s.servers server_id)
  (server', access_token) ←
      outcome_or 500 (ensure_fresh_token o (record server { last_checked_at = some o.now }))
  ok (after_discovery o w user server' (discover server' access_token) s)

-- (oauth_metadata or {}).get("resource_metadata_url"), which the program writes as a text only;
-- another value would make the request of the URL fail.
abbrev pub hint_of : Option Json → Response (Option String)
hint_of none = ok none
hint_of (some (text t)) = ok (some t)
hint_of (some v) = if is_true v then http_error 500 else ok none

abbrev pub oauth_change : String → Option Fields
oauth_change state = some (field "oauth" (text state) end)

unfoldable pub start_oauth :
    Outside
    → Draw
    → User
    → (server_id : String) → Settings
    → Response (Settings × (String × String))
unfolding require_role find_row prepare_authorization save_server get_field
start_oauth o w caller server_id s = do
  user ← require_role "ADMIN" caller
  server ← found (find_row (λ x. x.id) s.servers server_id)
  hint ← hint_of (get_field server.oauth_metadata "resource_metadata_url")
  (server', url) ← outcome_or 422 (prepare_authorization o hint server)
  ok (
    save_server w user.username none (oauth_change "authorization_started") server' s,
    (url, o.redirect_uri),
  )

abbrev pub no_longer_ok : McpServer → McpServer
no_longer_ok server =
    if filled_or server.last_status "" == "OK"
    then record server { last_status = some "AUTH_REQUIRED" }
    else server

unfoldable pub reset_oauth :
    Draw → User → (server_id : String) → Settings → Response (Saved McpServer)
unfolding require_role find_row clear_authorization save_server
reset_oauth w caller server_id s = do
  user ← require_role "ADMIN" caller
  server ← found (find_row (λ x. x.id) s.servers server_id)
  let server' = no_longer_ok (clear_authorization server)
  ok (record {
    settings = save_server w user.username none (oauth_change "authorization_cleared") server' s;
    row = server';
  })
