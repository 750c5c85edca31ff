-- ===== src/Tests/Mcp.antt =====
-- A server whose authorization is under way, and libraries that answer with fixed values.
use software_factory_ai.Common.{
  ◌≡◌, refl, true, Option, none, some, [], ◌∷◌, String, string_eq, ◌==◌, if◌then◌else◌,
}
use software_factory_ai.Json.{Json, number, text, obj, Fields, end, field, get_field}
use software_factory_ai.Database.{Draw, User}
use software_factory_ai.Common.Rows.{find_row}
use software_factory_ai.Json.{item, nil, arr, bool}
use software_factory_ai.Api.Agents.{validate_mcp_servers, record_change}
use software_factory_ai.Api.Mcp.{delete_server}
use software_factory_ai.Api.Mcp.Links.Deletion.{
  AllLinked, Linked, UniqueIds, delete_server-AllLinked,
}
use software_factory_ai.Database.Settings.{AgentDefinition}
use software_factory_ai.Database.Settings.{McpServer, Settings}
use software_factory_ai.Mcp.{done, Outside, replied, later}
use software_factory_ai.Mcp.Authorization.{
  prepare_authorization, complete_authorization, ensure_fresh_token, token_endpoint_of,
}
use software_factory_ai.Mcp.Laws.{Renewed, refreshed, ensure_fresh_token-Renewed}
use software_factory_ai.Mcp.Flow.Start.{complete_authorization-prepare_authorization, exchanged}
use software_factory_ai.Mcp.Client.{Python}
use software_factory_ai.Api.Auth.{ok}
use software_factory_ai.Api.Mcp.{save_server}
use software_factory_ai.Api.Mcp.Discovery.{oauth_change}
use software_factory_ai.Api.Mcp.Callback.{oauth_callback, expired}
use software_factory_ai.Api.Mcp.Callback.Laws.{oauth_callback-once}

abbrev asm : Fields
asm =
    field "authorization_endpoint" (text "https://auth/authorize")
      (field "token_endpoint" (text "https://auth/token") end)

abbrev granted : Fields
granted =
    field "access_token" (text "token-2")
      (field "expires_in" (number "3600") (field "scope" (text "read") end))

-- Every POST of a form is answered with new tokens.
abbrev outside : Outside
outside = record {
  urlparse = λ url. record { scheme = "https"; netloc = "mcp"; path = ""; query = "" };
  urlencode = λ params. "params";
  get_url = λ k url. replied 404 none "";
  post_json = λ url payload. replied 404 none "";
  post_form = λ url form. replied 200 (some (obj granted)) "";
  repr = λ v. "value";
  decimal = λ n. "n";
  int_of = λ v. some (later 3600);
  pkce = ("verifier", "challenge");
  state = "state-1";
  redirect_uri = "http://localhost/callback";
  now = 1000;
}

abbrev server : McpServer
server = record {
  id = "m1";
  name = "aws";
  description = none;
  transport = "http";
  command = none;
  args = [];
  env = [];
  url = some "https://mcp";
  headers = [];
  timeout_seconds = 30;
  enabled = true;
  tools = [];
  last_status = none;
  last_error = none;
  last_checked_at = none;
  oauth_metadata = field "authorization_server" (obj asm) end;
  oauth_client_id = some "client";
  oauth_client_secret = none;
  oauth_scope = some "read";
  oauth_resource = some "https://mcp";
  oauth_access_token = some "token-1";
  oauth_refresh_token = some "refresh-1";
  oauth_expires_at = some 1030;
  oauth_state = some "state-1";
  oauth_code_verifier = some "verifier";
}

abbrev settings : Settings
settings = record { agents = []; servers = server ∷ []; changes = [] }

abbrev draw : Draw
draw = record { id = "d1"; now = 1000 }

-- The server with the new tokens; the old refresh token stays.
abbrev renewed_server : McpServer
renewed_server = record server { oauth_access_token = some "token-2"; oauth_expires_at = some 4600 }

abbrev authorized_server : McpServer
authorized_server = record renewed_server { oauth_state = none; oauth_code_verifier = none }

abbrev new_token : Option String
new_token = some "token-2"

ensure_fresh_token-Renewed_example :
    Renewed (refreshed outside "https://auth/token" server) server renewed_server new_token
unfolding ensure_fresh_token
ensure_fresh_token-Renewed_example =
    ensure_fresh_token-Renewed outside server renewed_server new_token (text "https://auth/token")
      "https://auth/token" refl refl refl refl refl refl refl refl

abbrev after : Settings
after =
    save_server draw "oauth-callback" none (oauth_change "authorized") authorized_server settings

oauth_callback-once_example :
    oauth_callback outside draw (some "state-1") (some "code-2") none after ≡ ok (after, expired)
unfolding oauth_callback
oauth_callback-once_example =
    oauth_callback-once outside outside draw draw "state-1" "code-1" "code-2" none settings after
      "aws" refl refl

abbrev prepared : McpServer
prepared = record server { oauth_state = some "state-1"; oauth_code_verifier = some "verifier" }

complete_authorization-prepare_authorization_example :
    (v : Json) × (token_endpoint_of prepared ≡ done (some v))
    × (complete_authorization outside "code-1" prepared
        ≡ exchanged outside "code-1" "verifier" v prepared)
unfolding prepare_authorization
complete_authorization-prepare_authorization_example =
    complete_authorization-prepare_authorization outside outside none "code-1" server prepared
      "https://auth/authorize?params" refl refl

-- A text is JSON only if it is the response with the id 1.
abbrev python : Python
python = record {
  strip = λ t. t;
  lower = λ t. t;
  lines = λ t. t ∷ [];
  loads = λ t. if t == "response" then some (obj (field "id" (number "1") end)) else none;
  str = λ v. "value";
  decimal = λ n. "1";
  pairs = λ t. [];
  sorted = λ tools. some tools;
}

-- An administrator, and a server that no agent uses.
abbrev admin : User
admin = record {
  id = "u1";
  username = "root";
  password_hash = "hash";
  role = "ADMIN";
  enabled = true;
  refresh_token_hash = none;
}

abbrev unlinked : AgentDefinition
unlinked = record {
  id = "qa";
  name = "QA";
  version = "1.0.0";
  domain = "validation";
  configuration = field "mcp_servers" (arr (item (text "docs") nil)) end;
  default_configuration = end;
  stages = [];
  enabled = true;
}

abbrev linked_settings : Settings
linked_settings = record {
  agents = unlinked ∷ [];
  servers = server ∷ record server { id = "m2"; name = "docs" } ∷ [];
  changes = [];
}

abbrev deleted : Settings
deleted = record linked_settings {
  servers = record server { id = "m2"; name = "docs" } ∷ [];
  changes =
      record {
        id = "d1";
        actor_id = "root";
        entity_type = "mcp_server";
        entity_id = "m1";
        before_state = some (field "name" (text "aws") end);
        after_state = some (field "deleted" (bool true) end);
        created_at = 1000;
      }
      ∷ [];
}

delete_server-AllLinked_example : AllLinked deleted deleted.agents
unfolding AllLinked Linked UniqueIds delete_server get_field validate_mcp_servers find_row
    record_change
delete_server-AllLinked_example =
    delete_server-AllLinked draw admin "m1" linked_settings deleted (refl, (refl, tt)) (refl, tt)
      refl
