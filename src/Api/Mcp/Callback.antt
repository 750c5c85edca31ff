-- ===== src/Api/Mcp/Callback.antt =====
-- backend/app/api/v1/mcp.py, oauth_callback: the redirect of the provider ends an authorization.
pub mod Laws
use software_factory_ai.Common.{
  ℕ, Bool, true, false, not, ◌&&◌, ◌||◌, Option, none, some, List, [], ◌∷◌, String, if◌then◌else◌,
  ◌==◌, string_eq,
}
use software_factory_ai.Common.Text.{take_chars}
use software_factory_ai.Json.Values.{is_filled, filled_or}
use software_factory_ai.Database.{Draw}
use software_factory_ai.Database.Settings.{McpServer, Settings}
use software_factory_ai.Mcp.{Outcome, done, oauth_error, crashed, Outside}
use software_factory_ai.Mcp.Authorization.{complete_authorization}
use software_factory_ai.Api.Auth.{Response, ok, http_error}
use software_factory_ai.Api.Mcp.{save_server, write_server}
use software_factory_ai.Api.Mcp.Discovery.{with_error, oauth_change}

-- The page that the browser shows: the last one with status 200, the others with 400.
pub data Page : Type 0 where
  denied : (error : String) → Page
  invalid_request : Page
  expired : Page
  failed : (message : String) → Page
  authorized : (server_name : String) → Page

-- server.oauth_state == state, in the database: a null is equal to nothing.
abbrev pub has_state : String → Option String → Bool
has_state state none = false
has_state state (some t) = t == state

-- SELECT … WHERE oauth_state = state
unfoldable pub pending : List McpServer → (state : String) → List McpServer
pending [] state = []
pending (x ∷ servers) state =
    let rest = pending servers state in if has_state state x.oauth_state then x ∷ rest else rest

-- The end of an authorization, by the outcome of the exchange. The change is recorded in the name
-- of the callback.
unfoldable pub after_exchange :
    Draw → McpServer → Outcome McpServer → Settings → Response (Settings × Page)
unfolding write_server save_server take_chars
after_exchange w server (done server₁) s =
    let server' = record server₁ { last_error = none } in
    ok (
      save_server w "oauth-callback" none (oauth_change "authorized") server' s,
      authorized server'.name,
    )
after_exchange w server (oauth_error e) s =
    ok (write_server (with_error "AUTH_REQUIRED" e server) s, failed e)
after_exchange w server crashed s = http_error 500

-- scalar_one_or_none: more than one row is an error of the library.
unfoldable pub with_pending :
    Outside → Draw → (code : String) → List McpServer → Settings → Response (Settings × Page)
unfolding complete_authorization after_exchange
with_pending o w code [] s = ok (s, expired)
with_pending o w code (server ∷ []) s =
    after_exchange w server (complete_authorization o code server) s
with_pending o w code (server ∷ other ∷ servers) s = http_error 500

unfoldable pub oauth_callback :
    Outside → Draw → (state code error : Option String) → Settings → Response (Settings × Page)
unfolding pending with_pending
oauth_callback o w state code error s =
    if is_filled error
    then ok (s, denied (filled_or error ""))
    else if not (is_filled state) || not (is_filled code)
    then ok (s, invalid_request)
    else with_pending o w (filled_or code "") (pending s.servers (filled_or state "")) s
