-- ===== src/Mcp/Authorization.antt =====
-- backend/app/services/mcp_oauth.py: the state of a server's authorization. A function that
-- changes the server returns it with its result.
use software_factory_ai.Common.{
  ℕ, Bool, true, false, not, ◌&&◌, Option, none, some, String, if◌then◌else◌, ◌==◌, string_eq,
}
use software_factory_ai.Json.{Json, text, Fields, end, field, get_field, is_true}
use software_factory_ai.Json.Values.{is_given, is_filled, filled_or, or_dict}
use software_factory_ai.Database.Settings.{McpServer}
use software_factory_ai.Mcp.{Outcome, done, oauth_error, crashed, ◌>>=◌, ◌>>◌, require, Outside}
use software_factory_ai.Mcp.OAuth.{
  get_attr, select_authorization_server, canonical_resource, pick_scope, build_authorization_url,
  endpoint_of, text_or_crash,
}
use software_factory_ai.Mcp.OAuth.Fetch.{
  fetch_protected_resource_metadata, fetch_authorization_server_metadata, register_client,
}
use software_factory_ai.Mcp.Tokens.{
  Tokens, is_token_expired, exchange_code, refresh_access_token, true_column,
}

abbrev pub is_authorized : McpServer → Bool
is_authorized s = is_filled s.oauth_access_token

unfoldable pub needs_refresh : (now : ℕ) → McpServer → Bool
unfolding is_token_expired
needs_refresh now s =
    is_filled s.oauth_access_token
    && is_token_expired s.oauth_expires_at now
    && is_filled s.oauth_refresh_token

-- if tokens.get(key): column = tokens[key]
abbrev pub filled_else : Option String → Option String → Option String
filled_else new old = if is_filled new then new else old

-- _store_tokens
unfoldable pub store_tokens : Tokens → McpServer → McpServer
store_tokens t s = record s {
  oauth_access_token = some t.access_token;
  oauth_refresh_token = filled_else t.refresh_token s.oauth_refresh_token;
  oauth_expires_at = t.expires_at;
  oauth_scope = filled_else t.scope s.oauth_scope;
}

unfoldable pub clear_authorization : McpServer → McpServer
clear_authorization s = record s {
  oauth_access_token = none;
  oauth_refresh_token = none;
  oauth_expires_at = none;
  oauth_state = none;
  oauth_code_verifier = none;
}

-- The metadata of an authorization: of the resource, of its server, and the dict that is stored.
pub record Metadata : Type 0 where
  pub prm : Json
  pub asm : Json
  pub stored : Fields

-- asm.get("authorization_endpoint") and asm.get("token_endpoint")
unfoldable pub has_endpoints : Json → Outcome Bool
unfolding get_field
has_endpoints asm = do
  authorize ← get_attr asm "authorization_endpoint"
  token ← get_attr asm "token_endpoint"
  done (is_given authorize && is_given token)

abbrev pub new_metadata : (prm : Json) (issuer : String) (asm : Json) → Metadata
new_metadata prm issuer asm = record {
  prm = prm;
  asm = asm;
  stored =
      field "protected_resource" prm
        (field "authorization_server" asm (field "issuer" (text issuer) end));
}

unfoldable pub discover_metadata :
    Outside → (url : String) → (hint : Option String) → Outcome Metadata
unfolding fetch_protected_resource_metadata select_authorization_server
    fetch_authorization_server_metadata
discover_metadata o url hint = do
  prm ← fetch_protected_resource_metadata o url hint
  issuer ← select_authorization_server o prm
  asm ← fetch_authorization_server_metadata o 3 issuer
  done (new_metadata prm issuer asm)

abbrev pub found_or_discovered :
    Outside → (url : String) → (hint : Option String) → Metadata → Bool → Outcome Metadata
found_or_discovered o url hint m true = done m
found_or_discovered o url hint m false = discover_metadata o url hint

-- The metadata of the row, or that of a discovery. The discovery counts its requests from 0 for
-- the resource, which has three URLs at most, and from 3 for its server.
unfoldable pub metadata_of :
    Outside → (url : String) → (hint : Option String) → McpServer → Outcome Metadata
unfolding has_endpoints discover_metadata get_field
metadata_of o url hint s =
    let asm = or_dict (get_field s.oauth_metadata "authorization_server") in
    let prm = or_dict (get_field s.oauth_metadata "protected_resource") in
    has_endpoints asm
    >>= found_or_discovered o url hint (record { prm = prm; asm = asm; stored = s.oauth_metadata })

-- prm.get("resource") or canonical_resource(url)
abbrev pub value_or : Option Json → String → Outcome String
value_or none t = done t
value_or (some v) t = if is_true v then text_or_crash v else done t

unfoldable pub resource_of : Outside → (url : String) → (prm : Json) → Outcome String
unfolding get_field canonical_resource
resource_of o url prm = get_attr prm "resource" >>= λ v. value_or v (canonical_resource o url)

-- server.oauth_scope or pick_scope(asm, prm)
abbrev pub scope_of : Outside → McpServer → Metadata → Outcome String
scope_of o s m =
    if is_filled s.oauth_scope then done (filled_or s.oauth_scope "") else pick_scope o m.asm m.prm

-- The client_id and the client_secret.
abbrev pub Client : Type 0
Client = String × Option String

abbrev pub no_registration : String
no_registration =
    "O authorization server não suporta registro dinâmico de cliente e nenhum client_id foi configurado. Cadastre um client_id manualmente."

unfoldable pub register : Outside → (asm : Json) → (scope : String) → Outcome Client
unfolding register_client get_field
register o asm scope = do
  value ← get_attr asm "registration_endpoint"
  endpoint ← endpoint_of no_registration value
  registration ← register_client o endpoint o.redirect_uri scope
  id ← get_attr registration "client_id"
  client_id ← endpoint_of no_registration id
  secret ← get_attr registration "client_secret"
  client_secret ← true_column secret
  done (client_id, client_secret)

unfoldable pub client_of : Outside → (asm : Json) → (scope : String) → McpServer → Outcome Client
unfolding register
client_of o asm scope s =
    if is_filled s.oauth_client_id
    then done (filled_or s.oauth_client_id "", s.oauth_client_secret)
    else register o asm scope

-- The server with an authorization that is started.
abbrev pub started : Outside → Metadata → (resource scope : String) → Client → McpServer → McpServer
started o m resource scope client s = record s {
  oauth_client_id = some client.0;
  oauth_client_secret = client.1;
  oauth_metadata = m.stored;
  oauth_resource = some resource;
  oauth_scope = some scope;
  oauth_state = some o.state;
  oauth_code_verifier = some o.pkce.0;
}

unfoldable pub prepare_authorization :
    Outside → (resource_metadata_url : Option String) → McpServer → Outcome (McpServer × String)
unfolding metadata_of resource_of client_of build_authorization_url pick_scope
prepare_authorization o hint s = do
  require (s.transport == "http") "OAuth se aplica apenas a servidores MCP com transporte http"
  require (is_filled s.url) "Servidor sem URL configurada"
  let url = filled_or s.url ""
  m ← metadata_of o url hint s
  resource ← resource_of o url m.prm
  scope ← scope_of o s m
  client ← client_of o m.asm scope s
  consent ← build_authorization_url o m.asm (record {
    client_id = client.0;
    redirect_uri = o.redirect_uri;
    state = o.state;
    code_challenge = o.pkce.1;
    resource = resource;
    scope = scope;
  })
  done (started o m resource scope client s, consent)

abbrev pub resource_or_url : Outside → McpServer → String
resource_or_url o s = filled_or s.oauth_resource (canonical_resource o (filled_or s.url ""))

unfoldable pub token_endpoint_of : McpServer → Outcome (Option Json)
unfolding get_field
token_endpoint_of s =
    get_attr (or_dict (get_field s.oauth_metadata "authorization_server")) "token_endpoint"

unfoldable pub complete_authorization : Outside → (code : String) → McpServer → Outcome McpServer
unfolding token_endpoint_of exchange_code store_tokens canonical_resource
complete_authorization o code s = do
  value ← token_endpoint_of s
  token_endpoint ← endpoint_of "Metadata sem token_endpoint; refaça a autorização" value
  require (is_filled s.oauth_code_verifier && is_filled s.oauth_client_id)
      "Autorização não iniciada corretamente; refaça o fluxo"
  tokens ←
      exchange_code o token_endpoint code (filled_or s.oauth_code_verifier "")
        (filled_or s.oauth_client_id "") o.redirect_uri (resource_or_url o s) s.oauth_client_secret
  done (record (store_tokens tokens s) { oauth_state = none; oauth_code_verifier = none })

-- How a renewal ends: an MCPOAuthError clears the authorization.
abbrev pub renewed : Outcome Tokens → McpServer → Outcome (McpServer × Option String)
renewed (done tokens) s = done (store_tokens tokens s, some tokens.access_token)
renewed (oauth_error e) s = done (clear_authorization s, none)
renewed crashed s = crashed

unfoldable pub renew : Outside → McpServer → Option Json → Outcome (McpServer × Option String)
unfolding refresh_access_token store_tokens clear_authorization canonical_resource
renew o s value =
    if is_given value && is_filled s.oauth_client_id
    then (do
      token_endpoint ← endpoint_of "" value
      renewed
          (refresh_access_token o token_endpoint (filled_or s.oauth_refresh_token "")
            (filled_or s.oauth_client_id "") (resource_or_url o s) (filled_or s.oauth_scope "")
            s.oauth_client_secret)
          s)
    else done (s, s.oauth_access_token)

-- The token that can be used, and the server as it is left.
unfoldable pub ensure_fresh_token : Outside → McpServer → Outcome (McpServer × Option String)
unfolding token_endpoint_of renew is_token_expired
ensure_fresh_token o s =
    if not (is_filled s.oauth_access_token)
    then done (s, none)
    else if not (is_token_expired s.oauth_expires_at o.now)
    then done (s, s.oauth_access_token)
    else if not (is_filled s.oauth_refresh_token)
    then done (s, s.oauth_access_token)
    else token_endpoint_of s >>= renew o s

-- The status of the authorization that the screen shows.
pub data AuthStatus : Type 0 where
  not_applicable not_authorized authorized expired : AuthStatus

unfoldable pub authorization_status : (now : ℕ) → McpServer → AuthStatus
unfolding is_token_expired
authorization_status now s =
    if not (s.transport == "http")
    then not_applicable
    else if not (is_filled s.oauth_access_token)
    then not_authorized
    else if not (is_token_expired s.oauth_expires_at now)
    then authorized
    else if is_filled s.oauth_refresh_token
    then authorized
    else expired
