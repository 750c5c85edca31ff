-- ===== src/Mcp/OAuth.antt =====
-- shared/mcp/oauth.py: the OAuth 2.1 flow against a remote server.
pub mod Fetch
use software_factory_ai.Common.{
  ℕ, suc, Bool, ◌&&◌, Option, none, some, List, [], ◌∷◌, ◌++◌, String, text_append, leb,
  if◌then◌else◌, ◌==◌, string_eq, contains, ◌⊎◌, inl, inr,
}
use software_factory_ai.Common.Text.{strip_slashes, join_texts, take_chars}
use software_factory_ai.Json.{
  Json, text, arr, obj, item, Fields, end, field, get_field, put_field, is_true,
}
use software_factory_ai.Json.Values.{elements, text_list, is_given}
use software_factory_ai.Mcp.{
  Outcome, done, oauth_error, crashed, ◌>>=◌, Url, Reply, replied, failed, Outside,
}

infixr 6 ◌+++◌
abbrev pub ◌+++◌ : String → String → String
s +++ t = text_append s t

-- str(v)
abbrev pub str : Outside → Json → String
str o (text t) = t
str o v = o.repr v

-- f"{parsed.scheme}://{parsed.netloc}"
abbrev pub origin_of : Url → String
origin_of u = u.scheme +++ "://" +++ u.netloc

unfoldable pub protected_resource_metadata_urls : Outside → (resource_url : String) → List String
unfolding strip_slashes
protected_resource_metadata_urls o resource_url =
    let parsed = o.urlparse resource_url in
    let origin = origin_of parsed in
    let path = strip_slashes parsed.path in
    let root = origin +++ "/.well-known/oauth-protected-resource" in
    if path == ""
    then root ∷ []
    else (origin +++ "/.well-known/oauth-protected-resource" +++ path) ∷ root ∷ []

-- Without the duplicates, in the order of the first ones. `seen` holds those that are kept.
unfoldable pub without_duplicates : (seen : List String) → List String → List String
unfolding contains
without_duplicates seen [] = []
without_duplicates seen (c ∷ cs) =
    let known = without_duplicates seen cs in
    let new = without_duplicates (c ∷ seen) cs in if contains seen c then known else c ∷ new

unfoldable pub authorization_server_metadata_urls : Outside → (issuer : String) → List String
unfolding strip_slashes without_duplicates
authorization_server_metadata_urls o issuer₀ =
    let issuer = strip_slashes issuer₀ in
    let parsed = o.urlparse issuer in
    let origin = origin_of parsed in
    let path = strip_slashes parsed.path in
    without_duplicates [] (
      if path == ""
      then (origin +++ "/.well-known/oauth-authorization-server")
        ∷ (origin +++ "/.well-known/openid-configuration")
        ∷ []
      else (origin +++ "/.well-known/oauth-authorization-server" +++ path)
        ∷ (issuer +++ "/.well-known/oauth-authorization-server")
        ∷ (issuer +++ "/.well-known/openid-configuration")
        ∷ (origin +++ "/.well-known/openid-configuration" +++ path)
        ∷ [])

-- servers[0]: the first element of a list or the first character of a text. A dict or a number
-- has none: a KeyError or a TypeError.
abbrev pub first_of : Outside → Json → Outcome String
first_of o (arr (item v xs)) = done (str o v)
first_of o (text (String.◌∷◌ c s)) = done (String.◌∷◌ c String.[])
first_of o _ = crashed

abbrev pub first_server : Outside → Option Json → Outcome String
first_server o none =
    oauth_error
      "Protected Resource Metadata sem 'authorization_servers'; o servidor MCP não indicou como autorizar."
first_server o (some v) =
    if is_true v
    then first_of o v
    else oauth_error
        "Protected Resource Metadata sem 'authorization_servers'; o servidor MCP não indicou como autorizar."

-- v.get(key): an AttributeError on a value that is no dict.
abbrev pub get_attr : Json → String → Outcome (Option Json)
get_attr (obj d) key = done (get_field d key)
get_attr v key = crashed

unfoldable pub select_authorization_server : Outside → (prm : Json) → Outcome String
unfolding get_field
select_authorization_server o prm = do
  servers ← get_attr prm "authorization_servers"
  first_server o servers

unfoldable pub canonical_resource : Outside → (resource_url : String) → String
unfolding strip_slashes
canonical_resource o resource_url =
    let parsed = o.urlparse resource_url in
    parsed.scheme +++ "://" +++ parsed.netloc +++ strip_slashes parsed.path

-- " ".join(str(s) for s in scopes)
unfoldable pub strs : Outside → List Json → List String
strs o [] = []
strs o (v ∷ vs) = str o v ∷ strs o vs

abbrev pub joined : Outside → Option (List Json) → Outcome String
joined o none = crashed
joined o (some vs) = done (join_texts " " (strs o vs))

abbrev pub scope_or : Outside → Option Json → Outcome String → Outcome String
scope_or o none other = other
scope_or o (some v) other = if is_true v then joined o (elements v) else other

-- pick_scope: the scopes of the resource, else those of the authorization server.
unfoldable pub pick_scope : Outside → (asm prm : Json) → Outcome String
unfolding elements get_field strs join_texts
pick_scope o asm prm = do
  of_resource ← get_attr (if is_true prm then prm else obj end) "scopes_supported"
  scope_or o of_resource
      (get_attr asm "scopes_supported" >>= λ of_server. scope_or o of_server (done ""))

-- The parameters of the URL of the consent.
pub record Consent : Type 0 where
  pub client_id : String
  pub redirect_uri : String
  pub state : String
  pub code_challenge : String
  pub resource : String
  pub scope : String

abbrev pub consent_params : Consent → List (String × String)
consent_params c =
    ("response_type", "code")
    ∷ ("client_id", c.client_id)
    ∷ ("redirect_uri", c.redirect_uri)
    ∷ ("state", c.state)
    ∷ ("code_challenge", c.code_challenge)
    ∷ ("code_challenge_method", "S256")
    ∷ ("resource", c.resource)
    ∷ (if c.scope == "" then [] else ("scope", c.scope) ∷ [])

-- An endpoint of the metadata as a text: `error` where it is missing, and a crash where a value is
-- no text.
abbrev pub text_or_crash : Json → Outcome String
text_or_crash (text t) = done t
text_or_crash _ = crashed

abbrev pub endpoint_of : String → Option Json → Outcome String
endpoint_of error none = oauth_error error
endpoint_of error (some v) = if is_true v then text_or_crash v else oauth_error error

unfoldable pub build_authorization_url : Outside → (asm : Json) → Consent → Outcome String
unfolding get_field
build_authorization_url o asm c = do
  value ← get_attr asm "authorization_endpoint"
  endpoint ← endpoint_of "Authorization Server Metadata sem 'authorization_endpoint'" value
  let separator = if (o.urlparse endpoint).query == "" then "?" else "&"
  done (endpoint +++ separator +++ o.urlencode (consent_params c))

unfoldable pub registration_payload : (redirect_uri scope : String) → Fields
unfolding put_field
registration_payload redirect_uri scope =
    let payload = field "client_name" (text "Software Factory") (
      field "redirect_uris" (text_list (redirect_uri ∷ [])) (
        field "grant_types" (text_list ("authorization_code" ∷ "refresh_token" ∷ [])) (
          field "response_types" (text_list ("code" ∷ [])) (
            field "token_endpoint_auth_method" (text "none")
              (field "application_type" (text "web") end))))) in
    if scope == "" then payload else put_field payload "scope" (text scope)
