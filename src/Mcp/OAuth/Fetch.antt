-- ===== src/Mcp/OAuth/Fetch.antt =====
-- shared/mcp/oauth.py: the requests of metadata and of a client.
use software_factory_ai.Common.{
  ℕ, suc, Bool, ◌&&◌, Option, none, some, List, [], ◌∷◌, ◌++◌, String, leb, if◌then◌else◌, ◌==◌,
  string_eq, ◌⊎◌, inl, inr,
}
use software_factory_ai.Common.Text.{join_texts, take_chars}
use software_factory_ai.Json.{Json, obj, Fields, get_field}
use software_factory_ai.Json.Values.{is_given}
use software_factory_ai.Mcp.{
  Outcome, done, oauth_error, crashed, ◌>>=◌, Reply, replied, failed, Outside,
}
use software_factory_ai.Mcp.OAuth.{
  ◌+++◌, get_attr, protected_resource_metadata_urls, authorization_server_metadata_urls,
  registration_payload,
}

-- _get_json, and the errors that both its callers catch, as texts. A GET that fails has no
-- status.
abbrev pub body_of : String → Option Json → Json ⊎ String
body_of url (some v) = inl v
body_of url none = inr ("Resposta não-JSON em " +++ url)

unfoldable pub get_json : Outside → String → Reply → Json ⊎ String
get_json o url (failed e) = inr e
get_json o url (replied status body _) =
    if leb 400 status
    then inr ("HTTP " +++ o.decimal status +++ " em " +++ url)
    else body_of url body

-- fetch_protected_resource_metadata: the first URL that answers.
unfoldable pub fetch_first : Outside → (k : ℕ) → (errors urls : List String) → Outcome Json
unfolding get_json join_texts
fetch_first o k errors [] =
    oauth_error ("Não foi possível obter a metadata do recurso. " +++ join_texts "; " errors)
fetch_first o k errors (url ∷ urls) = elim (get_json o url (o.get_url k url)) [
  | inl v ↦ done v
  | inr e ↦ fetch_first o (suc k) (errors ++ (url +++ ": " +++ e) ∷ []) urls
]

abbrev pub hint_urls : Option String → List String
hint_urls none = []
hint_urls (some url) = if url == "" then [] else url ∷ []

unfoldable pub fetch_protected_resource_metadata :
    Outside → (resource_url : String) → (hint_url : Option String) → Outcome Json
unfolding fetch_first protected_resource_metadata_urls
fetch_protected_resource_metadata o resource_url hint_url =
    fetch_first o 0 [] (hint_urls hint_url ++ protected_resource_metadata_urls o resource_url)

-- metadata.get("authorization_endpoint") and metadata.get("token_endpoint")
unfoldable pub is_complete : Fields → Bool
unfolding get_field
is_complete d =
    is_given (get_field d "authorization_endpoint") && is_given (get_field d "token_endpoint")

-- What one answer makes of the search: it ends with metadata or a crash, or goes on with one more
-- error.
abbrev pub complete_or : Fields → String → (String → Outcome Json) → Outcome Json
complete_or d url other =
    if is_complete d then done (obj d) else other (url +++ ": metadata incompleta")

abbrev pub take_metadata : String → (String → Outcome Json) → Json ⊎ String → Outcome Json
take_metadata url other (inl (obj d)) = complete_or d url other
take_metadata url other (inl v) = crashed
take_metadata url other (inr e) = other (url +++ ": " +++ e)

unfoldable pub fetch_complete :
    Outside → (issuer : String) → (k : ℕ) → (errors urls : List String) → Outcome Json
unfolding get_json is_complete join_texts
fetch_complete o issuer k errors [] = oauth_error (
    "Não foi possível obter a metadata do authorization server ("
    +++ issuer
    +++ "). "
    +++ join_texts "; " errors)
fetch_complete o issuer k errors (url ∷ urls) =
    take_metadata url (λ e. fetch_complete o issuer (suc k) (errors ++ e ∷ []) urls)
      (get_json o url (o.get_url k url))

-- `k` requests were made before.
unfoldable pub fetch_authorization_server_metadata :
    Outside → (k : ℕ) → (issuer : String) → Outcome Json
unfolding fetch_complete authorization_server_metadata_urls
fetch_authorization_server_metadata o k issuer =
    fetch_complete o issuer k [] (authorization_server_metadata_urls o issuer)

-- An error of the network is an httpx.HTTPError, which is no MCPOAuthError.
abbrev pub json_body : String → Option Json → Outcome Json
json_body error none = oauth_error error
json_body error (some v) = done v

abbrev pub with_client_id : Outside → Json → Option Json → Outcome Json
with_client_id o payload v =
    if is_given v
    then done payload
    else oauth_error ("Registro dinâmico sem client_id: " +++ o.repr payload)

unfoldable pub answered : Outside → (error close not_json : String) → Reply → Outcome Json
unfolding take_chars
answered o error close not_json (failed e) = crashed
answered o error close not_json (replied status body t) =
    if leb 400 status
    then oauth_error (error +++ o.decimal status +++ close +++ take_chars 300 t)
    else json_body not_json body

unfoldable pub register_client :
    Outside → (registration_endpoint redirect_uri scope : String) → Outcome Json
unfolding answered registration_payload get_field
register_client o registration_endpoint redirect_uri scope = do
  payload ←
      answered o "Registro dinâmico de cliente falhou (HTTP " "): "
        "Resposta não-JSON no registro dinâmico de cliente"
        (o.post_json registration_endpoint (registration_payload redirect_uri scope))
  client_id ← get_attr payload "client_id"
  with_client_id o payload client_id
