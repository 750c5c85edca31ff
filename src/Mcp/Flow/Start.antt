-- ===== src/Mcp/Flow/Start.antt =====
-- An authorization that is started, and its end.
use software_factory_ai.Common.{
  ◌≡◌, ◌≢◌, refl, subst, Bool, true, false, Option, none, some, String, if◌then◌else◌, ◌==◌,
  string_eq, Bool-cases, inl, inr,
}
use software_factory_ai.Json.{Json, text, is_true}
use software_factory_ai.Json.Values.{is_filled, filled_or}
use software_factory_ai.Database.Settings.{McpServer}
use software_factory_ai.Mcp.{Outcome, done, oauth_error, crashed, ◌>>=◌, require, Outside}
use software_factory_ai.Mcp.OAuth.{get_attr, endpoint_of, text_or_crash, build_authorization_url}
use software_factory_ai.Mcp.OAuth.Fetch.{register_client}
use software_factory_ai.Mcp.Tokens.{exchange_code, true_column}
use software_factory_ai.Mcp.Authorization.{
  metadata_of, resource_of, scope_of, Client, register, client_of, started, prepare_authorization,
  token_endpoint_of, complete_authorization, store_tokens, resource_or_url, no_registration,
}
use software_factory_ai.Mcp.Laws.{bind-inv, done-injective, pair-inv}
use software_factory_ai.Mcp.Flow.{HasTokenEndpoint, metadata_of-HasTokenEndpoint}

not_done :
    (b : Bool) (e t : String)
    → ◌≢◌ {A = Outcome String} (if b then crashed else oauth_error e) (done t)
not_done true e t h = cc
not_done false e t h = cc

endpoint_of-filled :
    (error : String) (v : Option Json) (t : String)
    → endpoint_of error v ≡ done t
    → is_filled (some t) ≡ true
endpoint_of-filled error none t h = cc
endpoint_of-filled error (some (text u)) t h = elim (Bool-cases (u == "")) [
  | inl e ↦ let c : oauth_error error ≡ done t = rw e at h in cc
  | inr e ↦
      let same : u ≡ t = done-injective u t (rw e at h) in
      subst (λ x. is_filled (some x) ≡ true) same (rw e refl)
]
endpoint_of-filled error (some v) t h = absurd (not_done (is_true v) error t h)

filled_or-filled :
    (t : Option String) → is_filled t ≡ true → is_filled (some (filled_or t "")) ≡ true
filled_or-filled none h = cc
filled_or-filled (some t) h = elim (Bool-cases (t == "")) [
  | inl e ↦ let c : false ≡ true = rw e at h in cc
  | inr e ↦ rw (e, e) refl
]

client_of-filled :
    (o : Outside) (asm : Json) (scope : String) (s : McpServer) (c : Client)
    → client_of o asm scope s ≡ done c
    → is_filled (some c.0) ≡ true
unfolding client_of register
client_of-filled o asm scope s c h = elim (Bool-cases (is_filled s.oauth_client_id)) [
  | inl f ↦
      subst (λ x. is_filled (some x.0) ≡ true) (done-injective _ c (rw f at h))
        (filled_or-filled s.oauth_client_id f)
  | inr f ↦
      let (value, _, h1) = bind-inv (get_attr asm "registration_endpoint") _ c (rw f at h) in
      let (endpoint, _, h2) = bind-inv (endpoint_of no_registration value) _ c h1 in
      let (registration, _, h3) =
        bind-inv (register_client o endpoint o.redirect_uri scope) _ c h2 in
      let (id, _, h4) = bind-inv (get_attr registration "client_id") _ c h3 in
      let (client_id, g, h5) = bind-inv (endpoint_of no_registration id) _ c h4 in
      let (secret, _, h6) = bind-inv (get_attr registration "client_secret") _ c h5 in
      let (client_secret, _, h7) = bind-inv (true_column secret) _ c h6 in
      subst (λ x. is_filled (some x.0) ≡ true) (done-injective (client_id, client_secret) c h7)
        (endpoint_of-filled no_registration id client_id g)
]

-- The start of an authorization prepares its end: the metadata that is stored has a token
-- endpoint, and the row a client, the state and the verifier of this start.
pub Ready : Outside → McpServer → Type 0
Ready o s =
    HasTokenEndpoint s.oauth_metadata
    × (is_filled s.oauth_client_id ≡ true)
    × (s.oauth_state ≡ some o.state)
    × (s.oauth_code_verifier ≡ some o.pkce.0)

pub prepare_authorization-Ready :
    (o : Outside) (hint : Option String) (s s' : McpServer) (url : String)
    → prepare_authorization o hint s ≡ done (s', url)
    → Ready o s'
unfolding prepare_authorization Ready
prepare_authorization-Ready o hint s s' url h =
    let (_, _, h1) =
      bind-inv
        (require (s.transport == "http")
          "OAuth se aplica apenas a servidores MCP com transporte http")
        _ (s', url) h in
    let (_, _, h2) =
      bind-inv (require (is_filled s.url) "Servidor sem URL configurada") _ (s', url) h1 in
    let (m, e, h3) = bind-inv (metadata_of o (filled_or s.url "") hint s) _ (s', url) h2 in
    let (resource, _, h4) = bind-inv (resource_of o (filled_or s.url "") m.prm) _ (s', url) h3 in
    let (scope, _, h5) = bind-inv (scope_of o s m) _ (s', url) h4 in
    let (client, c, h6) = bind-inv (client_of o m.asm scope s) _ (s', url) h5 in
    let (consent, _, h7) =
      bind-inv (build_authorization_url o m.asm _)
        (λ u. done (started o m resource scope client s, u)) (s', url) h6 in
    let (same, _) = pair-inv (started o m resource scope client s) s' consent url h7 in
    subst (λ x. Ready o x) same
      (
        metadata_of-HasTokenEndpoint o (filled_or s.url "") hint s m e,
        client_of-filled o m.asm scope s client c,
        refl,
        refl,
      )

-- The exchange that `complete_authorization` makes of an authorization with a token endpoint, a
-- verifier and a client.
abbrev pub exchanged : Outside → (code verifier : String) → Json → McpServer → Outcome McpServer
exchanged o code verifier v s = text_or_crash v >>= λ endpoint.
    exchange_code o endpoint code verifier (filled_or s.oauth_client_id "") o.redirect_uri
      (resource_or_url o s) s.oauth_client_secret
    >>= λ tokens.
        done (record (store_tokens tokens s) { oauth_state = none; oauth_code_verifier = none })

complete_authorization-exchanged :
    (o : Outside) (code verifier : String) (v : Json) (s : McpServer)
    → token_endpoint_of s ≡ done (some v)
    → is_true v ≡ true
    → is_filled s.oauth_client_id ≡ true
    → s.oauth_code_verifier ≡ some verifier
    → is_filled (some verifier) ≡ true
    → complete_authorization o code s ≡ exchanged o code verifier v s
unfolding complete_authorization
complete_authorization-exchanged o code verifier v s found truth client here p =
    elim (Bool-cases (verifier == "")) [
      | inl e ↦ let c : false ≡ true = rw e at p in cc
      | inr e ↦ rw (found, truth, here, e, client) refl
    ]

-- The end of an authorization after its start: `complete_authorization` passes all its checks, so
-- that it is the exchange of the code with the verifier of the start, at the token endpoint of
-- the metadata that is stored.
pub complete_authorization-prepare_authorization :
    (o o' : Outside) (hint : Option String) (code : String) (s s' : McpServer) (url : String)
    → prepare_authorization o hint s ≡ done (s', url)
    → is_filled (some o.pkce.0) ≡ true
    → (v : Json) × (token_endpoint_of s' ≡ done (some v))
      × (complete_authorization o' code s' ≡ exchanged o' code o.pkce.0 v s')
unfolding Ready HasTokenEndpoint token_endpoint_of
complete_authorization-prepare_authorization o o' hint code s s' url h p =
    let (endpoint, client, _, verifier) = prepare_authorization-Ready o hint s s' url h in
    let (v, found, truth) = endpoint in
    (v, found, complete_authorization-exchanged o' code o.pkce.0 v s' found truth client verifier p)
