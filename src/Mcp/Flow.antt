-- ===== src/Mcp/Flow.antt =====
-- An authorization from its start to its end.
pub mod Start
use software_factory_ai.Common.{
  ℕ, suc, ◌≡◌, ◌≢◌, refl, sym, subst, Bool, true, false, ◌&&◌, Option, none, some, List, [], ◌∷◌,
  ◌++◌, String, if◌then◌else◌, ◌==◌, string_eq, Bool-cases, inl, inr, ◌⊎◌,
}
use software_factory_ai.Json.{Json, Fields, end, field, get_field, obj, text, is_true}
use software_factory_ai.Json.Values.{is_filled, filled_or, is_given, or_dict}
use software_factory_ai.Database.Settings.{McpServer}
use software_factory_ai.Mcp.{Outcome, done, oauth_error, crashed, ◌>>=◌, require, Outside}
use software_factory_ai.Mcp.OAuth.{
  authorization_server_metadata_urls, get_attr, endpoint_of, text_or_crash,
  select_authorization_server, build_authorization_url,
}
use software_factory_ai.Mcp.OAuth.Fetch.{
  is_complete, fetch_complete, take_metadata, get_json, fetch_authorization_server_metadata,
  fetch_protected_resource_metadata, register_client,
}
use software_factory_ai.Mcp.Tokens.{exchange_code, true_column}
use software_factory_ai.Mcp.Authorization.{
  Metadata, new_metadata, has_endpoints, discover_metadata, found_or_discovered, metadata_of,
  resource_of, scope_of, Client, register, client_of, started, prepare_authorization,
  token_endpoint_of, complete_authorization, store_tokens, resource_or_url, no_registration,
}
use software_factory_ai.Mcp.Laws.{bind-inv, done-injective, pair-inv}

-- A dict with both endpoints.
abbrev Complete : Json → Type 0
Complete v = (d : Fields) × (v ≡ obj d) × (is_complete d ≡ true)

take_metadata-Complete :
    (url : String) (other : String → Outcome Json) (r : Json ⊎ String) (v : Json)
    → ((e : String) (w : Json) → other e ≡ done w → Complete w)
    → take_metadata url other r ≡ done v
    → Complete v
take_metadata-Complete url other (inr e) v ih h = ih _ v h
take_metadata-Complete url other (inl (obj d)) v ih h = elim (Bool-cases (is_complete d)) [
  | inl t ↦ (d, sym (done-injective (obj d) v (rw t at h)), t)
  | inr t ↦ ih _ v (rw t at h)
]
take_metadata-Complete url other (inl w) v ih h = cc

-- A search that ends with metadata ends with both endpoints.
fetch_complete-Complete :
    (o : Outside) (issuer : String) (k : ℕ) (errors urls : List String) (v : Json)
    → fetch_complete o issuer k errors urls ≡ done v
    → Complete v
unfolding fetch_complete
fetch_complete-Complete o issuer k errors [] v h = cc
fetch_complete-Complete o issuer k errors (url ∷ urls) v h =
    take_metadata-Complete url (λ e. fetch_complete o issuer (suc k) (errors ++ e ∷ []) urls)
      (get_json o url (o.get_url k url)) v
      (λ e w g. fetch_complete-Complete o issuer (suc k) (errors ++ e ∷ []) urls w g) h

-- The metadata that is stored has the token endpoint.
unfoldable pub HasTokenEndpoint : Fields → Type 0
HasTokenEndpoint d =
    (v : Json) × (get_attr (or_dict (get_field d "authorization_server")) "token_endpoint"
      ≡ done (some v))
    × (is_true v ≡ true)

and-inv : (a b : Bool) → (a && b) ≡ true → (a ≡ true) × (b ≡ true)
and-inv true true h = (refl, refl)
and-inv true false h = cc
and-inv false b h = cc

is_given-inv :
    (o : Option Json) → is_given o ≡ true → (v : Json) × (o ≡ some v) × (is_true v ≡ true)
is_given-inv none h = cc
is_given-inv (some v) h = (v, refl, h)

-- A dict with a key is true.
or_dict-Complete : (d : Fields) → is_complete d ≡ true → or_dict (some (obj d)) ≡ obj d
unfolding is_complete get_field
or_dict-Complete end h = cc
or_dict-Complete (field k v d) h = refl

new_metadata-HasTokenEndpoint :
    (prm : Json) (issuer : String) (asm : Json)
    → Complete asm
    → HasTokenEndpoint (new_metadata prm issuer asm).stored
unfolding HasTokenEndpoint get_field is_complete
new_metadata-HasTokenEndpoint prm issuer asm (d, same, both) =
    let (v, found, truth) =
      is_given-inv (get_field d "token_endpoint")
        (and-inv (is_given (get_field d "authorization_endpoint"))
          (is_given (get_field d "token_endpoint")) both).1 in
    (v, rw (same, or_dict-Complete d both, found) refl, truth)

discover_metadata-HasTokenEndpoint :
    (o : Outside) (url : String) (hint : Option String) (m : Metadata)
    → discover_metadata o url hint ≡ done m
    → HasTokenEndpoint m.stored
unfolding discover_metadata fetch_authorization_server_metadata
discover_metadata-HasTokenEndpoint o url hint m h =
    let (prm, _, h1) = bind-inv (fetch_protected_resource_metadata o url hint) _ m h in
    let (issuer, _, h2) = bind-inv (select_authorization_server o prm) _ m h1 in
    let (asm, f, h3) = bind-inv (fetch_authorization_server_metadata o 3 issuer) _ m h2 in
    subst (λ x. HasTokenEndpoint x.stored) (done-injective (new_metadata prm issuer asm) m h3)
      (new_metadata-HasTokenEndpoint prm issuer asm
        (fetch_complete-Complete o issuer 3 [] (authorization_server_metadata_urls o issuer) asm f))

has_endpoints-token :
    (asm : Json)
    → has_endpoints asm ≡ done true
    → (v : Json) × (get_attr asm "token_endpoint" ≡ done (some v)) × (is_true v ≡ true)
unfolding has_endpoints
has_endpoints-token asm h =
    let (a, _, h1) = bind-inv (get_attr asm "authorization_endpoint") _ true h in
    let (t, g, h2) =
      bind-inv (get_attr asm "token_endpoint") (λ u. done (is_given a && is_given u)) true h1 in
    let (v, same, truth) =
      is_given-inv t (and-inv (is_given a) (is_given t) (done-injective _ true h2)).1 in
    (v, rw same at g, truth)

pub metadata_of-HasTokenEndpoint :
    (o : Outside) (url : String) (hint : Option String) (s : McpServer) (m : Metadata)
    → metadata_of o url hint s ≡ done m
    → HasTokenEndpoint m.stored
unfolding metadata_of HasTokenEndpoint
metadata_of-HasTokenEndpoint o url hint s m h =
    let asm = or_dict (get_field s.oauth_metadata "authorization_server") in
    let prm = or_dict (get_field s.oauth_metadata "protected_resource") in
    let old : Metadata = record { prm = prm; asm = asm; stored = s.oauth_metadata } in
    let (b, e, h1) = bind-inv (has_endpoints asm) (found_or_discovered o url hint old) m h in
    step b e h1
  where
    step :
        (b : Bool)
        → has_endpoints (or_dict (get_field s.oauth_metadata "authorization_server")) ≡ done b
        → found_or_discovered o url hint
            (record {
              prm = or_dict (get_field s.oauth_metadata "protected_resource");
              asm = or_dict (get_field s.oauth_metadata "authorization_server");
              stored = s.oauth_metadata;
            })
            b
          ≡ done m
        → HasTokenEndpoint m.stored
    step true e g =
        subst (λ x. HasTokenEndpoint x.stored) (done-injective _ m g) (has_endpoints-token _ e)
    step false e g = discover_metadata-HasTokenEndpoint o url hint m g
