-- ===== src/Mcp/Laws.antt =====
-- The state of an authorization: what its start, its end and a renewal leave in the server.
use software_factory_ai.Common.{
  ◌≡◌, refl, subst, true, ◌&&◌, Option, none, some, String, string_eq, Bool-cases, inl, inr,
}
use software_factory_ai.Database.Settings.{McpServer}
use software_factory_ai.Mcp.{Outcome, done, oauth_error, crashed, ◌>>=◌, require, Outside}
use software_factory_ai.Mcp.OAuth.{endpoint_of, text_or_crash}
use software_factory_ai.Mcp.Tokens.{Tokens, is_token_expired, exchange_code, refresh_access_token}
use software_factory_ai.Json.{Json}
use software_factory_ai.Json.Values.{is_filled, filled_or, is_given}
use software_factory_ai.Mcp.Authorization.{
  store_tokens, clear_authorization, token_endpoint_of, complete_authorization, ensure_fresh_token,
  renew, renewed, resource_or_url, filled_else,
}

pub bind-inv {ℓ κ} :
    {A : Type ℓ} {B : Type κ} (m : Outcome A) (f : A → Outcome B) (b : B)
    → (m >>= f) ≡ done b
    → (a : A) × (m ≡ done a) × (f a ≡ done b)
bind-inv (done a) f b h = (a, refl, h)
bind-inv (oauth_error e) f b h = cc
bind-inv crashed f b h = cc

pub done-injective {ℓ} : {A : Type ℓ} (a b : A) → (Outcome.done a) ≡ done b → a ≡ b
done-injective a b h = cc

pub pair-inv {ℓ κ} :
    {A : Type ℓ} {B : Type κ} (a a' : A) (b b' : B)
    → ◌≡◌ {A = Outcome (A × B)} (done (a, b)) (done (a', b'))
    → (a ≡ a') × (b ≡ b')
pair-inv a a' b b' h = (cc, cc)

-- An authorization that is completed leaves no state and no verifier, and keeps the id of the row.
pub complete_authorization-clears :
    (o : Outside) (code : String) (s s' : McpServer)
    → complete_authorization o code s ≡ done s'
    → (s'.oauth_state ≡ none) × (s'.oauth_code_verifier ≡ none) × (s'.id ≡ s.id)
unfolding complete_authorization store_tokens
complete_authorization-clears o code s s' h =
    let (value, _, h1) = bind-inv (token_endpoint_of s) _ s' h in
    let (endpoint, _, h2) =
      bind-inv (endpoint_of "Metadata sem token_endpoint; refaça a autorização" value) _ s' h1 in
    let (_, _, h3) =
      bind-inv
        (require (is_filled s.oauth_code_verifier && is_filled s.oauth_client_id)
          "Autorização não iniciada corretamente; refaça o fluxo")
        _ s' h2 in
    let (tokens, _, h4) =
      bind-inv
        (exchange_code o endpoint code (filled_or s.oauth_code_verifier "")
          (filled_or s.oauth_client_id "") o.redirect_uri (resource_or_url o s)
          s.oauth_client_secret)
        _ s' h3 in
    let same = done-injective _ s' h4 in
    subst (λ x. (x.oauth_state ≡ none) × (x.oauth_code_verifier ≡ none) × (x.id ≡ s.id)) same
      (refl, refl, refl)

is_filled-filled_else :
    (new old : Option String) → is_filled old ≡ true → is_filled (filled_else new old) ≡ true
is_filled-filled_else new old h = elim (Bool-cases (is_filled new)) [
  | inl t ↦ rw t t
  | inr t ↦ rw t h
]

-- What a renewal of a server's authorization leaves, for the answer of the token endpoint: the
-- tokens that were issued, with the old refresh token where no new one was, or no authorization.
abbrev pub Renewed : Outcome Tokens → McpServer → McpServer → Option String → Type 0
Renewed (done tokens) s s' t =
    (t ≡ some tokens.access_token)
    × (s'.oauth_access_token ≡ t)
    × (s'.oauth_expires_at ≡ tokens.expires_at)
    × (is_filled s'.oauth_refresh_token ≡ true)
Renewed (oauth_error e) s s' t =
    (t ≡ none)
    × (s'.oauth_access_token ≡ none)
    × (s'.oauth_refresh_token ≡ none)
    × (s'.oauth_expires_at ≡ none)
Renewed crashed s s' t = ⊥

renewed-Renewed :
    (out : Outcome Tokens) (s s' : McpServer) (t : Option String)
    → is_filled s.oauth_refresh_token ≡ true
    → renewed out s ≡ done (s', t)
    → Renewed out s s' t
unfolding store_tokens clear_authorization
renewed-Renewed (done tokens) s s' t r h =
    let (same, tok) = pair-inv (store_tokens tokens s) s' (some tokens.access_token) t h in
    subst (λ x. Renewed (done tokens) s x t) same
      (subst (λ x. Renewed (done tokens) s (store_tokens tokens s) x) tok
        (refl, refl, refl, is_filled-filled_else tokens.refresh_token s.oauth_refresh_token r))
renewed-Renewed (oauth_error e) s s' t r h =
    let (same, tok) = pair-inv (clear_authorization s) s' none t h in
    subst (λ x. Renewed (oauth_error e) s x t) same
      (subst (λ x. Renewed (oauth_error e) s (clear_authorization s) x) tok
        (refl, refl, refl, refl))
renewed-Renewed crashed s s' t r h = cc

-- The answer of the token endpoint to the refresh token of a server.
abbrev pub refreshed : Outside → (token_endpoint : String) → McpServer → Outcome Tokens
refreshed o token_endpoint s =
    refresh_access_token o token_endpoint (filled_or s.oauth_refresh_token "")
      (filled_or s.oauth_client_id "") (resource_or_url o s) (filled_or s.oauth_scope "")
      s.oauth_client_secret

-- An access token that has expired is never used again: where the row has one, with a refresh
-- token, a client and a token endpoint, the check before a use that returns gives the token that
-- the endpoint issues for the refresh token and stores it with its time and a refresh token; on an
-- MCPOAuthError of the renewal it gives none, and the row has no token any more.
pub ensure_fresh_token-Renewed :
    (o : Outside) (s s' : McpServer) (t : Option String) (value : Json) (token_endpoint : String)
    → is_filled s.oauth_access_token ≡ true
    → is_token_expired s.oauth_expires_at o.now ≡ true
    → is_filled s.oauth_refresh_token ≡ true
    → is_filled s.oauth_client_id ≡ true
    → token_endpoint_of s ≡ done (some value)
    → is_given (some value) ≡ true
    → endpoint_of "" (some value) ≡ done token_endpoint
    → ensure_fresh_token o s ≡ done (s', t)
    → Renewed (refreshed o token_endpoint s) s s' t
unfolding ensure_fresh_token renew
ensure_fresh_token-Renewed o s s' t value token_endpoint a e r c has given found h =
    let text : text_or_crash value ≡ done token_endpoint = rw given at found in
    renewed-Renewed (refreshed o token_endpoint s) s s' t r (rw (a, e, r, has, given, c, text) at h)
