-- ===== src/Mcp/Tokens.antt =====
-- shared/mcp/oauth.py: the tokens, their requests and their expiry.
use software_factory_ai.Common.{
  ℕ, ◌+◌, ◌-◌, Bool, false, Option, none, some, List, [], ◌∷◌, ◌++◌, String, leb, if◌then◌else◌,
  ◌==◌, string_eq,
}
use software_factory_ai.Json.{Json, null, text, get_field, is_true}
use software_factory_ai.Json.Values.{is_filled}
use software_factory_ai.Mcp.{
  Outcome, done, oauth_error, crashed, ◌>>=◌, Shift, later, earlier, Outside,
}
use software_factory_ai.Mcp.OAuth.{get_attr, text_or_crash, ◌+++◌}
use software_factory_ai.Mcp.OAuth.Fetch.{answered}

-- EXPIRY_SKEW_SECONDS
abbrev pub expiry_skew_seconds : ℕ
expiry_skew_seconds = 60

-- The dict of tokens. A text that is empty counts as none where it is read.
pub record Tokens : Type 0 where
  pub access_token : String
  pub refresh_token : Option String
  pub expires_at : Option ℕ
  pub scope : Option String

-- now + timedelta(seconds=n); a time before the origin stops at 0.
abbrev pub shifted : ℕ → Shift → ℕ
shifted now (later n) = now + n
shifted now (earlier n) = now - n

abbrev pub shifted_by : ℕ → Option Shift → Option ℕ
shifted_by now none = none
shifted_by now (some s) = some (shifted now s)

unfoldable pub expiry_of : Outside → Option Json → Option ℕ
expiry_of o none = none
expiry_of o (some null) = none
expiry_of o (some v) = shifted_by o.now (o.int_of v)

-- A value that is written to a column of texts if it is true; one that is no text is refused by
-- the driver, which ends the request.
abbrev pub column_of : Json → Outcome (Option String)
column_of (text t) = done (some t)
column_of v = crashed

abbrev pub true_column : Option Json → Outcome (Option String)
true_column none = done none
true_column (some v) = if is_true v then column_of v else done none

abbrev pub access_of : Outside → Json → Option Json → Outcome String
access_of o payload none =
    oauth_error ("Resposta do token endpoint sem access_token: " +++ o.repr payload)
access_of o payload (some v) =
    if is_true v
    then text_or_crash v
    else oauth_error ("Resposta do token endpoint sem access_token: " +++ o.repr payload)

unfoldable pub tokens_from_response : Outside → (payload : Json) → Outcome Tokens
unfolding get_field expiry_of
tokens_from_response o payload = do
  value ← get_attr payload "access_token"
  access_token ← access_of o payload value
  expires_in ← get_attr payload "expires_in"
  refresh ← get_attr payload "refresh_token"
  refresh_token ← true_column refresh
  granted ← get_attr payload "scope"
  scope ← true_column granted
  done (record {
    access_token = access_token;
    refresh_token = refresh_token;
    expires_at = expiry_of o expires_in;
    scope = scope;
  })

unfoldable pub is_token_expired : Option ℕ → (now : ℕ) → Bool
is_token_expired none now = false
is_token_expired (some expires_at) now = leb expires_at (now + expiry_skew_seconds)

-- Form data: `{**data, "client_secret": client_secret}` if there is a secret.
abbrev pub with_secret : Option String → List (String × String) → List (String × String)
with_secret none form = form
with_secret (some secret) form =
    if secret == "" then form else form ++ ("client_secret", secret) ∷ []

-- _post_token
unfoldable pub post_token :
    Outside → (token_endpoint : String) → List (String × String) → Option String → Outcome Json
unfolding answered
post_token o token_endpoint form client_secret =
    answered o "Token endpoint respondeu HTTP " ": " "Resposta não-JSON do token endpoint"
      (o.post_form token_endpoint (with_secret client_secret form))

unfoldable pub exchange_code :
    Outside
    → (token_endpoint code code_verifier client_id redirect_uri resource : String)
    → (client_secret : Option String) → Outcome Tokens
unfolding post_token tokens_from_response
exchange_code o token_endpoint code code_verifier client_id redirect_uri resource client_secret =
    post_token o token_endpoint
      (("grant_type", "authorization_code")
        ∷ ("code", code)
        ∷ ("code_verifier", code_verifier)
        ∷ ("client_id", client_id)
        ∷ ("redirect_uri", redirect_uri)
        ∷ ("resource", resource)
        ∷ [])
      client_secret
    >>= tokens_from_response o

-- tokens["refresh_token"] or refresh_token
abbrev pub keep_refresh : String → Tokens → Tokens
keep_refresh refresh_token t =
    if is_filled t.refresh_token then t else record t { refresh_token = some refresh_token }

abbrev pub scope_param : String → List (String × String)
scope_param scope = if scope == "" then [] else ("scope", scope) ∷ []

unfoldable pub refresh_access_token :
    Outside
    → (token_endpoint refresh_token client_id resource scope : String)
    → (client_secret : Option String) → Outcome Tokens
unfolding post_token tokens_from_response
refresh_access_token o token_endpoint refresh_token client_id resource scope client_secret = do
  payload ←
      post_token o token_endpoint
        (("grant_type", "refresh_token")
          ∷ ("refresh_token", refresh_token)
          ∷ ("client_id", client_id)
          ∷ ("resource", resource)
          ∷ scope_param scope)
        client_secret
  tokens ← tokens_from_response o payload
  done (keep_refresh refresh_token tokens)
