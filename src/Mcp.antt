-- ===== src/Mcp.antt =====
-- The servers of the Model Context Protocol: how a step of their code ends, and what it takes from
-- outside the program.
pub mod OAuth
pub mod Tokens
pub mod Authorization
pub mod Laws
pub mod Flow
pub mod Client
use software_factory_ai.Common.{ℕ, Bool, Option, none, some, List, String}
use software_factory_ai.Json.{Json, Fields}

-- A value, an MCPOAuthError with its text, or another exception, which no caller handles.
pub data Outcome {ℓ} (A : Type ℓ) : Type ℓ where
  done : A → Outcome A
  oauth_error : String → Outcome A
  crashed : Outcome A

infixl 5 ◌>>=◌ ◌>>◌
abbrev pub ◌>>=◌ {ℓ κ} : {A : Type ℓ} {B : Type κ} → Outcome A → (A → Outcome B) → Outcome B
done a >>= f = f a
oauth_error e >>= f = oauth_error e
crashed >>= f = crashed

abbrev pub ◌>>◌ {ℓ} : {B : Type ℓ} → Outcome (Unit {0}) → Outcome B → Outcome B
m >> k = m >>= λ _. k

-- if not test: raise MCPOAuthError(text)
abbrev pub require : Bool → String → Outcome (Unit {0})
require Bool.true text = done tt
require Bool.false text = oauth_error text

-- The parts of `urlparse` that are read.
pub record Url : Type 0 where
  pub scheme : String
  pub netloc : String
  pub path : String
  pub query : String

-- An HTTP reply with its body as JSON, none where it is no JSON, and as text; or httpx.HTTPError.
pub data Reply : Type 0 where
  replied : (status : ℕ) → Option Json → String → Reply
  failed : String → Reply

-- int(v) as a shift of a time.
pub data Shift : Type 0 where
  later earlier : ℕ → Shift

-- The libraries and the network, as one request of the API meets them: the k-th GET has the
-- answer `get_url k`, a POST one answer.
pub record Outside : Type 0 where
  pub urlparse : String → Url
  pub urlencode : List (String × String) → String
  pub get_url : ℕ → String → Reply
  pub post_json : String → Fields → Reply
  pub post_form : String → List (String × String) → Reply
  pub repr : Json → String
  pub decimal : ℕ → String
  pub int_of : Json → Option Shift
  pub pkce : String × String
  pub state : String
  pub redirect_uri : String
  pub now : ℕ
