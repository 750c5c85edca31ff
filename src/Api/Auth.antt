-- ===== src/Api/Auth.antt =====
-- backend/app/auth/deps.py: who may call an operation, and the answers of the API.
use software_factory_ai.Common.{
  ℕ, Bool, true, false, Option, none, some, [], ◌∷◌, String, ltb, if◌then◌else◌, ◌==◌, string_eq,
}
use software_factory_ai.Common.Dict.{Dict, get, get_or}
use software_factory_ai.Common.Rows.{find_row}
use software_factory_ai.Database.{Database, User}

-- A response, or an HTTPException with its status code.
pub data Response {ℓ} (A : Type ℓ) : Type ℓ where
  ok : A → Response A
  http_error : ℕ → Response A

infixl 5 ◌>>=◌ ◌>>◌
abbrev pub ◌>>=◌ {ℓ κ} : {A : Type ℓ} {B : Type κ} → Response A → (A → Response B) → Response B
ok a >>= f = f a
http_error code >>= f = http_error code

abbrev pub ◌>>◌ {ℓ} : {B : Type ℓ} → Response (Unit {0}) → Response B → Response B
m >> k = m >>= λ _. k

-- if not test: raise HTTPException(code)
abbrev pub require : Bool → ℕ → Response (Unit {0})
require true code = ok tt
require false code = http_error code

abbrev pub found {ℓ} : {A : Type ℓ} → Option A → Response A
found none = http_error 404
found (some a) = ok a

-- ROLE_HIERARCHY
abbrev pub role_hierarchy : Dict String ℕ
role_hierarchy =
    ("ADMIN", 60)
    ∷ ("FACTORY_MANAGER", 50)
    ∷ ("APPROVER", 40)
    ∷ ("DEVELOPER", 30)
    ∷ ("AUDITOR", 20)
    ∷ ("VIEWER", 10)
    ∷ []

-- ROLE_HIERARCHY.get(role, 0)
unfoldable pub role_level : String → ℕ
unfolding get
role_level role = get_or role_hierarchy role 0

-- What `decode_token` reads from a token that it accepts.
pub record Claims : Type 0 where
  pub sub : String
  pub token_type : String

-- get_current_user: `token` is none where there are no credentials, and the decoding is the work
-- of the JWT library, given as its answer.
unfoldable pub get_current_user : Option (Option Claims) → Database → Response User
unfolding find_row
get_current_user none db = http_error 401
get_current_user (some none) db = http_error 401
get_current_user (some (some claims)) db =
    if claims.token_type == "access"
    then (elim (find_row (λ u. u.username) db.users claims.sub) [
      | none ↦ http_error 401
      | some user ↦ if user.enabled then ok user else http_error 401
    ])
    else http_error 401

-- ROLE_HIERARCHY[minimum]: any other name is a KeyError, which the server answers with 500.
abbrev pub level_or_crash : Option ℕ → Response ℕ
level_or_crash none = http_error 500
level_or_crash (some level) = ok level

-- require_role(minimum), for the user of the request
unfoldable pub require_role : String → User → Response User
unfolding role_level get
require_role minimum user = level_or_crash (get role_hierarchy minimum) >>= λ level.
    if ltb (role_level user.role) level then http_error 403 else ok user
