-- ===== src/Api/Sessions.antt =====
-- backend/app/api/v1/auth_routes.py: the login, and the refresh token that is exchanged for the
-- next one. Argon2 and the JWT library are given by their functions.
use mathlib.Core.Option.{some-injective}
use software_factory_ai.Common.{
  sym, false, ◌≡◌, refl, ap, ◌∙◌, Bool, true, ◌&&◌, Option, none, some, List, [], ◌∷◌, String, ◌==◌,
  string_eq, Bool-cases, inl, inr, ==_refl,
}
use software_factory_ai.Common.Rows.{find_row, update_row, find_row-key}
use software_factory_ai.Api.Transitions.{bind-inv, ok-injective, require-inv}
use software_factory_ai.Json.Values.{is_filled, filled_or}
use software_factory_ai.Database.{Database, Draw, User}
use software_factory_ai.Database.Queries.{record_audit_event}
use software_factory_ai.Api.Auth.{Response, ok, http_error, ◌>>=◌, ◌>>◌, require, Claims}
use software_factory_ai.Api.Operations.{Committed, human_audit}

-- backend/app/auth/security.py over its libraries: `hash` and the tokens are those of one request.
pub record Security : Type 0 where
  pub hash : String → String
  pub verify : (password password_hash : String) → Bool
  pub access_token : (username role : String) → String
  pub refresh_token : (username role : String) → String
  pub decode : String → Option Claims

-- TokenResponse
pub record Tokens : Type 0 where
  pub access_token : String
  pub refresh_token : String

-- raise HTTPException(401) where there is no value
abbrev pub known {ℓ} : {A : Type ℓ} → Option A → Response A
known none = http_error 401
known (some a) = ok a

-- The user with the hash of a new refresh token.
abbrev pub rotated : Security → User → User
rotated c user = record user {
  refresh_token_hash = some (c.hash (c.refresh_token user.username user.role));
}

abbrev pub tokens_of : Security → User → Tokens
tokens_of c user = record {
  access_token = c.access_token user.username user.role;
  refresh_token = c.refresh_token user.username user.role;
}

unfoldable pub write_user : User → Database → Database
unfolding update_row
write_user user db = record db { users = update_row (λ u. u.id) user.id (λ _. user) db.users }

unfoldable pub login :
    Security → Draw → (username password : String) → Database → Response (Committed Tokens)
unfolding find_row write_user record_audit_event
login c w username password db = do
  user ← known (find_row (λ u. u.username) db.users username)
  require (user.enabled && c.verify password user.password_hash) 401
  ok (record {
    db =
        record_audit_event w (human_audit user "login" "user" user.id none none none)
          (write_user (rotated c user) db);
    row = tokens_of c user;
    events = [];
  })

unfoldable pub refresh_tokens :
    Security → (refresh_token : String) → Database → Response (Committed Tokens)
unfolding find_row write_user
refresh_tokens c refresh_token db = do
  payload ← known (c.decode refresh_token)
  require (payload.token_type == "refresh") 401
  user ← known (find_row (λ u. u.username) db.users payload.sub)
  require (user.enabled && is_filled user.refresh_token_hash) 401
  require (c.verify refresh_token (filled_or user.refresh_token_hash "")) 401
  ok (record { db = write_user (rotated c user) db; row = tokens_of c user; events = [] })

-- A row that is written back under its id is found under the name that it had.
find_row-write :
    (users : List User) (name : String) (old new : User)
    → find_row (λ u. u.username) users name ≡ some old
    → new.username ≡ name
    → find_row (λ u. u.username) (update_row (λ u. u.id) old.id (λ _. new) users) name ≡ some new
unfolding find_row update_row
find_row-write [] name old new h n = cc
find_row-write (u ∷ users) name old new h n = elim (Bool-cases (u.username == name)) [
  | inl t ↦
      let same : u ≡ old = some-injective u old (rw t at h) in
      let i : (u.id == old.id) ≡ true = ap (λ x. x.id == old.id) same ∙ ==_refl old.id in
      rw (i, n, ==_refl name) refl
  | inr t ↦ elim (Bool-cases (u.id == old.id)) [
    | inl i ↦ rw (i, n, ==_refl name) refl
    | inr i ↦ rw (i, t) (find_row-write users name old new (rw t at h) n)
  ]
]

and-left : (a b : Bool) → (a && b) ≡ true → a ≡ true
and-left true b h = refl
and-left false b h = cc

known-ok {ℓ} : {A : Type ℓ} (o : Option A) (a : A) → known o ≡ ok a → o ≡ some a
known-ok none a h = cc
known-ok (some b) a h = ap some (ok-injective b a h)

-- The tables and the tokens of a refresh that is accepted.
refresh_tokens-ok :
    (c : Security) (token : String) (db : Database) (r : Committed Tokens)
    → refresh_tokens c token db ≡ ok r
    → (payload : Claims) × (user : User) × (c.decode token ≡ some payload)
      × ((payload.token_type == "refresh") ≡ true)
      × (find_row (λ u. u.username) db.users payload.sub ≡ some user)
      × (user.enabled ≡ true)
      × (r.db.users ≡ update_row (λ u. u.id) user.id (λ _. rotated c user) db.users)
unfolding refresh_tokens write_user
refresh_tokens-ok c token db r h =
    let (payload, d, h1) = bind-inv (known (c.decode token)) _ r h in
    let (_, t, h2) = bind-inv (require (payload.token_type == "refresh") 401) _ r h1 in
    let (user, f, h3) = bind-inv (known (find_row (λ u. u.username) db.users payload.sub)) _ r h2 in
    let (_, e, h4) =
      bind-inv (require (user.enabled && is_filled user.refresh_token_hash) 401) _ r h3 in
    let (_, _, h5) =
      bind-inv (require (c.verify token (filled_or user.refresh_token_hash "")) 401) _ r h4 in
    (
      payload,
      user,
      known-ok _ payload d,
      require-inv _ 401 _ t,
      known-ok _ user f,
      and-left user.enabled (is_filled user.refresh_token_hash) (require-inv _ 401 _ e),
      ap (λ x. x.db.users) (sym (ok-injective _ r h5)),
    )

-- The refresh token is rotated: after a refresh that is accepted, another refresh with the same
-- token is refused with 401, where the hash of the next token, which is not empty, does not
-- verify the old one.
pub refresh_tokens-rotated :
    (c c' : Security) (token : String) (db : Database) (r : Committed Tokens)
    → refresh_tokens c token db ≡ ok r
    → c'.decode token ≡ c.decode token
    → ((username role : String) → c'.verify token (c.hash (c.refresh_token username role)) ≡ false)
    → ((username role : String) → (c.hash (c.refresh_token username role) == "") ≡ false)
    → refresh_tokens c' token r.db ≡ http_error 401
unfolding refresh_tokens
refresh_tokens-rotated c c' token db r h same fresh filled =
    let (payload, user, d, t, f, e, rows) = refresh_tokens-ok c token db r h in
    let name = find_row-key (λ u. u.username) db.users payload.sub user f in
    let next = find_row-write db.users payload.sub user (rotated c user) f name in
    rw (same, d, t, rows, next, e, filled user.username user.role, fresh user.username user.role)
      refl
