-- ===== src/Tests/Sessions.antt =====
-- A session whose refresh token is exchanged once.
use software_factory_ai.Common.{◌≡◌, refl, true, some, [], ◌∷◌, ◌==◌, string_eq}
use software_factory_ai.Database.{User, empty, Database}
use software_factory_ai.Api.Auth.{http_error, Claims}
use software_factory_ai.Api.Operations.{Committed}
use software_factory_ai.Api.Sessions.{
  Security, Tokens, write_user, rotated, tokens_of, refresh_tokens, refresh_tokens-rotated,
}

abbrev claims : Claims
claims = record { sub = "ana"; token_type = "refresh" }

abbrev security : Security
security = record {
  hash = λ t. t;
  verify = λ password hash. password == hash;
  access_token = λ username role. "access";
  refresh_token = λ username role. "new";
  decode = λ t. some claims;
}

abbrev user : User
user = record {
  id = "u1";
  username = "ana";
  password_hash = "hash";
  role = "DEVELOPER";
  enabled = true;
  refresh_token_hash = some "old";
}

abbrev database : Database
database = record empty { users = user ∷ [] }

abbrev second_session : Committed Tokens
second_session = record {
  db = write_user (rotated security user) database;
  row = tokens_of security user;
  events = [];
}

refresh_tokens-rotated_example : refresh_tokens security "old" second_session.db ≡ http_error 401
unfolding refresh_tokens
refresh_tokens-rotated_example =
    refresh_tokens-rotated security security "old" database second_session refl refl (λ u r. refl)
      (λ u r. refl)
