-- ===== src/Database/Settings.antt =====
-- backend/app/models/entities.py: the tables that the screens of the configuration write. They are
-- kept apart from those of the runs, and their audit events hold JSON values.
use software_factory_ai.Common.{ℕ, Bool, Option, List, String}
use software_factory_ai.Common.Dict.{Dict}
use software_factory_ai.Json.{Fields}

pub record AgentDefinition : Type 0 where
  pub id : String
  pub name : String
  pub version : String
  pub domain : String
  pub configuration : Fields
  pub default_configuration : Fields
  pub stages : List String
  pub enabled : Bool

pub record McpServer : Type 0 where
  pub id : String
  pub name : String
  pub description : Option String
  pub transport : String
  pub command : Option String
  pub args : List String
  pub env : Dict String String
  pub url : Option String
  pub headers : Dict String String
  pub timeout_seconds : ℕ
  pub enabled : Bool
  pub tools : List Fields
  pub last_status : Option String
  pub last_error : Option String
  pub last_checked_at : Option ℕ
  pub oauth_metadata : Fields
  pub oauth_client_id : Option String
  pub oauth_client_secret : Option String
  pub oauth_scope : Option String
  pub oauth_resource : Option String
  pub oauth_access_token : Option String
  pub oauth_refresh_token : Option String
  pub oauth_expires_at : Option ℕ
  pub oauth_state : Option String
  pub oauth_code_verifier : Option String

-- A row of `audit_events` with the event `config.changed`.
pub record ConfigChange : Type 0 where
  pub id : String
  pub actor_id : String
  pub entity_type : String
  pub entity_id : String
  pub before_state : Option Fields
  pub after_state : Option Fields
  pub created_at : ℕ

pub record Settings : Type 0 where
  pub agents : List AgentDefinition
  pub servers : List McpServer
  pub changes : List ConfigChange
