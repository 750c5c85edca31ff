-- ===== src/Api/Operations.antt =====
-- What the operations of the API end with: the tables that are committed, the row that is
-- returned and the events that are published; a failed publication is ignored by the program.
use software_factory_ai.Common.{Option, none, some, List, String}
use software_factory_ai.Common.Dict.{Dict}
use software_factory_ai.States.{run_status_eq, task_status_eq, approval_status_eq}
use software_factory_ai.Database.{Database, User}
use software_factory_ai.Database.Queries.{Audit}

pub record Committed (A : Type 0) : Type 0 where
  pub db : Database
  pub row : A
  pub events : List (String × Dict String String)

-- record_audit, of a person
abbrev pub human_audit :
    User
    → (event_type entity_type entity_id : String) → Option String
    → (before after : Option (Dict String (Option String))) → Audit
human_audit user event_type entity_type entity_id correlation_id before after = record {
  event_type = event_type;
  actor_type = "human";
  actor_id = user.username;
  entity_type = some entity_type;
  entity_id = some entity_id;
  correlation_id = correlation_id;
  before_state = before;
  after_state = after;
  metadata = none;
}
