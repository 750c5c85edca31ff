-- ===== src/Api/Projects.antt =====
-- backend/app/api/v1/projects.py and demands.py: the operations that change projects and demands.
use software_factory_ai.Common.{
  ℕ, ◌≡◌, sym, ap, subst, Option, none, some, [], ◌∷◌, ◌++◌, String, ◌==◌, if◌then◌else◌,
  text_append, string_eq, contains, ◌⊎◌, inl, inr, Bool-cases,
}
use software_factory_ai.Common.Dict.{Dict}
use software_factory_ai.Common.Rows.{find_row, update_row}
use software_factory_ai.Api.Transitions.{bind-inv, ok-injective, require-inv, found-inv, valid-inv}
use software_factory_ai.Json.Values.{filled_or}
use software_factory_ai.States.{
  ProjectStatus, ProjectStatus-discrete, project_status_eq, project_transitions,
  validate_transition, Allowed,
}
use software_factory_ai.Database.{Database, Draw, User, Project, Demand}
use software_factory_ai.Database.Queries.{record_audit_event, given, given_some}
use software_factory_ai.Api.Auth.{
  Response, ok, http_error, ◌>>=◌, ◌>>◌, require, found, require_role,
}
use software_factory_ai.Api.Operations.{Committed, human_audit}
use software_factory_ai.Api.Runs.{is_valid}

abbrev pub project_status_name : ProjectStatus → String
project_status_name ProjectStatus.draft = "DRAFT"
project_status_name ProjectStatus.planning = "PLANNING"
project_status_name ProjectStatus.active = "ACTIVE"
project_status_name ProjectStatus.waiting_approval = "WAITING_APPROVAL"
project_status_name ProjectStatus.blocked = "BLOCKED"
project_status_name ProjectStatus.completed = "COMPLETED"
project_status_name ProjectStatus.cancelled = "CANCELLED"
project_status_name ProjectStatus.archived = "ARCHIVED"

-- ProjectCreate
pub record ProjectCreate : Type 0 where
  pub name : String
  pub description : Option String
  pub repository_url : Option String

unfoldable pub create_project :
    (ℕ → Draw) → User → ProjectCreate → Database → Response (Committed Project)
unfolding require_role record_audit_event
create_project w caller body db = do
  user ← require_role "DEVELOPER" caller
  let project : Project = record {
    id = (w 0).id;
    name = body.name;
    description = body.description;
    status = ProjectStatus.draft;
    repository_url = body.repository_url;
    workspace_path = some (text_append "/workspaces/" (w 0).id);
  }
  ok (record {
    db =
        record_audit_event (w 1)
          (human_audit user "project.created" "project" project.id none none
            (some (("name", some project.name) ∷ [])))
          (record db { projects = db.projects ++ project ∷ [] });
    row = project;
    events = [];
  })

-- ProjectUpdate, with none for a text that is no status.
pub record ProjectUpdate : Type 0 where
  pub name : Option String
  pub description : Option String
  pub status : Option (Option ProjectStatus)
  pub repository_url : Option String

-- The new status, after its validation where it differs; 409 for a refused change.
abbrev pub changed_status : ProjectStatus → Option (Option ProjectStatus) → Response ProjectStatus
changed_status old none = ok old
changed_status old (some none) = http_error 409
changed_status old (some (some new)) =
    if new == old
    then ok old
    else require (is_valid (validate_transition old new project_transitions)) 409 >> ok new

abbrev pub project_state : Project → Option (Dict String (Option String))
project_state p =
    some (("status", some (project_status_name p.status)) ∷ ("name", some p.name) ∷ [])

unfoldable pub update_project :
    (w : Draw)
    → User
    → (project_id : String) → ProjectUpdate
    → Database
    → Response (Committed Project)
unfolding require_role find_row update_row record_audit_event validate_transition
    project_transitions ProjectStatus-discrete contains
update_project w caller project_id body db = do
  user ← require_role "DEVELOPER" caller
  project ← found (find_row (λ p. p.id) db.projects project_id)
  status ← changed_status project.status body.status
  let project' = record project {
    status = status;
    name = given body.name project.name;
    description = given_some body.description project.description;
    repository_url = given_some body.repository_url project.repository_url;
  }
  ok (record {
    db =
        record_audit_event w
          (human_audit user "state.changed" "project" project.id none (project_state project)
            (project_state project'))
          (record db { projects = update_row (λ p. p.id) project.id (λ _. project') db.projects });
    row = project';
    events = [];
  })

-- DemandCreate
pub record DemandCreate : Type 0 where
  pub title : String
  pub description : Option String
  pub priority : ℕ
  pub requester : Option String
  pub business_value : Option String

unfoldable pub create_demand :
    (ℕ → Draw)
    → User
    → (project_id : String) → DemandCreate
    → Database
    → Response (Committed Demand)
unfolding require_role find_row record_audit_event
create_demand w caller project_id body db = do
  user ← require_role "DEVELOPER" caller
  project ← found (find_row (λ p. p.id) db.projects project_id)
  let demand : Demand = record {
    id = (w 0).id;
    project_id = project_id;
    title = body.title;
    description = body.description;
    priority = body.priority;
    requester = some (filled_or body.requester user.username);
    business_value = body.business_value;
    status = "CREATED";
  }
  ok (record {
    db =
        record_audit_event (w 1)
          (human_audit user "demand.created" "demand" demand.id none none
            (some (("title", some demand.title) ∷ [])))
          (record db { demands = db.demands ++ demand ∷ [] });
    row = demand;
    events = [];
  })

changed_status-ok :
    (old new : ProjectStatus) (s : Option (Option ProjectStatus))
    → changed_status old s ≡ ok new
    → (new ≡ old) ⊎ Allowed project_transitions old new
changed_status-ok old new none h = inl (sym (ok-injective old new h))
changed_status-ok old new (some none) h = cc
changed_status-ok old new (some (some t)) h = elim (Bool-cases (t == old)) [
  | inl e ↦ inl (sym (ok-injective old new (rw e at h)))
  | inr e ↦
      let (u, passed, made) =
        bind-inv (require (is_valid (validate_transition old t project_transitions)) 409)
          (λ _. ok t) new (rw e at h) in
      inr (
        subst (Allowed project_transitions old) (ok-injective t new made)
          (valid-inv _ (require-inv _ 409 u passed)))
]

-- An update of a project that is accepted leaves its status, or changes it as PROJECT_TRANSITIONS
-- allows.
pub update_project-ok :
    (w : Draw) (caller : User) (project_id : String) (body : ProjectUpdate) (db : Database)
    (c : Committed Project)
    → update_project w caller project_id body db ≡ ok c
    → (project : Project) × (find_row (λ p. p.id) db.projects project_id ≡ some project)
      × ((c.row.status ≡ project.status) ⊎ Allowed project_transitions project.status c.row.status)
unfolding update_project
update_project-ok w caller project_id body db c h =
    let (user, _, h1) = bind-inv (require_role "DEVELOPER" caller) _ c h in
    let (project, f, h2) = bind-inv (found (find_row (λ p. p.id) db.projects project_id)) _ c h1 in
    let (status, s, h3) = bind-inv (changed_status project.status body.status) _ c h2 in
    let row = ap (λ x. x.row.status) (ok-injective _ c h3) in
    (
      project,
      found-inv _ project f,
      subst (λ x. (x ≡ project.status) ⊎ Allowed project_transitions project.status x) row
          (changed_status-ok project.status status body.status s),
    )
