-- ===== src/Api/Roles.antt =====
-- Who may call the operations of the API: the guards by `require_role`.
use software_factory_ai.Common.{
  ℕ, ◌≤◌, le_of_not_ltb, ◌≡◌, refl, ◌↔◌, ◌⊎◌, Bool-cases, inl, inr, Option, some, String, ltb,
  if◌then◌else◌, arith, string_eq,
}
use software_factory_ai.Common.Dict.{get}
use software_factory_ai.Json.{Fields}
use software_factory_ai.Database.{Database, Draw, User}
use software_factory_ai.Database.Settings.{McpServer, Settings}
use software_factory_ai.Mcp.{Outside}
use software_factory_ai.Api.Auth.{
  Response, ok, http_error, ◌>>=◌, require_role, role_level, role_hierarchy,
}
use software_factory_ai.Api.Runs.{start_run, cancel_run, retry_run}
use software_factory_ai.Api.Tasks.{retry_task}
use software_factory_ai.Api.Approvals.{approve, reject}
use software_factory_ai.Api.Projects.{
  ProjectCreate, ProjectUpdate, DemandCreate, create_project, update_project, create_demand,
}
use software_factory_ai.Api.Agents.{AgentUpdate, update_agent, reset_agent}
use software_factory_ai.Api.Agents.DryRun.{test_agent}
use software_factory_ai.Api.Mcp.{
  McpServerCreate, McpServerUpdate, create_server, update_server, delete_server,
}
use software_factory_ai.Api.Mcp.Discovery.{
  Discovery, discover_server_tools, start_oauth, reset_oauth,
}

passes_iff {ℓ} :
    {A : Type ℓ} (m n : ℕ) (a : A) → ((if ltb n m then http_error 403 else ok a) ≡ ok a) ↔ (m ≤ n)
passes_iff m n a = elim (Bool-cases (ltb n m)) [
  | inl e ↦ rw e (λ h. cc, λ h. ground arith)
  | inr e ↦ rw e (λ h. ground arith, λ h. refl)
]

-- A user passes the test of a role of the hierarchy, and is returned as is, exactly with at least
-- the level of that role.
pub require_role-ok :
    (minimum : String) (level : ℕ) (user : User)
    → get role_hierarchy minimum ≡ some level
    → (require_role minimum user ≡ ok user) ↔ (level ≤ role_level user.role)
unfolding require_role
require_role-ok minimum level user e = rw e (passes_iff level _ user)

-- The caller has the level, or the answer is 403.
abbrev pub Guarded {ℓ} : {A : Type ℓ} → User → ℕ → Response A → Type ℓ
Guarded caller level answer = (level ≤ role_level caller.role) ⊎ (answer ≡ http_error 403)

require_role-Guarded {ℓ} :
    {A : Type ℓ} (minimum : String) (level : ℕ) (caller : User) (k : User → Response A)
    → get role_hierarchy minimum ≡ some level
    → Guarded caller level (require_role minimum caller >>= k)
unfolding require_role
require_role-Guarded minimum level caller k e =
    elim (Bool-cases (ltb (role_level caller.role) level)) [
      | inl below ↦ inr (rw (e, below) refl)
      | inr above ↦ inl (le_of_not_ltb (role_level caller.role) level above)
    ]

level_of_developer : get role_hierarchy "DEVELOPER" ≡ some 30
unfolding get
level_of_developer = refl

level_of_approver : get role_hierarchy "APPROVER" ≡ some 40
unfolding get
level_of_approver = refl

pub level_of_manager : get role_hierarchy "FACTORY_MANAGER" ≡ some 50
unfolding get
level_of_manager = refl

level_of_admin : get role_hierarchy "ADMIN" ≡ some 60
unfolding get
level_of_admin = refl

-- Whatever the tables hold and the request says: without the level 30 of a developer, no project
-- or demand is created, no project is changed, and no run or task is started or tried again;
-- without the level 40 of an approver, nothing is approved or rejected; without the level 50 of a
-- factory manager, no run is cancelled. The answer is then 403, and nothing is committed.
pub delivery-Guarded :
    (w : ℕ → Draw) (caller : User) (id : String) (rationale : Option String)
    (project : ProjectCreate) (update : ProjectUpdate) (demand : DemandCreate) (db : Database)
    → Guarded caller 30 (create_project w caller project db)
      × Guarded caller 30 (update_project (w 0) caller id update db)
      × Guarded caller 30 (create_demand w caller id demand db)
      × Guarded caller 30 (start_run w caller id db)
      × Guarded caller 30 (retry_run w caller id db)
      × Guarded caller 30 (retry_task w caller id db)
      × Guarded caller 40 (approve w id rationale caller db)
      × Guarded caller 40 (reject w id rationale caller db)
      × Guarded caller 50 (cancel_run w caller id db)
unfolding create_project update_project create_demand start_run retry_run retry_task approve reject
    cancel_run
delivery-Guarded w caller id rationale project update demand db = (
  require_role-Guarded "DEVELOPER" 30 caller _ level_of_developer,
  require_role-Guarded "DEVELOPER" 30 caller _ level_of_developer,
  require_role-Guarded "DEVELOPER" 30 caller _ level_of_developer,
  require_role-Guarded "DEVELOPER" 30 caller _ level_of_developer,
  require_role-Guarded "DEVELOPER" 30 caller _ level_of_developer,
  require_role-Guarded "DEVELOPER" 30 caller _ level_of_developer,
  require_role-Guarded "APPROVER" 40 caller _ level_of_approver,
  require_role-Guarded "APPROVER" 40 caller _ level_of_approver,
  require_role-Guarded "FACTORY_MANAGER" 50 caller _ level_of_manager,
)

-- Whatever the settings hold and the request says: without the level 30 of a developer, no agent
-- is tried; without the level 50 of a factory manager, no agent is changed or reset; without the
-- level 60 of an administrator, no MCP server is created, changed, deleted, asked for its tools or
-- authorized, and no authorization is reset. The answer is then 403, and nothing is committed.
pub settings-Guarded :
    (strip : String → String) (o : Outside) (discover : McpServer → Option String → Discovery)
    (w : ℕ → Draw) (caller : User) (id : String) (input : Fields) (agent : AgentUpdate)
    (server : McpServerCreate) (update : McpServerUpdate) (s : Settings)
    → Guarded caller 30 (test_agent strip caller id input s)
      × Guarded caller 50 (update_agent strip (w 0) caller id agent s)
      × Guarded caller 50 (reset_agent (w 0) caller id s)
      × Guarded caller 60 (create_server strip w caller server s)
      × Guarded caller 60 (update_server strip (w 0) caller id update s)
      × Guarded caller 60 (delete_server (w 0) caller id s)
      × Guarded caller 60 (discover_server_tools o discover (w 0) caller id s)
      × Guarded caller 60 (start_oauth o (w 0) caller id s)
      × Guarded caller 60 (reset_oauth (w 0) caller id s)
unfolding test_agent update_agent reset_agent create_server update_server delete_server
    discover_server_tools start_oauth reset_oauth
settings-Guarded strip o discover w caller id input agent server update s = (
  require_role-Guarded "DEVELOPER" 30 caller _ level_of_developer,
  require_role-Guarded "FACTORY_MANAGER" 50 caller _ level_of_manager,
  require_role-Guarded "FACTORY_MANAGER" 50 caller _ level_of_manager,
  require_role-Guarded "ADMIN" 60 caller _ level_of_admin,
  require_role-Guarded "ADMIN" 60 caller _ level_of_admin,
  require_role-Guarded "ADMIN" 60 caller _ level_of_admin,
  require_role-Guarded "ADMIN" 60 caller _ level_of_admin,
  require_role-Guarded "ADMIN" 60 caller _ level_of_admin,
  require_role-Guarded "ADMIN" 60 caller _ level_of_admin,
)
