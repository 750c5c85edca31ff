-- ===== src/Tests/Guards.antt =====
-- A viewer, who may read only, and an approver, against the guards of the API.
use software_factory_ai.Common.{ℕ, true, none, some, [], String}
use software_factory_ai.Json.{end}
use software_factory_ai.Database.{Draw, empty}
use software_factory_ai.Database.Settings.{Settings}
use software_factory_ai.Mcp.{Outside, replied}
use software_factory_ai.Api.Runs.{start_run, cancel_run, retry_run}
use software_factory_ai.Api.Tasks.{retry_task}
use software_factory_ai.Api.Approvals.{approve, reject}
use software_factory_ai.Api.Projects.{
  ProjectCreate, ProjectUpdate, DemandCreate, create_project, update_project, create_demand,
}
use software_factory_ai.Api.Agents.{AgentUpdate, update_agent, reset_agent}
use software_factory_ai.Api.Agents.DryRun.{test_agent}
use software_factory_ai.Api.Mcp.{
  McpServerCreate, McpServerUpdate, create_server, update_server, delete_server,
}
use software_factory_ai.Api.Mcp.Discovery.{
  connection_error, discover_server_tools, start_oauth, reset_oauth,
}
use software_factory_ai.Api.Roles.{Guarded, delivery-Guarded, settings-Guarded}
use software_factory_ai.Tests.Api.{person}

abbrev draws : ℕ → Draw
draws k = record { id = "new"; now = k }

abbrev project : ProjectCreate
project = record { name = "shop"; description = none; repository_url = none }

abbrev update : ProjectUpdate
update = record { name = none; description = none; status = none; repository_url = none }

abbrev demand : DemandCreate
demand = record {
  title = "title";
  description = none;
  priority = 5;
  requester = none;
  business_value = none;
}

delivery-Guarded_example :
    Guarded (person "VIEWER") 30 (create_project draws (person "VIEWER") project empty)
    × Guarded (person "VIEWER") 30 (update_project (draws 0) (person "VIEWER") "run" update empty)
    × Guarded (person "VIEWER") 30 (create_demand draws (person "VIEWER") "run" demand empty)
    × Guarded (person "VIEWER") 30 (start_run draws (person "VIEWER") "run" empty)
    × Guarded (person "VIEWER") 30 (retry_run draws (person "VIEWER") "run" empty)
    × Guarded (person "VIEWER") 30 (retry_task draws (person "VIEWER") "run" empty)
    × Guarded (person "VIEWER") 40 (approve draws "run" none (person "VIEWER") empty)
    × Guarded (person "VIEWER") 40 (reject draws "run" none (person "VIEWER") empty)
    × Guarded (person "VIEWER") 50 (cancel_run draws (person "VIEWER") "run" empty)
delivery-Guarded_example =
    delivery-Guarded draws (person "VIEWER") "run" none project update demand empty

abbrev settings : Settings
settings = record { agents = []; servers = []; changes = [] }

-- Libraries that answer with fixed values, and a network in which nothing is found.
abbrev outside : Outside
outside = record {
  urlparse = λ url. record { scheme = "https"; netloc = "mcp"; path = ""; query = "" };
  urlencode = λ params. "";
  get_url = λ k url. replied 404 none "";
  post_json = λ url payload. replied 404 none "";
  post_form = λ url form. replied 404 none "";
  repr = λ v. "value";
  decimal = λ n. "n";
  int_of = λ v. none;
  pkce = ("verifier", "challenge");
  state = "state";
  redirect_uri = "http://localhost/callback";
  now = 1000;
}

abbrev nothing : AgentUpdate
nothing = record {
  enabled = none;
  configuration = none;
  prompt_template = none;
  objective = none;
  responsibilities = none;
  model = none;
  tools = none;
  quality_gates = none;
  mcp_servers = none;
}

abbrev server : McpServerCreate
server = record {
  name = "docs";
  description = none;
  transport = "http";
  command = none;
  args = [];
  env = [];
  url = some "https://mcp";
  headers = [];
  timeout_seconds = 30;
  enabled = true;
}

abbrev unchanged : McpServerUpdate
unchanged = record {
  description = none;
  transport = none;
  command = none;
  args = none;
  env = none;
  headers = none;
  url = none;
  timeout_seconds = none;
  enabled = none;
}

abbrev strip : String → String
strip t = t

settings-Guarded_example :
    Guarded (person "APPROVER") 30 (test_agent strip (person "APPROVER") "x" end settings)
    × Guarded
        (person "APPROVER")
        50
        (update_agent strip (draws 0) (person "APPROVER") "x" nothing settings)
    × Guarded (person "APPROVER") 50 (reset_agent (draws 0) (person "APPROVER") "x" settings)
    × Guarded (person "APPROVER") 60 (create_server strip draws (person "APPROVER") server settings)
    × Guarded
        (person "APPROVER")
        60
        (update_server strip (draws 0) (person "APPROVER") "x" unchanged settings)
    × Guarded (person "APPROVER") 60 (delete_server (draws 0) (person "APPROVER") "x" settings)
    × Guarded (person "APPROVER") 60 (
        discover_server_tools outside
          (λ s t. connection_error "refused")
          (draws 0)
          (person "APPROVER")
          "x"
          settings)
    × Guarded
        (person "APPROVER")
        60
        (start_oauth outside (draws 0) (person "APPROVER") "x" settings)
    × Guarded (person "APPROVER") 60 (reset_oauth (draws 0) (person "APPROVER") "x" settings)
settings-Guarded_example =
    settings-Guarded strip outside (λ s t. connection_error "refused") draws (person "APPROVER") "x"
      end nothing server unchanged settings
