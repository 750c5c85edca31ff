-- ===== src/Contracts.antt =====
-- shared/contracts/agent_result.py and shared/contracts/message.py: what agents return and what
-- the queues carry.
use software_factory_ai.Common.{ℕ, Option, List, String, Eq, eq_of_discrete}

pub data AgentStatus : Type 0 where
  approved changes_requested blocked failed : AgentStatus

unfoldable pub AgentStatus-discrete : Discrete AgentStatus
AgentStatus-discrete = hlevel

instance abbrev pub agent_status_eq : Eq AgentStatus
agent_status_eq = eq_of_discrete AgentStatus-discrete

-- The words that the JSON carries.
abbrev pub agent_status_name : AgentStatus → String
agent_status_name approved = "approved"
agent_status_name changes_requested = "changes_requested"
agent_status_name blocked = "blocked"
agent_status_name failed = "failed"

pub data Severity : Type 0 where
  info low medium high critical : Severity

unfoldable pub Severity-discrete : Discrete Severity
Severity-discrete = hlevel

instance abbrev pub severity_eq : Eq Severity
severity_eq = eq_of_discrete Severity-discrete

pub record Finding : Type 0 where
  pub id : String
  pub severity : Severity
  pub category : String
  pub description : String
  pub evidence : List String
  pub recommendation : String

pub record CodeFile : Type 0 where
  pub path : String
  pub content : String
  pub language : Option String

pub record AgentResult : Type 0 where
  pub agent_id : String
  pub execution_id : String
  pub status : AgentStatus
  pub summary : String
  pub findings : List Finding
  pub artifacts : List String
  pub code_files : List CodeFile
  pub next_recommended_agents : List String

-- The payload of a command is the stage and the context that the agent is given; the context is
-- the data of another component and is carried along unread, as text.
pub record Payload : Type 0 where
  pub stage : String
  pub context : String

pub record MessageEnvelope : Type 0 where
  pub message_id : String
  pub correlation_id : String
  pub causation_id : Option String
  pub workflow_run_id : Option String
  pub project_id : Option String
  pub task_id : Option String
  pub agent_id : Option String
  pub command : String
  pub priority : ℕ
  pub attempt : ℕ
  pub created_at : ℕ
  pub payload_reference : Option String
  pub payload : Option Payload
