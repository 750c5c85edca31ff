-- ===== src/Lib.antt =====
-- Verification of the software factory: the orchestrator that takes a demand through the delivery
-- graph, the workers that run its agents, and the HTTP API through which people start, cancel,
-- retry, approve and reject, configure the agents and authorize MCP servers.
--
-- The parts and how they interact. The API (backend/app/api/v1) writes runs, tasks and approvals
-- into the tables. The orchestrator (orchestrator/main.py) polls the tables for queued runs, and
-- takes each through the graph of orchestrator/graphs/software_delivery.py. A node of the graph
-- either hands a stage to its agents (orchestrator/nodes/stages.py) or waits for a person
-- (orchestrator/nodes/approvals.py), and returns a partial state that the reducers of
-- orchestrator/state/state.py join to the state. The agents' commands are run by the workers
-- (workers/base/consumer.py), who write their results for the orchestrator.
--
-- The files:
-- Common: lists, dictionaries, tables by key, texts and tests that the others share.
-- Contracts: shared/contracts/agent_result.py and message.py.
-- States: shared/contracts/states.py, the statuses and the transition tables; histories of
--   validated changes in States/Laws and States/Reachability.
-- Database: backend/app/models/entities.py, the rows; Database/Queries: orchestrator/db.py.
-- Delivery/State: orchestrator/state/state.py, with one field for each key, `Update` for the
--   partial dict of a node and `apply_update` for the reducers; Delivery/Merge about them.
-- Delivery/Stages: orchestrator/nodes/stages.py. Delivery/Approvals: orchestrator/nodes/approvals.py.
-- Delivery/Graph: orchestrator/graphs/software_delivery.py, the routers and small nodes; Graph/Run
--   has the edges of `build_graph` and the runs that they make, with the recursion limit of
--   orchestrator/main.py; Graph/Execution runs the whole nodes with the tables, and Graph/Backing
--   and Graph/Consent are about what people had decided then. Counters, Effects, Bounds, Budget,
--   Potential, Termination, Progress and Gates carry the proofs about the runs.
-- Orchestrator: orchestrator/main.py, run_workflow and the two polls; Orchestrator/Recovery is about
--   the second.
-- Workers: workers/base/persistence.py and workers/base/consumer.py, with the failures of Redis and
--   of the broker in Workers/Consumer.
-- Api: backend/app/auth/deps.py and the operations of backend/app/api/v1/runs.py, approvals.py and
--   tasks.py that change the tables; Api/Waking joins them with the waiting nodes, and Api/Roles has
--   the guards of all operations.
-- Api/Projects: projects.py and demands.py. Api/Sessions: auth_routes.py. Api/Agents: agents.py.
-- Api/Mcp: mcp.py, with oauth_callback in Api/Mcp/Callback, the discovery and the start of a consent
--   in Api/Mcp/Discovery, and the links between agents and servers in Api/Mcp/Links.
-- Delivery/Context: orchestrator/context_builder.py. Delivery/Dispatch: orchestrator/nodes/dispatch.py,
--   joined with a worker in Dispatch/Replies.
-- Sandbox: sandbox/runner/runner.py, with the calls of Docker as events.
-- Tools: tools/base.py, the authorisation of a call. A tool is a function, with none for a timeout.
-- Json: the JSON values of configurations and metadata, with Python's reading of them.
-- Database/Settings: the rows of the agents' definitions and of the MCP servers.
-- Agents: agents/registry.py; Agents/Config: agents/config_store.py, the merge of the database over
--   the files; Agents/Merge and Agents/Effective about it; Agents/Routing: router.py and
--   `_resolve_stage_agents`, with the switch of the table in Routing/Switch; Agents/Sync: sync_agents and sync_agent_definitions.
-- Mcp/OAuth and Mcp/Tokens: shared/mcp/oauth.py; Mcp/Authorization: services/mcp_oauth.py, with a
--   function that changes the server returning it; Mcp/Laws and Mcp/Flow about them; Mcp/Client:
--   shared/mcp/client.py, with the HTTP and the stdio session.
-- Tests: the definitions on concrete values.
--
-- How state and time are modelled. The tables are one record, passed from write to write; the other
-- processes are a function of the tables for each sleep of a waiting node. A `Draw` is the fresh
-- uuid4 and the time of one write. LangGraph is not part of the program: its documented loop (run
-- the node, join the update by the reducers, take the edge) is `advance`, and what `ainvoke` answers
-- to the orchestrator is a parameter. A `Reply` is what agents or a person answer to one node, so
-- the theorems about all lists of replies are about all behaviours of agents and people.
--
-- Bounds. MAX_CYCLES, the recursion limit, the number of polls and MAX_ATTEMPTS are parameters. Runs of
-- the graph are lists of replies, one for each node, and a waiting node has a number of polls. The
-- recursion limit that is enough for the graph to end, and the polls that are enough for a wait to
-- return, are proved. The recursion limit is read as the number of nodes that may run.
--
-- Not modelled: the prompts and language models behind the agents, MinIO, RabbitMQ and Redis
-- themselves (their answers are parameters, and the expiry of Redis keys is left out), the JWT and
-- Argon2 libraries, HTTP, URL parsing, JSON decoding and randomness (parameters), the numeric
-- comparison of JSON numbers that are written differently, the order of listings, the
-- consumption of events, the subprocess of a stdio server, Docker, the tools
-- themselves and the web interface.
pub mod Common
pub mod Contracts
pub mod Json
pub mod Mcp
pub mod States
pub mod Database
pub mod Agents
pub mod Delivery
pub mod Orchestrator
pub mod Workers
pub mod Tools
pub mod Api
pub mod Sandbox
pub mod Tests
