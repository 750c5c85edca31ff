-- ===== src/Mcp/Client.antt =====
-- shared/mcp/client.py: the messages of the protocol, the tools of a server, and both transports.
pub mod Http
pub mod Stdio
use software_factory_ai.Common.{
  ℕ, suc, Bool, true, false, not, ◌&&◌, ◌||◌, Option, none, some, List, [], ◌∷◌, ◌++◌, String,
  if◌then◌else◌, ◌==◌, string_eq, contains,
}
use software_factory_ai.Common.Dict.{Dict}
use software_factory_ai.Json.{
  Json, null, bool, number, text, arr, obj, Items, nil, item, Fields, end, field, get_field,
  put_field, is_true, has_field,
}
use software_factory_ai.Json.Values.{elements, is_given, is_filled, filled_or, or_dict}
use software_factory_ai.Database.Settings.{McpServer}
use software_factory_ai.Mcp.OAuth.{◌+++◌}

-- A value, an MCPConnectionError, an MCPAuthorizationRequired with the URL of the header, or
-- another exception.
pub data Answer {ℓ} (A : Type ℓ) : Type ℓ where
  done : A → Answer A
  connection_error : String → Answer A
  authorization_required : String → Option String → Answer A
  crashed : Answer A

infixl 5 ◌>>=◌ ◌>>◌
abbrev pub ◌>>=◌ {ℓ κ} : {A : Type ℓ} {B : Type κ} → Answer A → (A → Answer B) → Answer B
done a >>= f = f a
connection_error e >>= f = connection_error e
authorization_required e url >>= f = authorization_required e url
crashed >>= f = crashed

abbrev pub ◌>>◌ {ℓ} : {B : Type ℓ} → Answer (Unit {0}) → Answer B → Answer B
m >> k = m >>= λ _. k

-- if not test: raise MCPConnectionError(text)
abbrev pub require : Bool → String → Answer (Unit {0})
require true message = done tt
require false message = connection_error message

-- The functions of Python that are read: `str.strip`, `str.lower`, `text.splitlines`, json.loads,
-- `str`, the matches of the header's pattern, and the sort by name, none on a TypeError.
pub record Python : Type 0 where
  pub strip : String → String
  pub lower : String → String
  pub lines : String → List String
  pub loads : String → Option Json
  pub str : Json → String
  pub decimal : ℕ → String
  pub pairs : String → List (String × String)
  pub sorted : List Fields → Option (List Fields)

-- PROTOCOL_VERSION
abbrev pub protocol_version : String
protocol_version = "2024-11-05"

pub record Config : Type 0 where
  pub name : String
  pub transport : String
  pub command : Option String
  pub args : List String
  pub env : Dict String String
  pub url : Option String
  pub headers : Dict String String
  pub timeout_seconds : ℕ
  pub access_token : Option String

-- backend/app/api/v1/mcp.py, _to_config
unfoldable pub config_of : McpServer → Option String → Config
config_of s access_token = record {
  name = s.name;
  transport = s.transport;
  command = s.command;
  args = s.args;
  env = s.env;
  url = s.url;
  headers = s.headers;
  timeout_seconds = s.timeout_seconds;
  access_token = access_token;
}

-- MCPServerConfig.validate
unfoldable pub validate : Python → Config → Answer (Unit {0})
validate py c = do
  require ((c.transport == "stdio") || (c.transport == "http"))
      ("Transporte não suportado: " +++ c.transport)
  require (not ((c.transport == "stdio") && (py.strip (filled_or c.command "") == "")))
      "Transporte stdio exige 'command'"
  require (not ((c.transport == "http") && (py.strip (filled_or c.url "") == "")))
      "Transporte http exige 'url'"
  done tt

-- _initialize_params
abbrev pub initialize_params : Fields
initialize_params = field "protocolVersion" (text protocol_version) (
    field "capabilities" (obj end) (
      field "clientInfo"
        (obj (field "name" (text "software-factory") (field "version" (text "1.0.0") end))) end))

abbrev pub with_params : Option Fields → Fields → Fields
with_params none message = message
with_params (some params) message = put_field message "params" (obj params)

-- _request: the id is kept as the text of its number.
unfoldable pub request : Python → ℕ → (method : String) → Option Fields → Fields
unfolding put_field
request py id method params = with_params params (
    field "jsonrpc" (text "2.0")
      (field "id" (number (py.decimal id)) (field "method" (text method) end)))

-- _notification
unfoldable pub notification : (method : String) → Option Fields → Fields
unfolding put_field
notification method params =
    with_params params (field "jsonrpc" (text "2.0") (field "method" (text method) end))

-- v.get(key): an AttributeError on a value that is no dict.
abbrev pub get_attr : Json → String → Answer (Option Json)
get_attr (obj d) key = done (get_field d key)
get_attr v key = crashed

abbrev pub or_text : Python → String → Option Json → String
or_text py t none = t
or_text py t (some v) = py.str v

abbrev pub rpc_error : Python → Json → Answer Json
rpc_error py (obj e) = connection_error (
    "Erro do servidor MCP ("
    +++ or_text py "?" (get_field e "code")
    +++ "): "
    +++ or_text py "sem mensagem" (get_field e "message"))
rpc_error py v = crashed

abbrev pub rpc_result : Python → Option Json → Option Json → Answer Json
rpc_result py none result = done (or_dict result)
rpc_result py (some e) result = rpc_error py (if is_true e then e else obj end)

-- _raise_for_rpc_error: a payload that is no dict ends in a TypeError or an AttributeError.
unfoldable pub raise_for_rpc_error : Python → (payload : Json) → Answer Json
unfolding get_field
raise_for_rpc_error py (obj d) = rpc_result py (get_field d "error") (get_field d "result")
raise_for_rpc_error py v = crashed

-- (tool.get("description") or "").strip()
abbrev pub description_of : Python → Option Json → Answer String
description_of py none = done (py.strip "")
description_of py (some (text t)) = done (py.strip t)
description_of py (some v) = if is_true v then crashed else done (py.strip "")

abbrev pub or_json : Option Json → Json → Json
or_json none w = w
or_json (some v) w = if is_true v then v else w

abbrev pub tool_of : Fields → Json → String → Fields
tool_of d name description = field "name" name (
    field "description" (text description) (
      field "input_schema"
        (or_json (get_field d "inputSchema") (or_json (get_field d "input_schema") (obj end))) end))

-- The tools of the values that are dicts with a name.
abbrev pub add_tool : Python → Fields → Option Json → Answer (List Fields) → Answer (List Fields)
add_tool py d none rest = rest
add_tool py d (some name) rest =
    if is_true name
    then (do
      description ← description_of py (get_field d "description")
      tools ← rest
      done (tool_of d name description ∷ tools))
    else rest

unfoldable pub tools_of : Python → List Json → Answer (List Fields)
unfolding get_field
tools_of py [] = done []
tools_of py (obj d ∷ vs) = add_tool py d (get_field d "name") (tools_of py vs)
tools_of py (_ ∷ vs) = tools_of py vs

abbrev pub or_crash {ℓ} : {A : Type ℓ} → Option A → Answer A
or_crash none = crashed
or_crash (some a) = done a

abbrev pub listed : Option Json → Answer (List Json)
listed none = done []
listed (some v) = if is_true v then or_crash (elements v) else done []

unfoldable pub normalize_tools : Python → (result : Json) → Answer (List Fields)
unfolding tools_of elements get_field
normalize_tools py result = do
  value ← get_attr result "tools"
  vs ← listed value
  tools ← tools_of py vs
  or_crash (py.sorted tools)

-- (info.get("serverInfo") or {}).get("version") or ""
unfoldable pub version_of : (info : Json) → Answer Json
unfolding get_field
version_of info = do
  server_info ← get_attr info "serverInfo"
  version ← get_attr (or_dict server_info) "version"
  done (or_json version (text ""))
