-- ===== src/Mcp/Client/Http.antt =====
-- shared/mcp/client.py, _HttpSession: the messages as POST requests.
use software_factory_ai.Common.{
  ℕ, suc, not, ◌&&◌, ◌||◌, Option, none, some, List, [], ◌∷◌, String, leb, if◌then◌else◌, ◌==◌,
  string_eq, nat_eq,
}
use software_factory_ai.Common.Dict.{Dict, get, put, merge}
use software_factory_ai.Common.Text.{take_chars, drop_chars, starts_with, is_infix}
use software_factory_ai.Json.{Json, Fields}
use software_factory_ai.Json.Values.{is_filled, filled_or}
use software_factory_ai.Mcp.OAuth.{◌+++◌}
use software_factory_ai.Mcp.Client.{
  Answer, done, connection_error, authorization_required, ◌>>=◌, Python, Config, protocol_version,
  initialize_params, request, notification, raise_for_rpc_error, normalize_tools, version_of,
}

-- An httpx.Response with the headers that are read, or an httpx.HTTPError.
pub record HttpResponse : Type 0 where
  pub status : ℕ
  pub content_type : String
  pub session_id : Option String
  pub www_authenticate : Option String
  pub body : Option Json
  pub body_text : String

pub data HttpReply : Type 0 where
  replied : HttpResponse → HttpReply
  failed : String → HttpReply

-- The server: its reply to the k-th message of a session, with the headers of the request.
abbrev pub HttpServer : Type 0
HttpServer = ℕ → (message : Fields) → (headers : Dict String String) → HttpReply

-- The ids and the session that the next request uses, and the messages that were sent.
pub record HttpSession : Type 0 where
  pub next_id : ℕ
  pub session_id : Option String
  pub sent : ℕ

-- shared/mcp/oauth.py, parse_www_authenticate
unfoldable pub lowered : Python → List (String × String) → Dict String String
lowered py [] = []
lowered py ((key, value) ∷ pairs) = (py.lower key, value) ∷ lowered py pairs

unfoldable pub parse_www_authenticate : Python → Option String → Dict String String
unfolding merge lowered
parse_www_authenticate py header =
    if is_filled header then merge [] (lowered py (py.pairs (filled_or header ""))) else []

abbrev pub default_headers : Dict String String
default_headers =
    ("Content-Type", "application/json")
    ∷ ("Accept", "application/json, text/event-stream")
    ∷ ("MCP-Protocol-Version", protocol_version)
    ∷ []

abbrev pub put_filled :
    String → (String → String) → Option String → Dict String String → Dict String String
put_filled key value o d = if is_filled o then put d key (value (filled_or o "")) else d

-- _request_headers
unfoldable pub request_headers : Config → (session_id : Option String) → Dict String String
unfolding put merge
request_headers c session_id =
    put_filled "Mcp-Session-Id" (λ id. id) session_id
      (merge
        (put_filled "Authorization" (λ token. "Bearer " +++ token) c.access_token default_headers)
        c.headers)

-- _parse_sse: the first line of data that is JSON.
abbrev pub json_or : Option Json → Answer Json → Answer Json
json_or none other = other
json_or (some v) other = done v

unfoldable pub parse_sse : Python → (lines : List String) → Answer Json
unfolding starts_with drop_chars
parse_sse py [] = connection_error "Resposta SSE do servidor MCP sem payload JSON válido"
parse_sse py (line ∷ lines) =
    let rest = parse_sse py lines in
    let stripped = py.strip line in
    let payload = py.strip (drop_chars 5 stripped) in
    if starts_with "data:" stripped && not (payload == "")
    then json_or (py.loads payload) rest
    else rest

-- The status of a reply: 401 and 403 ask for an authorization, with the URL of the header.
abbrev pub checked_status : Python → HttpResponse → Answer HttpResponse
checked_status py r =
    if (r.status == 401) || (r.status == 403)
    then authorization_required
        ("O servidor MCP exige autorização (HTTP "
          +++ py.decimal r.status
          +++ "): "
          +++ take_chars 200 r.body_text)
        (get (parse_www_authenticate py r.www_authenticate) "resource_metadata")
    else if leb 400 r.status
    then connection_error (
        "Servidor MCP respondeu HTTP "
        +++ py.decimal r.status
        +++ ": "
        +++ take_chars 200 r.body_text)
    else done r

abbrev pub received : Python → HttpReply → Answer HttpResponse
received py (failed e) = connection_error ("Falha de rede ao chamar o servidor MCP: " +++ e)
received py (replied r) = checked_status py r

abbrev pub new_session : Option String → Option String → Option String
new_session new old = if is_filled new then new else old

-- _post
unfoldable pub post :
    Python → HttpServer → Config → Fields → HttpSession → Answer (HttpResponse × HttpSession)
unfolding request_headers parse_www_authenticate take_chars get
post py server c message s = do
  response ← received py (server s.sent message (request_headers c s.session_id))
  done (
    response,
    record s { session_id = new_session response.session_id s.session_id; sent = suc s.sent },
  )

abbrev pub json_body : HttpResponse → Option Json → Answer Json
json_body r none =
    connection_error ("Resposta do servidor MCP não é JSON: " +++ take_chars 200 r.body_text)
json_body r (some v) = done v

unfoldable pub payload_of : Python → HttpResponse → Answer Json
unfolding is_infix parse_sse take_chars
payload_of py r =
    if is_infix "text/event-stream" r.content_type
    then parse_sse py (py.lines r.body_text)
    else json_body r r.body

-- _HttpSession.request
unfoldable pub send_request :
    Python
    → HttpServer
    → Config
    → (method : String) → Option Fields
    → HttpSession
    → Answer (Json × HttpSession)
unfolding post request payload_of raise_for_rpc_error
send_request py server c method params s = do
  (response, s') ←
      post py server c (request py (suc s.next_id) method params)
        (record s { next_id = suc s.next_id })
  payload ← payload_of py response
  result ← raise_for_rpc_error py payload
  done (result, s')

-- _HttpSession.handshake
unfoldable pub handshake : Python → HttpServer → Config → HttpSession → Answer (Json × HttpSession)
unfolding send_request post notification
handshake py server c s = do
  (result, s') ← send_request py server c "initialize" (some initialize_params) s
  (_, s'') ← post py server c (notification "notifications/initialized" none) s'
  done (result, s'')

abbrev pub opened : HttpSession
opened = record { next_id = 0; session_id = none; sent = 0 }

-- discover_tools, over HTTP: the tools and the version of the server.
unfoldable pub discover_tools : Python → HttpServer → Config → Answer (List Fields × Json)
unfolding handshake send_request normalize_tools version_of
discover_tools py server c = do
  (info, s) ← handshake py server c opened
  (listing, _) ← send_request py server c "tools/list" none s
  tools ← normalize_tools py listing
  version ← version_of info
  done (tools, version)
