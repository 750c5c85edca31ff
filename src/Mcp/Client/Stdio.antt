-- ===== src/Mcp/Client/Stdio.antt =====
-- shared/mcp/client.py, _StdioSession: the lines that a local server writes.
use software_factory_ai.Common.{
  ◌≡◌, refl, Bool, true, false, Option, none, some, List, [], ◌∷◌, ◌++◌, String, if◌then◌else◌,
  ◌==◌, string_eq, Bool-cases, inl, inr,
}
use software_factory_ai.Json.{Json, number, obj, get_field}
use software_factory_ai.Mcp.OAuth.{◌+++◌}
use software_factory_ai.Mcp.Client.{Answer, done, connection_error, crashed, Python}

-- What a read of a line meets: a line, the end of the output with the tail of the errors, or no
-- line before the deadline.
pub data Line : Type 0 where
  line : String → Line
  closed : (stderr : String) → Line
  late : Line

abbrev pub ended : (stderr : String) → Answer Json
ended stderr = connection_error (
    "Servidor MCP encerrou sem responder."
    +++ (if stderr == "" then "" else " stderr: " +++ stderr))

abbrev pub timed_out : (timeout : String) → Answer Json
timed_out timeout =
    connection_error ("Timeout de " +++ timeout +++ "s aguardando resposta do servidor")

-- payload.get("id") == request_id; the ids of the session are numbers.
abbrev pub has_id : String → Option Json → Bool
has_id id (some (number n)) = n == id
has_id id _ = false

-- One line: the response, or a crash on JSON that is no dict, or the rest of the lines.
abbrev pub answer_of : String → Option Json → Answer Json → Answer Json
answer_of id none rest = rest
answer_of id (some (obj d)) rest = if has_id id (get_field d "id") then done (obj d) else rest
answer_of id (some v) rest = crashed

-- _read_response. Lines that come after the list are later than the deadline.
unfoldable pub read_response : Python → (timeout id : String) → List Line → Answer Json
unfolding get_field
read_response py timeout id [] = timed_out timeout
read_response py timeout id (late ∷ lines) = timed_out timeout
read_response py timeout id (closed stderr ∷ lines) = ended stderr
read_response py timeout id (line t ∷ lines) =
    let rest = read_response py timeout id lines in
    if py.strip t == "" then rest else answer_of id (py.loads (py.strip t)) rest

-- A line that is no response: an empty one, a text that is no JSON, or a dict with another id.
abbrev pub is_other : String → Option Json → Bool
is_other id none = true
is_other id (some (obj d)) = if has_id id (get_field d "id") then false else true
is_other id (some v) = false

abbrev pub is_noise : Python → (id : String) → String → Bool
is_noise py id t = if py.strip t == "" then true else is_other id (py.loads (py.strip t))

unfoldable pub AllNoise : Python → (id : String) → List String → Type 0
AllNoise py id [] = Unit
AllNoise py id (t ∷ ts) = (is_noise py id t ≡ true) × AllNoise py id ts

abbrev pub as_lines : List String → List Line
as_lines [] = []
as_lines (t ∷ ts) = line t ∷ as_lines ts

skip_other :
    (id : String) (v : Option Json) (rest : Answer Json)
    → is_other id v ≡ true
    → answer_of id v rest ≡ rest
skip_other id none rest h = refl
skip_other id (some (obj d)) rest h = elim (Bool-cases (has_id id (get_field d "id"))) [
  | inl t ↦ let c : false ≡ true = rw t at h in cc
  | inr t ↦ rw t refl
]
skip_other id (some v) rest h = cc

-- The logs, notifications and answers to other requests that a server writes before its response
-- do not change what the session reads.
read_response-noise :
    (py : Python) (timeout id : String) (noise : List String) (lines : List Line)
    → AllNoise py id noise
    → read_response py timeout id (as_lines noise ++ lines) ≡ read_response py timeout id lines
unfolding read_response AllNoise
read_response-noise py timeout id [] lines h = refl
read_response-noise py timeout id (t ∷ ts) lines (here, rest) =
    elim (Bool-cases (py.strip t == "")) [
      | inl e ↦ rw e (read_response-noise py timeout id ts lines rest)
      | inr e ↦
          rw
            (
              e,
              skip_other id (py.loads (py.strip t))
                  (read_response py timeout id (as_lines ts ++ lines)) (rw e at here),
            )
            (read_response-noise py timeout id ts lines rest)
    ]
