-- ===== src/Tools.antt =====
-- tools/base.py: the registry of tools and the authorisation of their calls.
pub mod Authorization
use software_factory_ai.Common.{
  Bool, true, false, not, ◌||◌, ◌&&◌, Option, none, some, List, [], ◌∷◌, String, if◌then◌else◌,
  ◌==◌, contains, string_eq,
}
use software_factory_ai.Common.Dict.{Dict, get}
use software_factory_ai.Common.Text.{starts_with}

-- What a call returns, or the exception that it raises. An exception of the tool itself is part
-- of its answer.
pub data Call {ℓ} (R : Type ℓ) : Type ℓ where
  returned : R → Call R
  tool_not_allowed tool_not_registered path_not_allowed timed_out : Call R

-- The tools by name: from the id of the execution and the arguments, an answer or none where the
-- time is over.
abbrev pub Registry {ℓ κ} : Type ℓ → Type κ → Type (ℓ ⊔ κ)
Registry A R = Dict String (String → A → Option R)

-- The lists `tools.allowed` and `tools.denied` of an agent's definition.
pub record Policy : Type 0 where
  pub allowed : List String
  pub denied : List String

-- path.startswith("/") and not path.startswith(workspace)
unfoldable pub outside_workspace : Option String → String → Bool
unfolding starts_with
outside_workspace none path = false
outside_workspace (some workspace) path = starts_with "/" path && not (starts_with workspace path)

abbrev pub answer {ℓ} : {R : Type ℓ} → Option R → Call R
answer none = timed_out
answer (some r) = returned r

-- authorized_call; `path_of` is arguments.get("path", "").
unfoldable pub authorized_call {ℓ κ} :
    {A : Type ℓ} {R : Type κ}
    → Registry A R
    → (A → String)
    → Policy
    → (tool_name execution_id : String) → A
    → Option String
    → Call R
unfolding contains get outside_workspace
authorized_call registry path_of policy tool_name execution_id arguments workspace =
    if contains policy.denied tool_name || not (contains policy.allowed tool_name)
    then tool_not_allowed
    else elim (get registry tool_name) [
      | none ↦ tool_not_registered
      | some tool ↦
          if outside_workspace workspace (path_of arguments)
          then path_not_allowed
          else answer (tool execution_id arguments)
    ]
