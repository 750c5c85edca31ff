-- ===== src/Agents.antt =====
-- agents/registry.py: the definitions of the agents and the elements that each must have.
pub mod Config
pub mod Merge
pub mod Effective
pub mod Routing
pub mod Sync
use software_factory_ai.Common.{
  Bool, true, false, not, Option, none, some, List, [], ◌∷◌, String, if◌then◌else◌, ◌==◌, string_eq,
}
use software_factory_ai.Common.Dict.{Dict, get}
use software_factory_ai.Common.Lists.{select}
use software_factory_ai.Json.{Json, null, text, Fields, get_field, has_field, is_in}

-- REQUIRED_FIELDS
abbrev pub required_fields : List String
required_fields =
    "id" ∷ "name" ∷ "version" ∷ "domain" ∷ "objective" ∷ "inputs" ∷ "outputs" ∷ "tools" ∷ "model"
    ∷ "quality_gates" ∷ "retry" ∷ "escalation" ∷ []

-- How a validation ends: the first two errors are AgentDefinitionError (HTTP 422 in the API), the
-- last is the TypeError of `in` on a value that holds nothing.
pub data Validity : Type 0 where
  valid : Validity
  missing_fields : List String → Validity
  missing_key : String → Validity
  type_error : Validity

infixl 5 ◌>>◌
abbrev pub ◌>>◌ : Validity → Validity → Validity
valid >> v = v
missing_fields names >> v = missing_fields names
missing_key key >> v = missing_key key
type_error >> v = type_error

-- if "key" not in value: raise
abbrev pub key_test : String → Option Bool → Validity
key_test key none = type_error
key_test key (some true) = valid
key_test key (some false) = missing_key key

abbrev pub require_key : String → Json → Validity
require_key key v = key_test key (is_in key v)

-- if missing: raise
abbrev pub fields_test : List String → Validity
fields_test [] = valid
fields_test (f ∷ fs) = missing_fields (f ∷ fs)

abbrev pub or_null : Option Json → Json
or_null none = null
or_null (some v) = v

-- [f for f in fields if f not in definition]
unfoldable pub missing_of : List String → Fields → List String
unfolding select get_field
missing_of fields d = select (λ f. not (has_field d f)) fields

-- if key not in definition[part]: raise
unfoldable pub part_test : (part key : String) → Fields → Validity
unfolding is_in get_field
part_test part key d = require_key key (or_null (get_field d part))

-- validate_definition
unfoldable pub validate_definition : Fields → Validity
unfolding missing_of part_test
validate_definition d =
    fields_test (missing_of required_fields d)
    >> part_test "inputs" "required" d
    >> part_test "tools" "allowed" d
    >> part_test "tools" "denied" d
    >> part_test "outputs" "schema" d

-- AgentRegistry: the definitions by id.
abbrev pub Registry : Type 0
Registry = Dict String Fields

abbrev pub is_text : String → Option Json → Bool
is_text t (some (text u)) = u == t
is_text t _ = false

-- by_domain
unfoldable pub by_domain : Registry → String → List Fields
unfolding get_field
by_domain [] domain = []
by_domain ((id, d) ∷ registry) domain =
    let rest = by_domain registry domain in
    if is_text domain (get_field d "domain") then d ∷ rest else rest
