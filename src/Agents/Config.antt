-- ===== src/Agents/Config.antt =====
-- agents/config_store.py: the configuration of the database over the definition of the file.
use software_factory_ai.Common.{
  ℕ, ◌+◌, Bool, false, not, ◌&&◌, Option, none, some, [], String, ltb, if◌then◌else◌, string_eq,
}
use software_factory_ai.Common.Dict.{Dict, get}
use software_factory_ai.Json.{Json, bool, obj, Fields, end, field, get_field, put_field}
use software_factory_ai.Agents.{Validity, valid, type_error, validate_definition}

-- _deep_merge
unfoldable mutual
  unfolding get_field put_field

  pub deep_merge : Fields → Fields → Fields
  deep_merge base end = base
  deep_merge base (field k v override) =
      deep_merge (put_field base k (merged_value (get_field base k) v)) override

  -- The value of a key: two dicts are merged, any other value replaces the old one.
  pub merged_value : Option Json → Json → Json
  merged_value (some (obj b)) (obj o) = obj (deep_merge b o)
  merged_value _ v = v

-- A row of `agent_definitions` as it overrides the file.
pub record Override : Type 0 where
  pub enabled : Bool
  pub configuration : Fields

-- A definition or None, or the TypeError that the validation lets through.
pub data Merged : Type 0 where
  merged : Option Fields → Merged
  crashed : Merged

abbrev pub with_enabled : Fields → Bool → Fields
with_enabled d enabled = put_field d "enabled" (bool enabled)

unfoldable pub candidate : Option Fields → Override → Fields
unfolding deep_merge put_field
candidate none o = with_enabled o.configuration o.enabled
candidate (some base) o = with_enabled (deep_merge base o.configuration) o.enabled

unfoldable pub fallback : Option Fields → Override → Option Fields
unfolding put_field
fallback none o = none
fallback (some base) o = some (with_enabled base o.enabled)

abbrev pub by_validity : Fields → Option Fields → Validity → Merged
by_validity d other valid = merged (some d)
by_validity d other type_error = crashed
by_validity d other _ = merged other

-- merge_definition
unfoldable pub merge_definition : Option Fields → Option Override → Merged
unfolding candidate fallback validate_definition
merge_definition base none = merged base
merge_definition base (some o) =
    by_validity (candidate base o) (fallback base o) (validate_definition (candidate base o))

-- The cache: the table as it was read, and when.
abbrev pub Overrides : Type 0
Overrides = Dict String Override

pub record Cache : Type 0 where
  pub rows : Overrides
  pub at_time : ℕ

abbrev pub is_fresh : (ttl now : ℕ) → Option Cache → Bool
is_fresh ttl now none = false
is_fresh ttl now (some c) = ltb now (c.at_time + ttl)

abbrev pub rows_of : Option Cache → Overrides
rows_of none = []
rows_of (some c) = c.rows

-- What a read of the table gives, none on an error of the database.
abbrev pub read_rows : (now : ℕ) → Option Cache → Option Overrides → Overrides × Option Cache
read_rows now cache none = ([], cache)
read_rows now cache (some rows) = (rows, some (record { rows = rows; at_time = now }))

-- load_effective_configs: the rows, and the cache that is left.
unfoldable pub load_effective_configs :
    (ttl : ℕ) (force : Bool) (now : ℕ) → Option Overrides → Option Cache → Overrides × Option Cache
load_effective_configs ttl force now table cache =
    if not force && is_fresh ttl now cache
    then (rows_of cache, cache)
    else read_rows now cache table

-- effective_definition
unfoldable pub effective_definition :
    (ttl now : ℕ) → Option Overrides → Option Cache → Option Fields → String → Merged × Option Cache
unfolding load_effective_configs merge_definition get
effective_definition ttl now table cache base agent_id =
    let (rows, cache') = load_effective_configs ttl false now table cache in
    (merge_definition base (get rows agent_id), cache')
