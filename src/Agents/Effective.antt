-- ===== src/Agents/Effective.antt =====
-- agents/config_store.py: what the effective definition of an agent keeps of the database and of
-- the file.
use mathlib.Core.Option.{some-injective}
use software_factory_ai.Common.{
  ◌≡◌, refl, sym, subst, ◌∙◌, Bool, false, Option, none, some, List, [], ◌∷◌, String, ◌==◌, ◌⊎◌,
  string_eq, inl, inr,
}
use software_factory_ai.Common.Lists.{select}
use software_factory_ai.Json.{bool, Fields, get_field}
use software_factory_ai.Json.Laws.{get_field-put_field}
use software_factory_ai.Agents.{
  Validity, valid, missing_fields, missing_key, type_error, validate_definition, missing_of,
  part_test, required_fields,
}
use software_factory_ai.Agents.Config.{
  Override, merged, merge_definition, candidate, fallback, by_validity, with_enabled, deep_merge,
}

enabled_of : (d : Fields) (b : Bool) → get_field (with_enabled d b) "enabled" ≡ some (bool b)
enabled_of d b = get_field-put_field d "enabled" "enabled" (bool b)

-- What a merge returns: the candidate when it is valid, else the fallback.
by_validity-merged :
    (c d : Fields) (other : Option Fields) (v : Validity)
    → by_validity c other v ≡ merged (some d)
    → ((c ≡ d) × (v ≡ valid)) ⊎ (other ≡ some d)
by_validity-merged c d other valid h = inl (cc, refl)
by_validity-merged c d other type_error h = cc
by_validity-merged c d other (missing_fields fs) h = inr cc
by_validity-merged c d other (missing_key k) h = inr cc

fallback-some :
    (base : Option Fields) (o : Override) (d : Fields)
    → fallback base o ≡ some d
    → (b : Fields) × (base ≡ some b) × (with_enabled b o.enabled ≡ d)
unfolding fallback
fallback-some none o d h = cc
fallback-some (some b) o d h = (b, refl, some-injective _ _ h)

candidate-with_enabled :
    (base : Option Fields) (o : Override)
    → (b : Fields) × (candidate base o ≡ with_enabled b o.enabled)
unfolding candidate
candidate-with_enabled none o = (o.configuration, refl)
candidate-with_enabled (some base) o = (deep_merge base o.configuration, refl)

-- A definition that is merged with a row of the database has the row's column as its `enabled`,
-- whatever the configuration and the file say, also after a fall back to the file.
pub merge_definition-enabled :
    (base : Option Fields) (o : Override) (d : Fields)
    → merge_definition base (some o) ≡ merged (some d)
    → get_field d "enabled" ≡ some (bool o.enabled)
unfolding merge_definition
merge_definition-enabled base o d h = elim (by_validity-merged _ d _ _ h) [
  | inl (same, _) ↦
      let (b, made) = candidate-with_enabled base o in
      subst (λ x. get_field x "enabled" ≡ some (bool o.enabled)) (sym made ∙ same)
        (enabled_of b o.enabled)
  | inr e ↦
      let (b, _, made) = fallback-some base o d e in
      subst (λ x. get_field x "enabled" ≡ some (bool o.enabled)) made (enabled_of b o.enabled)
]

-- The write of `enabled` leaves the other keys.
pub get_field-with_enabled :
    (d : Fields) (b : Bool) (k : String)
    → ("enabled" == k) ≡ false
    → get_field (with_enabled d b) k ≡ get_field d k
get_field-with_enabled d b k new = get_field-put_field d "enabled" k (bool b) ∙ rw new refl

-- None of the keys is `enabled`.
pub Others : List String → Type 0
Others [] = Unit
Others (k ∷ ks) = (("enabled" == k) ≡ false) × Others ks

missing_of-with_enabled :
    (ks : List String) (d : Fields) (b : Bool)
    → Others ks
    → missing_of ks (with_enabled d b) ≡ missing_of ks d
unfolding missing_of select Others
missing_of-with_enabled [] d b h = refl
missing_of-with_enabled (k ∷ ks) d b (h, hs) =
    rw (get_field-with_enabled d b k h, missing_of-with_enabled ks d b hs) refl

pub required_fields-Others : Others required_fields
unfolding Others
required_fields-Others = (
  refl,
  (refl, (refl, (refl, (refl, (refl, (refl, (refl, (refl, (refl, (refl, (refl, tt))))))))))),
)

part_test-with_enabled :
    (part key : String) (d : Fields) (b : Bool)
    → ("enabled" == part) ≡ false
    → part_test part key (with_enabled d b) ≡ part_test part key d
unfolding part_test
part_test-with_enabled part key d b h = rw (get_field-with_enabled d b part h) refl

pub validate_definition-with_enabled :
    (d : Fields) (b : Bool) → validate_definition (with_enabled d b) ≡ validate_definition d
unfolding validate_definition
validate_definition-with_enabled d b =
    rw
      (
        missing_of-with_enabled required_fields d b required_fields-Others,
        part_test-with_enabled "inputs" "required" d b refl,
        part_test-with_enabled "tools" "allowed" d b refl,
        part_test-with_enabled "tools" "denied" d b refl,
        part_test-with_enabled "outputs" "schema" d b refl,
      )
      refl

-- With a valid file, or with none, whatever definition a merge returns is valid.
pub merge_definition-IsValid :
    (base : Option Fields) (o : Override) (d : Fields)
    → ((b : Fields) → base ≡ some b → validate_definition b ≡ valid)
    → merge_definition base (some o) ≡ merged (some d)
    → validate_definition d ≡ valid
unfolding merge_definition
merge_definition-IsValid base o d ok h = elim (by_validity-merged _ d _ _ h) [
  | inl (same, v) ↦ subst (λ x. validate_definition x ≡ valid) same v
  | inr e ↦
      let (b, from, made) = fallback-some base o d e in
      subst (λ x. validate_definition x ≡ valid) made
        (validate_definition-with_enabled b o.enabled ∙ ok b from)
]
