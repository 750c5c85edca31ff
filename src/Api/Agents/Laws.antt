-- ===== src/Api/Agents/Laws.antt =====
-- The configurations that the API accepts, and what the workers make of them.
pub mod Updates
use mathlib.Core.Option.{some-injective}
use software_factory_ai.Common.{
  ◌≡◌, ◌≢◌, refl, subst, ◌∙◌, Bool, true, false, Option, none, some, List, [], ◌∷◌, String, ◌==◌,
  string_eq, Bool-cases, Option-cases, inl, inr,
}
use software_factory_ai.Common.Lists.{select}
use software_factory_ai.Common.Rows.{find_row, update_row}
use software_factory_ai.Json.{Json, obj, Fields, end, get_field, is_in, is_true, same}
use software_factory_ai.Json.Values.{or_dict}
use software_factory_ai.Database.{Draw, User}
use software_factory_ai.Database.Settings.{AgentDefinition, Settings}
use software_factory_ai.Agents.{
  valid, required_fields, missing_of, part_test, or_null, validate_definition, key_test,
}
use software_factory_ai.Agents.Config.{Override, merged, merge_definition, candidate, deep_merge}
use software_factory_ai.Agents.Merge.{
  DistinctFields, get_field-deep_merge, merged_lookup, get_field-Distinct, is_in-merged_value,
}
use software_factory_ai.Agents.Effective.{validate_definition-with_enabled}
use software_factory_ai.Api.Auth.{Response, ok, http_error, require_role, found, ◌>>◌}
use software_factory_ai.Api.Transitions.{bind-inv, found-inv, ok-injective}
use software_factory_ai.Api.Agents.{
  Saved, AgentUpdate, validate_configuration, require_member, member_answer, no_missing,
  update_agent, stored, save_agent, record_change, check_servers, edited, with_prompt,
}

-- The configuration passes the validation of the API.
abbrev pub Accepted : Fields → Type 0
Accepted d = validate_configuration d ≡ ok tt

-- What the validation asked for.
pub HasMember : (part key : String) → Fields → Type 0
HasMember part key d = is_in key (or_dict (get_field d part)) ≡ some true

member_answer-ok : (o : Option Bool) → member_answer o ≡ ok tt → o ≡ some true
member_answer-ok none h = cc
member_answer-ok (some true) h = refl
member_answer-ok (some false) h = cc

require_member-ok :
    (part key : String) (d : Fields) → require_member part key d ≡ ok tt → HasMember part key d
unfolding require_member HasMember
require_member-ok part key d h = member_answer-ok _ h

no_missing-ok : (fs : List String) → no_missing fs ≡ ok tt → fs ≡ []
no_missing-ok [] h = refl
no_missing-ok (f ∷ fs) h = cc

then-inv : (m k : Response (Unit {0})) → (m >> k) ≡ ok tt → (m ≡ ok tt) × (k ≡ ok tt)
then-inv (ok tt) k h = (refl, h)
then-inv (http_error code) k h = cc

Accepted-inv :
    (d : Fields)
    → Accepted d
    → (missing_of required_fields d ≡ [])
      × HasMember "inputs" "required" d
      × HasMember "tools" "allowed" d
      × HasMember "tools" "denied" d
      × HasMember "outputs" "schema" d
unfolding validate_configuration
Accepted-inv d h =
    let (h1, o) = then-inv _ (require_member "outputs" "schema" d) h in
    let (h2, n) = then-inv _ (require_member "tools" "denied" d) h1 in
    let (h3, a) = then-inv _ (require_member "tools" "allowed" d) h2 in
    let (m, i) =
      then-inv (no_missing (missing_of required_fields d)) (require_member "inputs" "required" d)
        h3 in
    (
      no_missing-ok _ m,
      require_member-ok "inputs" "required" d i,
      require_member-ok "tools" "allowed" d a,
      require_member-ok "tools" "denied" d n,
      require_member-ok "outputs" "schema" d o,
    )

no_key : (key : String) → is_in key (obj end) ≢ some true
unfolding is_in get_field
no_key key c = cc

part_test-merge :
    (part key : String) (b o : Fields)
    → DistinctFields o
    → HasMember part key o
    → part_test part key (deep_merge b o) ≡ valid
unfolding HasMember part_test
part_test-merge part key b o h m =
    rw (get_field-deep_merge b o part h) (step (get_field o part) refl m)
  where
    step :
        (found : Option Json)
        → get_field o part ≡ found
        → is_in key (or_dict found) ≡ some true
        → key_test key (is_in key (or_null (merged_lookup (get_field b part) found))) ≡ valid
    step none e m' = absurd (no_key key m')
    step (some v) e m' = elim (Bool-cases (is_true v)) [
      | inl t ↦
          rw
            (is_in-merged_value key (get_field b part) v (get_field-Distinct o part v h e)
              (rw t at m'))
            refl
      | inr f ↦ let c : is_in key (obj end) ≡ some true = rw f at m' in absurd (no_key key c)
    ]

part_test-HasMember :
    (part key : String) (o : Fields) → HasMember part key o → part_test part key o ≡ valid
unfolding HasMember part_test
part_test-HasMember part key o m = step (get_field o part) m
  where
    step :
        (found : Option Json)
        → is_in key (or_dict found) ≡ some true
        → key_test key (is_in key (or_null found)) ≡ valid
    step none m' = absurd (no_key key m')
    step (some v) m' = elim (Bool-cases (is_true v)) [
      | inl t ↦ let c : is_in key v ≡ some true = rw t at m' in rw c refl
      | inr f ↦ let c : is_in key (obj end) ≡ some true = rw f at m' in absurd (no_key key c)
    ]

-- A required key of the configuration is in the merge.
missing_of-merge :
    (ks : List String) (b o : Fields)
    → DistinctFields o
    → missing_of ks o ≡ []
    → missing_of ks (deep_merge b o) ≡ []
unfolding missing_of select
missing_of-merge [] b o h m = refl
missing_of-merge (k ∷ ks) b o h m = elim (Option-cases (get_field o k)) [
  | inl e ↦ let c : k ∷ missing_of ks o ≡ [] = rw e at m in cc
  | inr (w, e) ↦ rw (get_field-deep_merge b o k h, e) (missing_of-merge ks b o h (rw e at m))
]

-- A definition with all that the validation of the file asks for.
valid_parts :
    (d : Fields)
    → missing_of required_fields d ≡ []
    → part_test "inputs" "required" d ≡ valid
    → part_test "tools" "allowed" d ≡ valid
    → part_test "tools" "denied" d ≡ valid
    → part_test "outputs" "schema" d ≡ valid
    → validate_definition d ≡ valid
unfolding validate_definition
valid_parts d m i a n o = rw (m, i, a, n, o) refl

-- A configuration that the API accepts makes a valid definition over any file.
candidate-IsValid :
    (base : Option Fields) (o : Override)
    → DistinctFields o.configuration
    → Accepted o.configuration
    → validate_definition (candidate base o) ≡ valid
unfolding candidate
candidate-IsValid none o h a =
    let c = o.configuration in
    let (m, i, al, dn, sch) = Accepted-inv c a in
    validate_definition-with_enabled c o.enabled
    ∙ valid_parts c m (part_test-HasMember "inputs" "required" c i)
        (part_test-HasMember "tools" "allowed" c al) (part_test-HasMember "tools" "denied" c dn)
        (part_test-HasMember "outputs" "schema" c sch)
candidate-IsValid (some b) o h a =
    let c = o.configuration in
    let (m, i, al, dn, sch) = Accepted-inv c a in
    validate_definition-with_enabled (deep_merge b c) o.enabled
    ∙ valid_parts (deep_merge b c) (missing_of-merge required_fields b c h m)
        (part_test-merge "inputs" "required" b c h i) (part_test-merge "tools" "allowed" b c h al)
        (part_test-merge "tools" "denied" b c h dn) (part_test-merge "outputs" "schema" b c h sch)

-- A configuration that the API accepts, with distinct keys, is what the orchestrator and the
-- workers use: the merge over any file, or over none, is the merged configuration itself, with no
-- fall back to the file and no error.
pub merge_definition-Accepted :
    (base : Option Fields) (o : Override)
    → DistinctFields o.configuration
    → Accepted o.configuration
    → merge_definition base (some o) ≡ merged (some (candidate base o))
unfolding merge_definition
merge_definition-Accepted base o h a = rw (candidate-IsValid base o h a) refl
