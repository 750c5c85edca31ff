-- ===== src/Api/Mcp/Links.antt =====
-- A name that a configuration does not have is none of the servers that it links.
pub mod Deletion
use Prim.Native.String.{String}
use mathlib.Core.Option.{some-injective}
use software_factory_ai.Common.{
  ◌≡◌, refl, sym, ap, subst, ◌∙◌, Bool, true, false, not, ◌||◌, Option, none, some, List, [], ◌∷◌,
  if◌then◌else◌, ◌==◌, string_eq, contains, Bool-cases, inl, inr, ==_refl,
}
use software_factory_ai.Common.Lists.{any}
use software_factory_ai.Common.Rows.{find_row, find_row-key}
use software_factory_ai.Common.Text.{is_infix, starts_with}
use software_factory_ai.Json.{
  Json, text, arr, obj, Items, nil, item, Fields, end, field, get_field, has_item, has_field, is_in,
  is_true,
}
use software_factory_ai.Json.Values.{elements, chars, keys, texts, items_of}
use software_factory_ai.Database.{Draw, User}
use software_factory_ai.Database.Settings.{AgentDefinition, McpServer, Settings}
use software_factory_ai.Api.Auth.{ok, http_error, require_role, found, require}
use software_factory_ai.Api.Transitions.{bind-inv, ok-injective, require-inv, found-inv}
use software_factory_ai.Api.Agents.{
  is_unhashable, is_null, is_numeric, is_unknown_text, unknown_answer, elements_answer, names_of,
  validate_mcp_servers, check_servers, record_change,
}
use software_factory_ai.Api.Mcp.{
  declares, member_or_crash, agents_using, is_empty, remove_row, delete_server,
}

-- A value that is the name.
abbrev pub is_named : String → Json → Bool
is_named name (text t) = t == name
is_named name _ = false

or-false : (a b : Bool) → (a || b) ≡ false → (a ≡ false) × (b ≡ false)
or-false true b h = cc
or-false false b h = (refl, h)

chars-absent : (name s : String) → is_infix name s ≡ false → any (is_named name) (chars s) ≡ false
unfolding any chars is_infix starts_with
chars-absent name String.[] h = refl
chars-absent name (String.◌∷◌ c s) h = elim (Bool-cases (starts_with name (String.◌∷◌ c s))) [
  | inl t ↦ let x : true ≡ false = rw t at h in cc
  | inr t ↦ elim (Bool-cases (String.◌∷◌ c String.[] == name)) [
    | inl e ↦
        let same : String.◌∷◌ c String.[] ≡ name =
          (string_eq.beq_iff (String.◌∷◌ c String.[]) name).0 e in
        let no : starts_with (String.◌∷◌ c String.[]) (String.◌∷◌ c s) ≡ false =
          subst (λ x. starts_with x (String.◌∷◌ c s) ≡ false) (sym same) t in
        let hit : starts_with (String.◌∷◌ c String.[]) (String.◌∷◌ c s) ≡ true =
          rw (==_refl (String.◌∷◌ c String.[])) refl in
        let x : true ≡ false = sym hit ∙ no in cc
    | inr e ↦ rw e (chars-absent name s (rw t at h))
  ]
]

items-absent :
    (name : String) (xs : Items)
    → has_item xs name ≡ false
    → any (is_named name) (items_of xs) ≡ false
unfolding any items_of has_item
items-absent name nil h = refl
items-absent name (item (text t) xs) h = elim (Bool-cases (t == name)) [
  | inl e ↦ let x : true ≡ false = rw e at h in cc
  | inr e ↦ rw e (items-absent name xs (rw e at h))
]
items-absent name (item v xs) h = items-absent name xs h

keys-absent :
    (name : String) (d : Fields)
    → has_field d name ≡ false
    → any (is_named name) (texts (keys d)) ≡ false
unfolding any texts keys get_field
keys-absent name end h = refl
keys-absent name (field k v d) h = elim (Bool-cases (k == name)) [
  | inl e ↦ let x : true ≡ false = rw e at h in cc
  | inr e ↦ rw e (keys-absent name d (rw e at h))
]

-- A name that is not in a value is none of its elements.
pub elements-absent :
    (name : String) (v : Json) (vs : List Json)
    → is_in name v ≡ some false
    → elements v ≡ some vs
    → any (is_named name) vs ≡ false
unfolding is_in elements
elements-absent name (text s) vs h e =
    subst (λ x. any (is_named name) x ≡ false) (some-injective _ vs e)
      (chars-absent name s (some-injective _ false h))
elements-absent name (arr xs) vs h e =
    subst (λ x. any (is_named name) x ≡ false) (some-injective _ vs e)
      (items-absent name xs (some-injective _ false h))
elements-absent name (obj d) vs h e =
    subst (λ x. any (is_named name) x ≡ false) (some-injective _ vs e)
      (keys-absent name d (some-injective _ false h))
elements-absent name v vs h e = cc

-- The names that stay are known as before.
abbrev pub Keeps : (name : String) (known known' : List String) → Type 0
Keeps name known known' =
    (t : String) → (t == name) ≡ false → contains known t ≡ true → contains known' t ≡ true

not-false : (b : Bool) → not b ≡ false → b ≡ true
not-false true h = refl
not-false false h = cc

unknown-kept :
    (name : String) (known known' : List String) (vs : List Json)
    → Keeps name known known'
    → any (is_named name) vs ≡ false
    → any (is_unknown_text known) vs ≡ false
    → any (is_unknown_text known') vs ≡ false
unfolding any
unknown-kept name known known' [] k n u = refl
unknown-kept name known known' (text t ∷ vs) k n u =
    let (other, n') = or-false (t == name) (any (is_named name) vs) n in
    let (here, u') = or-false (not (contains known t)) (any (is_unknown_text known) vs) u in
    rw (k t other (not-false _ here)) (unknown-kept name known known' vs k n' u')
unknown-kept name known known' (v ∷ vs) k n u = unknown-kept name known known' vs k n u

unknown_answer-ok :
    (a b c : Bool) → unknown_answer a b c ≡ ok tt → (a ≡ false) × (b ≡ false) × (c ≡ false)
unknown_answer-ok false false false h = (refl, refl, refl)
unknown_answer-ok true false false h = cc
unknown_answer-ok false true false h = cc
unknown_answer-ok false false true h = cc
unknown_answer-ok true true c h = cc
unknown_answer-ok true false true h = cc
unknown_answer-ok false true true h = cc

pub elements_answer-kept :
    (name : String) (known known' : List String) (o : Option (List Json))
    → Keeps name known known'
    → ((vs : List Json) → o ≡ some vs → any (is_named name) vs ≡ false)
    → elements_answer known o ≡ ok tt
    → elements_answer known' o ≡ ok tt
elements_answer-kept name known known' none k n h = cc
elements_answer-kept name known known' (some vs) k n h = elim (Bool-cases (any is_unhashable vs)) [
  | inl e ↦ let x : http_error 500 ≡ ok tt = rw e at h in cc
  | inr e ↦
      let (a, b, c) =
        unknown_answer-ok (any is_null vs) (any is_numeric vs) (any (is_unknown_text known) vs)
          (rw e at h) in
      rw (e, a, b, unknown-kept name known known' vs k (n vs refl) c) refl
]
