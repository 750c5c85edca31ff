-- ===== src/Agents/Merge.antt =====
-- The deep merge against its meaning, key by key and path by path.
use mathlib.Core.Option.{some-injective}
use software_factory_ai.Common.{
  ◌≡◌, refl, ap, sym, ◌∙◌, subst, Bool, true, false, Option, none, some, List, [], ◌∷◌, String,
  ◌==◌, string_eq, Bool-cases, inl, inr,
}
use software_factory_ai.Json.{
  is_in, Json, obj, Fields, end, field, get_field, put_field, has_field, is_some,
}
use software_factory_ai.Json.Laws.{get_field-put_field}
use software_factory_ai.Agents.Config.{deep_merge, merged_value}

-- The keys of each dict differ, at any depth inside dicts.
unfoldable mutual
  unfolding get_field

  pub Distinct : Json → Type 0
  Distinct (obj d) = DistinctFields d
  Distinct _ = Unit

  pub DistinctFields : Fields → Type 0
  DistinctFields end = Unit
  DistinctFields (field k v d) = (has_field d k ≡ false) × Distinct v × DistinctFields d

-- The value of a merged dict under a key, from the two values.
abbrev pub merged_lookup : Option Json → Option Json → Option Json
merged_lookup old none = old
merged_lookup old (some v) = some (merged_value old v)

absent : (d : Fields) (k : String) → has_field d k ≡ false → get_field d k ≡ none
absent d k h = none_of (get_field d k) h
  where
    none_of : (o : Option Json) → is_some o ≡ false → o ≡ none
    none_of none e = refl
    none_of (some v) e = cc

pub get_field-deep_merge :
    (base override : Fields) (k : String)
    → DistinctFields override
    → get_field (deep_merge base override) k
      ≡ merged_lookup (get_field base k) (get_field override k)
unfolding Distinct deep_merge get_field
get_field-deep_merge base end k h = refl
get_field-deep_merge base (field j v override) k (new, _, rest) =
    get_field-deep_merge (put_field base j (merged_value (get_field base j) v)) override k rest
    ∙ rw (get_field-put_field base j k (merged_value (get_field base j) v))
        (elim (Bool-cases (j == k)) [
          | inl e ↦
              let same : j ≡ k = (string_eq.beq_iff j k).0 e in
              rw (e, absent override k (subst (λ i. has_field override i ≡ false) same new), same)
                refl
          | inr e ↦ rw e refl
        ])

-- The value at a path of keys.
abbrev pub at_key : Option Json → (Json → Option Json) → Option Json
at_key none f = none
at_key (some v) f = f v

unfoldable pub at_path : List String → Json → Option Json
unfolding get_field
at_path [] v = some v
at_path (k ∷ path) (obj d) = at_key (get_field d k) (at_path path)
at_path (k ∷ path) _ = none

abbrev pub is_obj : Json → Bool
is_obj (obj d) = true
is_obj _ = false

-- A value of a dict with distinct keys has distinct keys.
pub get_field-Distinct :
    (d : Fields) (k : String) (v : Json) → DistinctFields d → get_field d k ≡ some v → Distinct v
unfolding get_field Distinct
get_field-Distinct end k v h e = cc
get_field-Distinct (field j w d) k v (new, here, rest) e = elim (Bool-cases (j == k)) [
  | inl t ↦ subst Distinct (some-injective _ _ (rw (t, get_field) at e)) here
  | inr t ↦ get_field-Distinct d k v rest (rw (t, get_field) at e)
]

merged_value-leaf : (old : Option Json) (v : Json) → is_obj v ≡ false → merged_value old v ≡ v
unfolding deep_merge
merged_value-leaf (some (obj b)) (obj o) h = cc
merged_value-leaf none v h = refl
merged_value-leaf (some w) v h = refl

merged_value-at_path :
    (path : List String) (old : Option Json) (w v : Json)
    → Distinct w
    → at_path path w ≡ some v
    → is_obj v ≡ false
    → at_path path (merged_value old w) ≡ some v
unfolding at_path deep_merge Distinct
merged_value-at_path [] old w v h e leaf =
    let same : w ≡ v = some-injective _ _ e in
    ap some (rw (merged_value-leaf old w (subst (λ x. is_obj x ≡ false) (sym same) leaf)) same)
merged_value-at_path (k ∷ path) (some (obj b)) (obj o) v h e leaf =
    rw (get_field-deep_merge b o k h)
      (step (λ u m. merged_value-at_path path (get_field b k) u v m) (get_field o k) refl)
  where
    step :
        ((u : Json)
          → Distinct u
          → at_path path u ≡ some v
          → is_obj v ≡ false
          → at_path path (merged_value (get_field b k) u) ≡ some v)
        → (found : Option Json) → get_field o k ≡ found
        → at_key (merged_lookup (get_field b k) found) (at_path path) ≡ some v
    step again none f = let e' : at_key none (at_path path) ≡ some v = rw f at e in cc
    step again (some w) f =
        let e' : at_key (some w) (at_path path) ≡ some v = rw f at e in
        again w (get_field-Distinct o k w h f) e' leaf
merged_value-at_path (k ∷ path) none w v h e leaf = e
merged_value-at_path (k ∷ path) (some _) w v h e leaf = e

-- The merge at a path: where the override of distinct keys has a value that is no dict, the
-- merged dict has it too.
pub deep_merge-at_path :
    (path : List String) (base override : Fields) (v : Json)
    → DistinctFields override
    → at_path path (obj override) ≡ some v
    → is_obj v ≡ false
    → at_path path (obj (deep_merge base override)) ≡ some v
unfolding deep_merge Distinct
deep_merge-at_path path base override v =
    merged_value-at_path path (some (obj base)) (obj override) v

-- A member of a part is in the merged part.
pub is_in-merged_value :
    (key : String) (old : Option Json) (v : Json)
    → Distinct v
    → is_in key v ≡ some true
    → is_in key (merged_value old v) ≡ some true
unfolding is_in deep_merge Distinct
is_in-merged_value key (some (obj b)) (obj o) h e =
    rw (get_field-deep_merge b o key h) (step (get_field o key) e)
  where
    step :
        (found : Option Json)
        → some (is_some found) ≡ some true
        → some (is_some (merged_lookup (get_field b key) found)) ≡ some true
    step none e' = cc
    step (some w) e' = refl
is_in-merged_value key none v h e = e
is_in-merged_value key (some _) v h e = e

-- The path leaves the dicts of a value: the key is missing where the path goes on.
abbrev pub leaves : Option Json → (Json → Bool) → Bool
leaves none f = true
leaves (some v) f = f v

unfoldable pub is_untouched : List String → Json → Bool
unfolding get_field
is_untouched [] v = false
is_untouched (k ∷ path) (obj d) = leaves (get_field d k) (is_untouched path)
is_untouched (k ∷ path) _ = false

merged_value-untouched :
    (path : List String) (old w v : Json)
    → Distinct w
    → at_path path old ≡ some v
    → is_untouched path w ≡ true
    → at_path path (merged_value (some old) w) ≡ some v
unfolding at_path is_untouched deep_merge Distinct
merged_value-untouched [] old w v h e free = cc
merged_value-untouched (k ∷ path) (obj b) (obj o) v h e free = rw (get_field-deep_merge b o k h) (
    step (λ old u. merged_value-untouched path old u v) (get_field b k) (get_field o k) refl e free)
  where
    step :
        ((old u : Json)
          → Distinct u
          → at_path path old ≡ some v
          → is_untouched path u ≡ true
          → at_path path (merged_value (some old) u) ≡ some v)
        → (was found : Option Json) → get_field o k ≡ found
        → at_key was (at_path path) ≡ some v
        → leaves found (is_untouched path) ≡ true
        → at_key (merged_lookup was found) (at_path path) ≡ some v
    step again was none f e' free' = e'
    step again none (some w) f e' free' = cc
    step again (some old) (some w) f e' free' = again old w (get_field-Distinct o k w h f) e' free'
merged_value-untouched (k ∷ path) old (obj o) v h e free = cc
merged_value-untouched (k ∷ path) old w v h e free = cc

-- The merge off the override: where the override of distinct keys leaves a path, at any depth,
-- the merged dict has the base's value at that path.
deep_merge-untouched :
    (path : List String) (base override : Fields) (v : Json)
    → DistinctFields override
    → at_path path (obj base) ≡ some v
    → is_untouched path (obj override) ≡ true
    → at_path path (obj (deep_merge base override)) ≡ some v
unfolding deep_merge Distinct
deep_merge-untouched path base override v = merged_value-untouched path (obj base) (obj override) v
