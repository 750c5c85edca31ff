-- ===== src/Json.antt =====
-- The JSON values of the agents' configurations, as Python reads them: a dict keeps the order of
-- first insertion. A number is kept as its text.
pub mod Laws
pub mod Values
use software_factory_ai.Common.{
  Bool, true, false, not, ◌&&◌, Option, none, some, String, if◌then◌else◌, ◌==◌, string_eq,
}
use software_factory_ai.Common.Text.{is_infix}

mutual
  pub data Json : Type 0 where
    null : Json
    bool : Bool → Json
    number : String → Json
    text : String → Json
    arr : Items → Json
    obj : Fields → Json

  pub data Items : Type 0 where
    nil : Items
    item : Json → Items → Items

  pub data Fields : Type 0 where
    end : Fields
    field : String → Json → Fields → Fields

-- d.get(k)
unfoldable pub get_field : Fields → String → Option Json
get_field end k = none
get_field (field j v d) k = if j == k then some v else get_field d k

-- d[k] = v
unfoldable pub put_field : Fields → String → Json → Fields
put_field end k v = field k v end
put_field (field j w d) k v = if j == k then field j v d else field j w (put_field d k v)

-- k in d
abbrev pub is_some {ℓ} : {A : Type ℓ} → Option A → Bool
is_some none = false
is_some (some a) = true

abbrev pub has_field : Fields → String → Bool
has_field d k = is_some (get_field d k)

-- `text in items`, for a list
unfoldable pub has_item : Items → String → Bool
has_item nil k = false
has_item (item (text t) xs) k = if t == k then true else has_item xs k
has_item (item _ xs) k = has_item xs k

-- `k in v`: none where Python raises a TypeError.
unfoldable pub is_in : String → Json → Option Bool
unfolding has_item get_field is_infix
is_in k (obj d) = some (has_field d k)
is_in k (arr xs) = some (has_item xs k)
is_in k (text t) = some (is_infix k t)
is_in k _ = none

-- `bool(v)`; a number is false where its text is one of a zero.
abbrev pub is_zero : String → Bool
is_zero t = if t == "0" then true else if t == "0.0" then true else t == "-0.0"

abbrev pub is_true : Json → Bool
is_true null = false
is_true (bool b) = b
is_true (number t) = not (is_zero t)
is_true (text t) = not (t == "")
is_true (arr nil) = false
is_true (arr _) = true
is_true (obj end) = false
is_true (obj _) = true

-- v == w for two values: dicts are compared without their order, numbers by their texts.
unfoldable pub size_of : Fields → Fields → Bool
size_of end end = true
size_of (field j v d) (field k w e) = size_of d e
size_of _ _ = false

unfoldable mutual
  unfolding get_field size_of

  pub same : Json → Json → Bool
  same null null = true
  same (bool true) (bool b) = b
  same (bool false) (bool b) = not b
  same (number t) (number u) = t == u
  same (text t) (text u) = t == u
  same (arr xs) (arr ys) = same_items xs ys
  same (obj d) (obj e) = size_of d e && same_fields d e
  same _ _ = false

  pub same_items : Items → Items → Bool
  same_items nil nil = true
  same_items (item v xs) (item w ys) = same v w && same_items xs ys
  same_items _ _ = false

  pub same_fields : Fields → Fields → Bool
  same_fields end e = true
  same_fields (field k v d) e =
      (elim (get_field e k) [ none ↦ false | some w ↦ same v w ]) && same_fields d e
