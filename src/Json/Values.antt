-- ===== src/Json/Values.antt =====
-- What Python reads from JSON values: the elements that a loop over a value meets, and the tests
-- and conversions of the source.
use Prim.Native.String.{String}
use software_factory_ai.Common.{
  Bool, true, false, Option, none, some, List, [], ◌∷◌, if◌then◌else◌, ◌==◌, string_eq,
}
use software_factory_ai.Json.{Json, text, arr, obj, Items, nil, item, Fields, end, field, is_true}

-- list(text), list(d) for a dict, list(items)
unfoldable pub chars : String → List Json
chars String.[] = []
chars (String.◌∷◌ c s) = text (String.◌∷◌ c String.[]) ∷ chars s

unfoldable pub keys : Fields → List String
keys end = []
keys (field k v d) = k ∷ keys d

unfoldable pub texts : List String → List Json
texts [] = []
texts (t ∷ ts) = text t ∷ texts ts

unfoldable pub items_of : Items → List Json
items_of nil = []
items_of (item v xs) = v ∷ items_of xs

-- What `for x in v` meets, none on a TypeError.
unfoldable pub elements : Json → Option (List Json)
unfolding chars keys texts items_of
elements (text t) = some (chars t)
elements (arr xs) = some (items_of xs)
elements (obj d) = some (texts (keys d))
elements _ = none

-- A list of texts as a value.
unfoldable pub text_items : List String → Items
text_items [] = nil
text_items (t ∷ ts) = item (text t) (text_items ts)

abbrev pub text_list : List String → Json
text_list ts = arr (text_items ts)

-- d.pop(k, None)
unfoldable pub remove_field : Fields → String → Fields
remove_field end k = end
remove_field (field j v d) k =
    let rest = remove_field d k in if j == k then rest else field j v rest

-- bool(d.get(k))
abbrev pub is_given : Option Json → Bool
is_given none = false
is_given (some v) = is_true v

-- d.get(k) or {}
abbrev pub or_dict : Option Json → Json
or_dict none = obj end
or_dict (some v) = if is_true v then v else obj end

-- text or None: an empty text counts as none.
abbrev pub is_filled : Option String → Bool
is_filled none = false
is_filled (some t) = if t == "" then false else true

abbrev pub filled_or : Option String → String → String
filled_or none u = u
filled_or (some t) u = if t == "" then u else t
