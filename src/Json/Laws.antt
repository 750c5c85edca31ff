-- ===== src/Json/Laws.antt =====
-- Dicts of JSON values: what a write and a merge leave under each key.
use software_factory_ai.Common.{◌≡◌, refl, some, String, if◌then◌else◌, ◌==◌, string_eq, arith}
use software_factory_ai.Json.{Json, Fields, end, field, get_field, put_field}

pub get_field-put_field :
    (d : Fields) (k j : String) (v : Json)
    → get_field (put_field d k v) j ≡ (if k == j then some v else get_field d j)
unfolding get_field put_field
get_field-put_field end k j v = refl
get_field-put_field (field i w d) k j v = ground (
  arith,
  string_eq.beq_iff k j,
  string_eq.beq_iff i k,
  string_eq.beq_iff i j,
  get_field-put_field d k j v,
)
