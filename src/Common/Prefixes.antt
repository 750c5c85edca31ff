-- ===== src/Common/Prefixes.antt =====
-- What `startswith` says of a text.
use Prim.Native.String.append
use Prim.Native.String.{String, ◌++◌}
use mathlib.Core.Path.{◌≡◌, refl, ap, ◌∙◌}
use mathlib.Core.Bool.{Bool, true, false, ◌&&◌}
use software_factory_ai.Common.Equality.{string_eq, ==_refl}
use software_factory_ai.Common.Text.{starts_with}

both_true : (a b : Bool) → (a && b) ≡ true → (a ≡ true) × (b ≡ true)
both_true true true h = (refl, refl)
both_true true false h = cc
both_true false b h = cc

-- A text that starts with a prefix is the prefix and a rest.
pub starts_with-rest :
    (prefix s : String) → starts_with prefix s ≡ true → (rest : String) × (prefix ++ rest ≡ s)
unfolding starts_with
starts_with-rest String.[] s h = (s, append.nil s)
starts_with-rest (String.◌∷◌ c prefix) String.[] h = cc
starts_with-rest (String.◌∷◌ c prefix) (String.◌∷◌ d s) h =
    let (same, more) = both_true _ (starts_with prefix s) h in
    let (rest, e) = starts_with-rest prefix s more in
    let heads : String.◌∷◌ c String.[] ≡ String.◌∷◌ d String.[] =
      (string_eq.beq_iff (String.◌∷◌ c String.[]) (String.◌∷◌ d String.[])).0 same in
    (rest, append.cons c prefix rest ∙ ap (String.◌∷◌ c) e ∙ cc heads)

pub starts_with-append : (prefix rest : String) → starts_with prefix (prefix ++ rest) ≡ true
unfolding starts_with
starts_with-append String.[] rest = refl
starts_with-append (String.◌∷◌ c prefix) rest =
    rw (append.cons c prefix rest, ==_refl (String.◌∷◌ c String.[]))
      (starts_with-append prefix rest)
