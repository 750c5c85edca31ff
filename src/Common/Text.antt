-- ===== src/Common/Text.antt =====
-- Texts as lists of characters: slices and joins.
use Prim.Native.Nat.{ℕ, zero, suc}
use mathlib.Core.Bool.{Bool, true, false, ◌&&◌}
use Prim.Native.String.{String, ◌++◌}
use mathlib.Core.List.{List, [], ◌∷◌}
use software_factory_ai.Common.Tests.{if◌then◌else◌}
use software_factory_ai.Common.Equality.{◌==◌, string_eq}

-- s[:n]
unfoldable pub take_chars : ℕ → String → String
take_chars zero s = String.[]
take_chars (suc n) String.[] = String.[]
take_chars (suc n) (String.◌∷◌ c s) = String.◌∷◌ c (take_chars n s)

-- s[n:]
unfoldable pub drop_chars : ℕ → String → String
drop_chars zero s = s
drop_chars (suc n) String.[] = String.[]
drop_chars (suc n) (String.◌∷◌ c s) = drop_chars n s

-- sep.join(texts)
unfoldable pub join_texts : String → List String → String
join_texts sep [] = ""
join_texts sep (t ∷ []) = t
join_texts sep (t ∷ u ∷ rest) = t ++ (sep ++ join_texts sep (u ∷ rest))

-- s.split("/", n)[-1]: what follows the n-th slash, or the last one where there are fewer. `piece`
-- is what follows the last slash that was met.
unfoldable pub rest_of : ℕ → (piece s : String) → String
rest_of zero piece s = piece
rest_of (suc n) piece String.[] = piece
rest_of (suc n) piece (String.◌∷◌ c s) =
    let next = rest_of n s s in
    let same = rest_of (suc n) piece s in if String.◌∷◌ c String.[] == "/" then next else same

unfoldable pub after_slashes : ℕ → String → String
unfolding rest_of
after_slashes n s = rest_of n s s

-- s.startswith(prefix)
unfoldable pub starts_with : (prefix s : String) → Bool
starts_with String.[] s = true
starts_with (String.◌∷◌ c prefix) String.[] = false
starts_with (String.◌∷◌ c prefix) (String.◌∷◌ d s) =
    (String.◌∷◌ c String.[] == String.◌∷◌ d String.[]) && starts_with prefix s

-- prefix in some tail of s: `part in s`
unfoldable pub is_infix : (part s : String) → Bool
unfolding starts_with
is_infix part String.[] = starts_with part String.[]
is_infix part (String.◌∷◌ c s) = if starts_with part (String.◌∷◌ c s) then true else is_infix part s

-- s.rstrip("/")
unfoldable pub strip_slashes : String → String
strip_slashes String.[] = String.[]
strip_slashes (String.◌∷◌ c s) =
    let rest = strip_slashes s in
    if (String.◌∷◌ c String.[] == "/") && (rest == "") then String.[] else String.◌∷◌ c rest
