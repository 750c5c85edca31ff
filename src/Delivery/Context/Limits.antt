-- ===== src/Delivery/Context/Limits.antt =====
-- What a context holds at most, and what it never holds.
use Prim.Native.String.append
use Prim.Native.String.{String}
use software_factory_ai.Common.{
  ℕ, zero, suc, ◌+◌, ◌-◌, ◌≤◌, ◌≡◌, refl, ap, ◌∙◌, true, Option, none, some, List, [], ◌∷◌, leb,
  text_append, Bool-cases, inl, inr, arith, ◌==◌, string_eq,
}
use software_factory_ai.Common.Dict.{Dict, get}
use software_factory_ai.Common.Lists.{length, take, length-take}
use software_factory_ai.Common.Text.{take_chars}
use software_factory_ai.Contracts.{CodeFile}
use software_factory_ai.Delivery.Context.{
  Context, Inputs, build_context, truncate, truncation_mark, text_length, strip_secrets,
  truncate_values, truncate_files, is_secret, drop, last,
}

text_length-take_chars : (n : ℕ) (t : String) → text_length (take_chars n t) ≤ n
unfolding text_length take_chars
text_length-take_chars zero t = omega arith
text_length-take_chars (suc n) String.[] = omega arith
text_length-take_chars (suc n) (String.◌∷◌ c t) = omega (arith, text_length-take_chars n t)

text_length-append : (t u : String) → text_length (text_append t u) ≡ text_length t + text_length u
unfolding text_length
text_length-append String.[] u = ap text_length (append.nil u) ∙ omega arith
text_length-append (String.◌∷◌ c t) u =
    ap text_length (append.cons c t u) ∙ omega (arith, text_length-append t u)

text_length-mark : text_length truncation_mark ≡ 41
unfolding text_length
text_length-mark = refl

truncate-limit : (limit : ℕ) (t : String) → text_length (truncate limit t) ≤ limit + 41
unfolding truncate
truncate-limit limit t = elim (Bool-cases (leb (text_length t) limit)) [
  | inl e ↦ rw e (ground arith)
  | inr e ↦ rw e (
      omega (
        arith,
        text_length-append (take_chars limit t) truncation_mark,
        text_length-mark,
        text_length-take_chars limit t,
      ))
]

length-drop {ℓ} : {A : Type ℓ} (n : ℕ) (xs : List A) → length (drop n xs) ≡ length xs - n
unfolding drop
length-drop zero xs = omega arith
length-drop (suc n) [] = omega arith
length-drop (suc n) (x ∷ xs) = omega (arith, length-drop n xs)

length-last {ℓ} : {A : Type ℓ} (n : ℕ) (xs : List A) → length (last n xs) ≤ n
unfolding last
length-last n xs = omega (arith, length-drop (length xs - n) xs)

length-truncate_files : (files : List CodeFile) → length (truncate_files files) ≡ length files
unfolding truncate_files
length-truncate_files [] = refl
length-truncate_files (f ∷ files) = omega (arith, length-truncate_files files)

-- The contents of the files, and the values of the inputs, have a length of at most a limit.
unfoldable pub FilesWithin : ℕ → List CodeFile → Type 0
FilesWithin limit [] = Unit
FilesWithin limit (f ∷ files) = (text_length f.content ≤ limit) × FilesWithin limit files

unfoldable pub ValuesWithin : ℕ → Dict String String → Type 0
ValuesWithin limit [] = Unit
ValuesWithin limit ((k, v) ∷ d) = (text_length v ≤ limit) × ValuesWithin limit d

truncate_files-FilesWithin : (files : List CodeFile) → FilesWithin 8041 (truncate_files files)
unfolding truncate_files FilesWithin
truncate_files-FilesWithin [] = tt
truncate_files-FilesWithin (f ∷ files) =
    (truncate-limit 8000 f.content, truncate_files-FilesWithin files)

truncate_values-ValuesWithin : (d : Dict String String) → ValuesWithin 4041 (truncate_values d)
unfolding truncate_values ValuesWithin
truncate_values-ValuesWithin [] = tt
truncate_values-ValuesWithin ((k, v) ∷ d) = (truncate-limit 4000 v, truncate_values-ValuesWithin d)

-- A context is bounded, whatever the inputs.
pub Bounded : {D : Type 0} → Context D → Type 0
Bounded c =
    (text_length c.objective ≤ 4041)
    × ValuesWithin 4041 c.required_inputs
    × (length c.relevant_artifacts ≤ 20)
    × (length c.applicable_decisions ≤ 10)
    × (length c.pending_findings ≤ 20)
    × (length c.code_files ≤ 15)
    × FilesWithin 8041 c.code_files

-- A context is bounded, whatever the inputs: its objective and the value of each input have at
-- most 4041 characters, it has at most 20 artifacts, 10 decisions, 20 findings and 15 code files,
-- and the content of each code file has at most 8041 characters.
pub build_context-Bounded :
    {D : Type 0} (lower : String → String) (i : Inputs D) → Bounded (build_context lower i)
unfolding build_context Bounded
build_context-Bounded lower i = (
  truncate-limit 4000 i.objective,
  truncate_values-ValuesWithin (strip_secrets lower i.required_inputs),
  omega (arith, length-take 20 i.relevant_artifacts),
  length-last 10 i.applicable_decisions,
  length-last 20 i.pending_findings,
  omega (arith, length-truncate_files (take 15 i.code_files), length-take 15 i.code_files),
  truncate_files-FilesWithin (take 15 i.code_files),
)

-- There is no value, or the mark of a removed one.
abbrev pub Removed : Option String → Type 0
Removed none = Unit
Removed (some v) = v ≡ "[removido]"

truncate-removed : truncate 4000 "[removido]" ≡ "[removido]"
unfolding truncate text_length
truncate-removed = refl

strip_secrets-Removed :
    (lower : String → String) (k : String) (d : Dict String String)
    → is_secret lower k ≡ true
    → Removed (get (truncate_values (strip_secrets lower d)) k)
unfolding get truncate_values strip_secrets
strip_secrets-Removed lower k [] h = tt
strip_secrets-Removed lower k ((j, v) ∷ d) h = elim (Bool-cases (j == k)) [
  | inl same ↦
      let at_k : is_secret lower j ≡ true = rw ((string_eq.beq_iff j k).0 same) h in
      rw (at_k, same) truncate-removed
  | inr other ↦ elim (Bool-cases (is_secret lower j)) [
    | inl t ↦ rw (t, other) (strip_secrets-Removed lower k d h)
    | inr t ↦ rw (t, other) (strip_secrets-Removed lower k d h)
  ]
]

-- The value of an input with a secret's name is removed, whatever it was: there is none under the
-- name, or the mark of a removed one.
pub build_context-Removed :
    {D : Type 0} (lower : String → String) (i : Inputs D) (k : String)
    → is_secret lower k ≡ true
    → Removed (get (build_context lower i).required_inputs k)
unfolding build_context
build_context-Removed lower i k h = strip_secrets-Removed lower k i.required_inputs h
