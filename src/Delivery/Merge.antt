-- ===== src/Delivery/Merge.antt =====
-- What the reducers of the shared state keep.
use software_factory_ai.Common.{
  ap, contains-cons, contains-cons_self, ◌≡◌, refl, Bool, true, ◌||◌, Option, none, some, List, [],
  ◌∷◌, ◌++◌, String, Eq, ◌==◌, contains, arith, Bool-cases, inl, inr, string_eq, ◌∙◌, sym,
}
use software_factory_ai.Common.Dict.{Dict, get, put, merge, last_of, or_else, get-merge}
use software_factory_ai.Contracts.{CodeFile}
use software_factory_ai.Delivery.State.{missing_from, extend, by_path, values, merge_code_files}

or_right : (a b : Bool) → b ≡ true → (a || b) ≡ true
or_right a b h = ground arith

or_none : (o : Option CodeFile) → or_else o none ≡ o
or_none none = refl
or_none (some a) = refl

append_nil {ℓ} : {A : Type ℓ} (xs : List A) → xs ++ [] ≡ xs
append_nil [] = refl
append_nil (x ∷ xs) = ap (λ ys. x ∷ ys) (append_nil xs)

module _ {ℓ} {A : Type ℓ} ⦃e : Eq A⦄ where
  contains-append :
      (xs ys : List A) (a : A) → contains (xs ++ ys) a ≡ (contains xs a || contains ys a)
  unfolding contains
  contains-append [] ys a = refl
  contains-append (x ∷ xs) ys a = ground (arith, contains-append xs ys a)

  same_contains : (xs : List A) (x a : A) → x ≡ a → contains xs x ≡ contains xs a
  same_contains xs x a h = ap (contains xs) h

  -- What is missing is in the new list and not in the old one.
  contains-missing_from :
      (left right : List A) (a : A)
      → (contains left a || contains (missing_from left right) a)
        ≡ (contains left a || contains right a)
  unfolding contains missing_from
  contains-missing_from left [] a = refl
  contains-missing_from left (x ∷ right) a =
      ground (arith, e.beq_iff x a, same_contains left x a, contains-missing_from left right a)

  -- The old list joined to a new one has what is in one of the two, and nothing else.
  contains-extend :
      (left right : List A) (a : A)
      → contains (extend left right) a ≡ (contains left a || contains right a)
  unfolding extend
  contains-extend left right a =
      contains-append left (missing_from left right) a ∙ contains-missing_from left right a

  -- Nothing is missing from a list that has it all.
  missing_from-all :
      (left right : List A)
      → ((a : A) → contains right a ≡ true → contains left a ≡ true)
      → missing_from left right ≡ []
  unfolding missing_from
  missing_from-all left [] all = refl
  missing_from-all left (x ∷ right) all =
      rw
        (
          all x (contains-cons_self x x right refl),
          missing_from-all left right (λ a h. all a (contains-cons a x right h)),
        )
        refl

  -- Joining the same list a second time changes nothing.
  extend-twice : (left right : List A) → extend (extend left right) right ≡ extend left right
  unfolding extend
  extend-twice left right =
      rw
        (missing_from-all (left ++ missing_from left right) right
          (λ a h. contains-extend left right a ∙ or_right (contains left a) (contains right a) h))
        (append_nil (left ++ missing_from left right))

-- Each value of the dictionary stands under its path.
abbrev Keyed : Dict String CodeFile → Type 0
Keyed [] = Unit
Keyed ((path, file) ∷ d) = (file.path ≡ path) × Keyed d

Keyed-put : (d : Dict String CodeFile) (file : CodeFile) → Keyed d → Keyed (put d file.path file)
unfolding put
Keyed-put [] file h = (refl, tt)
Keyed-put ((path, old) ∷ d) file (p, h) = elim (Bool-cases (path == file.path)) [
  | inl e ↦ rw e (sym ((string_eq.beq_iff _ _).0 e), h)
  | inr n ↦ rw n (p, Keyed-put d file h)
]

Keyed-merge :
    (d : Dict String CodeFile) (files : List CodeFile) → Keyed d → Keyed (merge d (by_path files))
unfolding merge
Keyed-merge d [] h = h
Keyed-merge d (file ∷ files) h = Keyed-merge (put d file.path file) files (Keyed-put d file h)

-- A keyed dictionary is what its values spell.
by_path-values : (d : Dict String CodeFile) → Keyed d → by_path (values d) ≡ d
by_path-values [] h = refl
by_path-values ((path, file) ∷ d) (p, h) = rw (p, by_path-values d h) refl

-- The merged files have under each path the newest file: the last of the new list, or else the
-- last of the old list.
pub newest_file :
    (left right : List CodeFile) (path : String)
    → get (by_path (merge_code_files left right)) path
      ≡ or_else (last_of (by_path right) path) (last_of (by_path left) path)
unfolding merge_code_files get
newest_file left right path =
    let merged = merge [] (by_path left) in
    let keyed : Keyed merged = Keyed-merge [] left tt in
    rw (by_path-values (merge merged (by_path right)) (Keyed-merge merged right keyed)) (
      get-merge merged (by_path right) path
      ∙ ap (or_else (last_of (by_path right) path))
          (get-merge [] (by_path left) path ∙ or_none (last_of (by_path left) path)))
