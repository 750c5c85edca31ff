-- ===== src/Common/Rows.antt =====
-- A table as the list of its rows, each with a primary key.
use Prim.Native.String.{String}
use mathlib.Core.Path.{◌≡◌, refl, ◌∙◌}
use mathlib.Core.Logic.{inl, inr}
use mathlib.Core.Bool.{false}
use mathlib.Core.Option
use mathlib.Core.Option.{Option, none, some}
use mathlib.Core.List.{List, [], ◌∷◌, ◌++◌}
use native.Mathlib.Omega.{arith}
use software_factory_ai.Common.Tests.{Bool-cases, if◌then◌else◌}
use software_factory_ai.Common.Equality.{◌==◌, string_eq}

module _ {ℓ} {A : Type ℓ} (key : A → String) where
  -- SELECT … WHERE id = k, and its first row
  unfoldable pub find_row : List A → String → Option A
  find_row [] k = none
  find_row (a ∷ rows) k = if key a == k then some a else find_row rows k

  -- UPDATE … SET f WHERE id = k
  unfoldable pub update_row : String → (A → A) → List A → List A
  update_row k f [] = []
  update_row k f (a ∷ rows) = (if key a == k then f a else a) ∷ update_row k f rows

  -- An update changes the row that has its key, and no other.
  pub find_row-update_row :
      (k j : String) (f : A → A) (rows : List A)
      → ((a : A) → key (f a) ≡ key a)
      → find_row (update_row k f rows) j
        ≡ (if k == j then Option.map f (find_row rows j) else find_row rows j)
  unfolding find_row update_row
  find_row-update_row k j f [] keeps = ground arith
  find_row-update_row k j f (a ∷ rows) keeps = ground (
    arith,
    keeps a,
    string_eq.beq_iff (key a) k,
    string_eq.beq_iff (key a) j,
    string_eq.beq_iff k j,
    find_row-update_row k j f rows keeps,
  )

  -- A row that is appended is found unless its key was taken.
  pub find_row-append :
      (rows : List A) (a : A) (j : String)
      → find_row (rows ++ a ∷ []) j ≡ (
          if (elim (find_row rows j) [ none ↦ key a == j | some b ↦ false ])
          then some a
          else find_row rows j)
  unfolding find_row
  find_row-append [] a j = ground arith
  find_row-append (b ∷ rows) a j = ground (arith, find_row-append rows a j)

  -- The row that a key finds has that key.
  pub find_row-key : (rows : List A) (k : String) (a : A) → find_row rows k ≡ some a → key a ≡ k
  unfolding find_row
  find_row-key [] k a h = cc
  find_row-key (b ∷ rows) k a h = ground (arith, string_eq.beq_iff (key b) k, find_row-key rows k a)

  find_row-replace_other :
      (rows : List A) (k j : String) (b : A)
      → key b ≡ k
      → (k == j) ≡ false
      → find_row (update_row k (λ _. b) rows) j ≡ find_row rows j
  unfolding find_row update_row
  find_row-replace_other [] k j b e n = refl
  find_row-replace_other (c ∷ rows) k j b e n = ground (
    arith,
    string_eq.beq_iff (key c) k,
    string_eq.beq_iff (key c) j,
    string_eq.beq_iff k j,
    string_eq.beq_iff (key b) j,
    find_row-replace_other rows k j b e n,
  )

  find_row-replace_same :
      (rows : List A) (k : String) (a b : A)
      → find_row rows k ≡ some a
      → key b ≡ k
      → find_row (update_row k (λ _. b) rows) k ≡ some b
  unfolding find_row update_row
  find_row-replace_same [] k a b h e = cc
  find_row-replace_same (c ∷ rows) k a b h e = ground (
    arith,
    string_eq.beq_iff (key c) k,
    string_eq.beq_iff (key b) k,
    find_row-replace_same rows k a b,
  )

  -- A row that is written back takes the place of the row that was found, and of no other.
  pub find_row-replace :
      (rows : List A) (k j : String) (a b : A)
      → find_row rows k ≡ some a
      → key b ≡ key a
      → find_row (update_row (key a) (λ _. b) rows) j ≡ (if k == j then some b else find_row rows j)
  find_row-replace rows k j a b h e =
      let same : key a ≡ k = find_row-key rows k a h in
      rw same (elim (Bool-cases (k == j)) [
        | inl hit ↦
            rw (hit, ← (string_eq.beq_iff k j).0 hit)
              (find_row-replace_same rows k a b h (e ∙ same))
        | inr miss ↦ rw miss (find_row-replace_other rows k j b (e ∙ same) miss)
      ])
