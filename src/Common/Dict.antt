-- ===== src/Common/Dict.antt =====
-- Python's `dict`: an association list in insertion order.
use mathlib.Core.Path.{◌≡◌, refl}
use mathlib.Core.Option.{Option, none, some}
use mathlib.Core.List.{List, [], ◌∷◌}
use native.Mathlib.Omega.{arith}
use software_factory_ai.Common.Tests.{if◌then◌else◌}
use software_factory_ai.Common.Equality.{Eq, ◌==◌}

abbrev pub Dict {ℓ κ} : Type ℓ → Type κ → Type (ℓ ⊔ κ)
Dict K V = List (K × V)

abbrev pub or_else {ℓ} : {V : Type ℓ} → Option V → Option V → Option V
or_else none o = o
or_else (some v) o = some v

abbrev pub or_default {ℓ} : {V : Type ℓ} → Option V → V → V
or_default none w = w
or_default (some v) w = v

module _ {ℓ κ} {K : Type ℓ} {V : Type κ} ⦃e : Eq K⦄ where
  -- d.get(k)
  unfoldable pub get : Dict K V → K → Option V
  get [] k = none
  get ((j, v) ∷ d) k = if j == k then some v else get d k

  -- d[k] = v: a key that is there keeps its place.
  unfoldable pub put : Dict K V → K → V → Dict K V
  put [] k v = (k, v) ∷ []
  put ((j, w) ∷ d) k v = if j == k then (j, v) ∷ d else (j, w) ∷ put d k v

  -- {**left, **right}
  unfoldable pub merge : Dict K V → Dict K V → Dict K V
  merge left [] = left
  merge left ((k, v) ∷ right) = merge (put left k v) right

  pub get-put :
      (d : Dict K V) (k j : K) (v : V) → get (put d k v) j ≡ (if k == j then some v else get d j)
  unfolding get put
  get-put [] k j v = refl
  get-put ((i, w) ∷ d) k j v =
      ground (arith, e.beq_iff k j, e.beq_iff i k, e.beq_iff i j, get-put d k j v)

  -- The last binding of a key in a list, which is what a merge leaves for it.
  unfoldable pub last_of : Dict K V → K → Option V
  last_of [] k = none
  last_of ((j, v) ∷ d) k = or_else (last_of d k) (if j == k then some v else none)

  pub get-merge : (l r : Dict K V) (k : K) → get (merge l r) k ≡ or_else (last_of r k) (get l k)
  unfolding merge last_of
  get-merge l [] k = refl
  get-merge l ((j, v) ∷ r) k = ground (arith, get-merge (put l j v) r k, get-put l j k v)

  -- A merge with one binding is a put.
  pub get-merge_one :
      (d : Dict K V) (k j : K) (v : V)
      → get (merge d ((k, v) ∷ [])) j ≡ (if k == j then some v else get d j)
  unfolding merge
  get-merge_one d k j v = get-put d k j v

  abbrev pub get_or : Dict K V → K → V → V
  get_or d k v = or_default (get d k) v

  pub get_or-merge_one :
      (d : Dict K V) (k j : K) (v w : V)
      → get_or (merge d ((k, v) ∷ [])) j w ≡ (if k == j then v else get_or d j w)
  get_or-merge_one d k j v w = ground (arith, get-merge_one d k j v)
