-- ===== src/Common/Equality.antt =====
-- Equality tests as an interface, the `==` of the source, with `in` on a list.
use Prim.Native.Nat.{ℕ}
use Prim.Native.String.{String}
use mathlib.Core.Path.{◌≡◌, refl}
use mathlib.Core.Logic.{◌↔◌}
use mathlib.Core.Bool.{Bool, true, false, ◌||◌}
use mathlib.Core.List.{List, [], ◌∷◌}
use native.Mathlib.Omega.{arith}
use text.Mathlib.Text.{◌==◌ as str_eq}
use text.Mathlib.TextEquality.{eq_iff}
use software_factory_ai.Common.Tests.{nat_beq, nat_beq_iff}

pub record Eq {ℓ} (T : Type ℓ) : Type ℓ where
  pub beq : T → T → Bool
  pub beq_iff : (x y : T) → (beq x y ≡ true) ↔ (x ≡ y)

-- The test that a decision procedure gives, for enumerations.
abbrev pub discrete_beq {ℓ} : {A : Type ℓ} → Discrete A → A → A → Bool
discrete_beq d a b = elim (d a b) [ yes p ↦ true | no p ↦ false ]

pub discrete_beq_iff {ℓ} :
    {A : Type ℓ} (d : Discrete A) (a b : A) → (discrete_beq d a b ≡ true) ↔ (a ≡ b)
discrete_beq_iff d a b = from (d a b)
  where
    from : (t : Dec (a ≡ b)) → ((elim t [ yes p ↦ true | no p ↦ false ]) ≡ true) ↔ (a ≡ b)
    from (yes p) = (λ h. p, λ h. refl)
    from (no p) = (λ h. cc, λ h. absurd (p h))

abbrev pub eq_of_discrete {ℓ} : {A : Type ℓ} → Discrete A → Eq A
eq_of_discrete d = record { beq = discrete_beq d; beq_iff = discrete_beq_iff d }

-- Texts are equal if their characters are.
instance abbrev pub string_eq : Eq String
string_eq = record { beq = str_eq; beq_iff = eq_iff }

infix 50 ◌==◌
abbrev pub ◌==◌ {ℓ} : {T : Type ℓ} ⦃e : Eq T⦄ → T → T → Bool
◌==◌ ⦃e⦄ = e.beq

instance abbrev pub nat_eq : Eq ℕ
nat_eq = record { beq = nat_beq; beq_iff = nat_beq_iff }

module _ {ℓ} {A : Type ℓ} ⦃e : Eq A⦄ where
  -- `a in xs`
  unfoldable pub contains : List A → A → Bool
  contains [] a = false
  contains (x ∷ xs) a = x == a || contains xs a

  pub ==_refl : (a : A) → (a == a) ≡ true
  ==_refl a = (e.beq_iff a a).1 refl

  pub contains-cons_self : (a x : A) (xs : List A) → x ≡ a → contains (x ∷ xs) a ≡ true
  unfolding contains
  contains-cons_self a x xs h = ground (arith, e.beq_iff x a)

  pub contains-cons : (a x : A) (xs : List A) → contains xs a ≡ true → contains (x ∷ xs) a ≡ true
  unfolding contains
  contains-cons a x xs h = ground arith
