-- ===== src/Tools/Authorization.antt =====
-- What a tool call that returned was allowed to do.
use software_factory_ai.Common.{
  ◌≡◌, refl, subst, ◌⊎◌, ◌↔◌, text_append, Bool, true, false, not, ◌&&◌, ◌||◌, Option, none, some,
  String, contains, string_eq, Bool-cases, Option-cases, inl, inr,
}
use software_factory_ai.Common.Dict.{get}
use software_factory_ai.Common.Text.{starts_with}
use software_factory_ai.Common.Prefixes.{starts_with-rest, starts_with-append}
use software_factory_ai.Tools.{
  returned, Registry, Policy, outside_workspace, answer, authorized_call,
}

answer-returned {ℓ} : {R : Type ℓ} (o : Option R) (r : R) → answer o ≡ returned r → o ≡ some r
answer-returned none r h = cc
answer-returned (some s) r h = cc

and_false : (b : Bool) → (b && not true) ≡ false
and_false true = refl
and_false false = refl

permitted :
    (denied allowed : Bool) → (denied || not allowed) ≡ false → (denied ≡ false) × (allowed ≡ true)
permitted false true h = (refl, refl)
permitted false false h = cc
permitted true allowed h = cc

-- A path is inside a workspace: it is relative, or the text of the workspace followed by a rest.
abbrev pub Inside : Option String → (path : String) → Type 0
Inside none path = Unit {0}
Inside (some workspace) path =
    (¬ ((rest : String) × (text_append "/" rest ≡ path)))
    ⊎ ((rest : String) × (text_append workspace rest ≡ path))

Inside-workspace :
    (workspace : Option String) (path : String)
    → outside_workspace workspace path ≡ false
    → Inside workspace path
unfolding outside_workspace
Inside-workspace none path h = tt
Inside-workspace (some workspace) path h = elim (Bool-cases (starts_with workspace path)) [
  | inl within ↦ inr (starts_with-rest workspace path within)
  | inr beyond ↦ elim (Bool-cases (starts_with "/" path)) [
    | inl absolute ↦ absurd (cc (rw (absolute, beyond) at h))
    | inr relative ↦ inl (λ p.
        let slash : starts_with "/" path ≡ true =
          subst (λ x. starts_with "/" x ≡ true) p.1 (starts_with-append "/" p.0) in
        cc)
  ]
]

not_outside :
    (workspace : Option String) (path : String)
    → Inside workspace path
    → outside_workspace workspace path ≡ false
unfolding outside_workspace
not_outside none path h = refl
not_outside (some workspace) path (inl relative) = elim (Bool-cases (starts_with "/" path)) [
  | inl absolute ↦ absurd (relative (starts_with-rest "/" path absolute))
  | inr e ↦ rw e refl
]
not_outside (some workspace) path (inr (rest, e)) =
    let within : starts_with workspace path ≡ true =
      subst (λ x. starts_with workspace x ≡ true) e (starts_with-append workspace rest) in
    rw within (and_false (starts_with "/" path))

-- A call may be made, and the registered tool answers it in time with `r`.
abbrev pub Authorized {ℓ κ} :
    {A : Type ℓ} {R : Type κ}
    → Registry A R
    → (A → String)
    → Policy
    → (tool_name execution_id : String) → A
    → Option String
    → R
    → Type (ℓ ⊔ κ)
Authorized {A} {R} registry path_of policy tool_name execution_id arguments workspace r =
    (contains policy.denied tool_name ≡ false)
    × (contains policy.allowed tool_name ≡ true)
    × Inside workspace (path_of arguments)
    × ((tool : String → A → Option R) × (get registry tool_name ≡ some tool)
        × (tool execution_id arguments ≡ some r))

module _ {ℓ κ} {A : Type ℓ} {R : Type κ} (registry : Registry A R) (path_of : A → String)
    (policy : Policy) (tool_name execution_id : String) (arguments : A) (workspace : Option String)
    (r : R) where
  returned-Authorized :
      authorized_call registry path_of policy tool_name execution_id arguments workspace
        ≡ returned r
      → Authorized registry path_of policy tool_name execution_id arguments workspace r
  unfolding authorized_call
  returned-Authorized h =
      elim (Bool-cases
        (contains policy.denied tool_name || not (contains policy.allowed tool_name))) [
          | inl refused ↦ cc (rw (refused, authorized_call) at h)
          | inr free ↦ elim (Option-cases (get registry tool_name)) [
            | inl missing ↦ cc (rw (free, missing, authorized_call) at h)
            | inr (tool, there) ↦
                elim (Bool-cases (outside_workspace workspace (path_of arguments))) [
                  | inl out ↦ cc (rw (free, there, out, authorized_call) at h)
                  | inr inside ↦
                      let (d, a) = permitted _ _ free in
                      (
                        d,
                        a,
                        Inside-workspace workspace (path_of arguments) inside,
                        (
                          tool,
                          there,
                          answer-returned _ r (rw (free, there, inside, authorized_call) at h),
                        ),
                      )
                ]
          ]
        ]

  Authorized-returned :
      Authorized registry path_of policy tool_name execution_id arguments workspace r
      → authorized_call registry path_of policy tool_name execution_id arguments workspace
        ≡ returned r
  unfolding authorized_call
  Authorized-returned (d, a, inside, (tool, there, answers)) =
      rw (d, a, there, not_outside workspace (path_of arguments) inside, answers) refl

-- A tool call returns an answer exactly where the agent's definition allows the tool and does not
-- deny it, the path is relative or begins with the text of the workspace, if there is one, and the
-- tool that is registered under the name answers so in time.
pub authorized_call-returned {ℓ κ} :
    {A : Type ℓ} {R : Type κ} (registry : Registry A R) (path_of : A → String) (policy : Policy)
    (tool_name execution_id : String) (arguments : A) (workspace : Option String) (r : R)
    → (authorized_call registry path_of policy tool_name execution_id arguments workspace
        ≡ returned r)
      ↔ Authorized registry path_of policy tool_name execution_id arguments workspace r
authorized_call-returned registry path_of policy tool_name execution_id arguments workspace r = (
  returned-Authorized registry path_of policy tool_name execution_id arguments workspace r,
  Authorized-returned registry path_of policy tool_name execution_id arguments workspace r,
)
