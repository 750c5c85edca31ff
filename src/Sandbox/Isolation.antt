-- ===== src/Sandbox/Isolation.antt =====
-- What the containers of the sandbox are kept from.
use software_factory_ai.Common.{
  ℕ, ◌<◌, ◌≡◌, refl, Bool, true, false, Option, none, some, List, [], ◌∷◌, String, leb, ◌==◌,
  contains, string_eq, Bool-cases, inl, inr, arith, ap, subst,
}
use software_factory_ai.Common.Text.{strip_slashes}
use software_factory_ai.Sandbox.{
  Limits, Container, Attempt, answered, raised, Started, Event, run_container, remove_container,
  forbidden_mounts, root_users, validate_sandbox_config, run, collected, last_logs, settled,
  run_in_sandbox, container, guarded, in_container, SandboxResult, returned, violation, Violation,
}

-- A container without secrets or network, of an allowed image, not as root, that is not given the
-- host's root or the socket of Docker, and that is waited for a positive time.
unfoldable pub Isolated : List String → Container → Type 0
Isolated allowed_images c =
    (contains forbidden_mounts c.volume ≡ false)
    × ((strip_slashes c.volume == "") ≡ false)
    × (contains root_users c.user ≡ false)
    × (c.network_mode ≡ "none")
    × (contains allowed_images c.image ≡ true)
    × (c.read_only ≡ true)
    × (c.environment ≡ [])
    × (0 < c.timeout)

unfoldable pub AllIsolated : List String → List Event → Type 0
AllIsolated allowed_images [] = Unit
AllIsolated allowed_images (run_container c ∷ events) =
    Isolated allowed_images c × AllIsolated allowed_images events
AllIsolated allowed_images (remove_container ∷ events) = AllIsolated allowed_images events

positive : (n : ℕ) → leb n 0 ≡ false → 0 < n
positive n h = ground arith

run-AllIsolated :
    (allowed_images : List String) (c : Container) (docker : Attempt Started)
    → Isolated allowed_images c
    → AllIsolated allowed_images (run c docker).1
unfolding run AllIsolated
run-AllIsolated allowed_images c (raised e) h = (h, tt)
run-AllIsolated allowed_images c (answered d) h = (h, tt)

-- Whatever Docker answers, each container that an execution starts is isolated: its volume is
-- neither the root nor Docker's socket, its user is not root, it has no network and no
-- environment, its file system is read only, its image is among the allowed ones, and its wait
-- has a positive timeout.
pub run_in_sandbox-AllIsolated :
    (limits : Limits) (docker : Attempt Started) (late : Bool) (workspace : String)
    (command : List String) (timeout_seconds : ℕ) (image : String)
    → AllIsolated limits.allowed_images
        (run_in_sandbox limits docker late workspace command timeout_seconds image).1
unfolding run_in_sandbox validate_sandbox_config AllIsolated Isolated contains
run_in_sandbox-AllIsolated limits docker late workspace command timeout_seconds image =
    elim (Bool-cases (contains forbidden_mounts workspace)) [
      | inl m ↦ rw m tt
      | inr m ↦ elim (Bool-cases (strip_slashes workspace == "")) [
        | inl s ↦ rw (m, s) tt
        | inr s ↦ elim (Bool-cases (contains limits.allowed_images image)) [
          | inl i ↦ elim (Bool-cases (leb timeout_seconds 0)) [
            | inl t ↦ rw (m, s, i, t) tt
            | inr t ↦
                rw (m, s, i, t)
                  (run-AllIsolated limits.allowed_images _ docker
                    (m, s, refl, refl, i, refl, refl, positive timeout_seconds t))
          ]
          | inr i ↦ rw (m, s, i) tt
        ]
      ]
    ]

-- Docker ran the command to the exit status 0, in time, and removed the container.
unfoldable pub Succeeded : Attempt Started → (late : Bool) → String → Type 0
Succeeded docker late output =
    (logs : String) × (docker
      ≡ answered (record { waited = answered (some 0, logs); removed = answered tt }))
    × (late ≡ false)
    × (output ≡ last_logs logs)

-- And its container was started once, and then removed.
abbrev Completed : Attempt Started → (late : Bool) → Container → SandboxResult → List Event → Type 0
Completed docker late c r events =
    Succeeded docker late r.output × (events ≡ run_container c ∷ remove_container ∷ [])

at_most_zero : (n : ℕ) → leb n 0 ≡ true → n ≡ 0
at_most_zero n h = ground arith

collected-ok :
    (waited : Attempt (Option ℕ × String)) (removed : Attempt (Unit {0}))
    → (settled false (collected waited removed)).is_ok ≡ true
    → Succeeded
        (answered (record { waited = waited; removed = removed }))
        false
        (settled false (collected waited removed)).output
unfolding settled collected Succeeded
collected-ok (answered (none, logs)) (answered u) h = cc
collected-ok (answered (some n, logs)) (answered u) h = (
  logs,
  ap (λ k. answered (record { waited = answered (some k, logs); removed = answered u }))
      (at_most_zero n h),
  refl,
  refl,
)
collected-ok (raised e) (answered u) h = cc
collected-ok (answered x) (raised e) h = cc
collected-ok (raised e') (raised e) h = cc

settled-ok :
    (late : Bool) (c : Container) (docker : Attempt Started)
    → (settled late (run c docker).0).is_ok ≡ true
    → Completed docker late c (settled late (run c docker).0) (run c docker).1
unfolding settled run Succeeded
settled-ok true c docker h = cc
settled-ok false c (raised e) h = cc
settled-ok false c (answered d) h = (collected-ok d.waited d.removed h, refl)

returned-injective : (r r' : SandboxResult) → returned r ≡ returned r' → r ≡ r'
returned-injective r r' h = cc

guarded-ok :
    (limits : Limits) (docker : Attempt Started) (late : Bool) (c : Container)
    (v : Option Violation) (timeout_seconds : ℕ) (r : SandboxResult)
    → (guarded v timeout_seconds (in_container limits docker late c)).0 ≡ returned r
    → r.is_ok ≡ true
    → Completed docker late c r (guarded v timeout_seconds (in_container limits docker late c)).1
guarded-ok limits docker late c (some v) timeout_seconds r h o = cc
guarded-ok limits docker late c none timeout_seconds r h o =
    elim (Bool-cases (leb timeout_seconds 0)) [
      | inl t ↦ let x : violation Violation.no_timeout ≡ returned r = rw t at h in cc
      | inr t ↦
          let same : settled late (run c docker).0 ≡ r = returned-injective _ r (rw t at h) in
          let passed =
            subst (λ x. x.is_ok ≡ true → Completed docker late c x (run c docker).1) same
              (settled-ok late c docker) in
          rw t (passed o)
    ]

-- An execution that returns `ok` is one whose command Docker ran in time to the exit status 0,
-- and whose only container was started and then removed; its output is the end of the logs.
pub run_in_sandbox-ok :
    (limits : Limits) (docker : Attempt Started) (late : Bool) (workspace : String)
    (command : List String) (timeout_seconds : ℕ) (image : String) (r : SandboxResult)
    → (run_in_sandbox limits docker late workspace command timeout_seconds image).0 ≡ returned r
    → r.is_ok ≡ true
    → Completed docker late
        (container limits workspace command timeout_seconds image "1000:1000" "none")
        r
        (run_in_sandbox limits docker late workspace command timeout_seconds image).1
unfolding run_in_sandbox
run_in_sandbox-ok limits docker late workspace command timeout_seconds image r h o =
    guarded-ok limits docker late
      (container limits workspace command timeout_seconds image "1000:1000" "none")
      (validate_sandbox_config limits.allowed_images image workspace false "1000:1000" "none")
      timeout_seconds r h o
