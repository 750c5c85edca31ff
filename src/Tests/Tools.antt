-- ===== src/Tests/Tools.antt =====
-- A tool that reads a file of its workspace.
use software_factory_ai.Common.{◌≡◌, ◌↔◌, some, [], ◌∷◌, String}
use software_factory_ai.Tools.{returned, Registry, Policy, authorized_call}
use software_factory_ai.Tools.Authorization.{Authorized, authorized_call-returned}

abbrev registry : Registry String String
registry = ("code.read", λ execution path. some "text") ∷ []

abbrev policy : Policy
policy = record { allowed = "code.read" ∷ []; denied = "git.push" ∷ [] }

authorized_call-returned_example :
    (authorized_call registry
        (λ path. path)
        policy
        "code.read"
        "execution"
        "/work/main.py"
        (some "/work")
      ≡ returned "text")
    ↔ Authorized registry
        (λ path. path)
        policy
        "code.read"
        "execution"
        "/work/main.py"
        (some "/work")
        "text"
authorized_call-returned_example =
    authorized_call-returned registry (λ path. path) policy "code.read" "execution" "/work/main.py"
      (some "/work") "text"
