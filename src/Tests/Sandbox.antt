-- ===== src/Tests/Sandbox.antt =====
-- An execution in the sandbox that succeeds.
use software_factory_ai.Common.{◌≡◌, refl, true, false, some, [], ◌∷◌, string_eq}
use software_factory_ai.Sandbox.{
  Limits, Container, Attempt, answered, Started, run_container, remove_container, SandboxResult,
  container, run_in_sandbox,
}
use software_factory_ai.Sandbox.Isolation.{
  AllIsolated, Succeeded, run_in_sandbox-AllIsolated, run_in_sandbox-ok,
}

abbrev limits : Limits
limits = record {
  allowed_images = "factory-sandbox-python:latest" ∷ [];
  mem_limit = "1g";
  nano_cpus = 1000000000;
}

abbrev tests_pass : Attempt Started
tests_pass = answered (record { waited = answered (some 0, "3 passed"); removed = answered tt })

abbrev pytest : Container
pytest =
    container limits "/work/e1" ("pytest" ∷ []) 300 "factory-sandbox-python:latest" "1000:1000"
      "none"

abbrev passed : SandboxResult
passed = record { exit_code = some 0; is_ok = true; output = "3 passed" }

run_in_sandbox-AllIsolated_example :
    AllIsolated limits.allowed_images (run_container pytest ∷ remove_container ∷ [])
unfolding run_in_sandbox AllIsolated
run_in_sandbox-AllIsolated_example =
    run_in_sandbox-AllIsolated limits tests_pass false "/work/e1" ("pytest" ∷ []) 300
      "factory-sandbox-python:latest"

run_in_sandbox-ok_example :
    Succeeded tests_pass false "3 passed"
    × ((run_in_sandbox limits tests_pass false "/work/e1"
          ("pytest" ∷ [])
          300
          "factory-sandbox-python:latest").1
        ≡ run_container pytest ∷ remove_container ∷ [])
unfolding run_in_sandbox
run_in_sandbox-ok_example =
    run_in_sandbox-ok limits tests_pass false "/work/e1" ("pytest" ∷ []) 300
      "factory-sandbox-python:latest" passed refl refl
