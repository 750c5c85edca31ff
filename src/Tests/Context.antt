-- ===== src/Tests/Context.antt =====
-- A context whose inputs hold a token.
use software_factory_ai.Common.{string_eq, refl, none, [], ◌∷◌, String}
use software_factory_ai.Common.Dict.{get}
use software_factory_ai.Delivery.Context.{Inputs, build_context, is_secret}
use software_factory_ai.Delivery.Context.Limits.{
  Bounded, build_context-Bounded, Removed, build_context-Removed,
}

abbrev inputs : Inputs String
inputs = record {
  objective = "Etapa requirements da demanda: login";
  required_inputs = ("demand_title", "login") ∷ ("api_token", "abc") ∷ [];
  relevant_artifacts = "spec.md" ∷ [];
  applicable_decisions = [];
  pending_findings = [];
  constraints = [];
  allowed_tools = [];
  code_files = record { path = "main.py"; content = "pass"; language = none } ∷ [];
}

build_context-Bounded_example : Bounded (build_context (λ t. t) inputs)
build_context-Bounded_example = build_context-Bounded (λ t. t) inputs

build_context-Removed_example :
    Removed (get (build_context (λ t. t) inputs).required_inputs "api_token")
unfolding is_secret
build_context-Removed_example = build_context-Removed (λ t. t) inputs "api_token" refl
