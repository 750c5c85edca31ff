-- ===== src/Delivery/State.antt =====
-- orchestrator/state/state.py: the state of the delivery graph and the reducers that join a
-- node's partial update to it.
use software_factory_ai.Common.{
  ℕ, Bool, Option, none, some, List, [], ◌∷◌, ◌++◌, map, String, Eq, eq_of_discrete, if◌then◌else◌,
  contains, string_eq,
}
use software_factory_ai.Common.Dict.{Dict, put, merge}
use software_factory_ai.Contracts.{Finding, CodeFile, AgentStatus, AgentResult}

-- The stages of the flow, the keys of STAGE_AGENTS.
pub data Stage : Type 0 where
  triage intake_analysis product_discovery requirements architecture technical_planning : Stage
  development code_review automated_tests functional_qa security_compliance : Stage
  operational_validation documentation_release : Stage

unfoldable pub Stage-discrete : Discrete Stage
Stage-discrete = hlevel

instance abbrev pub stage_eq : Eq Stage
stage_eq = eq_of_discrete Stage-discrete

abbrev pub stage_name : Stage → String
stage_name triage = "triage"
stage_name intake_analysis = "intake_analysis"
stage_name product_discovery = "product_discovery"
stage_name requirements = "requirements"
stage_name architecture = "architecture"
stage_name technical_planning = "technical_planning"
stage_name development = "development"
stage_name code_review = "code_review"
stage_name automated_tests = "automated_tests"
stage_name functional_qa = "functional_qa"
stage_name security_compliance = "security_compliance"
stage_name operational_validation = "operational_validation"
stage_name documentation_release = "documentation_release"

-- The gates with a cycle counter (ALL_GATES).
pub data Gate : Type 0 where
  intake scope architecture code_review tests qa security operational release : Gate

unfoldable pub Gate-discrete : Discrete Gate
Gate-discrete = hlevel

instance abbrev pub gate_eq : Eq Gate
gate_eq = eq_of_discrete Gate-discrete

-- The values of `current_stage`.
pub data Position : Type 0 where
  at : Stage → Position
  delivered cancelled : Position

-- state.get('current_stage', '')
abbrev pub position_name : Option Position → String
position_name none = ""
position_name (some (at stage)) = stage_name stage
position_name (some delivered) = "delivered"
position_name (some cancelled) = "cancelled"

-- The value of `stage_results` for a stage. `results` is left out where no agent ran.
pub record StageResult : Type 0 where
  pub status : AgentStatus
  pub summary : String
  pub results : List AgentResult

-- A key that is not there yet reads as the default that the program gives to `get`.
pub record DeliveryState : Type 0 where
  pub workflow_run_id : String
  pub project_id : String
  pub demand_id : String
  pub correlation_id : String
  pub demand_title : String
  pub demand_description : String
  pub clarification_notes : List String
  pub current_stage : Option Position
  pub stage_results : Dict Stage StageResult
  pub artifacts : List String
  pub code_files : List CodeFile
  pub findings_by_stage : Dict Stage (List Finding)
  pub cycles : Dict Gate ℕ
  pub decisions : List (Dict String String)
  pub scope_approved : Bool
  pub architecture_approved : Bool
  pub release_approved : Bool
  pub human_review_required : Bool
  pub failure_reason : Option String
  pub escalated_gate : Option Gate

-- _extend: what is not in `left` is appended, with its own repetitions.
unfoldable pub missing_from {ℓ} : {A : Type ℓ} ⦃e : Eq A⦄ → List A → List A → List A
unfolding contains
missing_from left [] = []
missing_from left (x ∷ right) =
    let rest = missing_from left right in if contains left x then rest else x ∷ rest

unfoldable pub extend {ℓ} : {A : Type ℓ} ⦃e : Eq A⦄ → List A → List A → List A
unfolding missing_from
extend left right = left ++ missing_from left right

-- _merge_code_files: a dict from path to file, in order of first insertion, and its values.
abbrev pub by_path : List CodeFile → Dict String CodeFile
by_path = map (λ f. (f.path, f))

abbrev pub values {ℓ κ} : {K : Type ℓ} {V : Type κ} → Dict K V → List V
values = map (λ e. e.1)

unfoldable pub merge_code_files : List CodeFile → List CodeFile → List CodeFile
unfolding merge put
merge_code_files left right = values (merge (merge [] (by_path left)) (by_path right))

-- What a node returns: `none` is a key that it leaves out. No node returns `decisions` or
-- `architecture_approved`.
pub record Update : Type 0 where
  pub clarification_notes : Option (List String)
  pub current_stage : Option Position
  pub stage_results : Option (Dict Stage StageResult)
  pub artifacts : Option (List String)
  pub code_files : Option (List CodeFile)
  pub findings_by_stage : Option (Dict Stage (List Finding))
  pub cycles : Option (Dict Gate ℕ)
  pub scope_approved : Option Bool
  pub release_approved : Option Bool
  pub human_review_required : Option Bool
  pub failure_reason : Option String
  pub escalated_gate : Option Gate

abbrev pub no_update : Update
no_update = record {
  clarification_notes = none;
  current_stage = none;
  stage_results = none;
  artifacts = none;
  code_files = none;
  findings_by_stage = none;
  cycles = none;
  scope_approved = none;
  release_approved = none;
  human_review_required = none;
  failure_reason = none;
  escalated_gate = none;
}

-- A key with a reducer in its annotation is joined to the old value, any other replaces it.
abbrev pub reduced {ℓ κ} : {A : Type ℓ} {B : Type κ} → (A → B → A) → A → Option B → A
reduced join old none = old
reduced join old (some new) = join old new

abbrev pub replaced {ℓ} : {A : Type ℓ} → A → Option A → A
replaced old none = old
replaced old (some new) = new

abbrev pub replaced_some {ℓ} : {A : Type ℓ} → Option A → Option A → Option A
replaced_some old none = old
replaced_some old (some new) = some new

unfoldable pub apply_update : DeliveryState → Update → DeliveryState
unfolding merge put extend merge_code_files
apply_update s u = record s {
  clarification_notes = reduced extend s.clarification_notes u.clarification_notes;
  current_stage = replaced_some s.current_stage u.current_stage;
  stage_results = reduced merge s.stage_results u.stage_results;
  artifacts = reduced extend s.artifacts u.artifacts;
  code_files = reduced merge_code_files s.code_files u.code_files;
  findings_by_stage = reduced merge s.findings_by_stage u.findings_by_stage;
  cycles = reduced merge s.cycles u.cycles;
  scope_approved = replaced s.scope_approved u.scope_approved;
  release_approved = replaced s.release_approved u.release_approved;
  human_review_required = replaced s.human_review_required u.human_review_required;
  failure_reason = replaced_some s.failure_reason u.failure_reason;
  escalated_gate = replaced_some s.escalated_gate u.escalated_gate;
}

unfoldable pub flatten_values {ℓ} : {K V : Type ℓ} → Dict K (List V) → List V
flatten_values [] = []
flatten_values ((k, vs) ∷ d) = vs ++ flatten_values d

unfoldable pub all_findings : DeliveryState → List Finding
unfolding flatten_values
all_findings s = flatten_values s.findings_by_stage
