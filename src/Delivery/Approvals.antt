-- ===== src/Delivery/Approvals.antt =====
-- orchestrator/nodes/approvals.py: the nodes that stop the graph until a person decides.
pub mod Waiting
use software_factory_ai.Common.{
  ℕ, zero, suc, ◌+◌, Bool, true, false, not, Option, none, some, List, [], ◌∷◌, map, String,
  if◌then◌else◌, ◌==◌, contains, text_append, string_eq,
}
use software_factory_ai.Common.Dict.{Dict, get, get_or}
use software_factory_ai.Common.Lists.{take, select, flat}
use software_factory_ai.Common.Text.{join_texts}
use software_factory_ai.Contracts.{Severity, Severity-discrete, severity_eq, AgentResult, Finding}
use software_factory_ai.States.{
  RunStatus, ApprovalStatus, ApprovalStatus-discrete, approval_status_eq, approval_status_name,
}
use software_factory_ai.Database.{Database, Draw}
use software_factory_ai.Database.Queries.{
  set_status, update_run, record_audit_event, orchestrator_audit, ApprovalRequest, create_approval,
  get_approval_status, get_approval_rationale, record_decision, given,
}
use software_factory_ai.Delivery.State.{
  Stage, Stage-discrete, stage_eq, position_name, Gate, Gate-discrete, gate_eq, StageResult,
  DeliveryState, Update, no_update, all_findings,
}

-- ALL_GATES
abbrev pub all_gates : List Gate
all_gates =
    Gate.intake ∷ Gate.scope ∷ Gate.architecture ∷ Gate.code_review ∷ Gate.tests ∷ Gate.qa
    ∷ Gate.security ∷ Gate.operational ∷ Gate.release ∷ []

-- `status and status != "REQUESTED"`
abbrev pub decided : Option ApprovalStatus → Option ApprovalStatus
decided none = none
decided (some ApprovalStatus.requested) = none
decided (some s) = some s

-- The other processes: what they do to the tables during the k-th sleep of a waiting node.
abbrev pub Others : Type 0
Others = ℕ → Database → Database

-- _wait_for_approval, for a number of polls; `none` is a node that still waits.
unfoldable pub wait_for_approval :
    ℕ → Others → ℕ → String → Database → Option (Database × ApprovalStatus)
unfolding get_approval_status
wait_for_approval zero others k approval_id db = none
wait_for_approval (suc polls) others k approval_id db =
    elim (decided (get_approval_status approval_id db)) [
      | some status ↦ some (db, status)
      | none ↦ wait_for_approval polls others (suc k) approval_id (others k db)
    ]

-- f.get("severity") in ("high", "critical")
abbrev pub is_risk : Finding → Bool
is_risk f = contains (Severity.high ∷ Severity.critical ∷ []) f.severity

-- The texts and the pictures of the moment that a request for approval shows.
abbrev pub request_for :
    DeliveryState → (approval_type summary recommendation : String) → ApprovalRequest
request_for s approval_type summary recommendation = record {
  workflow_run_id = s.workflow_run_id;
  approval_type = approval_type;
  summary = summary;
  recommendation = recommendation;
  artifacts = take 20 s.artifacts;
  risks = take 10 (select is_risk (all_findings s));
}

-- _request_and_wait up to the wait: the tables and the id of the approval.
unfoldable pub request_approval :
    (ℕ → Draw) → DeliveryState → ApprovalRequest → Database → Database × String
unfolding update_run create_approval record_audit_event
request_approval w s request db =
    let waiting = update_run (w 0).now s.workflow_run_id (set_status RunStatus.waiting_human) db in
    let (asked, approval_id) = create_approval (w 1) request waiting in
    (
      record_audit_event (w 2)
          (orchestrator_audit "approval.requested" "approval" approval_id s.correlation_id
            (some (("approval_type", request.approval_type) ∷ [])))
          asked,
      approval_id,
    )

-- _request_and_wait after the wait.
unfoldable pub after_decision :
    (ℕ → Draw) → DeliveryState → String → ApprovalStatus → Database → Database
unfolding update_run record_decision
after_decision w s approval_type status db =
    record_decision (w 4) s.workflow_run_id approval_type
      (text_append "Decisão humana: " (approval_status_name status)) (approval_status_name status)
      "human" (update_run (w 3).now s.workflow_run_id (set_status RunStatus.running) db)

unfoldable pub request_and_wait :
    ℕ
    → Others
    → (ℕ → Draw)
    → DeliveryState
    → (approval_type summary recommendation : String) → Database
    → Option (Database × ApprovalStatus)
unfolding request_approval wait_for_approval after_decision all_findings
request_and_wait polls others w s approval_type summary recommendation db =
    let request = request_for s approval_type summary recommendation in
    let (asked, approval_id) = request_approval w s request db in
    elim (wait_for_approval polls others 0 approval_id asked) [
      | none ↦ none
      | some (db', status) ↦ some (after_decision w s approval_type status db', status)
    ]

-- The state update that a decision leads to, if the node has one.
abbrev pub decide_update :
    (ApprovalStatus → Update) → Option (Database × ApprovalStatus) → Option (Database × Update)
decide_update f none = none
decide_update f (some (db, status)) = some (db, f status)

abbrev pub scope_update : ApprovalStatus → Update
scope_update status = record no_update { scope_approved = some (status == ApprovalStatus.approved) }

unfoldable pub scope_approval :
    ℕ → Others → (ℕ → Draw) → DeliveryState → Database → Option (Database × Update)
unfolding request_and_wait
scope_approval polls others w s db = decide_update scope_update (
    request_and_wait polls others w s "scope"
      (text_append "Aprovação de escopo da demanda: " s.demand_title)
      "Aprovar se problema, objetivo, usuário, valor e métricas estão claros (Gate 1/2)." db)

abbrev pub release_update : ApprovalStatus → Update
release_update status = record no_update {
  release_approved = some (status == ApprovalStatus.approved);
}

unfoldable pub release_approval :
    ℕ → Others → (ℕ → Draw) → DeliveryState → Database → Option (Database × Update)
unfolding request_and_wait
release_approval polls others w s db = decide_update release_update (
    request_and_wait polls others w s "release" (text_append "Release da demanda: " s.demand_title)
      "Aprovar somente com todos os gates aprovados e release notes disponíveis." db)

-- An approved review sets every cycle counter to 0.
abbrev pub review_update : ApprovalStatus → Update
review_update status = record no_update {
  human_review_required = some (not (status == ApprovalStatus.approved));
  cycles =
      if status == ApprovalStatus.approved then some (map (λ gate. (gate, 0)) all_gates) else none;
}

unfoldable pub human_review_required :
    ℕ → Others → (ℕ → Draw) → DeliveryState → Database → Option (Database × Update)
unfolding request_and_wait
human_review_required polls others w s db = decide_update review_update (
    request_and_wait polls others w s "human_review"
      (text_append "Limite de ciclos automáticos atingido na etapa "
        (position_name s.current_stage))
      "Revisar os findings acumulados e decidir prosseguir ou cancelar." db)

abbrev pub intake_results : DeliveryState → List AgentResult
intake_results s = elim (get s.stage_results Stage.intake_analysis) [
  | none ↦ []
  | some r ↦ r.results
]

-- The descriptions of the gaps that the intake analysis found.
unfoldable pub intake_gaps : DeliveryState → List String
unfolding flat select
intake_gaps s =
    flat
      (λ r. map (λ f. f.description) (select (λ f. f.category == "informacao_ausente") r.findings))
      (intake_results s)

abbrev pub text_or : String → String → String
text_or text default = if text == "" then default else text

abbrev pub clarification_request : DeliveryState → ApprovalRequest
clarification_request s = record {
  workflow_run_id = s.workflow_run_id;
  approval_type = "intake_clarification";
  summary = text_append "Informações insuficientes na demanda '" (
      text_append s.demand_title (
        text_append "': " (
          text_or (join_texts "; " (take 10 (intake_gaps s)))
            "Ver findings da etapa para o detalhamento completo.")));
  recommendation =
      "Responda no campo de justificativa às lacunas apontadas (ex.: canal de acesso, escopo desejado, volume esperado de usuários, regras de negócio essenciais, restrições não-funcionais, dados sensíveis, integrações, critério de sucesso). A resposta será usada para completar a análise.";
  artifacts = [];
  risks = [];
}

-- One more intake cycle, and the answer where one was given and not rejected.
abbrev pub clarification_update : DeliveryState → ApprovalStatus → String → Update
clarification_update s status rationale =
    let update : Update = record no_update {
      cycles = some ((Gate.intake, get_or s.cycles Gate.intake 0 + 1) ∷ []);
    } in
    if status == ApprovalStatus.rejected
    then record update { human_review_required = some true }
    else if rationale == ""
    then update
    else record update { clarification_notes = some (rationale ∷ []) }

unfoldable pub clarification_asked : (ℕ → Draw) → DeliveryState → Database → Database × String
unfolding update_run create_approval record_audit_event
clarification_asked w s db =
    let (asked, approval_id) = create_approval (w 0) (clarification_request s) db in
    let waiting =
      update_run (w 1).now s.workflow_run_id (set_status RunStatus.waiting_human) asked in
    (
      record_audit_event (w 2)
          (orchestrator_audit "approval.requested" "approval" approval_id s.correlation_id
            (some (("approval_type", "intake_clarification") ∷ [])))
          waiting,
      approval_id,
    )

unfoldable pub clarification_answered :
    (ℕ → Draw) → DeliveryState → String → ApprovalStatus → Database → Database × Update
unfolding update_run get_approval_rationale record_decision
clarification_answered w s approval_id status db =
    let resumed = update_run (w 3).now s.workflow_run_id (set_status RunStatus.running) db in
    let rationale = given (get_approval_rationale approval_id resumed) "" in
    (
      record_decision (w 4) s.workflow_run_id "intake_clarification"
          (text_or rationale (text_append "Decisão humana: " (approval_status_name status)))
          (approval_status_name status) "human" resumed,
      clarification_update s status rationale,
    )

unfoldable pub intake_clarification :
    ℕ → Others → (ℕ → Draw) → DeliveryState → Database → Option (Database × Update)
unfolding clarification_asked wait_for_approval clarification_answered
intake_clarification polls others w s db =
    let (asked, approval_id) = clarification_asked w s db in
    elim (wait_for_approval polls others 0 approval_id asked) [
      | none ↦ none
      | some (db', status) ↦ some (clarification_answered w s approval_id status db')
    ]
