-- ===== src/Orchestrator/Recovery.antt =====
-- orchestrator/main.py, _reconcile_stale_running_runs: a run whose failure could not be written.
use mathlib.Core.Option
use software_factory_ai.Common.{
  ℕ, ◌+◌, ◌<◌, ◌≡◌, refl, sym, subst, Bool, true, false, not, Option, some, List, [], ◌∷◌, map,
  String, ◌==◌, contains, string_eq, arith, Bool-cases, Option-cases, ◌⊎◌, inl, inr,
}
use software_factory_ai.Common.Lists.{select}
use software_factory_ai.Common.Rows.{find_row}
use software_factory_ai.States.{RunStatus, RunStatus-discrete, run_status_eq}
use software_factory_ai.Database.{Database, Draw, WorkflowRun, Demand}
use software_factory_ai.Database.Queries.{
  RunRequest, select_requests, is_stale, stale_running_threshold_seconds, fetch_stale_running_runs,
}
use software_factory_ai.Delivery.State.{DeliveryState}
use software_factory_ai.Orchestrator.{
  Outcome, raised, Faults, attempts, mark_run_status, try_run, handle_failure, Process,
  run_workflow, runs_to_resume,
}
use software_factory_ai.Orchestrator.Laws.{
  run_workflow-running, attempts-reach, marked_running, graph_input,
}

-- Among the requests there is one for the run.
abbrev pub Requested : String → List RunRequest → Type 0
Requested run_id requests = contains (map (λ q. q.workflow_run_id) requests) run_id ≡ true

select-Requested :
    (ids : List String) (run_id : String) (requests : List RunRequest)
    → contains ids run_id ≡ false
    → Requested run_id requests
    → Requested run_id (select (λ q. not (contains ids q.workflow_run_id)) requests)
unfolding contains select
select-Requested ids run_id [] new h = cc
select-Requested ids run_id (q ∷ requests) new h = elim (Bool-cases (q.workflow_run_id == run_id)) [
  | inl e ↦
      let same : q.workflow_run_id ≡ run_id = (string_eq.beq_iff q.workflow_run_id run_id).0 e in
      let kept : contains ids q.workflow_run_id ≡ false = rw same new in rw (kept, e) refl
  | inr e ↦
      let later = select-Requested ids run_id requests new (rw e at h) in
      elim (Bool-cases (contains ids q.workflow_run_id)) [
        | inl t ↦ rw t later
        | inr t ↦ rw (t, e) later
      ]
]

select_requests-Requested :
    (test : WorkflowRun → Bool) (db : Database) (run_id : String) (rows : List WorkflowRun)
    (r : WorkflowRun) (d : Demand)
    → find_row (λ x. x.id) rows run_id ≡ some r
    → test r ≡ true
    → find_row (λ x. x.id) db.demands r.demand_id ≡ some d
    → Requested run_id (select_requests test db rows)
unfolding select_requests find_row contains
select_requests-Requested test db run_id [] r d h t f = cc
select_requests-Requested test db run_id (x ∷ rows) r d h t f = elim (Bool-cases (x.id == run_id)) [
  | inl e ↦
      let same : r ≡ x = sym (Option.some-injective _ _ (rw e at h)) in
      let passes : test x ≡ true = subst (λ y. test y ≡ true) same t in
      let joins : find_row (λ y. y.id) db.demands x.demand_id ≡ some d =
        subst (λ y. find_row (λ z. z.id) db.demands y.demand_id ≡ some d) same f in
      rw (passes, joins, e) refl
  | inr e ↦
      let later = select_requests-Requested test db run_id rows r d (rw e at h) t f in
      elim (Bool-cases (test x)) [
        | inr no_test ↦ rw no_test later
        | inl tested ↦ elim (Option-cases (find_row (λ y. y.id) db.demands x.demand_id)) [
          | inl absent ↦ rw (tested, absent) later
          | inr (y, there) ↦ rw (tested, there, e) later
        ]
      ]
]

stale_status :
    (r : WorkflowRun) (now : ℕ)
    → (r.status ≡ RunStatus.running) ⊎ (r.status ≡ RunStatus.waiting_human)
    → r.updated_at + stale_running_threshold_seconds < now
    → is_stale now stale_running_threshold_seconds r ≡ true
unfolding contains RunStatus-discrete
stale_status r now (inl e) l = rw e (ground arith)
stale_status r now (inr e) l = rw e (ground arith)

-- A failure that cannot be written leaves the tables as the graph left them.
run_workflow-unwritten :
    (f : Faults) (w : ℕ → Draw) (ainvoke : Option DeliveryState → Database → Outcome)
    (resume has_checkpoint : Bool) (run : RunRequest) (p : Process) (error : String) (db : Database)
    (i : ℕ)
    → contains p.running run.workflow_run_id ≡ false
    → i < 5
    → f.begin i ≡ true
    → ainvoke (graph_input resume has_checkpoint run) (marked_running w run p) ≡ raised error db
    → attempts 5 f.failure 0 ≡ false
    → (run_workflow f w ainvoke resume has_checkpoint run p).db ≡ db
unfolding run_workflow try_run handle_failure mark_run_status
run_workflow-unwritten f w ainvoke resume has_checkpoint run p error db i new bi hi answer lost =
    rw (new, attempts-reach i f.begin bi hi, answer, lost) refl

-- A run is never stuck: where the graph raises with tables in which the run is RUNNING or
-- WAITING_HUMAN, with its demand, and none of the five attempts to write the failure reaches the
-- database, the process does not count the run as running any more, and its poll of the same
-- tables resumes the run once its last write is older than the threshold.
pub stuck_run_resumed :
    (f : Faults) (w : ℕ → Draw) (ainvoke : Option DeliveryState → Database → Outcome)
    (resume has_checkpoint : Bool) (run : RunRequest) (p : Process) (error : String) (db : Database)
    (r : WorkflowRun) (d : Demand) (i now : ℕ)
    → contains p.running run.workflow_run_id ≡ false
    → i < 5
    → f.begin i ≡ true
    → ainvoke (graph_input resume has_checkpoint run) (marked_running w run p) ≡ raised error db
    → attempts 5 f.failure 0 ≡ false
    → find_row (λ x. x.id) db.runs run.workflow_run_id ≡ some r
    → (r.status ≡ RunStatus.running) ⊎ (r.status ≡ RunStatus.waiting_human)
    → find_row (λ x. x.id) db.demands r.demand_id ≡ some d
    → r.updated_at + stale_running_threshold_seconds < now
    → Requested run.workflow_run_id
        (runs_to_resume now (run_workflow f w ainvoke resume has_checkpoint run p))
unfolding runs_to_resume fetch_stale_running_runs
stuck_run_resumed f w ainvoke resume has_checkpoint run p error db r d i now new bi hi answer lost
      row status demand late =
    let left = run_workflow f w ainvoke resume has_checkpoint run p in
    let tables : left.db ≡ db =
      run_workflow-unwritten f w ainvoke resume has_checkpoint run p error db i new bi hi answer
        lost in
    let idle : left.running ≡ p.running =
      run_workflow-running f w ainvoke resume has_checkpoint run p in
    select-Requested left.running run.workflow_run_id
      (fetch_stale_running_runs now stale_running_threshold_seconds left.db)
      (subst (λ ids. contains ids run.workflow_run_id ≡ false) (sym idle) new)
      (subst
        (λ t.
          Requested run.workflow_run_id
            (fetch_stale_running_runs now stale_running_threshold_seconds t))
        (sym tables)
        (select_requests-Requested (is_stale now stale_running_threshold_seconds) db
          run.workflow_run_id db.runs r d row (stale_status r now status late) demand))
