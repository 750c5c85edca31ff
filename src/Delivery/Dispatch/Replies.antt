-- ===== src/Delivery/Dispatch/Replies.antt =====
-- What the wait for a result returns, and the work of a worker in between.
use mathlib.Core.Option.{some-injective}
use software_factory_ai.Common.{
  ℕ, zero, suc, ◌<◌, ◌≡◌, arith, refl, sym, ap, subst, ◌∙◌, true, false, Option, none, some, ◌∷◌,
  String, string_eq, contains, Bool-cases, Option-cases, inl, inr, ==_refl,
}
use software_factory_ai.Common.Dict.{get}
use software_factory_ai.Common.Rows.{find_row, find_row-append}
use software_factory_ai.Contracts.{AgentResult, MessageEnvelope}
use software_factory_ai.States.{TaskStatus, TaskStatus-discrete, task_status_eq}
use software_factory_ai.Database.{Draw}
use software_factory_ai.Database.Queries.{create_task, record_audit_event, get_task_status}
use software_factory_ai.Workers.Consumer.{Shared, Faults, handle, settle}
use software_factory_ai.Workers.Execution.{Outside, execute, result_of}
use software_factory_ai.Workers.Outcome.{execute-settles}
use software_factory_ai.Delivery.Dispatch.{
  Request, Reply, received, without_result, timeout, command_of, Others, has_ended, ended_status,
  wait_for_result, send_command, dispatch_agent,
}

-- What is shared after n sleeps of the wait, the first of which is the k-th.
unfoldable pub after_sleeps : Others → (k n : ℕ) → Shared → Shared
after_sleeps others k zero sh = sh
after_sleeps others k (suc n) sh = after_sleeps others (suc k) n (others k sh)

-- There is neither a result under the task's id, nor the status FAILED or CANCELLED of the task.
abbrev pub Silent : (task_id : String) → Shared → Type 0
Silent task_id sh =
    (get sh.results task_id ≡ none) × (ended_status (get_task_status task_id sh.db) ≡ none)

-- The reply after n of the polls, for what is shared then: a result, a status without a result,
-- or the end of the polls.
unfoldable pub Describes : (polls n : ℕ) → (task_id : String) → Shared → Reply → Type 0
Describes polls n task_id sh (received id r) =
    (n < polls) × (id ≡ task_id) × (get sh.results task_id ≡ some r)
Describes polls n task_id sh (without_result id s) =
    (n < polls)
    × (id ≡ task_id)
    × (get sh.results task_id ≡ none)
    × (get_task_status task_id sh.db ≡ some s)
    × (has_ended s ≡ true)
Describes polls n task_id sh (timeout id) = (n ≡ polls) × (id ≡ task_id)

ended_status-some :
    (o : Option TaskStatus) (s : TaskStatus)
    → ended_status o ≡ some s
    → (o ≡ some s) × (has_ended s ≡ true)
ended_status-some none s h = cc
ended_status-some (some t) s h = elim (Bool-cases (has_ended t)) [
  | inl e ↦
      let same : some t ≡ some s = rw e at h in
      (same, subst (λ x. has_ended x ≡ true) (some-injective t s same) e)
  | inr e ↦ let c : none ≡ some s = rw e at h in cc
]

wait-none :
    (others : Others) (k : ℕ) (task_id : String) (sh : Shared)
    → wait_for_result 0 others k task_id sh ≡ (timeout task_id, sh)
unfolding wait_for_result
wait-none others k task_id sh = refl

wait-received :
    (polls : ℕ) (others : Others) (k : ℕ) (task_id : String) (sh : Shared) (r : AgentResult)
    → get sh.results task_id ≡ some r
    → wait_for_result (suc polls) others k task_id sh ≡ (received task_id r, sh)
unfolding wait_for_result
wait-received polls others k task_id sh r e = rw (e, wait_for_result) refl

wait-ended :
    (polls : ℕ) (others : Others) (k : ℕ) (task_id : String) (sh : Shared) (s : TaskStatus)
    → get sh.results task_id ≡ none
    → ended_status (get_task_status task_id sh.db) ≡ some s
    → wait_for_result (suc polls) others k task_id sh ≡ (without_result task_id s, sh)
unfolding wait_for_result
wait-ended polls others k task_id sh s e f = rw (e, f, wait_for_result) refl

wait-more :
    (polls : ℕ) (others : Others) (k : ℕ) (task_id : String) (sh : Shared)
    → get sh.results task_id ≡ none
    → ended_status (get_task_status task_id sh.db) ≡ none
    → wait_for_result (suc polls) others k task_id sh
      ≡ wait_for_result polls others (suc k) task_id (others k sh)
unfolding wait_for_result
wait-more polls others k task_id sh e f = rw (e, f, wait_for_result) refl

-- The number of sleeps after which the wait answers, and its answer.
abbrev pub Answers :
    (polls : ℕ) → Others → (k : ℕ) → (task_id : String) → Shared → Reply × Shared → Type 0
Answers polls others k task_id sh (reply, sh') =
    (n : ℕ) × (sh' ≡ after_sleeps others k n sh)
    × Describes polls n task_id sh' reply
    × ((j : ℕ) → j < n → Silent task_id (after_sleeps others k j sh))

Describes-suc :
    (polls n : ℕ) (task_id : String) (sh : Shared) (reply : Reply)
    → Describes polls n task_id sh reply
    → Describes (suc polls) (suc n) task_id sh reply
unfolding Describes
Describes-suc polls n task_id sh (received id r) (l, same, e) = (omega arith, same, e)
Describes-suc polls n task_id sh (without_result id s) (l, same, e, st, en) =
    (omega arith, same, e, st, en)
Describes-suc polls n task_id sh (timeout id) (l, d) = (omega arith, d)

Silent-before :
    (others : Others) (k n : ℕ) (task_id : String) (sh : Shared)
    → Silent task_id sh
    → ((j : ℕ) → j < n → Silent task_id (after_sleeps others (suc k) j (others k sh)))
    → (j : ℕ) → j < suc n
    → Silent task_id (after_sleeps others k j sh)
unfolding after_sleeps
Silent-before others k n task_id sh now later zero l = now
Silent-before others k n task_id sh now later (suc j) l = later j (omega arith)

-- Whatever the other processes do, the wait answers with the task's id at the first poll that
-- finds a result under it, or without a result the status FAILED or CANCELLED of the task, and
-- with what that poll finds; it answers with the timeout only after all its polls, none of which
-- found either.
pub wait_for_result-Answers :
    (polls : ℕ) (others : Others) (k : ℕ) (task_id : String) (sh : Shared)
    → Answers polls others k task_id sh (wait_for_result polls others k task_id sh)
unfolding Describes after_sleeps
wait_for_result-Answers zero others k task_id sh =
    subst (Answers 0 others k task_id sh) (sym (wait-none others k task_id sh))
      (0, refl, (refl, refl), λ j l. absurd (omega arith))
wait_for_result-Answers (suc polls) others k task_id sh =
    elim (Option-cases (get sh.results task_id)) [
      | inr (r, e) ↦
          subst (Answers (suc polls) others k task_id sh)
            (sym (wait-received polls others k task_id sh r e))
            (0, refl, (omega arith, refl, e), λ j l. absurd (omega arith))
      | inl e ↦ elim (Option-cases (ended_status (get_task_status task_id sh.db))) [
        | inr (s, f) ↦
            let (st, en) = ended_status-some (get_task_status task_id sh.db) s f in
            subst (Answers (suc polls) others k task_id sh)
              (sym (wait-ended polls others k task_id sh s e f))
              (0, refl, (omega arith, refl, e, st, en), λ j l. absurd (omega arith))
        | inl f ↦
            let (n, same, d, before) =
              wait_for_result-Answers polls others (suc k) task_id (others k sh) in
            subst (Answers (suc polls) others k task_id sh)
              (sym (wait-more polls others k task_id sh e f))
              (
                suc n,
                same,
                Describes-suc polls n task_id
                    (wait_for_result polls others (suc k) task_id (others k sh)).1
                    (wait_for_result polls others (suc k) task_id (others k sh)).0 d,
                Silent-before others k n task_id sh (e, f) before,
              )
      ]
    ]

-- A task that has no row, and no result under its id: that of a fresh uuid.
abbrev Fresh : String → Shared → Type 0
Fresh id sh = (find_row (λ t. t.id) sh.db.tasks id ≡ none) × (get sh.results id ≡ none)

-- The tables after the command is sent: the task is there, READY, and has no result.
send_command-ready :
    (w : ℕ → Draw) (r : Request) (sh : Shared)
    → Fresh (w 0).id sh
    → (get_task_status (w 0).id (send_command w r sh).0.db ≡ some TaskStatus.ready)
      × (get (send_command w r sh).0.results (w 0).id ≡ none)
unfolding send_command create_task record_audit_event get_task_status
send_command-ready w r sh (new, none_yet) =
    (rw (find_row-append (λ t. t.id) sh.db.tasks _ (w 0).id, new, ==_refl (w 0).id) refl, none_yet)

handled :
    (max_attempts : ℕ) (o : Outside) (f : Faults) (e : MessageEnvelope) (k : Shared)
    → f.claims ≡ true
    → contains k.processed e.message_id ≡ false
    → (handle max_attempts (λ e' s. (true, execute o e' s)) f (some e) k).1
      ≡ execute o e (record k { processed = e.message_id ∷ k.processed })
unfolding handle settle
handled max_attempts o f e k up new = rw (up, new) refl

not_ended : (o : Option TaskStatus) → o ≡ some TaskStatus.ready → ended_status o ≡ none
unfolding contains TaskStatus-discrete
not_ended none h = refl
not_ended (some s) h = rw (some-injective s TaskStatus.ready h) refl

send_command-processed :
    (w : ℕ → Draw) (r : Request) (sh : Shared) → (send_command w r sh).0.processed ≡ sh.processed
unfolding send_command
send_command-processed w r sh = refl

-- A dispatch and a worker: where the first sleep of the wait is the worker's handling of the
-- command, which is new to it, Redis answers the worker and the task's id is fresh, the dispatch
-- returns the task's id with the result that the agent gave, by its second poll.
pub dispatch_agent-handled :
    (polls max_attempts : ℕ) (others : Others) (w : ℕ → Draw) (r : Request) (sh : Shared)
    (o : Outside) (f : Faults)
    → Fresh (w 0).id sh
    → f.claims ≡ true
    → contains sh.processed (w 2).id ≡ false
    → ((k : Shared)
        → others 0 k
          ≡ (handle max_attempts
              (λ e s. (true, execute o e s))
              f
              (some (command_of (w 2) r (w 0).id))
              k).1)
    → (dispatch_agent (suc (suc polls)) others w r sh).0
      ≡ received (w 0).id (result_of o r.agent_id).0
unfolding dispatch_agent
dispatch_agent-handled polls max_attempts others w r sh o f fresh up new works =
    let sent = (send_command w r sh).0 in
    let env = command_of (w 2) r (w 0).id in
    let (ready, no_result) = send_command-ready w r sh fresh in
    let unseen : contains sent.processed (w 2).id ≡ false =
      rw (send_command-processed w r sh) new in
    let worked = works sent ∙ handled max_attempts o f env sent up unseen in
    let (_, result) =
      execute-settles o env (record sent { processed = env.message_id ∷ sent.processed })
        TaskStatus.ready ready in
    let found = ap (λ k. get k.results (w 0).id) worked ∙ result in
    ap (λ p. p.0)
      (wait-more (suc polls) others 0 (w 0).id sent no_result (not_ended _ ready)
        ∙ wait-received polls others 1 (w 0).id (others 0 sent) (result_of o r.agent_id).0 found)
