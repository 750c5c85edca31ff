-- ===== src/Workers/Retries.antt =====
-- What the queue sees of a command: retried while attempts are left, and done once.
use software_factory_ai.Common.{
  ℕ, ◌+◌, ◌≤◌, ◌<◌, ◌≡◌, refl, ◌⊎◌, inl, inr, Bool, true, false, not, some, List, [], ◌∷◌, ◌++◌,
  String, leb, ◌==◌, contains, contains-cons_self, string_eq, arith, Bool-cases,
}
use software_factory_ai.Common.Lists.{select}
use software_factory_ai.Contracts.{MessageEnvelope}
use software_factory_ai.Workers.Consumer.{
  Shared, acked, dead_lettered, unacknowledged, Faults, Verdict, handle,
}

released : (id : String) (ids : List String) → contains (select (λ j. not (j == id)) ids) id ≡ false
unfolding contains select
released id [] = refl
released id (j ∷ ids) = ground (arith, released id ids)

-- The shared state in which a command runs: its message id is taken.
abbrev pub claimed : MessageEnvelope → Shared → Shared
claimed e k = record k { processed = e.message_id ∷ k.processed }

module _ (max_attempts : ℕ) where
  -- What a new command that fails gets: the dead letters or another attempt, which the broker
  -- makes itself where the command cannot be put back.
  pub Retried : Faults → MessageEnvelope → Shared → Verdict × Shared → Type 0
  Retried f e k' (verdict, k) =
      ((max_attempts ≤ e.attempt) × (verdict ≡ dead_lettered) × (k.queue ≡ k'.queue))
      ⊎ ((e.attempt < max_attempts)
          × (f.republishes ≡ true)
          × (verdict ≡ acked)
          × (k.queue ≡ k'.queue ++ record e { attempt = e.attempt + 1 } ∷ []))
      ⊎ ((e.attempt < max_attempts)
          × (f.republishes ≡ false)
          × (verdict ≡ unacknowledged)
          × (k.queue ≡ k'.queue))

  -- Where Redis answers, a command that is new and fails gives up its message id, so that it can
  -- run again. Without attempts left it goes to the dead letters and the queue is as the failure
  -- left it; otherwise it is acknowledged and put back with one more attempt, or, where it cannot
  -- be put back, not acknowledged.
  pub handle-failed :
      (execute : MessageEnvelope → Shared → Bool × Shared) (f : Faults) (e : MessageEnvelope)
      (k k' : Shared)
      → f.claims ≡ true
      → f.releases ≡ true
      → contains k.processed e.message_id ≡ false
      → execute e (claimed e k) ≡ (false, k')
      → (contains (handle max_attempts execute f (some e) k).1.processed e.message_id ≡ false)
        × Retried f e k' (handle max_attempts execute f (some e) k)
  unfolding handle Retried
  handle-failed execute f e k k' up free new failed =
      elim (Bool-cases (leb max_attempts e.attempt)) [
        | inl last ↦
            rw (up, new, failed, free, last)
              (released e.message_id k'.processed, inl (ground arith, refl, refl))
        | inr more ↦ elim (Bool-cases f.republishes) [
          | inl sent ↦
              rw (up, new, failed, free, more, sent)
                (released e.message_id k'.processed, inr (inl (ground arith, refl, refl, refl)))
          | inr lost ↦
              rw (up, new, failed, free, more, lost)
                (released e.message_id k'.processed, inr (inr (ground arith, refl, refl, refl)))
        ]
      ]

  -- Where Redis answers, a command that is new and succeeds, and keeps the processed keys, is
  -- acknowledged, and its next delivery is acknowledged without any change.
  pub handle-once :
      (execute execute' : MessageEnvelope → Shared → Bool × Shared) (f f' : Faults)
      (e : MessageEnvelope) (k k' : Shared)
      → f.claims ≡ true
      → f'.claims ≡ true
      → contains k.processed e.message_id ≡ false
      → execute e (claimed e k) ≡ (true, k')
      → k'.processed ≡ e.message_id ∷ k.processed
      → (handle max_attempts execute f (some e) k ≡ (acked, k'))
        × (handle max_attempts execute' f' (some e) k' ≡ (acked, k'))
  unfolding handle
  handle-once execute execute' f f' e k k' up up' new done kept = (
    rw (up, new, done) refl,
    rw (up', kept, contains-cons_self e.message_id e.message_id k.processed refl) refl,
  )

  -- A command that is new and fails while Redis does not answer the delete is lost: it is not
  -- acknowledged, it keeps its message id, and the next delivery acknowledges it as a duplicate,
  -- with attempts left and no change.
  pub handle-lost :
      (execute execute' : MessageEnvelope → Shared → Bool × Shared) (f f' : Faults)
      (e : MessageEnvelope) (k k' : Shared)
      → f.claims ≡ true
      → f.releases ≡ false
      → f'.claims ≡ true
      → contains k.processed e.message_id ≡ false
      → execute e (claimed e k) ≡ (false, k')
      → k'.processed ≡ e.message_id ∷ k.processed
      → (handle max_attempts execute f (some e) k ≡ (unacknowledged, k'))
        × (handle max_attempts execute' f' (some e) k' ≡ (acked, k'))
  unfolding handle
  handle-lost execute execute' f f' e k k' up stuck up' new failed kept = (
    rw (up, new, failed, stuck) refl,
    rw (up', kept, contains-cons_self e.message_id e.message_id k.processed refl) refl,
  )
