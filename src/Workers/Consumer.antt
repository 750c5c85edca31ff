-- ===== src/Workers/Consumer.antt =====
-- workers/base/consumer.py: a message of the queue, once for each message id, with retries.
use software_factory_ai.Common.{
  ℕ, ◌+◌, Bool, true, false, not, Option, none, some, List, [], ◌∷◌, ◌++◌, String, leb,
  if◌then◌else◌, ◌==◌, contains, string_eq,
}
use software_factory_ai.Common.Dict.{Dict}
use software_factory_ai.Common.Lists.{select}
use software_factory_ai.Contracts.{MessageEnvelope, AgentResult}
use software_factory_ai.Database.{Database}

-- What the workers share: the `processed:` keys and the `task_result:` keys of Redis, the queue of
-- the domain and the tables. A key is kept until it is deleted; the expiry is left out.
pub record Shared : Type 0 where
  pub processed : List String
  pub results : Dict String AgentResult
  pub queue : List MessageEnvelope
  pub db : Database

-- message.ack and message.reject(requeue=False), or neither: an exception that leaves `_handle`,
-- after which the broker still has the message and delivers it again.
pub data Verdict : Type 0 where
  acked dead_lettered unacknowledged : Verdict

-- What the calls of Redis and of the broker meet while one message is handled: whether the SETNX,
-- the delete and the publication get through.
pub record Faults : Type 0 where
  pub claims : Bool
  pub releases : Bool
  pub republishes : Bool

-- _republish, which puts the command back with one more attempt
unfoldable pub republish : MessageEnvelope → Shared → Shared
republish e k = record k { queue = k.queue ++ record e { attempt = e.attempt + 1 } ∷ [] }

-- redis.delete
unfoldable pub release : String → Shared → Shared
unfolding select
release message_id k = record k { processed = select (λ j. not (j == message_id)) k.processed }

-- MAX_ATTEMPTS is a setting of the deployment.
module _ (max_attempts : ℕ) where
  -- The handler of the exceptions, once the message id is released.
  unfoldable pub retry : Faults → MessageEnvelope → Shared → Verdict × Shared
  unfolding republish
  retry f e k =
      if leb max_attempts e.attempt
      then (dead_lettered, k)
      else if f.republishes
      then (acked, republish e k)
      else (unacknowledged, k)

  -- What follows `_execute`: true where it returned, false where it raised.
  unfoldable pub settle : Faults → MessageEnvelope → Bool × Shared → Verdict × Shared
  unfolding retry release
  settle f e (true, k) = (acked, k)
  settle f e (false, k) =
      if f.releases then retry f e (release e.message_id k) else (unacknowledged, k)

  -- _handle; `none` is a body that is no envelope. The verdict itself is given to the broker.
  unfoldable pub handle :
      (MessageEnvelope → Shared → Bool × Shared)
      → Faults
      → Option MessageEnvelope
      → Shared
      → Verdict × Shared
  unfolding contains settle
  handle execute f none k = (dead_lettered, k)
  handle execute f (some e) k =
      if not f.claims
      then (unacknowledged, k)
      else if contains k.processed e.message_id
      then (acked, k)
      else settle f e (execute e (record k { processed = e.message_id ∷ k.processed }))
