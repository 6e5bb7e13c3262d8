-- ===== src/Kafka/Worker/Run/Commits.antt =====
-- What Worker.Run of internal/kafka/runtime.go commits, and in which order.
use sql_sentinel.Prelude.{Bool, true, Option, none, some, List, [], ◌∷◌, ◌≡◌, ◌⊎◌}
use sql_sentinel.Json.{Stream}
use sql_sentinel.Kafka.Model.{Config, Hash, Err, not_found}
use sql_sentinel.Kafka.Event.{Event, decode_event}
use sql_sentinel.Kafka.Memory.{MemoryStore}
use sql_sentinel.Kafka.Broker.{Message, MemoryBroker, receive, commit}
use sql_sentinel.Kafka.Worker.{Runner, Meeting}
use sql_sentinel.Kafka.Worker.Commits.{IsSettled}
use sql_sentinel.Kafka.Worker.Run.{MessageEnd, handle_message, Done, is_done}
use sql_sentinel.Kafka.Worker.Run.Keyed.{Keyed}

-- A message that Handle has dealt with: it is an event whose job is finished or waits for a retry.
pub record IsHandled (hash : Hash) (m : Message) (s : MemoryStore) : Type 0 where
  pub bytes : Stream
  pub event : Event
  pub value : m.value ≡ some bytes
  pub decoded : decode_event bytes ≡ some event
  pub settled : IsSettled hash event.job_id s

-- No event can be read from the message.
abbrev pub IsUnreadable : Option Stream → Type 0
IsUnreadable value = (bytes : Stream) → value ≡ some bytes → decode_event bytes ≡ none

-- Quarantine took the message, which is no event or the event of a job that is not there.
abbrev pub IsSetAside : Option (Message → Bool) → Message → Err → Type 0
IsSetAside aside m e =
    (quarantine : Message → Bool) × (aside ≡ some quarantine)
    × (quarantine m ≡ true)
    × (IsUnreadable m.value ⊎ (e ≡ not_found))

module _ (hash : Hash) (runner : Runner) (config : Config) (aside : Option (Message → Bool)) where
  -- The reason for which a message may be committed: it was handled, or an error of Handle is one for
  -- which the store put it aside.
  pub data MayCommit (m : Message) (s : MemoryStore) : Type 0 where
    after_nil : IsHandled hash m s → MayCommit m s
    set_aside :
        (t : Meeting) (e : Err) (before : MemoryStore)
        → (handle_message hash runner config t m.value before).0 ≡ some e
        → IsSetAside aside m e
        → MayCommit m s

  -- The attempts at one message.
  abbrev Ends : Message → MessageEnd × MemoryStore → Type 0
  Ends m r = Keyed r.1 × (is_done r.0 ≡ true → MayCommit m r.1)

  -- The messages of a log come from the broker in its order, each committed before the next, and each
  -- was done with when it was committed.
  pub Follows : MemoryBroker → List Done → MemoryBroker → Type 0
  Follows b [] end = end ≡ b
  Follows b (d ∷ log) end =
      (receive b ≡ some d.message) × MayCommit d.message d.store × Follows (commit b) log end
