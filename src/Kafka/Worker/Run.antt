-- ===== src/Kafka/Worker/Run.antt =====
-- Worker.Run of internal/kafka/runtime.go with a MemoryBroker as its consumer: a message is handled
-- again and again until Handle returns nil or the store puts it aside, and then it is committed.
pub mod Keyed
pub mod Commits
use sql_sentinel.Prelude.{
  ℕ, ◌+◌, Bool, true, false, ◌&&◌, ◌||◌, Option, none, some, List, [], ◌∷◌, if◌then◌else◌,
}
use sql_sentinel.Json.{Stream}
use sql_sentinel.Kafka.Model.{Err, not_found, Config, with_defaults, Hash}
use sql_sentinel.Kafka.Event.{decode_event}
use sql_sentinel.Kafka.Memory.{MemoryStore}
use sql_sentinel.Kafka.Memory.Steps.{Op}
use sql_sentinel.Kafka.Memory.Life.{run}
use sql_sentinel.Kafka.Broker.{Message, MemoryBroker, receive, commit}
use sql_sentinel.Kafka.Worker.{Meeting, Runner, handle}

-- One attempt at a message: the calls of others before it, what Handle meets, and whether the context
-- ends in the pause behind it.
pub record Try : Type 0 where
  pub before : List Op
  pub meeting : Meeting
  pub ended : Bool

-- How the attempts at a message end: Handle returned nil, the message was put aside, the context
-- ended, or the attempts that are given ran out and the next one is to come.
pub data MessageEnd : Type 0 where
  handled quarantined stopped pending : MessageEnd

abbrev pub is_not_found : Err → Bool
is_not_found not_found = true
is_not_found _ = false

abbrev pub is_undecodable : Option Stream → Bool
is_undecodable none = true
is_undecodable (some bytes) = elim (decode_event bytes) [ none ↦ true | some e ↦ false ]

-- What the store does to a message that is not handled: `aside` is `none` for a store without
-- Quarantine, as MemoryStore is, or says whether Quarantine succeeded.
unfoldable pub put_aside : Option (Message → Bool) → Message → Err → Bool
unfolding decode_event
put_aside none m e = false
put_aside (some quarantine) m e = (is_undecodable m.value || is_not_found e) && quarantine m

-- Handle for the bytes of a message; nil bytes do not decode.
unfoldable pub handle_message :
    Hash → Runner → Config → Meeting → Option Stream → MemoryStore → Option Err × MemoryStore
unfolding handle
handle_message hash runner config m none s = (some (Err.invalid "decode event"), s)
handle_message hash runner config m (some bytes) s = handle hash runner config m bytes s

-- The inner loop.
unfoldable pub attempt_message :
    Hash
    → Runner
    → Config
    → Option (Message → Bool)
    → Message
    → List Try
    → MemoryStore
    → MessageEnd × MemoryStore
unfolding put_aside handle_message
attempt_message hash runner config aside m [] s = (pending, s)
attempt_message hash runner config aside m (t ∷ tries) s =
    let (answer, s') = handle_message hash runner config t.meeting m.value (run hash t.before s) in
    let rest = attempt_message hash runner config aside m tries s' in
    elim answer [
      | none ↦ (handled, s')
      | some e ↦
          if put_aside aside m e then (quarantined, s') else if t.ended then (stopped, s') else rest
    ]

-- A message and how it was done with, and the store at that time.
pub record Done : Type 0 where
  pub message : Message
  pub how : MessageEnd
  pub store : MemoryStore

pub record Progress : Type 0 where
  pub log : List Done
  pub store : MemoryStore
  pub broker : MemoryBroker

abbrev pub is_done : MessageEnd → Bool
is_done handled = true
is_done quarantined = true
is_done _ = false

-- The outer loop, with the attempts at each message; it ends when no message is there.
unfoldable pub run_worker :
    Hash
    → Runner
    → Config
    → Option (Message → Bool)
    → List (List Try)
    → MemoryStore
    → MemoryBroker
    → Progress
unfolding attempt_message receive commit
run_worker hash runner config aside [] s b = record { log = []; store = s; broker = b }
run_worker hash runner config aside (tries ∷ rounds) s b = elim (receive b) [
  | none ↦ record { log = []; store = s; broker = b }
  | some m ↦
      let (end, s') = attempt_message hash runner config aside m tries s in
      let rest = run_worker hash runner config aside rounds s' (commit b) in
      if is_done end
      then record rest { log = record { message = m; how = end; store = s' } ∷ rest.log }
      else record { log = []; store = s'; broker = b }
]
