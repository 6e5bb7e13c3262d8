-- ===== src/Kafka/Memory/Invariant.antt =====
-- The invariant of MemoryStore: its three maps agree with each other, each job is in a consistent
-- state, and a job that waits for a worker has an event in the outbox.
use sql_sentinel.Prelude.{ℕ, ◌+◌, ◌≤◌, ◌⊎◌, String, true, false, none, some, ◌≡◌, ◌≢◌, arith}
use sql_sentinel.Prelude.Assoc.{lookup, lookup-empty}
use sql_sentinel.Kafka.Model.{received, queued, retrying, zero_time, Job, Hash, new_id}
use sql_sentinel.Prelude.Int.{pos}
use sql_sentinel.Kafka.Event.{Event, marshal_safe}
use sql_sentinel.Kafka.Memory.{
  MemoryStore, OutboxRecord, new_memory_store, claimed_job, finished_job, retried_job, is_waiting,
  is_running, sets_completed, next_job_id, next_event_id, retry_event_id,
}
use sql_sentinel.Kafka.Memory.Steps.{
  Op, receive_op, retry_op, Act, JobStep, stay, claimed, finished, retried, renewed,
}
use sql_sentinel.Kafka.Memory.Life.{refuses-live, holds_lease-running}

-- One job, stored under an identifier.
pub record IsConsistent (hash : Hash) (id : String) (j : Job) : Type 0 where
  pub keyed : j.id ≡ id
  pub sql_digest : j.sql_sha256 ≡ hash j.sql
  pub spec_digest : j.candidate_spec_sha256 ≡ hash j.candidate_spec
  pub stored : j.status ≢ received
  pub unclaimed : j.status ≡ queued → j.attempts ≡ 0
  pub counted : j.status ≢ queued → 1 ≤ j.attempts
  pub free : is_running j.status ≡ false → (j.lease_owner ≡ "") × (j.lease_until ≡ zero_time)
  pub open_end : sets_completed j.status ≡ false → j.completed_at ≡ none
  pub dated_end : sets_completed j.status ≡ true → j.completed_at ≢ none

pub JobStep-IsConsistent :
    {hash : Hash} {id i : String} {a : Act} {j k : Job}
    → JobStep i a j k
    → IsConsistent hash id j
    → IsConsistent hash id k
unfolding claimed_job finished_job retried_job
JobStep-IsConsistent stay v = v
JobStep-IsConsistent {j} (claimed owner now lease e r) v = ground (arith, refuses-live j now r)
JobStep-IsConsistent {j} (finished owner now status reason e h t) v =
    ground (arith, holds_lease-running j owner now h)
JobStep-IsConsistent {j} (retried owner now later reason e h) v =
    ground (arith, holds_lease-running j owner now h)
JobStep-IsConsistent {j} (renewed owner now lease e h) v =
    ground (arith, holds_lease-running j owner now h)

-- A stored job with this identifier.
pub record Stored (id : String) (s : MemoryStore) : Type 0 where
  pub job : Job
  pub found : lookup id s.jobs ≡ some job

-- The event that tells of the next attempt at a job.
abbrev pub next_event : String → Job → Event
next_event event_id j = record {
  schema_version = pos 1;
  event_id = event_id;
  job_id = j.id;
  delivery_id = j.delivery_id;
  attempt = pos (j.attempts + 1);
}

-- The event that was drawn when this job began to wait, for its next attempt: it stands in the outbox,
-- and its row holds that event until it was published.
pub record Announced (hash : Hash) (j : Job) (s : MemoryStore) : Type 0 where
  pub event_id : String
  pub serial : ℕ
  pub sequence : ℕ
  pub row : OutboxRecord
  pub found : lookup event_id s.outbox ≡ some row
  pub about : row.job_id ≡ j.id
  pub named :
      ((j.status ≡ queued) × (event_id ≡ new_id hash "event" j.updated_at serial sequence))
      ⊎ ((j.status ≡ retrying) × (event_id ≡ new_id hash "retry" j.updated_at j.attempts sequence))
  pub payload : (row.payload ≡ none) ⊎ (row.payload ≡ marshal_safe (next_event event_id j))

pub record IsValid (hash : Hash) (s : MemoryStore) : Type 0 where
  -- every job is consistent, and its delivery leads to it
  pub jobs_ok : (id : String) (j : Job) → lookup id s.jobs ≡ some j → IsConsistent hash id j
  pub delivered :
      (id : String) (j : Job)
      → lookup id s.jobs ≡ some j
      → lookup j.delivery_id s.by_deliv ≡ some id
  -- every known delivery leads to a job, and to one of that delivery
  pub known : (d id : String) → lookup d s.by_deliv ≡ some id → Stored id s
  pub known_delivery :
      (d id : String) (j : Job)
      → lookup d s.by_deliv ≡ some id
      → lookup id s.jobs ≡ some j
      → j.delivery_id ≡ d
  -- every outbox row has its own identifier and is about a stored job
  pub rows_keyed : (e : String) (r : OutboxRecord) → lookup e s.outbox ≡ some r → r.event_id ≡ e
  pub rows_about : (e : String) (r : OutboxRecord) → lookup e s.outbox ≡ some r → Stored r.job_id s
  -- the event for the next attempt at a job that waits is in the outbox, published or to be published
  pub announced :
      (id : String) (j : Job)
      → lookup id s.jobs ≡ some j
      → is_waiting j.status ≡ true
      → Announced hash j s

-- The identifiers that a call draws are new.
abbrev pub IsFresh : Hash → Op → MemoryStore → Type 0
IsFresh hash (receive_op now inp) s =
    (lookup (next_job_id hash now s) s.jobs ≡ none)
    × (lookup (next_event_id hash now s) s.outbox ≡ none)
IsFresh hash (retry_op id owner now later reason) s =
    (j : Job) → lookup id s.jobs ≡ some j → lookup (retry_event_id hash now j s) s.outbox ≡ none
IsFresh hash _ s = Unit

pub new_memory_store-IsValid : (hash : Hash) → IsValid hash new_memory_store
new_memory_store-IsValid hash = record {
  jobs_ok = λ id j h. absurd (ground (arith, lookup-empty {V = Job} id));
  delivered = λ id j h. absurd (ground (arith, lookup-empty {V = Job} id));
  known = λ d id h. absurd (ground (arith, lookup-empty {V = String} d));
  known_delivery = λ d id j h l. absurd (ground (arith, lookup-empty {V = String} d));
  rows_keyed = λ e r h. absurd (ground (arith, lookup-empty {V = OutboxRecord} e));
  rows_about = λ e r h. absurd (ground (arith, lookup-empty {V = OutboxRecord} e));
  announced = λ id j h w. absurd (ground (arith, lookup-empty {V = Job} id));
}
