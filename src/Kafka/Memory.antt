-- ===== src/Kafka/Memory.antt =====
-- MemoryStore of internal/kafka/memory.go, and its Renew of recovery.go: a method takes the store
-- and returns its result with the new store. A job is a value, so cloneJob leaves no trace; the
-- mutex makes each method one step. What `time.Now()` returns is an argument. The counter of newID,
-- a variable of the package, is kept with the store.
pub mod Steps
pub mod Life
pub mod Invariant
pub mod Preserve
pub mod Delivery
pub mod Lease
pub mod Outbox
pub mod Became
use sql_sentinel.Prelude.{
  ℕ, zero, suc, ◌+◌, ◌-◌, ◌*◌, ◌^◌, String, Bool, true, false, not, ◌&&◌, ◌||◌, Option, none, some,
  List, [], ◌∷◌, ltb, ◌==◌, str_eq, if◌then◌else◌,
}
use sql_sentinel.Prelude.Int.{ℤ, pos, negsuc, ltb_ℤ}
use sql_sentinel.Prelude.Assoc.{Assoc, lookup, insert}
use sql_sentinel.Json.{Stream}
use sql_sentinel.Kafka.Model.{
  JobStatus, received, queued, running, completed, rejected, retrying, dead_letter, is_terminal,
  Err, not_found, delivery_conflict, invalid, Time, zero_time, Duration, second, minute, add_time,
  after, JobOptions, normalized, Job, zero_job, ReceiveInput, ReceiveResult, Hash, new_id,
  same_delivery, Result, ok, err,
}
use sql_sentinel.Kafka.Event.{Event, marshal_safe}
use sql_sentinel.Kafka.Retry.{retry_delay}

-- `payload = none` is the nil payload of a published row.
pub record OutboxRecord : Type 0 where
  pub event_id : String
  pub job_id : String
  pub topic : String
  pub payload : Option Stream
  pub attempts : ℕ
  pub available_at : Time

pub record MemoryStore : Type 0 where
  pub jobs : Assoc Job
  pub by_deliv : Assoc String
  pub outbox : Assoc OutboxRecord
  pub seq : ℕ
  pub id_sequence : ℕ

abbrev pub new_memory_store : MemoryStore
new_memory_store = record { jobs = []; by_deliv = []; outbox = []; seq = 0; id_sequence = 0 }

abbrev pub job_or_zero : Option Job → Job
job_or_zero none = zero_job
job_or_zero (some j) = j

-- s.jobs[id]
unfoldable pub job_at : String → MemoryStore → Job
job_at id s = job_or_zero (lookup id s.jobs)

abbrev pub topic_name : String
topic_name = "sql-sentinel.jobs"

-- An outbox row for a new event of a job.
unfoldable pub outbox_row : String → String → String → ℕ → Time → OutboxRecord
outbox_row event_id job_id delivery_id attempt available_at = record {
  event_id = event_id;
  job_id = job_id;
  topic = topic_name;
  payload = marshal_safe (record {
    schema_version = pos 1;
    event_id = event_id;
    job_id = job_id;
    delivery_id = delivery_id;
    attempt = pos attempt;
  });
  attempts = 0;
  available_at = available_at;
}

-- The identifiers of the job and of the event that a new delivery gets.
unfoldable pub next_job_id : Hash → Time → MemoryStore → String
next_job_id hash now s = new_id hash "job" now (s.seq + 1) (s.id_sequence + 1)

unfoldable pub next_event_id : Hash → Time → MemoryStore → String
next_event_id hash now s = new_id hash "event" now (s.seq + 1) (s.id_sequence + 2)

unfoldable pub new_job : Hash → String → Time → ReceiveInput → Job
new_job hash job_id now inp = record {
  options = normalized inp.options;
  id = job_id;
  delivery_id = inp.delivery_id;
  pr_number = inp.pr_number;
  sql = inp.sql;
  candidate_spec = inp.candidate_spec;
  sql_sha256 = hash inp.sql;
  candidate_spec_sha256 = hash inp.candidate_spec;
  status = received;
  attempts = 0;
  next_attempt_at = now;
  lease_owner = "";
  lease_until = zero_time;
  last_error = "";
  created_at = now;
  updated_at = now;
  completed_at = none;
}

unfoldable pub bad_input : ReceiveInput → Bool
bad_input inp =
    str_eq inp.delivery_id ""
    || ltb_ℤ inp.pr_number (pos 1)
    || str_eq inp.sql ""
    || str_eq inp.candidate_spec ""

-- The part of Receive for a delivery that is not known: the job is stored as received, its event
-- goes to the outbox, and the job is stored again as queued.
unfoldable pub receive_new :
    Hash → Time → ReceiveInput → MemoryStore → Result ReceiveResult × MemoryStore
unfolding new_job outbox_row next_job_id next_event_id
receive_new hash now inp s =
    let job_id = next_job_id hash now s in
    let event_id = next_event_id hash now s in
    let job = new_job hash job_id now inp in
    let queued_job = record job { status = queued; updated_at = now } in
    (
      ok (record { job = queued_job; duplicate = false }),
      record {
        jobs = insert job_id queued_job (insert job_id job s.jobs);
        by_deliv = insert inp.delivery_id job_id s.by_deliv;
        outbox = insert event_id (outbox_row event_id job_id inp.delivery_id 1 now) s.outbox;
        seq = s.seq + 1;
        id_sequence = s.id_sequence + 2;
      },
    )

unfoldable pub receive_known :
    Hash → ReceiveInput → Job → MemoryStore → Result ReceiveResult × MemoryStore
receive_known hash inp job s =
    if same_delivery hash job inp
    then (ok (record { job = job; duplicate = true }), s)
    else (err delivery_conflict, s)

unfoldable pub receive :
    Hash → Time → ReceiveInput → MemoryStore → Result ReceiveResult × MemoryStore
unfolding receive_new receive_known bad_input job_at
receive hash now inp s =
    if bad_input inp
    then (err (invalid "invalid receive input"), s)
    else elim (lookup inp.delivery_id s.by_deliv) [
      | none ↦ receive_new hash now inp s
      | some id ↦ receive_known hash inp (job_at id s) s
    ]

abbrev pub is_running : JobStatus → Bool
is_running running = true
is_running _ = false

-- `job.Status == Queued || job.Status == Retrying`
abbrev pub is_waiting : JobStatus → Bool
is_waiting queued = true
is_waiting retrying = true
is_waiting _ = false

-- The three tests by which Claim refuses a job.
unfoldable pub refuses : Job → Time → Bool
refuses job now =
    is_terminal job.status
    || is_running job.status && after job.lease_until now
    || is_waiting job.status && after job.next_attempt_at now

unfoldable pub claimed_job : Job → String → Time → Duration → Job
claimed_job job owner now lease = record job {
  status = running;
  lease_owner = owner;
  lease_until = add_time now lease;
  attempts = job.attempts + 1;
  updated_at = now;
}

abbrev pub put_job : String → Job → MemoryStore → MemoryStore
put_job id job s = record s { jobs = insert id job s.jobs }

unfoldable pub claim :
    String → String → Time → Duration → MemoryStore → Result (Job × Bool) × MemoryStore
unfolding refuses claimed_job
claim id owner now lease s = elim (lookup id s.jobs) [
  | none ↦ (err not_found, s)
  | some job ↦
      if refuses job now
      then (ok (job, false), s)
      else (let job' = claimed_job job owner now lease in (ok (job', true), put_job id job' s))
]

-- The guard of finish, Retry and Renew: the owner's lease is running.
unfoldable pub holds_lease : Job → String → Time → Bool
holds_lease job owner now =
    is_running job.status && str_eq job.lease_owner owner && after job.lease_until now

-- `status == Completed || status == Rejected`
abbrev pub sets_completed : JobStatus → Bool
sets_completed completed = true
sets_completed rejected = true
sets_completed _ = false

unfoldable pub finished_job : Job → Time → JobStatus → String → Job
finished_job job now status reason = record job {
  status = status;
  last_error = reason;
  lease_owner = "";
  lease_until = zero_time;
  updated_at = now;
  completed_at = if sets_completed status then some now else job.completed_at;
}

unfoldable pub finish :
    String → String → Time → JobStatus → String → MemoryStore → Result Bool × MemoryStore
unfolding holds_lease finished_job
finish id owner now status reason s = elim (lookup id s.jobs) [
  | none ↦ (err not_found, s)
  | some job ↦
      if holds_lease job owner now
      then (ok true, put_job id (finished_job job now status reason) s)
      else (ok false, s)
]

unfoldable pub complete : String → String → Time → MemoryStore → Result Bool × MemoryStore
unfolding finish
complete id owner now = finish id owner now completed ""

unfoldable pub reject : String → String → Time → String → MemoryStore → Result Bool × MemoryStore
unfolding finish
reject id owner now reason = finish id owner now rejected reason

unfoldable pub bury : String → String → Time → String → MemoryStore → Result Bool × MemoryStore
unfolding finish
bury id owner now reason = finish id owner now dead_letter reason

unfoldable pub retried_job : Job → Time → Time → String → Job
retried_job job now later reason = record job {
  status = retrying;
  last_error = reason;
  next_attempt_at = later;
  lease_owner = "";
  lease_until = zero_time;
  updated_at = now;
}

unfoldable pub retry_event_id : Hash → Time → Job → MemoryStore → String
retry_event_id hash now job s = new_id hash "retry" now job.attempts (s.id_sequence + 1)

-- What a Retry that holds the lease leaves: the job waits, and a new event announces it.
unfoldable pub retried_store :
    Hash → String → Job → Time → Time → String → MemoryStore → MemoryStore
unfolding retried_job retry_event_id outbox_row
retried_store hash id job now later reason s =
    let event_id = retry_event_id hash now job s in
    record s {
      jobs = insert id (retried_job job now later reason) s.jobs;
      outbox =
          insert event_id (outbox_row event_id job.id job.delivery_id (job.attempts + 1) later)
            s.outbox;
      id_sequence = s.id_sequence + 1;
    }

unfoldable pub retry :
    Hash → String → String → Time → Time → String → MemoryStore → Result Bool × MemoryStore
unfolding holds_lease retried_store
retry hash id owner now later reason s = elim (lookup id s.jobs) [
  | none ↦ (err not_found, s)
  | some job ↦
      if holds_lease job owner now
      then (ok true, retried_store hash id job now later reason s)
      else (ok false, s)
]

unfoldable pub renew : String → String → Time → Duration → MemoryStore → Result Bool × MemoryStore
unfolding holds_lease
renew id owner now lease s = elim (lookup id s.jobs) [
  | none ↦ (err not_found, s)
  | some job ↦
      if holds_lease job owner now
      then (ok true, put_job id (record job { lease_until = add_time now lease }) s)
      else (ok false, s)
]

unfoldable pub get : String → MemoryStore → Result Job
unfolding job_at
get delivery_id s = elim (lookup delivery_id s.by_deliv) [
  | none ↦ err not_found
  | some id ↦ ok (job_at id s)
]

abbrev pub has_payload : Option Stream → Bool
has_payload none = false
has_payload (some bytes) = true

unfoldable pub is_pending : Time → OutboxRecord → Bool
is_pending now r = has_payload r.payload && not (after r.available_at now)

-- The loop over the outbox. Go leaves the order of a `range` over a map open, so the rows come in
-- the order in which it visits them; `room` is `limit - len(result)`.
unfoldable pub collect : ℕ → Time → List OutboxRecord → List OutboxRecord
unfolding is_pending
collect room now [] = []
collect zero now (r ∷ rows) = []
collect (suc room) now (r ∷ rows) =
    let after_it = collect room now rows in
    let without_it = collect (suc room) now rows in
    if is_pending now r then r ∷ after_it else without_it

unfoldable pub pending_outbox : ℤ → Time → List OutboxRecord → Result (List OutboxRecord)
unfolding collect
pending_outbox (pos zero) now rows = err (invalid "outbox limit must be positive")
pending_outbox (negsuc n) now rows = err (invalid "outbox limit must be positive")
pending_outbox (pos (suc n)) now rows = ok (collect (suc n) now rows)

-- `failed` says whether the publisher returned an error.
unfoldable pub marked_record : Bool → Time → OutboxRecord → OutboxRecord
marked_record false now r = record r { payload = none }
marked_record true now r =
    let attempts = r.attempts + 1 in
    record r {
      attempts = attempts;
      available_at = add_time now (retry_delay second minute (pos attempts));
    }

unfoldable pub mark_published : String → Bool → Time → MemoryStore → Result (Unit {0}) × MemoryStore
unfolding marked_record
mark_published event_id failed now s = elim (lookup event_id s.outbox) [
  | none ↦ (err not_found, s)
  | some r ↦ (ok tt, record s { outbox = insert event_id (marked_record failed now r) s.outbox })
]
