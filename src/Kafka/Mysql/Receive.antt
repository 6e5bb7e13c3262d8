-- ===== src/Kafka/Mysql/Receive.antt =====
-- MySQLStore.Receive of internal/kafka/mysql.go: one transaction behind the guard row, which answers
-- a known delivery, refuses a full backlog, or stores the job with its history, options, audit entry,
-- source and event. The trace fields of the context's propagator are arguments.
use sql_sentinel.Prelude.{
  ℕ, ◌+◌, ◌^◌, ◌%◌, String, Bool, true, false, ◌||◌, Option, none, some, [], ◌∷◌, ◌++◌, min, leb,
  str_eq, if◌then◌else◌, map,
}
use sql_sentinel.Prelude.Int.{pos}
use sql_sentinel.Prelude.Bytes.{Bytes, bytes, lower_byte, has_prefix}
use sql_sentinel.Prelude.Assoc.{Assoc}
use sql_sentinel.Kafka.Model.{
  received, queued, Err, invalid, delivery_conflict, backlog_full, is_terminal, Time, JobOptions,
  normalized, Job, ReceiveInput, ReceiveResult, Hash, same_delivery, Result, ok, err,
}
use sql_sentinel.Kafka.Event.{marshal_safe}
use sql_sentinel.Kafka.Memory.{bad_input}
use sql_sentinel.Kafka.Mysql.Db.{
  Ending, rolled_back, committed, ◌>>=◌, ◌>>◌, return, raise, attempt, exec, query, transaction,
}
use sql_sentinel.Kafka.Mysql.Rows.{
  Tables, JobRow, duplicate_entry, insert_row, find_row, of_delivery, scan_job, insert_history,
  insert_outbox, update_job,
}
use sql_sentinel.Kafka.Mysql.Lease.{Mysql, get, next_id}

-- The input with the trace of the context.
unfoldable pub traced : String → String → ReceiveInput → ReceiveInput
traced parent state inp = record inp {
  options = record (inp.options) { trace_parent = parent; trace_state = state };
}

abbrev lock_guard : Tables → Result (Unit {0})
lock_guard t = if t.receive_guard then ok tt else err (invalid "sql: no rows in result set")

-- The number of jobs that are not finished.
unfoldable pub backlog : Assoc JobRow → ℕ
backlog [] = 0
backlog (entry ∷ rest) = if is_terminal (entry.1).status then backlog rest else backlog rest + 1

-- SELECT COUNT(*) FROM (SELECT … LIMIT 1000)
unfoldable pub count_backlog : Tables → Result ℕ
unfolding backlog
count_backlog t = ok (min (backlog t.jobs) 1000)

unfoldable pub received_row : Hash → String → Time → ReceiveInput → JobRow
received_row hash job_id now inp = record {
  job_id = job_id;
  delivery_id = inp.delivery_id;
  pr_number = inp.pr_number;
  sql_text = inp.sql;
  candidate_spec = inp.candidate_spec;
  sql_sha256 = hash inp.sql;
  candidate_spec_sha256 = hash inp.candidate_spec;
  status = received;
  attempts = 0;
  next_attempt_at = now;
  lease_owner = "";
  lease_until = none;
  last_error = "";
  created_at = now;
  updated_at = now;
  completed_at = none;
}

abbrev with_jobs : Tables → Option (Assoc JobRow) → Result (Unit {0}) × Tables
with_jobs t none = (err duplicate_entry, t)
with_jobs t (some rows) = (ok tt, record t { jobs = rows })

-- The delivery is UNIQUE, the identifier the primary key.
unfoldable pub insert_job : JobRow → Tables → Result (Unit {0}) × Tables
unfolding insert_row find_row
insert_job row t = elim (find_row (of_delivery row.delivery_id) t.jobs) [
  | none ↦ with_jobs t (insert_row row.job_id row t.jobs)
  | some other ↦ (err duplicate_entry, t)
]

abbrev with_options : Tables → Option (Assoc JobOptions) → Result (Unit {0}) × Tables
with_options t none = (err duplicate_entry, t)
with_options t (some rows) = (ok tt, record t { job_options = rows })

unfoldable pub insert_options : String → JobOptions → Tables → Result (Unit {0}) × Tables
unfolding insert_row
insert_options job_id options t = with_options t (insert_row job_id options t.job_options)

unfoldable pub insert_audit : String → JobOptions → Tables → Result (Unit {0}) × Tables
insert_audit job_id options t = (
  ok tt,
  record t {
    audit =
        t.audit
        ++ record {
          tenant_id = options.tenant_id;
          project_id = options.project_id;
          actor = options.actor;
          action = if options.benchmark then "benchmark.created" else "job.created";
          resource_id = job_id;
          metadata = options;
        }
          ∷ [];
  },
)

abbrev with_sources : Tables → Option (Assoc String) → Result (Unit {0}) × Tables
with_sources t none = (err duplicate_entry, t)
with_sources t (some rows) = (ok tt, record t { sources = rows })

unfoldable pub insert_source : String → String → Tables → Result (Unit {0}) × Tables
unfolding insert_row
insert_source job_id source t = with_sources t (insert_row job_id source t.sources)

unfoldable pub store_source : String → String → Mysql (Unit {0})
unfolding exec insert_source
store_source job_id source db =
    if str_eq source "" then (ok tt, db) else exec (insert_source job_id source) db

abbrev pub always : JobRow → Bool
always r = true

-- The statements that follow the insertion of the job.
unfoldable pub store_rest : String → String → Time → ReceiveInput → Mysql (Unit {0})
unfolding ◌>>=◌ ◌>>◌ exec normalized insert_history insert_options insert_audit store_source
    insert_outbox update_job
store_rest job_id event_id now inp = do
  exec (
      insert_history (record { job_id = job_id; status = received; reason = ""; created_at = now }))
  let options = normalized inp.options
  exec (insert_options job_id options)
  exec (insert_audit job_id options)
  store_source job_id inp.source_json
  let payload = marshal_safe (record {
    schema_version = pos 1;
    event_id = event_id;
    job_id = job_id;
    delivery_id = inp.delivery_id;
    attempt = pos 1;
  })
  exec (insert_outbox event_id job_id payload now now)
  changed ← exec (update_job job_id always (λ r. record r { status = queued; updated_at = now }))
  exec (insert_history (record { job_id = job_id; status = queued; reason = ""; created_at = now }))

-- How the transaction of Receive ends: with an answer or an error of its own, with the insertion
-- refused as a duplicate, or with a new job.
pub data Outcome : Type 0 where
  answered : Result ReceiveResult → Outcome
  collided created : Outcome

contains : Bytes → Bytes → Bool
contains [] part = has_prefix [] part
contains (c ∷ text) part = has_prefix (c ∷ text) part || contains text part

-- The package's other errors do not hold the word.
unfoldable pub is_duplicate : Err → Bool
unfolding contains has_prefix
is_duplicate (invalid text) = contains (map lower_byte (bytes text)) (bytes "duplicate")
is_duplicate _ = false

unfoldable pub after_insert :
    String → String → Time → ReceiveInput → Result (Unit {0}) → Mysql (Ending Outcome)
unfolding ◌>>=◌ ◌>>◌ store_rest is_duplicate
after_insert job_id event_id now inp (ok done) =
    store_rest job_id event_id now inp >> return (committed created)
after_insert job_id event_id now inp (err e) =
    if is_duplicate e then return (rolled_back collided) else raise e

-- A delivery that is not known, for a backlog with room.
unfoldable pub store_new : Hash → Time → ReceiveInput → Mysql (Ending Outcome)
unfolding ◌>>=◌ attempt exec next_id received_row insert_job after_insert
store_new hash now inp = do
  job_id ← next_id hash "job" now (now % 10 ^ 9)
  event_id ← next_id hash "event" now (now % 10 ^ 9 + 1)
  inserted ← attempt (exec (insert_job (received_row hash job_id now inp)))
  after_insert job_id event_id now inp inserted

unfoldable pub after_count : Hash → Time → ReceiveInput → ℕ → Mysql (Ending Outcome)
unfolding store_new
after_count hash now inp pending =
    if leb 1000 pending
    then return (rolled_back (answered (err backlog_full)))
    else store_new hash now inp

unfoldable pub create_job : Hash → Time → ReceiveInput → Mysql (Ending Outcome)
unfolding ◌>>=◌ query count_backlog after_count
create_job hash now inp = do pending ← query count_backlog; after_count hash now inp pending

abbrev known_job : Hash → ReceiveInput → Job → Result ReceiveResult
known_job hash inp job =
    if same_delivery hash job inp
    then ok (record { job = job; duplicate = true })
    else err delivery_conflict

abbrev found_job : Tables → Option JobRow → Result (Option Job)
found_job t none = ok none
found_job t (some r) = ok (some (scan_job t r))

-- getTx of the delivery, whose ErrNotFound is `none`
unfoldable pub find_delivery : String → Tables → Result (Option Job)
unfolding find_row scan_job
find_delivery delivery_id t = found_job t (find_row (of_delivery delivery_id) t.jobs)

-- Receive behind the read of the delivery.
unfoldable pub after_read : Hash → Time → ReceiveInput → Option Job → Mysql (Ending Outcome)
unfolding create_job
after_read hash now inp (some job) = return (rolled_back (answered (known_job hash inp job)))
after_read hash now inp none = create_job hash now inp

unfoldable pub receive_body : Hash → Time → ReceiveInput → Mysql (Ending Outcome)
unfolding ◌>>=◌ ◌>>◌ query find_delivery after_read
receive_body hash now inp = do
  query lock_guard
  prior ← query (find_delivery inp.delivery_id)
  after_read hash now inp prior

-- The answer, read outside of the transaction where it needs the job.
unfoldable pub answer : Hash → ReceiveInput → Outcome → Mysql ReceiveResult
unfolding ◌>>=◌ get
answer hash inp (answered r) = λ db. (r, db)
answer hash inp collided = do job ← get inp.delivery_id; λ db. (known_job hash inp job, db)
answer hash inp created = do
  job ← get inp.delivery_id
  return (record { job = job; duplicate = false })

-- Receive for an input that is complete.
unfoldable pub receive_traced : Hash → Time → ReceiveInput → Mysql ReceiveResult
unfolding ◌>>=◌ transaction receive_body answer
receive_traced hash now inp = do
  outcome ← transaction (receive_body hash now inp)
  answer hash inp outcome

unfoldable pub receive : Hash → Time → String → String → ReceiveInput → Mysql ReceiveResult
unfolding bad_input traced receive_traced
receive hash now parent state inp db =
    if bad_input inp
    then (err (invalid "invalid receive input"), db)
    else receive_traced hash now (traced parent state inp) db
