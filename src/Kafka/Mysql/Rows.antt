-- ===== src/Kafka/Mysql/Rows.antt =====
-- The tables of the schema in internal/kafka/mysql.go, and the statements on them. A table with a
-- primary key is an association list; a nullable column is an Option. JSON columns hold the value
-- that they encode, and times are kept as they are given.
use sql_sentinel.Prelude.{
  ℕ, String, Bool, true, false, Option, none, some, List, [], ◌∷◌, ◌++◌, str_eq, if◌then◌else◌,
}
use sql_sentinel.Prelude.Int.{ℤ}
use sql_sentinel.Prelude.Assoc.{Assoc, lookup, insert}
use sql_sentinel.Json.{Stream}
use sql_sentinel.Kafka.Model.{
  JobStatus, Err, invalid, not_found, Time, zero_time, Job, JobOptions, Result, ok, err,
}

pub record JobRow : Type 0 where
  pub job_id : String
  pub delivery_id : String
  pub pr_number : ℤ
  pub sql_text : String
  pub candidate_spec : String
  pub sql_sha256 : String
  pub candidate_spec_sha256 : String
  pub status : JobStatus
  pub attempts : ℕ
  pub next_attempt_at : Time
  pub lease_owner : String
  pub lease_until : Option Time
  pub last_error : String
  pub created_at : Time
  pub updated_at : Time
  pub completed_at : Option Time

pub record HistoryRow : Type 0 where
  pub job_id : String
  pub status : JobStatus
  pub reason : String
  pub created_at : Time

pub record OutboxRow : Type 0 where
  pub event_id : String
  pub job_id : String
  pub topic : String
  pub payload : Stream
  pub attempts : ℕ
  pub available_at : Time
  pub published_at : Option Time
  pub last_error : String
  pub created_at : Time

pub record AuditRow : Type 0 where
  pub tenant_id : String
  pub project_id : String
  pub actor : String
  pub action : String
  pub resource_id : String
  pub metadata : JobOptions

pub record PoisonRow : Type 0 where
  pub topic : String
  pub partition_id : ℕ
  pub offset_id : ℕ
  pub payload_sha256 : String
  pub reason : String

pub record Tables : Type 0 where
  pub receive_guard : Bool
  pub jobs : Assoc JobRow
  pub job_options : Assoc JobOptions
  pub history : List HistoryRow
  pub outbox : Assoc OutboxRow
  pub audit : List AuditRow
  pub sources : Assoc String
  pub poison : List PoisonRow

-- The tables that EnsureSchema makes: the guard row alone.
abbrev pub empty_tables : Tables
empty_tables = record {
  receive_guard = true;
  jobs = [];
  job_options = [];
  history = [];
  outbox = [];
  audit = [];
  sources = [];
  poison = [];
}

-- The error of a second row under a key, and of NULL in a column that is NOT NULL.
abbrev pub duplicate_entry : Err
duplicate_entry = invalid "Duplicate entry"

abbrev pub null_column : Err
null_column = invalid "Column cannot be null"

-- INSERT of a row under its primary key
unfoldable pub insert_row {ℓ} : {R : Type ℓ} → String → R → Assoc R → Option (Assoc R)
insert_row key row rows = elim (lookup key rows) [
  | none ↦ some (insert key row rows)
  | some old ↦ none
]

-- UPDATE … WHERE key=? AND condition: the rows, and whether one was affected.
unfoldable pub update_row {ℓ} :
    {R : Type ℓ} → String → (R → Bool) → (R → R) → Assoc R → Bool × Assoc R
update_row key condition set rows = elim (lookup key rows) [
  | none ↦ (false, rows)
  | some row ↦ if condition row then (true, insert key (set row) rows) else (false, rows)
]

-- The row with a value in a UNIQUE column.
unfoldable pub find_row {ℓ} : {R : Type ℓ} → (R → Bool) → Assoc R → Option R
find_row condition [] = none
find_row condition (entry ∷ rest) =
    if condition (entry.1) then some (entry.1) else find_row condition rest

abbrev pub of_delivery : String → JobRow → Bool
of_delivery delivery_id r = str_eq r.delivery_id delivery_id

-- What COALESCE puts in place of options that are missing.
abbrev pub missing_options : JobOptions
missing_options = record {
  trace_parent = "";
  trace_state = "";
  tenant_id = "operator";
  project_id = "default";
  actor = "operator";
  benchmark = false;
  approved_job_id = "";
  approval_report_sha = "";
}

abbrev or_missing : Option JobOptions → JobOptions
or_missing none = missing_options
or_missing (some o) = o

abbrev pub time_or_zero : Option Time → Time
time_or_zero none = zero_time
time_or_zero (some t) = t

-- The job that get and getTx scan from a row.
unfoldable pub scan_job : Tables → JobRow → Job
scan_job t r = record {
  options = or_missing (lookup r.job_id t.job_options);
  id = r.job_id;
  delivery_id = r.delivery_id;
  pr_number = r.pr_number;
  sql = r.sql_text;
  candidate_spec = r.candidate_spec;
  sql_sha256 = r.sql_sha256;
  candidate_spec_sha256 = r.candidate_spec_sha256;
  status = r.status;
  attempts = r.attempts;
  next_attempt_at = r.next_attempt_at;
  lease_owner = r.lease_owner;
  lease_until = time_or_zero r.lease_until;
  last_error = r.last_error;
  created_at = r.created_at;
  updated_at = r.updated_at;
  completed_at = r.completed_at;
}

abbrev scanned : Tables → Option JobRow → Result Job
scanned t none = err not_found
scanned t (some r) = ok (scan_job t r)

unfoldable pub select_by_delivery : String → Tables → Result Job
unfolding find_row scan_job
select_by_delivery delivery_id t = scanned t (find_row (of_delivery delivery_id) t.jobs)

unfoldable pub select_by_id : String → Tables → Result Job
unfolding scan_job
select_by_id job_id t = scanned t (lookup job_id t.jobs)

abbrev inserted_history : HistoryRow → Tables → Tables
inserted_history row t = record t { history = t.history ++ row ∷ [] }

unfoldable pub insert_history : HistoryRow → Tables → Result (Unit {0}) × Tables
insert_history row t = (ok tt, inserted_history row t)

abbrev inserted_outbox : Tables → Option (Assoc OutboxRow) → Result (Unit {0}) × Tables
inserted_outbox t none = (err duplicate_entry, t)
inserted_outbox t (some rows) = (ok tt, record t { outbox = rows })

-- A new outbox row; the payload of an event that does not validate is NULL.
unfoldable pub insert_outbox :
    String → String → Option Stream → Time → Time → Tables → Result (Unit {0}) × Tables
unfolding insert_row
insert_outbox event_id job_id none available_at created_at t = (err null_column, t)
insert_outbox event_id job_id (some payload) available_at created_at t = inserted_outbox t (
    insert_row event_id
      (record {
        event_id = event_id;
        job_id = job_id;
        topic = "sql-sentinel.jobs";
        payload = payload;
        attempts = 0;
        available_at = available_at;
        published_at = none;
        last_error = "";
        created_at = created_at;
      })
      t.outbox)

-- UPDATE sql_sentinel_jobs SET … WHERE job_id=? AND …
unfoldable pub update_job :
    String → (JobRow → Bool) → (JobRow → JobRow) → Tables → Result Bool × Tables
unfolding update_row
update_job job_id condition set t =
    let (affected, rows) = update_row job_id condition set t.jobs in
    (ok affected, record t { jobs = rows })
