-- ===== src/Kafka/Mysql/Lease.antt =====
-- The methods of MySQLStore on one job (internal/kafka/mysql.go, and Renew of recovery.go): Claim,
-- finish with Complete, Reject and DeadLetter, Retry, Renew, and the reads Get and GetByID.
-- `clock` is what recordHistory reads from time.Now().
use sql_sentinel.Prelude.{
  ℕ, ◌+◌, String, Bool, true, false, not, ◌&&◌, ◌||◌, Option, none, some, ltb, leb, ◌==◌, str_eq,
}
use sql_sentinel.Prelude.Int.{pos}
use sql_sentinel.Kafka.Model.{
  JobStatus, running, completed, rejected, dead_letter, retrying, Time, Duration, add_time, Job,
  Hash, new_id, ok,
}
use sql_sentinel.Kafka.Event.{marshal_safe}
use sql_sentinel.Kafka.Memory.{is_running, is_waiting}
use sql_sentinel.Kafka.Mysql.Db.{
  Sql, Ending, committed, ◌>>=◌, ◌>>◌, return, exec, query, transaction,
}
use sql_sentinel.Kafka.Mysql.Rows.{
  Tables, JobRow, select_by_id, select_by_delivery, insert_history, insert_outbox, update_job,
}

abbrev pub Mysql : Type 0 → Type 0
Mysql = Sql Tables

unfoldable pub get : String → Mysql Job
unfolding query select_by_delivery
get delivery_id = query (select_by_delivery delivery_id)

unfoldable pub get_by_id : String → Mysql Job
unfolding query select_by_id
get_by_id job_id = query (select_by_id job_id)

unfoldable pub record_history : String → JobStatus → String → Time → Mysql (Unit {0})
unfolding exec insert_history
record_history job_id status reason clock = exec (
    insert_history
      (record { job_id = job_id; status = status; reason = reason; created_at = clock }))

-- `lease_until<=?` and `lease_until>?`, which NULL does not meet
abbrev pub lease_over : Option Time → Time → Bool
lease_over none now = false
lease_over (some t) now = leb t now

abbrev pub lease_runs : Option Time → Time → Bool
lease_runs none now = false
lease_runs (some t) now = ltb now t

unfoldable pub is_claimable : Time → JobRow → Bool
is_claimable now r =
    is_waiting r.status && leb r.next_attempt_at now
    || is_running r.status && lease_over r.lease_until now

unfoldable pub claimed_row : String → Time → Duration → JobRow → JobRow
claimed_row owner now lease r = record r {
  status = running;
  attempts = r.attempts + 1;
  lease_owner = owner;
  lease_until = some (add_time now lease);
  updated_at = now;
}

-- A history row, if the job was changed.
unfoldable pub when_changed : Bool → Mysql (Unit {0}) → Mysql (Unit {0})
when_changed changed m db = elim changed [ true ↦ m db | false ↦ (ok tt, db) ]

unfoldable pub claim : String → String → Time → Duration → Time → Mysql (Job × Bool)
unfolding ◌>>=◌ ◌>>◌ exec update_job is_claimable claimed_row when_changed record_history get_by_id
claim job_id owner now lease clock = do
  changed ← exec (update_job job_id (is_claimable now) (claimed_row owner now lease))
  when_changed changed (record_history job_id running "" clock)
  job ← get_by_id job_id
  return (job, changed)

-- status='RUNNING' AND lease_owner=? AND lease_until>?
unfoldable pub is_leased : String → Time → JobRow → Bool
is_leased owner now r =
    is_running r.status && str_eq r.lease_owner owner && lease_runs r.lease_until now

unfoldable pub finished_row : Time → JobStatus → String → JobRow → JobRow
finished_row now status reason r = record r {
  status = status;
  last_error = reason;
  lease_owner = "";
  lease_until = none;
  completed_at = some now;
  updated_at = now;
}

unfoldable pub finish : String → String → Time → JobStatus → String → Time → Mysql Bool
unfolding ◌>>=◌ ◌>>◌ exec update_job is_leased finished_row when_changed record_history
finish job_id owner now status reason clock = do
  changed ← exec (update_job job_id (is_leased owner now) (finished_row now status reason))
  when_changed changed (record_history job_id status reason clock)
  return changed

unfoldable pub complete : String → String → Time → Time → Mysql Bool
unfolding finish
complete job_id owner now = finish job_id owner now completed ""

unfoldable pub reject : String → String → Time → String → Time → Mysql Bool
unfolding finish
reject job_id owner now reason = finish job_id owner now rejected reason

unfoldable pub bury : String → String → Time → String → Time → Mysql Bool
unfolding finish
bury job_id owner now reason = finish job_id owner now dead_letter reason

unfoldable pub retried_row : Time → Time → String → JobRow → JobRow
retried_row now later reason r = record r {
  status = retrying;
  last_error = reason;
  next_attempt_at = later;
  lease_owner = "";
  lease_until = none;
  updated_at = now;
}

-- newID: the counter goes up by one.
unfoldable pub next_id : Hash → String → Time → ℕ → Mysql String
next_id hash kind now n db = (
  ok (new_id hash kind now n (db.id_sequence + 1)),
  record db { id_sequence = db.id_sequence + 1 },
)

-- The outbox row of a retry and its history.
unfoldable pub store_retry : String → String → Job → Time → Time → String → Mysql (Unit {0})
unfolding ◌>>=◌ ◌>>◌ exec insert_outbox insert_history
store_retry job_id event_id job now later reason = do
  let payload = marshal_safe (record {
    schema_version = pos 1;
    event_id = event_id;
    job_id = job.id;
    delivery_id = job.delivery_id;
    attempt = pos (job.attempts + 1);
  })
  exec (insert_outbox event_id job.id payload later now)
  exec (
      insert_history
        (record { job_id = job_id; status = retrying; reason = reason; created_at = now }))

-- A new event of a job that waits again.
unfoldable pub announce_retry : Hash → String → Time → Time → String → Mysql (Unit {0})
unfolding ◌>>=◌ query select_by_id next_id store_retry
announce_retry hash job_id now later reason = do
  job ← query (select_by_id job_id)
  event_id ← next_id hash "retry" now job.attempts
  store_retry job_id event_id job now later reason

unfoldable pub retry_body : Hash → String → String → Time → Time → String → Mysql (Ending Bool)
unfolding ◌>>=◌ ◌>>◌ exec update_job is_leased retried_row when_changed announce_retry
retry_body hash job_id owner now later reason = do
  changed ← exec (update_job job_id (is_leased owner now) (retried_row now later reason))
  when_changed changed (announce_retry hash job_id now later reason)
  return (committed changed)

unfoldable pub retry : Hash → String → String → Time → Time → String → Mysql Bool
unfolding transaction retry_body
retry hash job_id owner now later reason =
    transaction (retry_body hash job_id owner now later reason)

abbrev same_lease : Option Time → Time → Bool
same_lease none t = false
same_lease (some u) t = u == t

-- MySQL counts the rows that an UPDATE changes: Renew has no effect on a row that has the new values.
unfoldable pub is_renewable : String → Time → Duration → JobRow → Bool
unfolding is_leased
is_renewable owner now lease r =
    is_leased owner now r
    && not (same_lease r.lease_until (add_time now lease) && (r.updated_at == now))

unfoldable pub renewed_row : Time → Duration → JobRow → JobRow
renewed_row now lease r = record r { lease_until = some (add_time now lease); updated_at = now }

unfoldable pub renew : String → String → Time → Duration → Mysql Bool
unfolding exec update_job is_renewable renewed_row
renew job_id owner now lease =
    exec (update_job job_id (is_renewable owner now lease) (renewed_row now lease))
