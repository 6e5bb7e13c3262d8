-- ===== src/Kafka/Mysql/Recover.antt =====
-- RecoverExpired and Quarantine of internal/kafka/recovery.go. The order of ORDER BY updated_at is a
-- stable sort of the rows; a transaction meets no locked rows to skip.
use sql_sentinel.Prelude.{
  ℕ, ◌+◌, ◌*◌, ◌^◌, ◌-◌, String, Bool, true, false, ◌&&◌, ◌||◌, Option, none, some, List, [], ◌∷◌,
  ◌++◌, leb, ◌==◌, str_eq, if◌then◌else◌, length, take,
}
use sql_sentinel.Prelude.Int.{ℤ, pos, negsuc}
use sql_sentinel.Prelude.Assoc.{Assoc}
use sql_sentinel.Kafka.Model.{retrying, invalid, Time, Hash, Result, ok, err}
use sql_sentinel.Kafka.Event.{Event, marshal_safe}
use sql_sentinel.Kafka.Memory.{is_running, is_waiting}
use sql_sentinel.Kafka.Mysql.Db.{Ending, committed, ◌>>=◌, ◌>>◌, return, exec, query, transaction}
use sql_sentinel.Kafka.Mysql.Rows.{
  Tables, JobRow, OutboxRow, PoisonRow, insert_history, insert_outbox, update_job, find_row,
}
use sql_sentinel.Kafka.Mysql.Lease.{Mysql, lease_over, next_id}
use sql_sentinel.Kafka.Mysql.Receive.{always}

-- published_at IS NULL
abbrev pub is_open : Option Time → Bool
is_open none = true
is_open (some t) = false

-- An outbox row of a job that is not published.
abbrev announces : String → OutboxRow → Bool
announces job_id r = str_eq r.job_id job_id && is_open r.published_at

abbrev pub is_none {ℓ} : {A : Type ℓ} → Option A → Bool
is_none none = true
is_none (some a) = false

-- The condition of the SELECT: the lease ran out, or the job has waited for five minutes behind its
-- time without an event to come.
unfoldable pub is_lost : Time → Assoc OutboxRow → JobRow → Bool
unfolding find_row
is_lost now outbox r =
    is_running r.status && lease_over r.lease_until now
    || is_waiting r.status
      && leb r.next_attempt_at now
      && leb r.updated_at (now - 5 * 60 * 10 ^ 9)
      && is_none (find_row (announces r.job_id) outbox)

unfoldable pub lost_rows : Time → Assoc OutboxRow → Assoc JobRow → List JobRow
unfolding is_lost
lost_rows now outbox [] = []
lost_rows now outbox (entry ∷ rest) =
    let others = lost_rows now outbox rest in
    if is_lost now outbox (entry.1) then (entry.1) ∷ others else others

-- ORDER BY
unfoldable pub insert_by {ℓ} : {R : Type ℓ} → (R → Time) → R → List R → List R
insert_by key r [] = r ∷ []
insert_by key r (x ∷ xs) =
    let rest = insert_by key r xs in if leb (key r) (key x) then r ∷ (x ∷ xs) else x ∷ rest

unfoldable pub order_by {ℓ} : {R : Type ℓ} → (R → Time) → List R → List R
unfolding insert_by
order_by key [] = []
order_by key (r ∷ rows) = insert_by key r (order_by key rows)

-- LIMIT takes the first rows. A negative LIMIT is an error of MySQL's parser.
unfoldable pub select_lost : Time → ℤ → Tables → Result (List JobRow)
unfolding lost_rows order_by
select_lost now (pos limit) t =
    ok (take limit (order_by (λ (r : JobRow). r.updated_at) (lost_rows now t.outbox t.jobs)))
select_lost now (negsuc n) t = err (invalid "syntax error")

-- The events of the rows, each with an identifier of its own.
unfoldable pub name_events : Hash → Time → List JobRow → Mysql (List Event)
unfolding ◌>>=◌ next_id
name_events hash now [] = return []
name_events hash now (r ∷ rows) = do
  event_id ← next_id hash "recovery" now r.attempts
  events ← name_events hash now rows
  return (
      record {
        schema_version = pos 1;
        event_id = event_id;
        job_id = r.job_id;
        delivery_id = r.delivery_id;
        attempt = pos (r.attempts + 1);
      }
      ∷ events)

unfoldable pub recovered_row : Time → JobRow → JobRow
recovered_row now r = record r {
  status = retrying;
  lease_owner = "";
  lease_until = none;
  next_attempt_at = now;
  updated_at = now;
  last_error = "delivery_recovered";
}

-- The fence of one job and its new event.
unfoldable pub recover_event : Time → Event → Mysql (Unit {0})
unfolding ◌>>=◌ ◌>>◌ exec update_job recovered_row insert_outbox insert_history
recover_event now event = do
  changed ← exec (update_job event.job_id always (recovered_row now))
  exec (insert_outbox event.event_id event.job_id (marshal_safe event) now now)
  exec (
      insert_history (record {
        job_id = event.job_id;
        status = retrying;
        reason = "delivery_recovered";
        created_at = now;
      }))

unfoldable pub recover_events : Time → List Event → Mysql (Unit {0})
unfolding ◌>>=◌ ◌>>◌ recover_event
recover_events now [] = return tt
recover_events now (event ∷ events) = recover_event now event >> recover_events now events

unfoldable pub recover_body : Hash → Time → ℤ → Mysql (Ending ℕ)
unfolding ◌>>=◌ ◌>>◌ query select_lost name_events recover_events
recover_body hash now limit = do
  rows ← query (select_lost now limit)
  events ← name_events hash now rows
  recover_events now events
  return (committed (length events))

unfoldable pub recover_expired : Hash → Time → ℤ → Mysql ℕ
unfolding transaction recover_body
recover_expired hash now limit = transaction (recover_body hash now limit)

same_place : String → ℕ → ℕ → List PoisonRow → Bool
same_place topic partition offset [] = false
same_place topic partition offset (r ∷ rows) =
    str_eq r.topic topic && (r.partition_id == partition) && (r.offset_id == offset)
    || same_place topic partition offset rows

-- INSERT IGNORE: a row under the same key stays.
unfoldable pub insert_poison : PoisonRow → Tables → Result (Unit {0}) × Tables
unfolding same_place
insert_poison row t =
    if same_place row.topic row.partition_id row.offset_id t.poison
    then (ok tt, t)
    else (ok tt, record t { poison = t.poison ++ row ∷ [] })

-- `sha` is the digest of the message's value.
unfoldable pub quarantine : String → String → ℕ → ℕ → Mysql (Unit {0})
unfolding exec insert_poison
quarantine sha topic partition offset = exec (
    insert_poison (record {
      topic = topic;
      partition_id = partition;
      offset_id = offset;
      payload_sha256 = sha;
      reason = "invalid_event";
    }))
