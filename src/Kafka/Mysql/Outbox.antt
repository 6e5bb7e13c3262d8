-- ===== src/Kafka/Mysql/Outbox.antt =====
-- PendingOutbox and MarkPublished of MySQLStore (internal/kafka/mysql.go).
use sql_sentinel.Prelude.{
  take, ℕ, zero, suc, ◌+◌, String, Bool, ◌&&◌, Option, none, some, List, [], ◌∷◌, leb,
  if◌then◌else◌,
}
use sql_sentinel.Prelude.Int.{ℤ, pos, negsuc}
use sql_sentinel.Prelude.Assoc.{Assoc, lookup}
use sql_sentinel.Kafka.Model.{invalid, Time, second, minute, add_time, Result, ok}
use sql_sentinel.Kafka.Retry.{retry_delay}
use sql_sentinel.Kafka.Memory.{OutboxRecord}
use sql_sentinel.Kafka.Mysql.Db.{◌>>=◌, return, raise, exec, query}
use sql_sentinel.Kafka.Mysql.Rows.{Tables, OutboxRow, update_row}
use sql_sentinel.Kafka.Mysql.Lease.{Mysql}
use sql_sentinel.Kafka.Mysql.Recover.{is_open, order_by}

unfoldable pub is_ready : Time → OutboxRow → Bool
is_ready now r = is_open r.published_at && leb r.available_at now

unfoldable pub ready_rows : Time → Assoc OutboxRow → List OutboxRow
unfolding is_ready
ready_rows now [] = []
ready_rows now (entry ∷ rest) =
    let others = ready_rows now rest in
    if is_ready now (entry.1) then (entry.1) ∷ others else others

-- The columns that the SELECT names.
unfoldable pub scan_outbox : OutboxRow → OutboxRecord
scan_outbox r = record {
  event_id = r.event_id;
  job_id = r.job_id;
  topic = r.topic;
  payload = some r.payload;
  attempts = r.attempts;
  available_at = r.available_at;
}

unfoldable pub scan_all : List OutboxRow → List OutboxRecord
unfolding scan_outbox
scan_all [] = []
scan_all (r ∷ rows) = scan_outbox r ∷ scan_all rows

unfoldable pub select_ready : ℕ → Time → Tables → Result (List OutboxRecord)
unfolding ready_rows order_by scan_all
select_ready limit now t =
    ok
      (scan_all (take limit (order_by (λ (r : OutboxRow). r.created_at) (ready_rows now t.outbox))))

unfoldable pub pending_outbox : ℤ → Time → Mysql (List OutboxRecord)
unfolding query select_ready
pending_outbox (pos zero) now = raise (invalid "outbox limit must be positive")
pending_outbox (negsuc n) now = raise (invalid "outbox limit must be positive")
pending_outbox (pos (suc n)) now = query (select_ready (suc n) now)

abbrev pub open_row : OutboxRow → Bool
open_row r = is_open r.published_at

unfoldable pub update_outbox :
    String → (OutboxRow → OutboxRow) → Tables → Result (Unit {0}) × Tables
unfolding update_row
update_outbox event_id set t =
    (ok tt, record t { outbox = (update_row event_id open_row set t.outbox).1 })

unfoldable pub published_row : Time → OutboxRow → OutboxRow
published_row now r = record r { published_at = some now; last_error = "" }

abbrev open_attempts : Option OutboxRow → Option ℕ
open_attempts none = none
open_attempts (some r) = if is_open r.published_at then some r.attempts else none

unfoldable pub select_attempts : String → Tables → Result (Option ℕ)
select_attempts event_id t = ok (open_attempts (lookup event_id t.outbox))

unfoldable pub failed_row : Time → String → ℕ → OutboxRow → OutboxRow
failed_row now text attempts r = record r {
  attempts = r.attempts + 1;
  last_error = text;
  available_at = add_time now (retry_delay second minute (pos (attempts + 1)));
}

unfoldable pub mark_failed : String → Time → String → Option ℕ → Mysql (Unit {0})
unfolding exec update_outbox failed_row
mark_failed event_id now text none = return tt
mark_failed event_id now text (some attempts) =
    exec (update_outbox event_id (failed_row now text attempts))

-- `failure` is the text of the publisher's error.
unfoldable pub mark_published : String → Time → Option String → Mysql (Unit {0})
unfolding ◌>>=◌ exec query update_outbox published_row select_attempts mark_failed
mark_published event_id now none = exec (update_outbox event_id (published_row now))
mark_published event_id now (some text) = do
  attempts ← query (select_attempts event_id)
  mark_failed event_id now text attempts
