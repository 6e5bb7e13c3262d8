-- ===== src/Kafka/Mysql/Atomic/Jobs.antt =====
-- Receive, Retry and RecoverExpired of MySQLStore under faults: all or nothing.
use sql_sentinel.Kafka.Mysql.Atomic.Retries.{next_id-Steady}
use sql_sentinel.Prelude.{
  ℕ, ◌+◌, ◌%◌, ◌^◌, String, Option, none, some, List, [], ◌∷◌, ◌≡◌, refl, ◌⊎◌, arith, ◌≢◌, length,
}
use sql_sentinel.Prelude.Int.{pos, ℤ}
use sql_sentinel.Kafka.Model.{Err, ok, err, Hash, Time, ReceiveInput, Job}
use sql_sentinel.Kafka.Event.{Event}
use sql_sentinel.Kafka.Mysql.Db.{Db, committed, ◌>>=◌, ◌>>◌, exec, transaction}
use sql_sentinel.Kafka.Mysql.Lease.{record_history}
use sql_sentinel.Kafka.Mysql.Rows.{Tables, JobRow}
use sql_sentinel.Kafka.Mysql.Lease.{
  store_retry, when_changed, retry_body, next_id, announce_retry, Mysql,
}
use sql_sentinel.Kafka.Mysql.Lease
use sql_sentinel.Kafka.Mysql.Receive
use sql_sentinel.Kafka.Mysql.Atomic.Events.{AllRecovered, transaction-AllRecovered}
use sql_sentinel.Kafka.Mysql.Atomic.Stored.{IsStored, transaction-IsStored}
use sql_sentinel.Kafka.Mysql.Atomic.{
  sym, subst, ◌>>=◌, Atomic, resume-Reads, calm, Steady, Commits, Reads, >>=-Steady, >>=-Commits,
  >>=-Reads, >>=-Atomic, exec-Steady, query-Steady, query-Reads, return-Steady, return-Commits,
  rolled_back-Commits, attempt-Commits, transaction-atomic,
}
use sql_sentinel.Kafka.Mysql.Receive.{
  insert_job, received_row, Outcome, answered, collided, created, traced, insert_source,
  store_source, store_rest, store_new, receive_traced, receive_body, answer, after_read,
  after_insert, after_count, create_job,
}
use sql_sentinel.Kafka.Mysql.Recover.{
  recover_expired, recover_events, recover_event, name_events, recover_body,
}

name_events-Steady :
    (hash : Hash) (now : Time) (rows : List JobRow) → Steady (name_events hash now rows)
unfolding name_events
name_events-Steady hash now [] = return-Steady []
name_events-Steady hash now (r ∷ rows) =
    >>=-Steady _ _ (next_id-Steady hash "recovery" now r.attempts) λ event_id.
      (>>=-Steady _ _ (name_events-Steady hash now rows) λ events. return-Steady (
        record {
          schema_version = pos 1;
          event_id = event_id;
          job_id = r.job_id;
          delivery_id = r.delivery_id;
          attempt = pos (r.attempts + 1);
        }
        ∷ events))

recover_event-Steady : (now : Time) (event : Event) → Steady (recover_event now event)
unfolding recover_event ◌>>◌
recover_event-Steady now event =
    >>=-Steady _ _ (exec-Steady _) λ changed. (>>=-Steady _ _ (exec-Steady _) λ _. exec-Steady _)

recover_events-Steady : (now : Time) (events : List Event) → Steady (recover_events now events)
unfolding recover_events ◌>>◌
recover_events-Steady now [] = return-Steady tt
recover_events-Steady now (event ∷ events) =
    >>=-Steady _ _ (recover_event-Steady now event) λ _. recover_events-Steady now events

recover_transaction-Atomic :
    (hash : Hash) (now : Time) (limit : ℤ) → Atomic (transaction (recover_body hash now limit))
unfolding recover_body ◌>>◌
recover_transaction-Atomic hash now limit db = transaction-atomic _ db (
    >>=-Commits _ _ (query-Steady _) λ rows.
      (>>=-Commits _ _ (name_events-Steady hash now rows) λ events.
        (>>=-Commits _ _ (recover_events-Steady now events) λ _. return-Commits (length events))))

-- Whatever fails, RecoverExpired leaves the tables as they were, or does what it does when nothing
-- fails: no job is lost, and it has recovered every job that it selects: its row waits for a new
-- attempt from now on, without a lease, its history says so, and a valid event for the next attempt is
-- in the outbox, not published.
pub recover_expired-Atomic :
    (hash : Hash) (now : Time) (limit : ℤ) (db : Db Tables)
    → let call = recover_expired hash now limit in
      ((call db).1.tables ≡ db.tables)
      ⊎ (((call db).1.tables ≡ (call (calm db)).1.tables)
          × AllRecovered now limit db.tables (call db).1.tables)
unfolding recover_expired
recover_expired-Atomic hash now limit db = ground (
  arith,
  recover_transaction-Atomic hash now limit db,
  transaction-AllRecovered hash now limit db,
)

store_source-Steady : (job_id source : String) → Steady (store_source job_id source)
unfolding store_source
store_source-Steady job_id source db db' a h =
    ground (arith, exec-Steady (insert_source job_id source) db db' a)

store_rest-Steady :
    (job_id event_id : String) (now : Time) (inp : ReceiveInput)
    → Steady (store_rest job_id event_id now inp)
unfolding store_rest ◌>>◌
store_rest-Steady job_id event_id now inp = >>=-Steady _ _ (exec-Steady _) λ _.
    (>>=-Steady _ _ (exec-Steady _) λ _.
      (>>=-Steady _ _ (exec-Steady _) λ _.
        (>>=-Steady _ _ (store_source-Steady job_id inp.source_json) λ _.
          (>>=-Steady _ _ (exec-Steady _)
            λ _. (>>=-Steady _ _ (exec-Steady _) λ changed. exec-Steady _)))))

refused-Commits :
    (job_id event_id : String) (now : Time) (inp : ReceiveInput) (e : Err) (db db' : Db Tables)
    (b : Outcome)
    → after_insert job_id event_id now inp (err e) db ≢ (ok (committed b), db')
unfolding after_insert
refused-Commits job_id event_id now inp e db db' b h = absurd (ground arith)

stored-Commits :
    (job_id event_id : String) (now : Time) (inp : ReceiveInput) (done : Unit {0})
    → Commits (after_insert job_id event_id now inp (ok done))
unfolding after_insert ◌>>◌
stored-Commits job_id event_id now inp done =
    >>=-Commits _ _ (store_rest-Steady job_id event_id now inp) λ _. return-Commits created

store_new-Commits :
    (hash : Hash) (now : Time) (inp : ReceiveInput) → Commits (store_new hash now inp)
unfolding store_new
store_new-Commits hash now inp =
    >>=-Commits _ _ (next_id-Steady hash "job" now (now % 10 ^ 9)) λ job_id.
      (>>=-Commits _ _ (next_id-Steady hash "event" now (now % 10 ^ 9 + 1)) λ event_id.
        attempt-Commits (exec (insert_job (received_row hash job_id now inp)))
          (after_insert job_id event_id now inp) (exec-Steady _)
          (stored-Commits job_id event_id now inp) (refused-Commits job_id event_id now inp))

after_count-Commits :
    (hash : Hash) (now : Time) (inp : ReceiveInput) (pending : ℕ)
    → Commits (after_count hash now inp pending)
unfolding after_count
after_count-Commits hash now inp pending db db' a h =
    ground (arith, store_new-Commits hash now inp db db' a)

after_read-Commits :
    (hash : Hash) (now : Time) (inp : ReceiveInput) (prior : Option Job)
    → Commits (after_read hash now inp prior)
unfolding after_read create_job
after_read-Commits hash now inp (some job) = rolled_back-Commits _
after_read-Commits hash now inp none =
    >>=-Commits _ _ (query-Steady _) (after_count-Commits hash now inp)

receive_body-Commits :
    (hash : Hash) (now : Time) (inp : ReceiveInput) → Commits (receive_body hash now inp)
unfolding receive_body ◌>>◌
receive_body-Commits hash now inp =
    >>=-Commits _ _ (query-Steady _)
      λ _. (>>=-Commits _ _ (query-Steady _) (after_read-Commits hash now inp))

answer-Reads :
    (hash : Hash) (inp : ReceiveInput) (outcome : Outcome) → Reads (answer hash inp outcome)
unfolding answer Lease.get
answer-Reads hash inp (answered r) = λ db. refl
answer-Reads hash inp collided = >>=-Reads _ _ (query-Reads _) λ job db. refl
answer-Reads hash inp created = >>=-Reads _ _ (query-Reads _) λ job db. refl

receive_traced-Atomic :
    (hash : Hash) (now : Time) (inp : ReceiveInput) → Atomic (receive_traced hash now inp)
unfolding receive_traced
receive_traced-Atomic hash now inp =
    >>=-Atomic (transaction (receive_body hash now inp)) (answer hash inp)
      (λ db. transaction-atomic _ db (receive_body-Commits hash now inp)) (answer-Reads hash inp)

-- What a Receive of a complete input stores, stands in the tables behind the answer.
receive_traced-IsStored :
    (hash : Hash) (now : Time) (inp : ReceiveInput) (db : Db Tables)
    → ((receive_traced hash now inp db).1.tables ≡ db.tables)
      ⊎ IsStored hash now inp db.tables (receive_traced hash now inp db).1.tables
unfolding receive_traced ◌>>=◌
receive_traced-IsStored hash now inp db =
    subst (λ (t : Tables). (t ≡ db.tables) ⊎ IsStored hash now inp db.tables t)
      (sym (
        resume-Reads (answer hash inp) (transaction (receive_body hash now inp) db)
          (answer-Reads hash inp)))
      (transaction-IsStored hash now inp db)

-- Whatever fails, a Receive leaves the tables as they were, or does what it does when nothing fails
-- and has stored the delivery as a whole: under an identifier that was free, the queued job, its
-- options, both steps of its history, an audit entry, its source if it has one, and an event that
-- is valid and not published.
pub receive-Atomic :
    (hash : Hash) (now : Time) (parent state : String) (inp : ReceiveInput) (db : Db Tables)
    → let call = Receive.receive hash now parent state inp in
      ((call db).1.tables ≡ db.tables)
      ⊎ (((call db).1.tables ≡ (call (calm db)).1.tables)
          × IsStored hash now (traced parent state inp) db.tables (call db).1.tables)
unfolding Receive.receive
receive-Atomic hash now parent state inp db = ground (
  arith,
  receive_traced-Atomic hash now (traced parent state inp) db,
  receive_traced-IsStored hash now (traced parent state inp) db,
)
