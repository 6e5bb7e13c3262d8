-- ===== src/Kafka/Mysql/Atomic/Retries.antt =====
-- Retry, Claim, Renew and the ends of a job of internal/kafka/mysql.go under faults.
use sql_sentinel.Prelude.{ℕ, String, Bool, true, false, ◌≡◌, ◌⊎◌, arith}
use sql_sentinel.Kafka.Model.{Hash, Time, Job}
use sql_sentinel.Kafka.Mysql.Db.{Db, committed, ◌>>◌}
use sql_sentinel.Kafka.Model.{JobStatus, running, Duration}
use sql_sentinel.Kafka.Mysql.Lease.{record_history}
use sql_sentinel.Kafka.Mysql.Rows.{Tables}
use sql_sentinel.Kafka.Mysql.Lease.{
  store_retry, when_changed, retry_body, next_id, announce_retry, Mysql,
}
use sql_sentinel.Kafka.Mysql.Lease
use sql_sentinel.Kafka.Mysql.Atomic.{
  calm, Steady, >>=-Steady, >>=-Commits, exec-Steady, query-Steady, return-Steady, return-Commits,
  transaction-atomic, transaction-Steady,
}

pub next_id-Steady :
    (hash : Hash) (kind : String) (now : Time) (n : ℕ) → Steady (next_id hash kind now n)
unfolding next_id
next_id-Steady hash kind now n db db' a h = ground arith

when_changed-Steady :
    (changed : Bool) (m : Mysql (Unit {0})) → Steady m → Steady (when_changed changed m)
unfolding when_changed
when_changed-Steady true m s = s
when_changed-Steady false m s = return-Steady tt

store_retry-Steady :
    (job_id event_id : String) (job : Job) (now later : Time) (reason : String)
    → Steady (store_retry job_id event_id job now later reason)
unfolding store_retry ◌>>◌
store_retry-Steady job_id event_id job now later reason =
    >>=-Steady _ _ (exec-Steady _) λ done. exec-Steady _

announce_retry-Steady :
    (hash : Hash) (job_id : String) (now later : Time) (reason : String)
    → Steady (announce_retry hash job_id now later reason)
unfolding announce_retry
announce_retry-Steady hash job_id now later reason = >>=-Steady _ _ (query-Steady _) λ job.
    (>>=-Steady _ _ (next_id-Steady hash "retry" now job.attempts)
      λ event_id. store_retry-Steady job_id event_id job now later reason)

retry_body-Steady :
    (hash : Hash) (job_id owner : String) (now later : Time) (reason : String)
    → Steady (retry_body hash job_id owner now later reason)
unfolding retry_body ◌>>◌
retry_body-Steady hash job_id owner now later reason = >>=-Steady _ _ (exec-Steady _) λ changed.
    (>>=-Steady _ _
      (when_changed-Steady changed _ (announce_retry-Steady hash job_id now later reason))
      λ _. return-Steady (committed changed))

pub retry-Steady :
    (hash : Hash) (job_id owner : String) (now later : Time) (reason : String)
    → Steady (Lease.retry hash job_id owner now later reason)
unfolding Lease.retry
retry-Steady hash job_id owner now later reason =
    transaction-Steady _ (retry_body-Steady hash job_id owner now later reason)

record_history-Steady :
    (job_id : String) (status : JobStatus) (reason : String) (clock : Time)
    → Steady (record_history job_id status reason clock)
unfolding record_history
record_history-Steady job_id status reason clock = exec-Steady _

pub claim-Steady :
    (job_id owner : String) (now : Time) (lease : Duration) (clock : Time)
    → Steady (Lease.claim job_id owner now lease clock)
unfolding Lease.claim ◌>>◌ Lease.get_by_id
claim-Steady job_id owner now lease clock = >>=-Steady _ _ (exec-Steady _) λ changed.
    (>>=-Steady _ _ (when_changed-Steady changed _ (record_history-Steady job_id running "" clock))
      λ _. (>>=-Steady _ _ (query-Steady _) λ job. return-Steady (job, changed)))

pub finish-Steady :
    (job_id owner : String) (now : Time) (status : JobStatus) (reason : String) (clock : Time)
    → Steady (Lease.finish job_id owner now status reason clock)
unfolding Lease.finish ◌>>◌
finish-Steady job_id owner now status reason clock = >>=-Steady _ _ (exec-Steady _) λ changed.
    (>>=-Steady _ _
      (when_changed-Steady changed _ (record_history-Steady job_id status reason clock))
      λ _. return-Steady changed)

pub renew-Steady :
    (job_id owner : String) (now : Time) (lease : Duration)
    → Steady (Lease.renew job_id owner now lease)
unfolding Lease.renew
renew-Steady job_id owner now lease = exec-Steady _

-- Whatever fails, a Retry leaves the tables as they were, or as it does when nothing fails: no job
-- waits without its event, and no event is announced for a job that still runs.
pub retry-Atomic :
    (hash : Hash) (job_id owner : String) (now later : Time) (reason : String) (db : Db Tables)
    → let call = Lease.retry hash job_id owner now later reason in
      ((call db).1.tables ≡ db.tables) ⊎ ((call db).1.tables ≡ (call (calm db)).1.tables)
unfolding Lease.retry retry_body ◌>>◌
retry-Atomic hash job_id owner now later reason db = transaction-atomic _ db (
    >>=-Commits _ _ (exec-Steady _) λ changed.
      (>>=-Commits _ _
        (when_changed-Steady changed _ (announce_retry-Steady hash job_id now later reason))
        λ _. (return-Commits changed)))
