-- ===== src/Kafka/Mysql/Refines/Retries.antt =====
-- Retry of MySQLStore beside Retry of MemoryStore (internal/kafka/mysql.go and memory.go).
use sql_sentinel.Prelude.{
  ℕ, ◌+◌, String, Bool, true, false, Option, none, some, ◌≡◌, refl, arith, inl, inr, ◌⊎◌,
  Option-cases, Bool-cases, [], ◌∷◌, ◌++◌,
}
use sql_sentinel.Prelude.Int.{pos}
use sql_sentinel.Prelude.Assoc.{lookup, insert, lookup-insert_same}
use sql_sentinel.Json.{Stream}
use sql_sentinel.Kafka.Model.{retrying, Time, Job, Hash, new_id, Err, Result, ok, err}
use sql_sentinel.Kafka.Event.{marshal_safe}
use sql_sentinel.Kafka.Memory.{MemoryStore, retried_store}
use sql_sentinel.Kafka.Memory
use sql_sentinel.Kafka.Mysql.Db.{Db}
use sql_sentinel.Kafka.Mysql.Rows.{
  Tables, JobRow, scan_job, insert_outbox, insert_row, null_column, duplicate_entry, update_row,
  select_by_id,
}
use sql_sentinel.Kafka.Mysql.Lease
use sql_sentinel.Kafka.Mysql.Lease.{is_leased, retried_row, store_retry, announce_retry, retry_body}
use sql_sentinel.Kafka.Mysql.Refines.{Represents}
use sql_sentinel.Kafka.Mysql.Refines.Calls.{of_bool, put-Represents, seen-retried_row}
use sql_sentinel.Kafka.Mysql.Refines.Steps.{quiet, Represents-At, At-holds, At-retried, Meets}

-- A program that stops with an error and the tables as they are, or succeeds and leaves the jobs.
abbrev Lands : Tables → ℕ → Result (Unit {0}) × Db Tables → Type 0
Lands t n x =
    ((e : Err) × (x ≡ (err e, quiet t n)))
    ⊎ ((u : Tables) × (x ≡ (ok tt, quiet u n))
        × (u.jobs ≡ t.jobs)
        × (u.job_options ≡ t.job_options))

insert_outbox-Lands :
    (event_id job_id : String) (payload : Option Stream) (later now : Time) (t : Tables)
    → ((e : Err) × (insert_outbox event_id job_id payload later now t ≡ (err e, t)))
      ⊎ ((u : Tables) × (insert_outbox event_id job_id payload later now t ≡ (ok tt, u))
          × (u.jobs ≡ t.jobs)
          × (u.job_options ≡ t.job_options))
unfolding insert_outbox insert_row
insert_outbox-Lands event_id job_id none later now t = inl (null_column, refl)
insert_outbox-Lands event_id job_id (some payload) later now t =
    elim (Option-cases (lookup event_id t.outbox)) [
      | inl fresh ↦ inr (
        record t {
          outbox =
              insert event_id
                (record {
                  event_id = event_id;
                  job_id = job_id;
                  topic = "sql-sentinel.jobs";
                  payload = payload;
                  attempts = 0;
                  available_at = later;
                  published_at = none;
                  last_error = "";
                  created_at = now;
                })
                t.outbox;
        },
        rw (insert_row, fresh) refl,
        refl,
        refl,
      )
      | inr (old, h) ↦ inl (duplicate_entry, rw (insert_row, h) refl)
    ]

store_retry-Lands :
    (job_id event_id : String) (job : Job) (now later : Time) (reason : String) (t : Tables) (n : ℕ)
    → Lands t n (store_retry job_id event_id job now later reason (quiet t n))
unfolding store_retry
store_retry-Lands job_id event_id job now later reason t n =
    elim (insert_outbox-Lands event_id job.id
      (marshal_safe (record {
        schema_version = pos 1;
        event_id = event_id;
        job_id = job.id;
        delivery_id = job.delivery_id;
        attempt = pos (job.attempts + 1);
      }))
      later now t) [
        | inl (e, p) ↦ inl (e, rw p refl)
        | inr (u, p, q, o) ↦ inr (
          record u {
            history =
                u.history
                ++ record { job_id = job_id; status = retrying; reason = reason; created_at = now }
                  ∷ [];
          },
          rw p refl,
          q,
          o,
        )
      ]

announce_retry-Lands :
    (hash : Hash) (id : String) (now later : Time) (reason : String) (t : Tables) (n : ℕ)
    (r : JobRow)
    → lookup id t.jobs ≡ some r
    → Lands t (n + 1) (announce_retry hash id now later reason (quiet t n))
unfolding announce_retry select_by_id
announce_retry-Lands hash id now later reason t n r h =
    rw (announce_retry, select_by_id, h)
      (store_retry-Lands id (new_id hash "retry" now r.attempts (n + 1)) (scan_job t r) now later
        reason t (n + 1))

module _ (hash : Hash) (t : Tables) (n : ℕ) (id owner : String) (now later : Time)
    (reason : String) where
  retry-absent :
      lookup id t.jobs ≡ none
      → Lease.retry hash id owner now later reason (quiet t n) ≡ (ok false, quiet t n)
  unfolding Lease.retry update_row
  retry-absent h = rw (Lease.retry, update_row, h) refl

  retry-refused :
      (r : JobRow)
      → lookup id t.jobs ≡ some r
      → is_leased owner now r ≡ false
      → Lease.retry hash id owner now later reason (quiet t n) ≡ (ok false, quiet t n)
  unfolding Lease.retry update_row
  retry-refused r h l = rw (Lease.retry, update_row, h, l) refl

  -- The outcome of a Retry under its lease.
  retry-found :
      (r : JobRow)
      → lookup id t.jobs ≡ some r
      → is_leased owner now r ≡ true
      → ((e : Err) × (Lease.retry hash id owner now later reason (quiet t n)
            ≡ (err e, quiet t (n + 1))))
        ⊎ ((u : Tables) × (Lease.retry hash id owner now later reason (quiet t n)
              ≡ (ok true, quiet u (n + 1)))
            × (u.jobs ≡ insert id (retried_row now later reason r) t.jobs)
            × (u.job_options ≡ t.job_options))
  unfolding Lease.retry update_row
  retry-found r h l =
      elim (announce_retry-Lands hash id now later reason
        (record t { jobs = insert id (retried_row now later reason r) t.jobs }) n
        (retried_row now later reason r)
        (lookup-insert_same id (retried_row now later reason r) t.jobs)) [
          | inl (e, p) ↦ inl (e, rw (Lease.retry, update_row, h, l) (rw p refl))
          | inr (u, p, q, o) ↦ inr (u, rw (Lease.retry, update_row, h, l) (rw p refl), q, o)
        ]

  -- A Retry that succeeds does what the MemoryStore does.
  pub retry-Meets :
      (s : MemoryStore) (b : Bool) (db' : Db Tables)
      → Represents t s
      → Lease.retry hash id owner now later reason (quiet t n) ≡ (ok b, db')
      → Meets of_bool
          (Lease.retry hash id owner now later reason (quiet t n))
          (Memory.retry hash id owner now later reason s)
  unfolding Memory.retry
  retry-Meets s b db' rep h = elim (Represents-At t s id rep) [
    | inl (no_row, no_job) ↦ rw (retry-absent no_row, Memory.retry, no_job) (refl, rep)
    | inr a ↦ elim (Bool-cases (is_leased owner now a.row)) [
      | inr free ↦
          rw
            (
              retry-refused a.row a.row_at free,
              Memory.retry,
              a.job_at,
              At-holds t s id a owner now false free,
            )
            (refl, rep)
      | inl held ↦ elim (retry-found a.row a.row_at held) [
        | inl (e, p) ↦ absurd (ground (arith, p, h))
        | inr (u, p, q, o) ↦
            rw (p, Memory.retry, a.job_at, At-holds t s id a owner now true held)
              (
                refl,
                put-Represents t u s _ id _ _ rep q o (unfold retried_store in refl)
                    (At-retried t s id a now later reason)
                    (seen-retried_row t a.job a.row a.same now later reason),
              )
      ]
    ]
  ]
