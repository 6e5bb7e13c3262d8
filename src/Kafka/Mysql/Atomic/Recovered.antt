-- ===== src/Kafka/Mysql/Atomic/Recovered.antt =====
-- What the transaction of RecoverExpired of internal/kafka/recovery.go has done when it commits.
use sql_sentinel.Prelude.{
  String, Bool, Option, none, some, List, [], ◌∷◌, ◌++◌, ◌≡◌, ◌≢◌, refl, ◌⊎◌, inl, inr, arith, ap,
  sym, subst, ◌∙◌, append_assoc,
}
use sql_sentinel.Prelude.Int.{ℤ, pos}
use sql_sentinel.Prelude.Assoc.{Assoc, lookup, insert, lookup-insert_other, lookup-insert_cases}
use sql_sentinel.Kafka.Model.{Time, retrying, ok}
use sql_sentinel.Kafka.Event.{Event, marshal_safe}
use sql_sentinel.Json.{Stream}
use sql_sentinel.Kafka.Mysql.Db.{Db, ◌>>◌}
use sql_sentinel.Kafka.Mysql.Rows.{
  update_row, Tables, JobRow, HistoryRow, update_job, insert_history,
}
use sql_sentinel.Kafka.Mysql.Receive.{always}
use sql_sentinel.Kafka.Mysql.Recover.{recovered_row, recover_event}
use sql_sentinel.Kafka.Mysql.Atomic.Effects.{Succeeds, exec-Succeeds, >>=-Succeeds}
use sql_sentinel.Kafka.Mysql.Atomic.Stored.{insert_outbox-inv}

pub none_or_some {ℓ} : {A : Type ℓ} (a : A) → none ≢ some a
none_or_some a h = ground (arith, h)

pub some_inj {ℓ} : {A : Type ℓ} {a b : A} → some a ≡ some b → a ≡ b
some_inj h = ground (arith, h)

-- A row that waits for a new attempt from now on, without a lease.
pub record IsPutBack (now : Time) (row : JobRow) : Type 0 where
  pub status : row.status ≡ retrying
  pub no_owner : row.lease_owner ≡ ""
  pub no_lease : row.lease_until ≡ none
  pub due : row.next_attempt_at ≡ now
  pub reason : row.last_error ≡ "delivery_recovered"

abbrev pub recovery_history : Time → String → HistoryRow
recovery_history now job_id = record {
  job_id = job_id;
  status = retrying;
  reason = "delivery_recovered";
  created_at = now;
}

-- A job is put back, with its history, and a valid event for its next attempt waits in the outbox.
pub record IsRecovered (now : Time) (job_id delivery_id : String) (attempt : ℤ) (t : Tables)
    : Type 0 where
  pub job : (row : JobRow) → lookup job_id t.jobs ≡ some row → IsPutBack now row
  pub older : List HistoryRow
  pub newer : List HistoryRow
  pub history : t.history ≡ older ++ (recovery_history now job_id ∷ newer)
  pub event_id : String
  pub payload : Stream
  pub event_encodes :
      marshal_safe (record {
        schema_version = pos 1;
        event_id = event_id;
        job_id = job_id;
        delivery_id = delivery_id;
        attempt = attempt;
      })
      ≡ some payload
  pub event :
      lookup event_id t.outbox
      ≡ some (record {
        event_id = event_id;
        job_id = job_id;
        topic = "sql-sentinel.jobs";
        payload = payload;
        attempts = 0;
        available_at = now;
        published_at = none;
        last_error = "";
        created_at = now;
      })

-- One call of the loop.
pub record Recovers (now : Time) (event : Event) (t t' : Tables) : Type 0 where
  pub payload : Stream
  pub encodes : marshal_safe event ≡ some payload
  pub fresh : lookup event.event_id t.outbox ≡ none
  pub outbox :
      t'.outbox
      ≡ insert event.event_id
          (record {
            event_id = event.event_id;
            job_id = event.job_id;
            topic = "sql-sentinel.jobs";
            payload = payload;
            attempts = 0;
            available_at = now;
            published_at = none;
            last_error = "";
            created_at = now;
          })
          t.outbox
  pub jobs :
      (t'.jobs ≡ t.jobs) × (lookup event.job_id t.jobs ≡ none)
      ⊎ ((row : JobRow) × (t'.jobs ≡ insert event.job_id (recovered_row now row) t.jobs))
  pub history : t'.history ≡ t.history ++ recovery_history now event.job_id ∷ []

update_job-cases :
    (job_id : String) (set : JobRow → JobRow) (changed : Bool) (t t' : Tables)
    (found : Option JobRow)
    → lookup job_id t.jobs ≡ found
    → update_job job_id always set t ≡ (ok changed, t')
    → (((t'.jobs ≡ t.jobs) × (lookup job_id t.jobs ≡ none))
        ⊎ ((row : JobRow) × (t'.jobs ≡ insert job_id (set row) t.jobs)))
      × (t'.outbox ≡ t.outbox)
      × (t'.history ≡ t.history)
unfolding update_job update_row
update_job-cases job_id set changed t t' none p h =
    (inl (ground arith, p), ground arith, ground arith)
update_job-cases job_id set changed t t' (some row) p h =
    (inr (row, ground arith), ground arith, ground arith)

pub recover_event-Recovers :
    (now : Time) (event : Event) (db db' : Db Tables)
    → Succeeds (recover_event now event) db tt db'
    → Recovers now event db.tables db'.tables
unfolding recover_event ◌>>◌ insert_history
recover_event-Recovers now event db db' h =
    let (changed, d1, p1, h1) = >>=-Succeeds _ _ db db' tt h in
    let (_, d2, p2, h2) = >>=-Succeeds _ _ d1 db' tt h1 in
    let (jobs, outbox, history) =
      update_job-cases event.job_id (recovered_row now) changed db.tables d1.tables _ refl
        (exec-Succeeds _ db d1 changed p1) in
    let (bytes, encodes, fresh, e2) =
      insert_outbox-inv event.event_id event.job_id (marshal_safe event) now now d1.tables d2.tables
        (exec-Succeeds _ d1 d2 tt p2) in
    let e3 = exec-Succeeds _ d2 db' tt h2 in
    let kept : d1.tables.jobs ≡ db'.tables.jobs = ground (arith, e2, e3) in
    record {
      payload = bytes;
      encodes = encodes;
      fresh = ground (arith, outbox, fresh);
      outbox = ground (arith, outbox, e2, e3);
      jobs =
          subst
            (λ (rows : Assoc JobRow).
              ((rows ≡ db.tables.jobs) × (lookup event.job_id db.tables.jobs ≡ none))
              ⊎ ((row : JobRow) × (rows
                    ≡ insert event.job_id (recovered_row now row) db.tables.jobs)))
            kept jobs;
      history = ground (arith, history, e2, e3);
    }

pub recovered-IsPutBack : (now : Time) (row : JobRow) → IsPutBack now (recovered_row now row)
unfolding recovered_row
recovered-IsPutBack now row = record {
  status = refl;
  no_owner = refl;
  no_lease = refl;
  due = refl;
  reason = refl;
}

-- The rows of a job that is put back stay so.
put_back-kept :
    (now : Time) (event : Event) (job_id : String) (t t' : Tables)
    → Recovers now event t t'
    → ((row : JobRow) → lookup job_id t.jobs ≡ some row → IsPutBack now row)
    → (row : JobRow) → lookup job_id t'.jobs ≡ some row
    → IsPutBack now row
put_back-kept now event job_id t t' step held row h = elim (step.jobs) [
  | inl (same, _) ↦ held row (ap (lookup job_id) (sym same) ∙ h)
  | inr (old, put) ↦
      elim (lookup-insert_cases event.job_id job_id (recovered_row now old) row t.jobs
        (ap (lookup job_id) (sym put) ∙ h)) [
          | inl (_, same) ↦ subst (IsPutBack now) (sym same) (recovered-IsPutBack now old)
          | inr (_, kept) ↦ held row kept
        ]
]

pub step-IsRecovered :
    (now : Time) (event : Event) (job_id delivery_id : String) (attempt : ℤ) (t t' : Tables)
    → Recovers now event t t'
    → IsRecovered now job_id delivery_id attempt t
    → IsRecovered now job_id delivery_id attempt t'
step-IsRecovered now event job_id delivery_id attempt t t' step held = record {
  job = put_back-kept now event job_id t t' step held.job;
  older = held.older;
  newer = held.newer ++ recovery_history now event.job_id ∷ [];
  history =
      step.history
      ∙ ap (λ rows. rows ++ recovery_history now event.job_id ∷ []) held.history
      ∙ append_assoc held.older (recovery_history now job_id ∷ held.newer)
          (recovery_history now event.job_id ∷ []);
  event_id = held.event_id;
  payload = held.payload;
  event_encodes = held.event_encodes;
  event =
      ap (lookup held.event_id) step.outbox
      ∙ lookup-insert_other event.event_id held.event_id _ t.outbox (λ same.
        none_or_some _ (sym step.fresh ∙ ap (λ id. lookup id t.outbox) same ∙ held.event))
      ∙ held.event;
}
