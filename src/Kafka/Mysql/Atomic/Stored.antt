-- ===== src/Kafka/Mysql/Atomic/Stored.antt =====
-- What the transaction of Receive of internal/kafka/mysql.go has done when it commits.
use sql_sentinel.Prelude.{
  sym, leb, subst, ℕ, ◌∙◌, ap, eq_iff, Bool-cases, ◌+◌, ◌%◌, ◌^◌, String, Bool, true, Option, none,
  some, [], ◌∷◌, ◌++◌, ◌≡◌, refl, ◌⊎◌, inl, inr, arith, str_eq, if◌then◌else◌,
}
use sql_sentinel.Prelude.Assoc.{Assoc, lookup, insert, lookup-insert_same}
use sql_sentinel.Kafka.Model.{
  Job, JobOptions, Hash, Time, ReceiveInput, received, queued, normalized, Result, ok, err,
}
use sql_sentinel.Kafka.Event.{marshal_safe}
use sql_sentinel.Prelude.Int.{pos}
use sql_sentinel.Json.{Stream}
use sql_sentinel.Kafka.Mysql.Db.{◌>>=◌, attempt, query, exec, transaction, Db, committed, ◌>>◌}
use sql_sentinel.Kafka.Mysql.Lease.{Mysql, next_id}
use sql_sentinel.Kafka.Mysql.Atomic.Effects.{
  query-Succeeds, attempt-Succeeds, transaction-Done, Done, Succeeds, exec-Succeeds, >>=-Succeeds,
}
use sql_sentinel.Kafka.Mysql.Rows.{
  Tables, JobRow, insert_row, update_row, insert_history, insert_outbox, update_job,
}
use sql_sentinel.Kafka.Mysql.Receive.{
  count_backlog, create_job, Outcome, store_new, receive_body, after_read, after_insert,
  after_count, store_rest, store_source, insert_job, received_row, insert_options, insert_audit,
  insert_source, always,
}

-- One delivery stored as a whole: under an identifier that was free, its job, queued, its options,
-- the two steps of its history, one audit entry, its source if it has one, and an event that is
-- valid and not published.
pub record IsStored (hash : Hash) (now : Time) (inp : ReceiveInput) (old new : Tables)
    : Type 0 where
  pub job_id : String
  pub event_id : String
  pub payload : Stream
  pub was_free : lookup job_id old.jobs ≡ none
  pub job :
      lookup job_id new.jobs
      ≡ some (record (received_row hash job_id now inp) { status = queued; updated_at = now })
  pub options : lookup job_id new.job_options ≡ some (normalized inp.options)
  pub history :
      new.history
      ≡ (old.history
          ++ record { job_id = job_id; status = received; reason = ""; created_at = now } ∷ [])
        ++ record { job_id = job_id; status = queued; reason = ""; created_at = now } ∷ []
  pub audit :
      new.audit
      ≡ old.audit
        ++ record {
          tenant_id = (normalized inp.options).tenant_id;
          project_id = (normalized inp.options).project_id;
          actor = (normalized inp.options).actor;
          action = if inp.options.benchmark then "benchmark.created" else "job.created";
          resource_id = job_id;
          metadata = normalized inp.options;
        }
          ∷ []
  pub source : (inp.source_json ≡ "") ⊎ (lookup job_id new.sources ≡ some inp.source_json)
  pub event_encodes :
      marshal_safe (record {
        schema_version = pos 1;
        event_id = event_id;
        job_id = job_id;
        delivery_id = inp.delivery_id;
        attempt = pos 1;
      })
      ≡ some payload
  pub event :
      lookup event_id new.outbox
      ≡ some (record {
        event_id = event_id;
        job_id = job_id;
        topic = "sql-sentinel.jobs";
        payload = payload;
        attempts = 0;
        available_at = now;
        published_at = none;
        last_error = "";
        created_at = now;
      })

insert_row-inv {ℓ} :
    {R : Type ℓ} (key : String) (row : R) (rows new : Assoc R)
    → insert_row key row rows ≡ some new
    → (lookup key rows ≡ none) × (new ≡ insert key row rows)
unfolding insert_row
insert_row-inv key row rows new h = ground arith

insert_job-inv :
    (row : JobRow) (t t' : Tables)
    → insert_job row t ≡ (ok tt, t')
    → (lookup row.job_id t.jobs ≡ none) × (t' ≡ record t { jobs = insert row.job_id row t.jobs })
unfolding insert_job insert_row
insert_job-inv row t t' h = ground arith

insert_options-inv :
    (job_id : String) (options : JobOptions) (t t' : Tables)
    → insert_options job_id options t ≡ (ok tt, t')
    → t' ≡ record t { job_options = insert job_id options t.job_options }
unfolding insert_options insert_row
insert_options-inv job_id options t t' h = ground arith

insert_source-inv :
    (job_id source : String) (t t' : Tables)
    → insert_source job_id source t ≡ (ok tt, t')
    → t' ≡ record t { sources = insert job_id source t.sources }
unfolding insert_source insert_row
insert_source-inv job_id source t t' h = ground arith

store_source-inv :
    (job_id source : String) (db db' : Db Tables)
    → Succeeds (store_source job_id source) db tt db'
    → ((source ≡ "") × (db'.tables ≡ db.tables))
      ⊎ (db'.tables ≡ record (db.tables) { sources = insert job_id source db.tables.sources })
unfolding store_source Succeeds
store_source-inv job_id source db db' h = elim (Bool-cases (str_eq source "")) [
  | inl blank ↦ inl (ground (arith, eq_iff source ""))
  | inr full ↦ inr (
      insert_source-inv job_id source db.tables db'.tables
        (exec-Succeeds (insert_source job_id source) db db' tt (ground arith)))
]

pub insert_outbox-inv :
    (event_id job_id : String) (payload : Option Stream) (now later : Time) (t t' : Tables)
    → insert_outbox event_id job_id payload now later t ≡ (ok tt, t')
    → (bytes : Stream) × (payload ≡ some bytes)
      × (lookup event_id t.outbox ≡ none)
      × (t' ≡ record t {
        outbox =
            insert event_id
              (record {
                event_id = event_id;
                job_id = job_id;
                topic = "sql-sentinel.jobs";
                payload = bytes;
                attempts = 0;
                available_at = now;
                published_at = none;
                last_error = "";
                created_at = later;
              })
              t.outbox;
      })
unfolding insert_outbox insert_row
insert_outbox-inv event_id job_id none now later t t' h = absurd (ground arith)
insert_outbox-inv event_id job_id (some bytes) now later t t' h =
    (bytes, refl, ground arith, ground arith)

update_job-inv :
    (job_id : String) (set : JobRow → JobRow) (row : JobRow) (changed : Bool) (t t' : Tables)
    → lookup job_id t.jobs ≡ some row
    → update_job job_id always set t ≡ (ok changed, t')
    → t' ≡ record t { jobs = insert job_id (set row) t.jobs }
unfolding update_job update_row
update_job-inv job_id set row changed t t' p h = ground arith

-- The statements behind the insertion of a job.
store_rest-IsStored :
    (hash : Hash) (job_id event_id : String) (now : Time) (inp : ReceiveInput) (old : Tables)
    (db db' : Db Tables)
    → lookup job_id old.jobs ≡ none
    → db.tables ≡ record old { jobs = insert job_id (received_row hash job_id now inp) old.jobs }
    → Succeeds (store_rest job_id event_id now inp) db tt db'
    → IsStored hash now inp old db'.tables
unfolding store_rest ◌>>◌ insert_history insert_audit received_row
store_rest-IsStored hash job_id event_id now inp old db db' free began h =
    let (_, d1, p1, h1) = >>=-Succeeds _ _ db db' tt h in
    let e1 = exec-Succeeds _ db d1 tt p1 in
    let (_, d2, p2, h2) = >>=-Succeeds _ _ d1 db' tt h1 in
    let e2 = insert_options-inv _ _ d1.tables d2.tables (exec-Succeeds _ d1 d2 tt p2) in
    let (_, d3, p3, h3) = >>=-Succeeds _ _ d2 db' tt h2 in
    let e3 = exec-Succeeds _ d2 d3 tt p3 in
    let (_, d4, p4, h4) = >>=-Succeeds (store_source job_id inp.source_json) _ d3 db' tt h3 in
    let e4 = store_source-inv job_id inp.source_json d3 d4 p4 in
    let (_, d5, p5, h5) = >>=-Succeeds _ _ d4 db' tt h4 in
    let (bytes, encodes, _, e5) =
      insert_outbox-inv _ _ _ _ _ d4.tables d5.tables (exec-Succeeds _ d4 d5 tt p5) in
    let (changed, d6, p6, h6) = >>=-Succeeds _ _ d5 db' tt h5 in
    let e7 = exec-Succeeds _ d6 db' tt h6 in
    let found : lookup job_id d5.tables.jobs ≡ some (received_row hash job_id now inp) = ground (
      arith,
      began,
      e1,
      e2,
      e3,
      e4,
      e5,
      lookup-insert_same job_id (received_row hash job_id now inp) old.jobs,
    ) in
    let e6 =
      update_job-inv job_id (λ r. record r { status = queued; updated_at = now })
        (received_row hash job_id now inp) changed d5.tables d6.tables found
        (exec-Succeeds _ d5 d6 changed p6) in
    record {
      job_id = job_id;
      event_id = event_id;
      payload = bytes;
      was_free = free;
      job = ground (
        arith,
        e6,
        e7,
        lookup-insert_same job_id
            (record (received_row hash job_id now inp) { status = queued; updated_at = now })
            d5.tables.jobs,
      );
      options = ground (
        arith,
        e2,
        e3,
        e4,
        e5,
        e6,
        e7,
        lookup-insert_same job_id (normalized inp.options) d1.tables.job_options,
      );
      history = ground (arith, began, e1, e2, e3, e4, e5, e6, e7);
      audit = ground (arith, began, e1, e2, e3, e4, e5, e6, e7);
      source =
          ground
            (arith, e4, e5, e6, e7, lookup-insert_same job_id inp.source_json d3.tables.sources);
      event_encodes = encodes;
      event =
          ap (lookup event_id) (ground (arith, e5, e6, e7))
          ∙ lookup-insert_same event_id _ d4.tables.outbox;
    }

inserted-IsStored :
    (hash : Hash) (job_id event_id : String) (now : Time) (inp : ReceiveInput)
    (r : Result (Unit {0})) (db db1 db' : Db Tables) (o : Outcome)
    → exec (insert_job (received_row hash job_id now inp)) db ≡ (r, db1)
    → Succeeds (after_insert job_id event_id now inp r) db1 (committed o) db'
    → IsStored hash now inp db.tables db'.tables
unfolding after_insert ◌>>◌ Succeeds received_row
inserted-IsStored hash job_id event_id now inp (ok tt) db db1 db' o p h =
    let (_, db2, rest, q) =
      >>=-Succeeds (store_rest job_id event_id now inp) _ db1 db' (committed o) h in
    let (free, began) = insert_job-inv _ _ _ (exec-Succeeds _ db db1 tt p) in
    subst (λ (t : Tables). IsStored hash now inp db.tables t) (ground (arith, q))
      (store_rest-IsStored hash job_id event_id now inp db.tables db1 db2 free began rest)
inserted-IsStored hash job_id event_id now inp (err e) db db1 db' o p h = absurd (ground (arith, h))

pub next_id-tables :
    (hash : Hash) (kind : String) (now : Time) (n : ℕ) (id : String) (db db' : Db Tables)
    → Succeeds (next_id hash kind now n) db id db'
    → db'.tables ≡ db.tables
unfolding Succeeds next_id
next_id-tables hash kind now n id db db' h = ground (arith, h)

store_new-IsStored :
    (hash : Hash) (now : Time) (inp : ReceiveInput) (db db' : Db Tables) (o : Outcome)
    → Succeeds (store_new hash now inp) db (committed o) db'
    → IsStored hash now inp db.tables db'.tables
unfolding store_new
store_new-IsStored hash now inp db db' o h =
    let inserting : String → Mysql (Result (Unit {0})) =
      λ job_id. attempt (exec (insert_job (received_row hash job_id now inp))) in
    let (job_id, db1, p1, h1) =
      >>=-Succeeds (next_id hash "job" now (now % 10 ^ 9))
        (λ job_id. next_id hash "event" now (now % 10 ^ 9 + 1) >>= λ event_id.
          (inserting job_id >>= after_insert job_id event_id now inp))
        db db' (committed o) h in
    let (event_id, db2, p2, h2) =
      >>=-Succeeds (next_id hash "event" now (now % 10 ^ 9 + 1))
        (λ event_id. inserting job_id >>= after_insert job_id event_id now inp) db1 db'
        (committed o) h1 in
    let (r, db3, p3, h3) =
      >>=-Succeeds (inserting job_id) (after_insert job_id event_id now inp) db2 db' (committed o)
        h2 in
    subst (λ (t : Tables). IsStored hash now inp t db'.tables)
      (next_id-tables hash "event" now (now % 10 ^ 9 + 1) event_id db1 db2 p2
        ∙ next_id-tables hash "job" now (now % 10 ^ 9) job_id db db1 p1)
      (inserted-IsStored hash job_id event_id now inp r db2 db3 db' o
        (attempt-Succeeds (exec (insert_job (received_row hash job_id now inp))) db2 db3 r p3) h3)

full-not_created :
    (hash : Hash) (now : Time) (inp : ReceiveInput) (pending : ℕ) (db db' : Db Tables) (o : Outcome)
    → leb 1000 pending ≡ true
    → ¬ Succeeds (after_count hash now inp pending) db (committed o) db'
unfolding after_count Succeeds
full-not_created hash now inp pending db db' o full h = ground (arith, h)

after_count-IsStored :
    (hash : Hash) (now : Time) (inp : ReceiveInput) (pending : ℕ) (db db' : Db Tables) (o : Outcome)
    → Succeeds (after_count hash now inp pending) db (committed o) db'
    → IsStored hash now inp db.tables db'.tables
unfolding after_count
after_count-IsStored hash now inp pending db db' o h = elim (Bool-cases (leb 1000 pending)) [
  | inl full ↦ absurd (full-not_created hash now inp pending db db' o full h)
  | inr room ↦ store_new-IsStored hash now inp db db' o (ground (arith, h))
]

after_read-IsStored :
    (hash : Hash) (now : Time) (inp : ReceiveInput) (prior : Option Job) (db db' : Db Tables)
    (o : Outcome)
    → Succeeds (after_read hash now inp prior) db (committed o) db'
    → IsStored hash now inp db.tables db'.tables
unfolding after_read create_job Succeeds
after_read-IsStored hash now inp (some job) db db' o h = absurd (ground (arith, h))
after_read-IsStored hash now inp none db db' o h =
    let (pending, db1, p, q) = >>=-Succeeds (query count_backlog) _ db db' (committed o) h in
    let (_, same) = query-Succeeds count_backlog db db1 pending p in
    subst (λ (t : Tables). IsStored hash now inp t db'.tables) same
      (after_count-IsStored hash now inp pending db1 db' o q)

receive_body-IsStored :
    (hash : Hash) (now : Time) (inp : ReceiveInput) (db db' : Db Tables) (o : Outcome)
    → Succeeds (receive_body hash now inp) db (committed o) db'
    → IsStored hash now inp db.tables db'.tables
unfolding receive_body ◌>>◌
receive_body-IsStored hash now inp db db' o h =
    let (_, db1, p1, h1) = >>=-Succeeds _ _ db db' (committed o) h in
    let (prior, db2, p2, h2) = >>=-Succeeds _ _ db1 db' (committed o) h1 in
    let (_, same1) = query-Succeeds _ db db1 tt p1 in
    let (_, same2) = query-Succeeds _ db1 db2 prior p2 in
    subst (λ (t : Tables). IsStored hash now inp t db'.tables) (same2 ∙ same1)
      (after_read-IsStored hash now inp prior db2 db' o h2)

done-IsStored :
    (hash : Hash) (now : Time) (inp : ReceiveInput) (db : Db Tables) (new : Tables)
    → Done (receive_body hash now inp) db.tables new
    → IsStored hash now inp db.tables new
done-IsStored hash now inp db new done =
    subst (λ (t : Tables). IsStored hash now inp t new) done.begins
      (subst (λ (t : Tables). IsStored hash now inp done.start.tables t) (sym done.leaves)
        (receive_body-IsStored hash now inp done.start done.end done.answer done.runs))

-- The transaction of a Receive that changes the tables has stored the delivery as a whole.
pub transaction-IsStored :
    (hash : Hash) (now : Time) (inp : ReceiveInput) (db : Db Tables)
    → ((transaction (receive_body hash now inp) db).1.tables ≡ db.tables)
      ⊎ IsStored hash now inp db.tables (transaction (receive_body hash now inp) db).1.tables
transaction-IsStored hash now inp db = elim (transaction-Done (receive_body hash now inp) db) [
  | inl same ↦ inl same
  | inr done ↦ inr (done-IsStored hash now inp db _ done)
]
