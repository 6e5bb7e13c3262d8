-- ===== src/Kafka/Mysql/Atomic/Events.antt =====
-- The events of RecoverExpired of internal/kafka/recovery.go, one after the other, and its transaction.
use sql_sentinel.Prelude.{
  length, ℕ, ◌+◌, String, none, some, List, [], ◌∷◌, ◌++◌, ◌≡◌, refl, ◌⊎◌, inl, inr, arith, ap, sym,
  subst, ◌∙◌, All,
}
use sql_sentinel.Prelude.Int.{ℤ, pos}
use sql_sentinel.Prelude.Assoc.{lookup, insert, lookup-insert, lookup-insert_same}
use sql_sentinel.Kafka.Model.{Hash, Time, ok}
use sql_sentinel.Kafka.Event.{Event}
use sql_sentinel.Kafka.Mysql.Db.{query, Db, committed, ◌>>=◌, ◌>>◌, return, transaction}
use sql_sentinel.Kafka.Mysql.Rows.{Tables, JobRow}
use sql_sentinel.Kafka.Mysql.Lease.{next_id}
use sql_sentinel.Kafka.Mysql.Recover.{
  recovered_row, recover_event, recover_events, name_events, recover_body, select_lost,
}
use sql_sentinel.Kafka.Mysql.Atomic.Effects.{
  Succeeds, query-Succeeds, >>=-Succeeds, Done, transaction-Done,
}
use sql_sentinel.Kafka.Mysql.Atomic.Stored.{next_id-tables}
use sql_sentinel.Kafka.Mysql.Atomic.Recovered.{
  IsPutBack, IsRecovered, Recovers, none_or_some, some_inj, recovered-IsPutBack, recovery_history,
  recover_event-Recovers, step-IsRecovered,
}

events-IsRecovered :
    (now : Time) (events : List Event) (job_id delivery_id : String) (attempt : ℤ)
    (db db' : Db Tables)
    → Succeeds (recover_events now events) db tt db'
    → IsRecovered now job_id delivery_id attempt db.tables
    → IsRecovered now job_id delivery_id attempt db'.tables
unfolding recover_events ◌>>◌ Succeeds
events-IsRecovered now [] job_id delivery_id attempt db db' h held =
    let same : db.tables ≡ db'.tables = ground (arith, h) in
    subst (IsRecovered now job_id delivery_id attempt) same held
events-IsRecovered now (event ∷ events) job_id delivery_id attempt db db' h held =
    let (_, d1, p, q) =
      >>=-Succeeds (recover_event now event) (λ _. recover_events now events) db db' tt h in
    events-IsRecovered now events job_id delivery_id attempt d1 db' q (
      step-IsRecovered now event job_id delivery_id attempt db.tables d1.tables
        (recover_event-Recovers now event db d1 p) held)

-- No row of the jobs goes.
step-keeps :
    (now : Time) (event : Event) (id : String) (t t' : Tables)
    → Recovers now event t t'
    → lookup id t'.jobs ≡ none
    → lookup id t.jobs ≡ none
step-keeps now event id t t' step h = elim (step.jobs) [
  | inl (same, _) ↦ ap (lookup id) (sym same) ∙ h
  | inr (old, put) ↦
      let gone : lookup id (insert event.job_id (recovered_row now old) t.jobs) ≡ none =
        ap (lookup id) (sym put) ∙ h in
      ground (arith, gone, lookup-insert event.job_id id (recovered_row now old) t.jobs)
]

events-keep :
    (now : Time) (events : List Event) (id : String) (db db' : Db Tables)
    → Succeeds (recover_events now events) db tt db'
    → lookup id db'.tables.jobs ≡ none
    → lookup id db.tables.jobs ≡ none
unfolding recover_events ◌>>◌ Succeeds
events-keep now [] id db db' h gone =
    let same : db' ≡ db = ground (arith, h) in
    ap (λ (x : Db Tables). lookup id x.tables.jobs) (sym same) ∙ gone
events-keep now (event ∷ events) id db db' h gone =
    let (_, d1, p, q) =
      >>=-Succeeds (recover_event now event) (λ _. recover_events now events) db db' tt h in
    step-keeps now event id db.tables d1.tables (recover_event-Recovers now event db d1 p)
      (events-keep now events id d1 db' q gone)

-- The events of the rows, in their order.
abbrev AreNamed : List JobRow → List Event → Type 0
AreNamed [] [] = Unit
AreNamed (r ∷ rows) (event ∷ events) =
    (event.schema_version ≡ pos 1)
    × (event.job_id ≡ r.job_id)
    × (event.delivery_id ≡ r.delivery_id)
    × (event.attempt ≡ pos (r.attempts + 1))
    × AreNamed rows events
AreNamed _ _ = ⊥

first-IsRecovered :
    (now : Time) (r : JobRow) (event : Event) (t t' : Tables)
    → event.schema_version ≡ pos 1
    → event.job_id ≡ r.job_id
    → event.delivery_id ≡ r.delivery_id
    → event.attempt ≡ pos (r.attempts + 1)
    → Recovers now event t t'
    → IsRecovered now r.job_id r.delivery_id (pos (r.attempts + 1)) t'
first-IsRecovered now r event t t' version job delivery attempt step = record {
  job = λ row h. elim (step.jobs) [
    | inl (same, missing) ↦ absurd (
        none_or_some _
          (sym missing ∙ ap (λ id. lookup id t.jobs) job ∙ ap (lookup r.job_id) (sym same) ∙ h))
    | inr (old, put) ↦
        subst (IsPutBack now)
          (some_inj (
            sym (lookup-insert_same event.job_id (recovered_row now old) t.jobs)
            ∙ ap (lookup event.job_id) (sym put)
            ∙ ap (λ id. lookup id t'.jobs) job
            ∙ h))
          (recovered-IsPutBack now old)
  ];
  older = t.history;
  newer = [];
  history = step.history ∙ ap (λ id. t.history ++ recovery_history now id ∷ []) job;
  event_id = event.event_id;
  payload = step.payload;
  event_encodes = ground (arith, step.encodes, version, job, delivery, attempt);
  event =
      ap (lookup event.event_id) step.outbox
      ∙ lookup-insert_same event.event_id _ t.outbox
      ∙ ap
          (λ id. some (record {
            event_id = event.event_id;
            job_id = id;
            topic = "sql-sentinel.jobs";
            payload = step.payload;
            attempts = 0;
            available_at = now;
            published_at = none;
            last_error = "";
            created_at = now;
          }))
          job;
}

events-AllRecovered :
    (now : Time) (rows : List JobRow) (events : List Event) (db db' : Db Tables)
    → AreNamed rows events
    → Succeeds (recover_events now events) db tt db'
    → All
        (λ (r : JobRow). IsRecovered now r.job_id r.delivery_id (pos (r.attempts + 1)) db'.tables)
        rows
unfolding recover_events ◌>>◌
events-AllRecovered now [] [] db db' named h = tt
events-AllRecovered now (r ∷ rows) (event ∷ events) db db' (version, job, delivery, attempt, named)
      h =
    let (_, d1, p, q) =
      >>=-Succeeds (recover_event now event) (λ _. recover_events now events) db db' tt h in
    (
      events-IsRecovered now events r.job_id r.delivery_id (pos (r.attempts + 1)) d1 db' q (
          first-IsRecovered now r event db.tables d1.tables version job delivery attempt
            (recover_event-Recovers now event db d1 p)),
      events-AllRecovered now rows events d1 db' named q,
    )
events-AllRecovered now [] (event ∷ events) db db' named h = absurd named
events-AllRecovered now (r ∷ rows) [] db db' named h = absurd named

name_events-AreNamed :
    (hash : Hash) (now : Time) (rows : List JobRow) (events : List Event) (db db' : Db Tables)
    → Succeeds (name_events hash now rows) db events db'
    → AreNamed rows events × (db'.tables ≡ db.tables)
unfolding name_events Succeeds
name_events-AreNamed hash now [] events db db' h =
    let none_named : [] ≡ events = ground (arith, h) in
    (subst (AreNamed []) none_named tt, ground (arith, h))
name_events-AreNamed hash now (r ∷ rows) events db db' h =
    let named : String → Event = λ event_id. record {
      schema_version = pos 1;
      event_id = event_id;
      job_id = r.job_id;
      delivery_id = r.delivery_id;
      attempt = pos (r.attempts + 1);
    } in
    let (event_id, d1, p1, h1) =
      >>=-Succeeds (next_id hash "recovery" now r.attempts)
        (λ event_id. name_events hash now rows >>= λ rest. return (named event_id ∷ rest)) db db'
        events h in
    let (rest, d2, p2, h2) =
      >>=-Succeeds (name_events hash now rows) (λ rest. return (named event_id ∷ rest)) d1 db'
        events h1 in
    let (are_named, same) = name_events-AreNamed hash now rows rest d1 d2 p2 in
    let all_named : named event_id ∷ rest ≡ events = ground (arith, h2) in
    let ends : d2 ≡ db' = ground (arith, h2) in
    (
      subst (AreNamed (r ∷ rows)) all_named (refl, refl, refl, refl, are_named),
      ap (λ (x : Db Tables). x.tables) (sym ends)
          ∙ same
          ∙ next_id-tables hash "recovery" now r.attempts event_id db d1 p1,
    )

-- RecoverExpired has recovered every job that it selected, and keeps every row of the jobs.
pub record AllRecovered (now : Time) (limit : ℤ) (old new : Tables) : Type 0 where
  pub rows : List JobRow
  pub selected : select_lost now limit old ≡ ok rows
  pub kept : (id : String) → lookup id new.jobs ≡ none → lookup id old.jobs ≡ none
  pub recovered :
      All (λ (r : JobRow). IsRecovered now r.job_id r.delivery_id (pos (r.attempts + 1)) new) rows

recover_body-AllRecovered :
    (hash : Hash) (now : Time) (limit : ℤ) (db db' : Db Tables) (n : ℕ)
    → Succeeds (recover_body hash now limit) db (committed n) db'
    → AllRecovered now limit db.tables db'.tables
unfolding recover_body ◌>>◌ Succeeds
recover_body-AllRecovered hash now limit db db' n h =
    let (rows, d1, p1, h1) =
      >>=-Succeeds (query (select_lost now limit))
        (λ rows. name_events hash now rows >>= λ events.
          (recover_events now events >>= λ _. return (committed (length events))))
        db db' (committed n) h in
    let (events, d2, p2, h2) =
      >>=-Succeeds (name_events hash now rows)
        (λ events. recover_events now events >>= λ _. return (committed (length events))) d1 db'
        (committed n) h1 in
    let (_, d3, p3, h3) =
      >>=-Succeeds (recover_events now events) (λ _. return (committed (length events))) d2 db'
        (committed n) h2 in
    let (selected, same) = query-Succeeds (select_lost now limit) db d1 rows p1 in
    let (named, unnamed) = name_events-AreNamed hash now rows events d1 d2 p2 in
    let ends : d3 ≡ db' = ground (arith, h3) in
    record {
      rows = rows;
      selected = selected;
      kept = λ id gone.
          ap (λ (t : Tables). lookup id t.jobs) (sym (unnamed ∙ same))
          ∙ events-keep now events id d2 d3 p3
              (ap (λ (x : Db Tables). lookup id x.tables.jobs) ends ∙ gone);
      recovered =
          subst
            (λ (x : Db Tables).
              All
                (λ (r : JobRow).
                  IsRecovered now r.job_id r.delivery_id (pos (r.attempts + 1)) x.tables)
                rows)
            ends (events-AllRecovered now rows events d2 d3 named p3);
    }

done-AllRecovered :
    (hash : Hash) (now : Time) (limit : ℤ) (db : Db Tables) (new : Tables)
    → Done (recover_body hash now limit) db.tables new
    → AllRecovered now limit db.tables new
done-AllRecovered hash now limit db new done =
    subst (λ (t : Tables). AllRecovered now limit t new) done.begins
      (subst (λ (t : Tables). AllRecovered now limit done.start.tables t) (sym done.leaves)
        (recover_body-AllRecovered hash now limit done.start done.end done.answer done.runs))

-- The transaction of RecoverExpired leaves the tables, or has recovered what it selected.
pub transaction-AllRecovered :
    (hash : Hash) (now : Time) (limit : ℤ) (db : Db Tables)
    → ((transaction (recover_body hash now limit) db).1.tables ≡ db.tables)
      ⊎ AllRecovered now limit db.tables (transaction (recover_body hash now limit) db).1.tables
transaction-AllRecovered hash now limit db =
    elim (transaction-Done (recover_body hash now limit) db) [
      | inl same ↦ inl same
      | inr done ↦ inr (done-AllRecovered hash now limit db _ done)
    ]
