-- ===== src/Service/Persisted.antt =====
-- What the transaction at the end of Runner.Run in internal/service/runner.go leaves behind.
use sql_sentinel.Prelude.{
  ◌≡◌, refl, sym, ap, ◌∙◌, arith, ◌⊎◌, inl, inr, String, Bool, true, false, Option, none, some, ltb,
  length, if◌then◌else◌, Bool-cases,
}
use sql_sentinel.Prelude.Bytes.{Bytes}
use sql_sentinel.Prelude.Assoc.{lookup, insert}
use sql_sentinel.Kafka.Model.{Err, invalid, lease_lost, Time, Result, ok, err}
use sql_sentinel.Kafka.Mysql.Db.{
  Db, ◌>>=◌, ◌>>◌, committed, resume, exec, call, close, commit, transaction, return, raise,
}
use sql_sentinel.Kafka.Mysql.Atomic.{
  calm, Steady, Commits, Reads, resume-Reads, >>=-Steady, >>=-Commits, exec-Steady, return-Steady,
  return-Commits, transaction-atomic, transaction-Steady,
}
use sql_sentinel.Service.RunRewrite.{report_limit}
use sql_sentinel.Service.Persist.{
  count_of, VerifyErr, mysql_error, other_error, is_refusal, insert_prior, Control, is_held,
  store_prior, insert_report, persist_body, conclude_run, persist,
}

counted : (old : Option Bytes) → ltb 0 (count_of old) ≡ true
counted none = refl
counted (some old) = refl

module _ (job_id owner : String) (now : Time) where
  -- The tables with the report, and with the document that is due.
  abbrev pub stored : Bytes → Option (Option Bytes) → Control → Control
  stored raw none t = record t { reports = insert job_id raw t.reports }
  stored raw (some none) t = t
  stored raw (some (some document)) t = record t {
    reports = insert job_id raw t.reports;
    priors = insert job_id document t.priors;
  }

  abbrev pub answer : Option (Option Bytes) → Result (Unit {0})
  answer none = ok tt
  answer (some none) = err (invalid "prior_document_invalid")
  answer (some (some document)) = ok tt

  abbrev pub persisted : Bytes → Option (Option Bytes) → Control → Result (Unit {0}) × Control
  persisted raw prior t =
      if is_held job_id owner now t then (answer prior, stored raw prior t) else (err lease_lost, t)

  persisted-calm :
      (raw : Bytes) (prior : Option (Option Bytes)) (db : Db Control)
      → let x = transaction (persist_body job_id owner now raw prior) (calm db) in
        (x.0 ≡ (persisted raw prior db.tables).0) × (x.1.tables ≡ (persisted raw prior db.tables).1)
  unfolding transaction persist_body ◌>>=◌ ◌>>◌ exec insert_report close commit call
  persisted-calm raw none db = elim (Bool-cases (is_held job_id owner now db.tables)) [
    | inl held ↦ ground (arith, held, counted (lookup job_id db.tables.reports))
    | inr free ↦ ground (arith, free)
  ]
  persisted-calm raw (some none) db = elim (Bool-cases (is_held job_id owner now db.tables)) [
    | inl held ↦ ground (arith, held, counted (lookup job_id db.tables.reports))
    | inr free ↦ ground (arith, free)
  ]
  persisted-calm raw (some (some document)) db =
      elim (Bool-cases (is_held job_id owner now db.tables)) [
        | inl held ↦ ground (arith, held, counted (lookup job_id db.tables.reports))
        | inr free ↦ ground (arith, free)
      ]

  guard-Steady :
      (test : Bool) (e : Err) → Steady {T = Control} (if test then return tt else raise e)
  guard-Steady true e db db' a h = ground (arith, h)
  guard-Steady false e db db' a h = absurd (ground (arith, h))

  store_prior-Steady : (prior : Option (Option Bytes)) → Steady (store_prior job_id prior)
  store_prior-Steady none db db' a h = ground (arith, h)
  store_prior-Steady (some none) db db' a h = absurd (ground (arith, h))
  store_prior-Steady (some (some document)) db db' a h =
      exec-Steady (insert_prior job_id document) db db' a h

  persist_body-Commits :
      (raw : Bytes) (prior : Option (Option Bytes))
      → Commits (persist_body job_id owner now raw prior)
  unfolding persist_body ◌>>◌
  persist_body-Commits raw prior = >>=-Commits _ _ (exec-Steady _) λ n.
      (>>=-Commits _ _ (guard-Steady (ltb 0 n) lease_lost)
        λ _. (>>=-Commits _ _ (store_prior-Steady prior) λ _. (return-Commits tt)))

  persist_body-Steady :
      (raw : Bytes) (prior : Option (Option Bytes))
      → Steady (persist_body job_id owner now raw prior)
  unfolding persist_body ◌>>◌
  persist_body-Steady raw prior = >>=-Steady _ _ (exec-Steady _) λ n.
      (>>=-Steady _ _ (guard-Steady (ltb 0 n) lease_lost)
        λ _. (>>=-Steady _ _ (store_prior-Steady prior) λ _. (return-Steady (committed tt))))

  conclude_run-Reads : (e : Option VerifyErr) → Reads (conclude_run e)
  unfolding conclude_run
  conclude_run-Reads none db = refl
  conclude_run-Reads (some (mysql_error n)) db = ground (arith, is_refusal n)
  conclude_run-Reads (some other_error) db = refl

  conclude_run-ok :
      (e : Option VerifyErr) (db : Db Control) → (conclude_run e db).0 ≡ ok tt → e ≡ none
  unfolding conclude_run
  conclude_run-ok none db h = refl
  conclude_run-ok (some (mysql_error n)) db h = absurd (ground (arith, h, is_refusal n))
  conclude_run-ok (some other_error) db h = absurd (ground (arith, h))

  -- The tables before, or, for a report that is not too large and under the lease, those with the
  -- report and the document.
  abbrev pub IsWhole : Option Bytes → Option (Option Bytes) → Control → Control → Type 0
  IsWhole report prior old new =
      (new ≡ old)
      ⊎ ((raw : Bytes) × (report ≡ some raw)
          × (ltb report_limit (length raw) ≡ false)
          × (is_held job_id owner now old ≡ true)
          × (new ≡ stored raw prior old))

  whole :
      (raw : Bytes) (prior : Option (Option Bytes)) (old new : Control)
      → ltb report_limit (length raw) ≡ false
      → (new ≡ old) ⊎ (new ≡ (persisted raw prior old).1)
      → IsWhole (some raw) prior old new
  whole raw prior old new small (inl same) = inl same
  whole raw prior old new small (inr changed) = elim (Bool-cases (is_held job_id owner now old)) [
    | inl held ↦ inr (raw, refl, small, held, rw held at changed)
    | inr free ↦ inl (rw free at changed)
  ]

  pub persist-IsWhole :
      (report : Option Bytes) (prior : Option (Option Bytes)) (e : Option VerifyErr)
      (db : Db Control)
      → IsWhole report prior db.tables (persist job_id owner now report prior e db).1.tables
  unfolding persist ◌>>◌ ◌>>=◌
  persist-IsWhole none prior e db = inl refl
  persist-IsWhole (some raw) prior e db = elim (Bool-cases (ltb report_limit (length raw))) [
    | inl large ↦ inl (ground (arith, large))
    | inr small ↦
        let body = persist_body job_id owner now raw prior in
        let run = transaction body >>= λ _. conclude_run e in
        let after : (run db).1.tables ≡ (transaction body db).1.tables =
          resume-Reads (λ (_ : Unit {0}). conclude_run e) (transaction body db)
            (λ _. conclude_run-Reads e) in
        let cases : ((run db).1.tables ≡ db.tables)
            ⊎ ((run db).1.tables ≡ (persisted raw prior db.tables).1) =
          ground (
            arith,
            after,
            transaction-atomic body db (persist_body-Commits raw prior),
            (persisted-calm raw prior db).1,
          ) in
        rw small (whole raw prior db.tables (run db).1.tables small cases)
  ]

  -- What stands behind an answer without an error.
  abbrev pub IsRecorded :
      Option Bytes → Option (Option Bytes) → Option VerifyErr → Control → Control → Type 0
  IsRecorded report prior e old new =
      (e ≡ none)
      × (answer prior ≡ ok tt)
      × ((raw : Bytes) × (report ≡ some raw)
          × (ltb report_limit (length raw) ≡ false)
          × (is_held job_id owner now old ≡ true)
          × (new ≡ stored raw prior old))

  recorded :
      (raw : Bytes) (prior : Option (Option Bytes)) (e : Option VerifyErr) (old new : Control)
      → e ≡ none
      → ltb report_limit (length raw) ≡ false
      → ok tt ≡ (persisted raw prior old).0
      → new ≡ (persisted raw prior old).1
      → IsRecorded (some raw) prior e old new
  recorded raw prior e old new none_left small done changed =
      elim (Bool-cases (is_held job_id owner now old)) [
        | inl held ↦
            (none_left, sym (rw held at done), (raw, refl, small, held, rw held at changed))
        | inr free ↦ absurd (ground (arith, (rw free at done)))
      ]

  ran :
      (raw : Bytes) (prior : Option (Option Bytes)) (e : Option VerifyErr) (db : Db Control)
      (x : Result (Unit {0}) × Db Control)
      → ltb report_limit (length raw) ≡ false
      → transaction (persist_body job_id owner now raw prior) db ≡ x
      → (resume (λ _. conclude_run e) x).0 ≡ ok tt
      → IsRecorded (some raw) prior e db.tables (resume (λ _. conclude_run e) x).1.tables
  ran raw prior e db (err f, t) small p h = absurd (ground (arith, h))
  ran raw prior e db (ok tt, t) small p h =
      let body = persist_body job_id owner now raw prior in
      let calmly = transaction-Steady body (persist_body-Steady raw prior) db t tt p in
      let (done, changed) = persisted-calm raw prior db in
      recorded raw prior e db.tables (conclude_run e t).1.tables (conclude_run-ok e t h) small
        (sym (ap (λ y. y.0) calmly) ∙ done)
        (conclude_run-Reads e t ∙ sym (ap (λ y. y.1.tables) calmly) ∙ changed)

  pub persist-IsRecorded :
      (report : Option Bytes) (prior : Option (Option Bytes)) (e : Option VerifyErr)
      (db : Db Control)
      → (persist job_id owner now report prior e db).0 ≡ ok tt
      → IsRecorded report prior e db.tables (persist job_id owner now report prior e db).1.tables
  unfolding persist ◌>>◌ ◌>>=◌
  persist-IsRecorded none prior e db h = absurd (ground (arith, h))
  persist-IsRecorded (some raw) prior e db h = elim (Bool-cases (ltb report_limit (length raw))) [
    | inl large ↦ absurd (ground (arith, (rw large at h)))
    | inr small ↦ rw small (
        ran raw prior e db (transaction (persist_body job_id owner now raw prior) db) small refl
          (rw small at h))
  ]
