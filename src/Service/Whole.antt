-- ===== src/Service/Whole.antt =====
-- What a run of Runner.Run in internal/service/runner.go changes, whatever its answer is.
use sql_sentinel.Prelude.{
  ◌≡◌, refl, sym, ap, ◌∙◌, subst, ◌⊎◌, inl, inr, false, Option, none, some, List, Bool-cases,
}
use sql_sentinel.Prelude.Bytes.{Bytes}
use sql_sentinel.Kafka.Model.{Err, Time, Result, ok, err, Job}
use sql_sentinel.Kafka.Mysql.Db.{Db, Sql, ◌>>=◌, ◌>>◌, resume}
use sql_sentinel.Kafka.Mysql.Atomic.{Reads}
use sql_sentinel.Candidate.{Spec}
use sql_sentinel.SqlAdmit.Decision.{admit}
use sql_sentinel.ShadowGate.{PrepareErr, Prepared, objection, prepare}
use sql_sentinel.Service.Persist.{Control, VerifyErr}
use sql_sentinel.Service.Approved.{check_approval-Reads}
use sql_sentinel.Service.Persisted.{IsWhole, persist-IsWhole}
use sql_sentinel.Service.RunJob.{
  JobRunner, check_approval, are_allowed, named_for, prior_of, report_verified, verify_prepared,
  verify_decoded, verify_spec, given_spec, run_tables, is_too_large, verify_job,
}

-- Two programs, where the first one only reads.
then-tables :
    (m k : Sql Control (Unit {0})) (db : Db Control)
    → Reads m
    → (((m >> k) db).1.tables ≡ db.tables)
      ⊎ ((t : Db Control) × (t.tables ≡ db.tables) × ((m >> k) db ≡ k t))
unfolding ◌>>◌ ◌>>=◌
then-tables m k db reads = go (m db) refl
  where
    go :
        (x : Result (Unit {0}) × Db Control)
        → m db ≡ x
        → ((resume (λ _. k) x).1.tables ≡ db.tables)
          ⊎ ((t : Db Control) × (t.tables ≡ db.tables) × (resume (λ _. k) x ≡ k t))
    go (ok tt, t) p = inr (t, ap (λ y. y.1.tables) (sym p) ∙ reads db, refl)
    go (err e, t) p = inl (ap (λ y. y.1.tables) (sym p) ∙ reads db)

module _ {V : Type 0} (r : JobRunner V) (now : Time) where
  -- Nothing changed, or the report of a verification was stored as a whole.
  abbrev pub IsReported : Job → Control → Control → Type 0
  IsReported job old new =
      (new ≡ old)
      ⊎ ((spec : Spec) × (v : V) × (e : Option VerifyErr) × (r.verifier.verify
              (named_for r now job spec) job.options.benchmark
            ≡ inr (v, e))
          × IsWhole job.id job.lease_owner now (r.verifier.marshal (named_for r now job spec) v)
              (prior_of r now (named_for r now job spec) v e) old new)

  report_verified-IsReported :
      (job : Job) (spec : Spec) (x : Err ⊎ (V × Option VerifyErr)) (db : Db Control)
      → r.verifier.verify (named_for r now job spec) job.options.benchmark ≡ x
      → IsReported job db.tables
          (report_verified r now job (named_for r now job spec) x db).1.tables
  report_verified-IsReported job spec (inl e) db p = inl refl
  report_verified-IsReported job spec (inr (v, e)) db p =
      let named = named_for r now job spec in
      inr (
        spec,
        v,
        e,
        p,
        persist-IsWhole job.id job.lease_owner now (r.verifier.marshal named v)
            (prior_of r now named v e) e db,
      )

  verify_prepared-IsReported :
      (job : Job) (spec : Spec) (x : PrepareErr ⊎ Prepared) (db : Db Control)
      → IsReported job db.tables (verify_prepared r now job spec x db).1.tables
  verify_prepared-IsReported job spec (inl e) db = inl refl
  verify_prepared-IsReported job spec (inr checked) db =
      report_verified-IsReported job spec
        (r.verifier.verify (named_for r now job spec) job.options.benchmark) db refl

  verify_decoded-IsReported :
      (job : Job) (x : Option Spec) (db : Db Control)
      → IsReported job db.tables (verify_decoded r now job x db).1.tables
  verify_decoded-IsReported job none db = inl refl
  verify_decoded-IsReported job (some spec) db =
      verify_prepared-IsReported job spec
        (prepare r.unicode r.inspect r.equal_fold (r.raw job.sql) spec) db

  verify_spec-IsReported :
      (job : Job) (x : Err ⊎ Bytes) (db : Db Control)
      → IsReported job db.tables (verify_spec r now job x db).1.tables
  verify_spec-IsReported job (inl e) db = inl refl
  verify_spec-IsReported job (inr text) db = verify_decoded-IsReported job (r.decode_strict text) db

  run_tables-IsReported :
      (job : Job) (x : Bytes ⊎ List Bytes) (db : Db Control)
      → r.is_rewrite (r.raw job.candidate_spec) ≡ false
      → IsReported job db.tables (run_tables r now job x db).1.tables
  run_tables-IsReported job (inl e) db index = inl refl
  run_tables-IsReported job (inr tables) db index =
      elim (Bool-cases (are_allowed r.allowed tables)) [
        | inr foreign ↦ rw foreign (inl refl)
        | inl own ↦
            let k = verify_spec r now job (given_spec r now job) in
            rw (own, index)
              (elim (then-tables (check_approval job) k db (check_approval-Reads job)) [
                | inl same ↦ inl same
                | inr (t, same, ran) ↦
                    subst (λ y. IsReported job db.tables y.1.tables) (sym ran)
                      (subst (λ old. IsReported job old (k t).1.tables) same
                        (verify_spec-IsReported job (given_spec r now job) t))
              ])
      ]

  -- A run for a specification that is no rewrite, whatever its answer is and whatever calls of the
  -- control database failed: it changes nothing there, or it stores one report of at most the limit,
  -- that of the verification, together with the document that is due, while the job's lease runs.
  pub verify_job-IsReported :
      (job : Job) (db : Db Control)
      → r.is_rewrite (r.raw job.candidate_spec) ≡ false
      → IsReported job db.tables (verify_job r now job db).1.tables
  unfolding verify_job
  verify_job-IsReported job db index =
      let admission =
        admit r.unicode (λ s. objection r.unicode r.inspect r.equal_fold (r.inspect s))
          (r.raw job.sql) in
      elim (Bool-cases (is_too_large r now job)) [
        | inl large ↦ rw large (inl refl)
        | inr small ↦ elim (Bool-cases (admission.accepted)) [
          | inr refused ↦ rw (small, refused) (inl refl)
          | inl admitted ↦
              rw (small, admitted) (run_tables-IsReported job (r.inspect (r.raw job.sql)) db index)
        ]
      ]
