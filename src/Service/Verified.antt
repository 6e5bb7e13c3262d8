-- ===== src/Service/Verified.antt =====
-- What Runner.Run of internal/service/runner.go has checked when it returns nil, and what any run of it
-- changes.
use sql_sentinel.Prelude.{
  ◌≡◌, refl, sym, subst, arith, ◌⊎◌, inl, inr, true, false, Option, none, some, List, Bool-cases,
}
use sql_sentinel.Prelude.Bytes.{Bytes}
use sql_sentinel.Kafka.Model.{Err, Time, ok, Job}
use sql_sentinel.Kafka.Mysql.Db.{Db, ◌>>◌}
use sql_sentinel.Candidate.{Spec}
use sql_sentinel.SqlAdmit.Decision.{admit}
use sql_sentinel.ShadowGate.{PrepareErr, Prepared, objection, prepare}
use sql_sentinel.ShadowGate.Prepare.{IsChecked, prepare-IsChecked}
use sql_sentinel.Service.Persist.{Control, VerifyErr}
use sql_sentinel.Service.Approved.{
  then-ok, IsApproved, check_approval-Reads, check_approval-IsApproved,
}
use sql_sentinel.Service.Persisted.{IsRecorded, persist-IsRecorded}
use sql_sentinel.Service.RunJob.{
  JobRunner, check_approval, are_allowed, named_for, prior_of, report_verified, verify_prepared,
  verify_decoded, verify_spec, given_spec, run_tables, is_too_large, verify_job,
}

module _ {V : Type 0} (r : JobRunner V) (now : Time) where
  -- The verification of the specification ended without an error, and its report is in the tables.
  abbrev pub IsVerified : Job → Spec → Control → Control → Type 0
  IsVerified job spec old new =
      let named = named_for r now job spec in
      (v : V) × (r.verifier.verify named job.options.benchmark ≡ inr (v, none))
      × IsRecorded job.id job.lease_owner now (r.verifier.marshal named v)
          (prior_of r now named v none) none old new

  -- The statement and a specification passed their admissions, and that one was verified.
  abbrev pub IsAccepted : Job → Control → Control → Type 0
  IsAccepted job old new =
      (spec : Spec) × ((p : Prepared) × IsChecked r.unicode r.inspect r.equal_fold (r.raw job.sql)
          spec p)
      × IsVerified job spec old new

  report_verified-IsVerified :
      (job : Job) (spec : Spec) (x : Err ⊎ (V × Option VerifyErr)) (db : Db Control)
      → r.verifier.verify (named_for r now job spec) job.options.benchmark ≡ x
      → (report_verified r now job (named_for r now job spec) x db).0 ≡ ok tt
      → IsVerified job spec db.tables
          (report_verified r now job (named_for r now job spec) x db).1.tables
  report_verified-IsVerified job spec (inl e) db p h = absurd (ground (arith, h))
  report_verified-IsVerified job spec (inr (v, none)) db p h =
      let named = named_for r now job spec in
      (
        v,
        p,
        persist-IsRecorded job.id job.lease_owner now (r.verifier.marshal named v)
            (prior_of r now named v none) none db h,
      )
  report_verified-IsVerified job spec (inr (v, some e)) db p h =
      let named = named_for r now job spec in
      absurd (
        ground (
          arith,
          (persist-IsRecorded job.id job.lease_owner now (r.verifier.marshal named v)
              (prior_of r now named v (some e)) (some e) db h).0,
        ))

  verify_prepared-IsAccepted :
      (job : Job) (spec : Spec) (x : PrepareErr ⊎ Prepared) (db : Db Control)
      → prepare r.unicode r.inspect r.equal_fold (r.raw job.sql) spec ≡ x
      → (verify_prepared r now job spec x db).0 ≡ ok tt
      → IsAccepted job db.tables (verify_prepared r now job spec x db).1.tables
  verify_prepared-IsAccepted job spec (inl e) db p h = absurd (ground (arith, h))
  verify_prepared-IsAccepted job spec (inr checked) db p h = (
    spec,
    (checked, prepare-IsChecked r.unicode r.inspect r.equal_fold (r.raw job.sql) spec checked p),
    report_verified-IsVerified job spec
        (r.verifier.verify (named_for r now job spec) job.options.benchmark) db refl h,
  )

  verify_decoded-IsAccepted :
      (job : Job) (x : Option Spec) (db : Db Control)
      → (verify_decoded r now job x db).0 ≡ ok tt
      → IsAccepted job db.tables (verify_decoded r now job x db).1.tables
  verify_decoded-IsAccepted job none db h = absurd (ground (arith, h))
  verify_decoded-IsAccepted job (some spec) db h =
      verify_prepared-IsAccepted job spec
        (prepare r.unicode r.inspect r.equal_fold (r.raw job.sql) spec) db refl h

  verify_spec-IsAccepted :
      (job : Job) (x : Err ⊎ Bytes) (db : Db Control)
      → (verify_spec r now job x db).0 ≡ ok tt
      → IsAccepted job db.tables (verify_spec r now job x db).1.tables
  verify_spec-IsAccepted job (inl e) db h = absurd (ground (arith, h))
  verify_spec-IsAccepted job (inr text) db h =
      verify_decoded-IsAccepted job (r.decode_strict text) db h

  run_tables-IsAccepted :
      (job : Job) (x : Bytes ⊎ List Bytes) (db : Db Control)
      → r.is_rewrite (r.raw job.candidate_spec) ≡ false
      → (run_tables r now job x db).0 ≡ ok tt
      → ((tables : List Bytes) × (x ≡ inr tables) × (are_allowed r.allowed tables ≡ true))
        × IsApproved job db.tables
        × IsAccepted job db.tables (run_tables r now job x db).1.tables
  run_tables-IsAccepted job (inl e) db index h = absurd (ground (arith, h))
  run_tables-IsAccepted job (inr tables) db index h =
      elim (Bool-cases (are_allowed r.allowed tables)) [
        | inr foreign ↦ absurd (ground (arith, (rw foreign at h)))
        | inl own ↦
            let k = verify_spec r now job (given_spec r now job) in
            let h' : ((check_approval job >> k) db).0 ≡ ok tt = rw (own, index) at h in
            let (t, same, checked, rest, whole) =
              then-ok (check_approval job) k db (check_approval-Reads job) h' in
            let accepted = verify_spec-IsAccepted job (given_spec r now job) t rest in
            (
              (tables, refl, own),
              check_approval-IsApproved job db checked,
              rw (own, index)
                  (subst (λ y. IsAccepted job db.tables y.1.tables) (sym whole)
                    (subst (λ old. IsAccepted job old (k t).1.tables) same accepted)),
            )
      ]

  -- When Run returns nil for a specification that is no rewrite, whatever calls of the control database
  -- failed: the statement reads a table at least, and only ones that AllowedTables holds where it is not
  -- nil; for a benchmark, the approval of the job's own report, specification and statement stands in
  -- the table; the statement is read only, and the specification is safe and about a table of the
  -- statement; the verification of that specification, with the index named for the job, had no error;
  -- and its report, of at most the limit, was stored with the document that is due, while the job's
  -- lease ran.
  pub verify_job-IsAccepted :
      (job : Job) (db : Db Control)
      → r.is_rewrite (r.raw job.candidate_spec) ≡ false
      → (verify_job r now job db).0 ≡ ok tt
      → ((tables : List Bytes) × (r.inspect (r.raw job.sql) ≡ inr tables)
          × (are_allowed r.allowed tables ≡ true))
        × IsApproved job db.tables
        × IsAccepted job db.tables (verify_job r now job db).1.tables
  unfolding verify_job
  verify_job-IsAccepted job db index h =
      let admission =
        admit r.unicode (λ s. objection r.unicode r.inspect r.equal_fold (r.inspect s))
          (r.raw job.sql) in
      elim (Bool-cases (is_too_large r now job)) [
        | inl large ↦ absurd (ground (arith, (rw large at h)))
        | inr small ↦ elim (Bool-cases (admission.accepted)) [
          | inr refused ↦ absurd (ground (arith, (rw (small, refused) at h)))
          | inl admitted ↦
              rw (small, admitted)
                (run_tables-IsAccepted job (r.inspect (r.raw job.sql)) db index
                  (rw (small, admitted) at h))
        ]
      ]
