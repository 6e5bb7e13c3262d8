-- ===== src/Service/Persist.antt =====
-- The end of Runner.Run in internal/service/runner.go: the report, and the document of the prior, go
-- into the control database in one transaction, and the error of the verification becomes the answer.
use sql_sentinel.Prelude.{
  ℕ, String, Bool, false, Option, none, some, [], ◌∷◌, any, length, ltb, ◌==◌, if◌then◌else◌,
}
use sql_sentinel.Prelude.Bytes.{Bytes}
use sql_sentinel.Prelude.Assoc.{Assoc, lookup, insert}
use sql_sentinel.Kafka.Model.{invalid, input_rejected, lease_lost, Time, Result, ok}
use sql_sentinel.Kafka.Mysql.Db.{
  Sql, Ending, committed, ◌>>=◌, ◌>>◌, return, raise, exec, transaction,
}
use sql_sentinel.Kafka.Mysql.Rows.{Tables, JobRow}
use sql_sentinel.Kafka.Mysql.Lease.{is_leased}
use sql_sentinel.Service.RunRewrite.{report_limit}

pub record Approval : Type 0 where
  pub decision : String
  pub report_sha256 : String
  pub candidate_sha256 : String
  pub sql_sha256 : String

-- The control database: the tables of the queue, and those of the service that Run uses.
pub record Control : Type 0 where
  pub queue : Tables
  pub approvals : Assoc Approval
  pub reports : Assoc Bytes
  pub priors : Assoc Bytes

-- The error of the pipeline: one of MySQL with its number, or another one.
pub data VerifyErr : Type 0 where
  mysql_error : ℕ → VerifyErr
  other_error : VerifyErr

abbrev row_leased : String → Time → Option JobRow → Bool
row_leased owner now none = false
row_leased owner now (some r) = is_leased owner now r

-- The SELECT finds the job RUNNING under the lease of its owner.
unfoldable pub is_held : String → String → Time → Control → Bool
unfolding is_leased
is_held job_id owner now t = row_leased owner now (lookup job_id t.queue.jobs)

-- MySQL counts a row that it replaces twice; created_at is new in it.
abbrev pub count_of : Option Bytes → ℕ
count_of none = 1
count_of (some old) = 2

-- INSERT … SELECT … ON DUPLICATE KEY UPDATE
unfoldable pub insert_report : String → String → Time → Bytes → Control → Result ℕ × Control
unfolding is_held
insert_report job_id owner now raw t =
    if is_held job_id owner now t
    then (
      ok (count_of (lookup job_id t.reports)),
      record t { reports = insert job_id raw t.reports },
    )
    else (ok 0, t)

abbrev pub insert_prior : String → Bytes → Control → Result (Unit {0}) × Control
insert_prior job_id document t = (ok tt, record t { priors = insert job_id document t.priors })

-- `none` where no document is due, `some none` for one that is not valid.
abbrev pub store_prior : String → Option (Option Bytes) → Sql Control (Unit {0})
store_prior job_id none = return tt
store_prior job_id (some none) = raise (invalid "prior_document_invalid")
store_prior job_id (some (some document)) = exec (insert_prior job_id document)

unfoldable pub persist_body :
    String → String → Time → Bytes → Option (Option Bytes) → Sql Control (Ending (Unit {0}))
unfolding ◌>>=◌ ◌>>◌ exec insert_report
persist_body job_id owner now raw prior = do
  n ← exec (insert_report job_id owner now raw)
  if ltb 0 n then return tt else raise lease_lost
  store_prior job_id prior
  return (committed tt)

-- The errors of a statement that the database refuses.
abbrev pub is_refusal : ℕ → Bool
is_refusal n = any (λ k. k == n) (1064 ∷ (1054 ∷ (1146 ∷ (1052 ∷ (1222 ∷ [])))))

unfoldable pub conclude_run : Option VerifyErr → Sql Control (Unit {0})
conclude_run none = return tt
conclude_run (some (mysql_error n)) =
    if is_refusal n then raise input_rejected else raise (invalid "shadow_pipeline_failed")
conclude_run (some other_error) = raise (invalid "shadow_pipeline_failed")

-- `none` is an error of json.Marshal.
unfoldable pub persist :
    String
    → String
    → Time
    → Option Bytes
    → Option (Option Bytes)
    → Option VerifyErr
    → Sql Control (Unit {0})
unfolding ◌>>◌ transaction persist_body conclude_run
persist job_id owner now none prior run_err = raise (invalid "report_not_marshalled")
persist job_id owner now (some raw) prior run_err =
    if ltb report_limit (length raw)
    then raise (invalid "report_too_large")
    else transaction (persist_body job_id owner now raw prior) >> conclude_run run_err
