-- ===== src/Samples/Runs.antt =====
-- Runner.Run of internal/service/runner.go on a job that asks the model for a specification, for an
-- approved benchmark.
use sql_sentinel.Prelude.{
  ◌≡◌, refl, String, Bool, true, false, Option, none, some, ◌⊎◌, inl, inr, List, [], ◌∷◌, length,
}
use sql_sentinel.Prelude.Bytes.{Bytes, bytes, bytes_eq}
use sql_sentinel.Kafka.Model.{Job, running, ok, lease_lost, err}
use sql_sentinel.Kafka.Mysql.Db.{Db, Fault, lost, raise}
use sql_sentinel.Kafka.Mysql.Rows.{empty_tables}
use sql_sentinel.Candidate.{Spec}
use sql_sentinel.Service.Persist.{Approval, Control}
use sql_sentinel.Service.RunJob.{JobRunner, verify_job, are_allowed}
use sql_sentinel.Service.Verified.{IsAccepted, verify_job-IsAccepted}
use sql_sentinel.Service.Approved.{IsApproved}
use sql_sentinel.Service.Whole.{IsReported, verify_job-IsReported}
use sql_sentinel.Samples.Tables.{row}
use sql_sentinel.Samples.Jobs.{job}

abbrev id : String
id = "0123456789abcdef01234567"

abbrev spec : Spec
spec = record {
  table = bytes "orders";
  index_name = bytes "idx_cand_user";
  columns = record { name = bytes "user_id"; direction = [] } ∷ [];
}

abbrev runner : JobRunner (Unit {0})
runner = record {
  raw = bytes;
  unicode = λ s. s;
  inspect = λ s. inr (bytes "orders" ∷ []);
  equal_fold = bytes_eq;
  decode_strict = λ s. some spec;
  verifier = record {
    verify = λ s measured. inr (tt, none);
    marshal = λ s v. some (bytes "report");
    document = λ s v. some (bytes "prior");
  };
  drafter = record {
    model = some (λ n prompt. some (bytes "index"));
    plan = some (bytes "plan");
    schema = some (bytes "schema");
    hints = none;
    cancelled_at = λ n. false;
    runes = length;
  };
  allowed = some (bytes "orders" ∷ []);
  has_history = true;
  is_rewrite = λ s. false;
  run_rewrite = λ j tables. raise lease_lost;
}

abbrev leased_job : Job
leased_job = record job {
  id = id;
  lease_owner = "w1";
  options = record job.options {
    benchmark = true;
    approved_job_id = "j0";
    approval_report_sha = "sha";
  };
}

abbrev approval : Approval
approval = record {
  decision = "approved";
  report_sha256 = "sha";
  candidate_sha256 = "{}";
  sql_sha256 = "SELECT id FROM orders";
}

abbrev control : List (Option Fault) → Db Control
control faults = record {
  tables = record {
    queue = record empty_tables {
      jobs =
          (
            id,
            record row {
              job_id = id;
              status = running;
              lease_owner = "w1";
              lease_until = some 300;
            },
          )
          ∷ [];
    };
    approvals = ("j0", approval) ∷ [];
    reports = [];
    priors = [];
  };
  id_sequence = 0;
  faults = faults;
}

accepted : (verify_job runner 200 leased_job (control [])).0 ≡ ok tt
unfolding verify_job
accepted = refl

verify_job-IsAccepted_example :
    ((tables : List Bytes) × (runner.inspect (runner.raw leased_job.sql) ≡ inr tables)
      × (are_allowed runner.allowed tables ≡ true))
    × IsApproved leased_job (control []).tables
    × IsAccepted runner 200 leased_job
        (control []).tables
        (verify_job runner 200 leased_job (control [])).1.tables
verify_job-IsAccepted_example =
    verify_job-IsAccepted runner 200 leased_job (control []) refl accepted

-- The answer of the commit is lost.
abbrev lost_commit : List (Option Fault)
lost_commit = none ∷ (none ∷ (none ∷ (none ∷ (some (lost lease_lost) ∷ []))))

verify_job-IsReported_example :
    IsReported runner 200 leased_job
      (control lost_commit).tables
      (verify_job runner 200 leased_job (control lost_commit)).1.tables
verify_job-IsReported_example =
    verify_job-IsReported runner 200 leased_job (control lost_commit) refl

stored_without_an_answer :
    ((verify_job runner 200 leased_job (control lost_commit)).0 ≡ err lease_lost)
    × ((verify_job runner 200 leased_job (control lost_commit)).1.tables.reports
        ≡ (id, bytes "report") ∷ [])
unfolding verify_job sql_sentinel.Prelude.Assoc.insert
stored_without_an_answer = (refl, refl)
