-- ===== src/Pipeline.antt =====
-- internal/pipeline/pipeline.go: Run over the admission of sqladmit, the runner of the EXPLAIN gate,
-- the comparison of plancompare and the diagnosis, with BuildReport of internal/plancompare/compare.go.
-- The digest, the encoder and the runner are parameters; the wall-clock times are left out.
pub mod Evidence
pub mod Recorded
use sql_sentinel.Prelude.{
  ℕ, String, Bool, true, false, not, Option, none, some, ◌⊎◌, inl, inr, List, [], ◌∷◌, ◌++◌, str_eq,
  if◌then◌else◌,
}
use sql_sentinel.Prelude.Bytes.{Bytes}
use sql_sentinel.Json.{Stream}
use sql_sentinel.SqlAdmit.Decision.{AdmitResult, ReasonCode, admit}
use sql_sentinel.PlanCompare.{Summary, diff_plans}
use sql_sentinel.PlanCompare.Parse.{parse}
use sql_sentinel.Diagnosis.{Comparison, DiagnosisErr, analyze}

pub data Step : Type 0 where
  sql_admit candidate_explain plan_compare diagnosis : Step

pub record Artifact : Type 0 where
  pub step : Step
  pub sha : String

pub data Reason : Type 0 where
  admission_code : Option ReasonCode → Reason
  explain_rejected compare_rejected diagnosis_rejected : Reason

-- The digest of the summary stands apart from the artifacts of the stages, which precede it.
pub record Report : Type 0 where
  pub evidence_level : String
  pub eligible : Bool
  pub completed_steps : List Step
  pub stopped_step : Option Step
  pub reasons : List Reason
  pub artifacts : List Artifact
  pub summary_sha : Option String

-- What Run reads of the report of the gate, with the baseline's EXPLAIN as bytes and as their values.
pub record Explained : Type 0 where
  pub generated_at : String
  pub mysql_version : String
  pub snapshot_digest : String
  pub sql : String
  pub candidate_plan : Stream
  pub baseline_plan : Stream
  pub baseline_raw : Bytes

pub data Err : Type 0 where
  sql_required spec_required output_dir_unusable summary_unwritten : Err
  unwritten : Step → Err
  rejected : Step → Err

-- json.MarshalIndent of each stage's value, the later arguments being digests that Run adds to it.
pub record Encoder : Type 0 where
  pub of_admission : AdmitResult → String → Bytes
  pub of_explained : Explained → String → String → Bytes
  pub of_comparison : Comparison → String → String → Bytes
  pub of_diagnosis : sql_sentinel.Diagnosis.Report → Bytes
  pub of_summary : Report → Bytes

pub record World : Type 0 where
  pub now : String
  pub digest : Bytes → String
  pub encode : Encoder
  pub unicode : Bytes → Bytes
  pub inspect : Bytes → Option Bytes
  pub explain : Bytes → Bytes → Option Explained
  pub dir_works : Bool
  pub write_works : Step → Bool
  pub summary_works : Bool

-- The report so far, and the files of the stages that were written, in their order.
pub record State : Type 0 where
  pub report : Report
  pub files : List (Step × Bytes)

pub record Outcome : Type 0 where
  pub state : State
  pub summary : Option Bytes
  pub error : Option Err

abbrev pub empty_report : Report
empty_report = record {
  evidence_level = "L1";
  eligible = false;
  completed_steps = [];
  stopped_step = none;
  reasons = [];
  artifacts = [];
  summary_sha = none;
}

-- Report{}, of a call that is refused before the first stage.
abbrev pub nothing : State
nothing = record { report = record empty_report { evidence_level = "" }; files = [] }

abbrev pub start : State
start = record { report = empty_report; files = [] }

abbrev pub failed : Err → State → Outcome
failed e s = record { state = s; summary = none; error = some e }

abbrev pub is_nil : Bytes → Bool
is_nil [] = true
is_nil (c ∷ s) = false

abbrev stamp : String → String → String
stamp now generated_at = if str_eq generated_at "" then now else generated_at

abbrev compared : String → Explained → Option Summary → Option Summary → Option Comparison
compared now x (some baseline) (some candidate) = some (record {
  sha = "";
  generated_at = stamp now x.generated_at;
  evidence_level = "L1";
  eligible = false;
  mysql_version = x.mysql_version;
  snapshot_digest = x.snapshot_digest;
  sql = x.sql;
  baseline = baseline;
  candidate = candidate;
  difference = diff_plans baseline candidate;
})
compared now x _ _ = none

-- plancompare.BuildReport
unfoldable pub build_report : String → Explained → Option Comparison
unfolding parse
build_report now x = compared now x (parse x.baseline_plan) (parse x.candidate_plan)

module _ (w : World) where
  -- What writeStage leaves when it could write the bytes.
  unfoldable pub written_stage : Step → Bytes → State → State
  written_stage step raw s = record {
    report = record s.report {
      completed_steps = s.report.completed_steps ++ step ∷ [];
      artifacts = s.report.artifacts ++ record { step = step; sha = w.digest raw } ∷ [];
    };
    files = s.files ++ (step, raw) ∷ [];
  }

  abbrev pub with_own_sha : Report → Report
  with_own_sha r = record r { summary_sha = some (w.digest (w.encode.of_summary r)) }

  -- finish; the canonical summary has a blank digest in the summary's artifact, which is `none`.
  unfoldable pub finish : Option Err → State → Outcome
  finish cause s =
      let r = with_own_sha s.report in
      let t = record s { report = r } in
      if w.summary_works
      then record { state = t; summary = some (w.encode.of_summary r); error = cause }
      else record { state = t; summary = none; error = some summary_unwritten }

  unfoldable pub stop : Step → Reason → State → Outcome
  unfolding finish
  stop step reason s = finish (some (rejected step)) (record s {
    report = record s.report {
      stopped_step = some step;
      reasons = s.report.reasons ++ reason ∷ [];
    };
  })

  -- A stage that writes its file: what follows runs when it is written.
  unfoldable pub stage : Step → Bytes → (State → Outcome) → State → Outcome
  unfolding written_stage
  stage step raw f s =
      if w.write_works step then f (written_stage step raw s) else failed (unwritten step) s

  unfoldable pub after_diagnosis : DiagnosisErr ⊎ sql_sentinel.Diagnosis.Report → State → Outcome
  unfolding stage stop finish
  after_diagnosis (inl e) s = stop diagnosis diagnosis_rejected s
  after_diagnosis (inr r) s = stage diagnosis (w.encode.of_diagnosis r) (finish none) s

  unfoldable pub after_compare : Explained → Bytes → Option Comparison → State → Outcome
  unfolding stage stop after_diagnosis analyze
  after_compare x explained none s = stop plan_compare compare_rejected s
  after_compare x explained (some c) s =
      let raw = w.encode.of_comparison c (w.digest explained) (w.digest x.baseline_raw) in
      stage plan_compare raw (after_diagnosis (analyze (record c { sha = w.digest raw }))) s

  unfoldable pub after_explain : Bytes → Bytes → Option Explained → State → Outcome
  unfolding stage stop after_compare build_report
  after_explain sql spec none s = stop candidate_explain explain_rejected s
  after_explain sql spec (some x) s =
      let raw = w.encode.of_explained x (w.digest sql) (w.digest spec) in
      stage candidate_explain raw (after_compare x raw (build_report w.now x)) s

  unfoldable pub after_admission : Bytes → Bytes → AdmitResult → State → Outcome
  unfolding stop after_explain
  after_admission sql spec a s =
      if a.accepted
      then after_explain sql spec (w.explain sql spec) s
      else stop sql_admit (admission_code a.reason_code) s

  unfoldable pub run : Bytes → Bytes → Outcome
  unfolding stage after_admission admit
  run sql spec =
      if is_nil sql
      then failed sql_required nothing
      else if is_nil spec
      then failed spec_required nothing
      else if not w.dir_works
      then failed output_dir_unusable nothing
      else let a = admit w.unicode w.inspect sql in
        stage sql_admit (w.encode.of_admission a (w.digest sql)) (after_admission sql spec a) start
