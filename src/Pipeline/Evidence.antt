-- ===== src/Pipeline/Evidence.antt =====
-- internal/pipeline/pipeline.go: the evidence that Run leaves behind.
use sql_sentinel.Pipeline.Recorded.{
  IsEvidence, all_steps, stop-IsEvidence, failed-IsEvidence, stage-IsEvidence, IsRecorded, by_test,
  finish-IsEvidence,
}
use sql_sentinel.Prelude.{
  Bool, true, false, not, Option, none, some, ◌⊎◌, inl, inr, [], ◌∷◌, ◌≡◌, refl,
}
use sql_sentinel.Prelude.Bytes.{Bytes}
use sql_sentinel.Diagnosis.{Comparison, DiagnosisErr, analyze}
use sql_sentinel.SqlAdmit.Decision.{AdmitResult, admit}
use sql_sentinel.Pipeline.{
  output_dir_unusable, spec_required, sql_required, is_nil, explain_rejected, diagnosis_rejected,
  compare_rejected, admission_code, diagnosis, plan_compare, candidate_explain, sql_admit, World,
  State, Err, Explained, run, finish, failed, after_diagnosis, after_compare, after_explain,
  after_admission, build_report, start, nothing,
}

module _ (w : World) where
  after_diagnosis-IsEvidence :
      (x : DiagnosisErr ⊎ sql_sentinel.Diagnosis.Report) (s : State)
      → IsRecorded w (sql_admit ∷ (candidate_explain ∷ (plan_compare ∷ []))) s
      → IsEvidence w true (after_diagnosis w x s)
  unfolding after_diagnosis
  after_diagnosis-IsEvidence (inl e) s r =
      stop-IsEvidence w true _ (diagnosis ∷ []) diagnosis diagnosis_rejected s r refl
  after_diagnosis-IsEvidence (inr x) s r =
      stage-IsEvidence w true _ (diagnosis ∷ []) diagnosis (w.encode.of_diagnosis x) (finish w none)
        s r refl (λ t q. finish-IsEvidence w true all_steps [] t none q refl (λ fine. (refl, refl)))

  after_compare-IsEvidence :
      (x : Explained) (raw : Bytes) (c : Option Comparison) (s : State)
      → IsRecorded w (sql_admit ∷ (candidate_explain ∷ [])) s
      → IsEvidence w true (after_compare w x raw c s)
  unfolding after_compare
  after_compare-IsEvidence x raw none s r =
      stop-IsEvidence w true _ (plan_compare ∷ (diagnosis ∷ [])) plan_compare compare_rejected s r
        refl
  after_compare-IsEvidence x raw (some c) s r =
      let written = w.encode.of_comparison c (w.digest raw) (w.digest x.baseline_raw) in
      let x = analyze (record c { sha = w.digest written }) in
      stage-IsEvidence w true _ (plan_compare ∷ (diagnosis ∷ [])) plan_compare written
        (after_diagnosis w x) s r refl (λ t q. after_diagnosis-IsEvidence x t q)

  after_explain-IsEvidence :
      (sql spec : Bytes) (x : Option Explained) (s : State)
      → IsRecorded w (sql_admit ∷ []) s
      → IsEvidence w true (after_explain w sql spec x s)
  unfolding after_explain
  after_explain-IsEvidence sql spec none s r =
      stop-IsEvidence w true _ (candidate_explain ∷ (plan_compare ∷ (diagnosis ∷ [])))
        candidate_explain explain_rejected s r refl
  after_explain-IsEvidence sql spec (some x) s r =
      let raw = w.encode.of_explained x (w.digest sql) (w.digest spec) in
      let c = build_report w.now x in
      stage-IsEvidence w true _ (candidate_explain ∷ (plan_compare ∷ (diagnosis ∷ [])))
        candidate_explain raw (after_compare w x raw c) s r refl
        (λ t q. after_compare-IsEvidence x raw c t q)

  after_admission-IsEvidence :
      (sql spec : Bytes) (accepted : Bool) (a : AdmitResult) (s : State)
      → a.accepted ≡ accepted
      → IsRecorded w (sql_admit ∷ []) s
      → IsEvidence w accepted (after_admission w sql spec a s)
  unfolding after_admission
  after_admission-IsEvidence sql spec true a s h r =
      rw (h) (after_explain-IsEvidence sql spec (w.explain sql spec) s r)
  after_admission-IsEvidence sql spec false a s h r = rw (h) (
      stop-IsEvidence w false _ (candidate_explain ∷ (plan_compare ∷ (diagnosis ∷ []))) sql_admit
        (admission_code a.reason_code) s r refl)

  refused-IsEvidence : (accepted : Bool) (e : Err) → IsEvidence w accepted (failed e nothing)
  refused-IsEvidence accepted e =
      failed-IsEvidence w accepted [] all_steps nothing e
        (record {
          unclaimed = refl;
          completed = refl;
          steps = refl;
          artifacts = refl;
          unsummed = refl;
        })
        refl

  started : IsRecorded w [] start
  started = record {
    unclaimed = refl;
    completed = refl;
    steps = refl;
    artifacts = refl;
    unsummed = refl;
  }

  -- Whatever Run meets, it grants no claim; the completed steps are those of the files it wrote, in
  -- their order and without a gap, each file has its artifact with its digest; and when Run returns no
  -- error, all four steps are completed, Admit accepted the statement, and the summary is written with
  -- a digest of itself in which this digest is blank.
  pub run-IsEvidence :
      (sql spec : Bytes) → IsEvidence w (admit w.unicode w.inspect sql).accepted (run w sql spec)
  unfolding run
  run-IsEvidence sql spec =
      let a = admit w.unicode w.inspect sql in
      let P = IsEvidence w a.accepted in
      let raw = w.encode.of_admission a (w.digest sql) in
      by_test P (is_nil sql) (refused-IsEvidence a.accepted sql_required) (
        by_test P (is_nil spec) (refused-IsEvidence a.accepted spec_required) (
          by_test P (not w.dir_works) (refused-IsEvidence a.accepted output_dir_unusable) (
            stage-IsEvidence w a.accepted [] all_steps sql_admit raw (after_admission w sql spec a)
              start started refl
              (λ t q. after_admission-IsEvidence sql spec a.accepted a t refl q))))
