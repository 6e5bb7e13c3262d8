-- ===== src/Series/Admissible.antt =====
-- Evaluate of internal/series/admission.go against what an admissible series is.
use sql_sentinel.Prelude.{
  ◌≡◌, ◌≢◌, ◌≤◌, refl, arith, String, true, false, Option, none, some, List, [], ◌∷◌, ◌++◌, length,
  inl, inr, All, Bool-cases, ap, str_eq, eq_iff, eq_refl,
}
use sql_sentinel.Prelude.Int.{eqb_ℤ_iff}
use sql_sentinel.Measure.{Float}
use sql_sentinel.Series.{
  Report, Input, EvaluateErr, Field, strings_eq, has_source, diff, repeated, mismatched,
  mismatch_of,
}

strings_eq_sound : (xs ys : List String) → strings_eq xs ys ≡ true → xs ≡ ys
strings_eq_sound [] [] h = refl
strings_eq_sound [] (y ∷ ys) h = absurd (ground arith)
strings_eq_sound (x ∷ xs) [] h = absurd (ground arith)
strings_eq_sound (x ∷ xs) (y ∷ ys) h = ground (arith, eq_iff x y, strings_eq_sound xs ys)

module _ (float : Float) where
  open float use {F, gt, noise_ratio_limit}

  -- Two reports of the same data, environment, query, index and protocol.
  pub record IsSame (a b : Report float) : Type 0 where
    pub dataset : a.dataset_version ≡ b.dataset_version
    pub digest : a.snapshot_digest ≡ b.snapshot_digest
    pub mysql : a.mysql_version ≡ b.mysql_version
    pub name : a.case_name ≡ b.case_name
    pub sql : a.case_sql ≡ b.case_sql
    pub args : a.case_args ≡ b.case_args
    pub index : a.candidate_index ≡ b.candidate_index
    pub executions : a.executions_per_round ≡ b.executions_per_round

  -- No two inputs have the same source.
  abbrev pub Distinct : List (Input float) → Type 0
  Distinct [] = Unit
  Distinct (i ∷ is) = All (λ (j : Input float). j.source ≢ i.source) is × Distinct is

  -- A calibration only calibrates, and is quiet on both sides.
  pub record IsQuiet (i : Input float) : Type 0 where
    pub no_measurement : i.report.measured ≡ false
    pub no_verdict : i.report.decided ≡ false
    pub baseline_quiet : gt i.report.baseline_noise_ratio noise_ratio_limit ≡ false
    pub candidate_quiet : gt i.report.candidate_noise_ratio noise_ratio_limit ≡ false

  abbrev pub AllSame : List (Input float) → List (Input float) → Type 0
  AllSame [] all_inputs = ⊥
  AllSame (first ∷ rest) all_inputs =
      All (λ (i : Input float). (i.source ≢ "") × IsSame first.report i.report) all_inputs

  pub record IsAdmissible (calibrations : List (Input float)) (m : Input float) : Type 0 where
    pub enough : 2 ≤ length calibrations
    pub distinct : Distinct calibrations
    pub same : AllSame calibrations (calibrations ++ m ∷ [])
    pub verified :
        All (λ (i : Input float). i.report.snapshot_match ≡ true) (calibrations ++ m ∷ [])
    pub quiet : All IsQuiet calibrations
    pub has_measurement : m.report.measured ≡ true
    pub has_verdict : m.report.decided ≡ true
    pub faster : m.report.direction_verdict ≡ some "Better"
    pub claimed : m.report.eligible ≡ true

  diff-IsSame : (a b : Report float) → diff float a b ≡ none → IsSame a b
  unfolding diff
  diff-IsSame a b h = record {
    dataset = ground (arith, eq_iff a.dataset_version b.dataset_version);
    digest = ground (arith, eq_iff a.snapshot_digest b.snapshot_digest);
    mysql = ground (arith, eq_iff a.mysql_version b.mysql_version);
    name = ground (arith, eq_iff a.case_name b.case_name);
    sql = ground (arith, eq_iff a.case_sql b.case_sql);
    args = ground (arith, strings_eq_sound a.case_args b.case_args);
    index = ground (arith, eq_iff a.candidate_index b.candidate_index);
    executions = ground (arith, eqb_ℤ_iff a.executions_per_round b.executions_per_round);
  }

  mismatch_of-none :
      (source : String) (d : Option Field) (rest : Option EvaluateErr)
      → mismatch_of float source d rest ≡ none
      → (d ≡ none) × (rest ≡ none)
  mismatch_of-none source none rest h = (refl, h)
  mismatch_of-none source (some f) rest h = absurd (ground arith)

  pub mismatched-IsSame :
      (base : Report float) (is : List (Input float))
      → mismatched float base is ≡ none
      → All (λ (i : Input float). (i.source ≢ "") × IsSame base i.report) is
  unfolding mismatched
  mismatched-IsSame base [] h = tt
  mismatched-IsSame base (i ∷ is) h = elim (Bool-cases (str_eq i.source "")) [
    | inl empty ↦ absurd (ground arith)
    | inr named ↦
        let d =
          mismatch_of-none i.source (diff float base i.report) (mismatched float base is)
            ((rw named at h)) in
        (
          (λ e. ground (arith, eq_iff i.source ""), diff-IsSame base i.report d.0),
          mismatched-IsSame base is d.1,
        )
  ]

  repeated-apart :
      (seen : List String) (is : List (Input float)) (x : String)
      → has_source x seen ≡ true
      → repeated float seen is ≡ none
      → All (λ (j : Input float). j.source ≢ x) is
  unfolding repeated
  repeated-apart seen [] x m h = tt
  repeated-apart seen (i ∷ is) x m h = elim (Bool-cases (has_source i.source seen)) [
    | inl again ↦ absurd (ground arith)
    | inr new ↦ (
      λ e. ground (arith, ap (λ y. has_source y seen) e),
      repeated-apart (i.source ∷ seen) is x (ground arith) ((rw new at h)),
    )
  ]

  pub repeated-Distinct :
      (seen : List String) (is : List (Input float)) → repeated float seen is ≡ none → Distinct is
  unfolding repeated
  repeated-Distinct seen [] h = tt
  repeated-Distinct seen (i ∷ is) h = elim (Bool-cases (has_source i.source seen)) [
    | inl again ↦ absurd (ground arith)
    | inr new ↦
        let h' : repeated float (i.source ∷ seen) is ≡ none = (rw new at h) in
        (
          repeated-apart (i.source ∷ seen) is i.source (ground (arith, eq_refl i.source)) h',
          repeated-Distinct (i.source ∷ seen) is h',
        )
  ]
