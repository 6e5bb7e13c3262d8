-- ===== src/Series.antt =====
-- internal/series/admission.go: whether a series of reports supports a performance claim.
pub mod Admissible
pub mod Claim
pub mod Complete
use sql_sentinel.Prelude.{
  ℕ, ◌≡◌, String, Bool, true, false, not, ◌&&◌, ◌||◌, Option, none, some, List, [], ◌∷◌, ◌++◌, map,
  length, ◌⊎◌, inl, inr, if◌then◌else◌, ◌==◌, ltb, str_eq,
}
use sql_sentinel.Prelude.Int.{ℤ, eqb_ℤ}
use sql_sentinel.Measure.{Float, EvidenceLevel, l1, l2}

module _ (float : Float) where
  open float use {F, gt, noise_ratio_limit}

  -- What Evaluate reads of a report.Result; `measured` and `decided` say that the pointers
  -- Measurement and Verdict are not nil, and `none` is nil.
  pub record Report : Type 0 where
    pub dataset_version : String
    pub snapshot_digest : String
    pub snapshot_match : Bool
    pub mysql_version : String
    pub case_name : String
    pub case_sql : String
    pub case_args : List String
    pub candidate_index : String
    pub executions_per_round : ℤ
    pub baseline_noise_ratio : F
    pub candidate_noise_ratio : F
    pub measured : Bool
    pub decided : Bool
    pub direction_verdict : Option String
    pub eligible : Bool

  pub record Input : Type 0 where
    pub source : String
    pub report : Report

pub data ReasonCode : Type 0 where
  snapshot_not_verified calibration_noise_exceeds_limit measurement_missing : ReasonCode
  measurement_direction_not_better measurement_not_eligible : ReasonCode

pub record Reason : Type 0 where
  pub code : ReasonCode
  pub source : String

pub record Admission : Type 0 where
  pub calibration_files : List String
  pub measurement_file : String
  pub eligible_for_performance_claim : Bool
  pub evidence_level : EvidenceLevel
  pub rejection_reasons : List Reason

-- The fields of a fingerprint.
pub data Field : Type 0 where
  dataset_version_f snapshot_digest_f mysql_version_f case_name_f : Field
  case_sql_f case_args_f candidate_index_f executions_f : Field

pub data EvaluateErr : Type 0 where
  too_few_calibrations missing_measurement_path missing_path : EvaluateErr
  repeated_calibration calibration_with_measurement : String → EvaluateErr
  mismatch : String → Field → EvaluateErr

abbrev pub strings_eq : List String → List String → Bool
strings_eq [] [] = true
strings_eq [] (y ∷ ys) = false
strings_eq (x ∷ xs) [] = false
strings_eq (x ∷ xs) (y ∷ ys) = str_eq x y && strings_eq xs ys

abbrev pub has_source : String → List String → Bool
has_source x [] = false
has_source x (y ∷ ys) = str_eq y x || has_source x ys

abbrev is_empty {ℓ} : {A : Type ℓ} → List A → Bool
is_empty [] = true
is_empty (x ∷ xs) = false

module _ (float : Float) where
  open float use {F, gt, noise_ratio_limit}

  -- fingerprintOf(a).diff(fingerprintOf(b)), with `none` for "".
  unfoldable pub diff : Report float → Report float → Option Field
  diff a b =
      if not (str_eq a.dataset_version b.dataset_version)
      then some dataset_version_f
      else if not (str_eq a.snapshot_digest b.snapshot_digest)
      then some snapshot_digest_f
      else if not (str_eq a.mysql_version b.mysql_version)
      then some mysql_version_f
      else if not (str_eq a.case_name b.case_name)
      then some case_name_f
      else if not (str_eq a.case_sql b.case_sql)
      then some case_sql_f
      else if not (strings_eq a.case_args b.case_args)
      then some case_args_f
      else if not (str_eq a.candidate_index b.candidate_index)
      then some candidate_index_f
      else if not (eqb_ℤ a.executions_per_round b.executions_per_round)
      then some executions_f
      else none

  -- The loop over the sources of the calibrations.
  unfoldable pub repeated : List String → List (Input float) → Option EvaluateErr
  repeated seen [] = none
  repeated seen (i ∷ is) =
      let rest = repeated (i.source ∷ seen) is in
      if has_source i.source seen then some (repeated_calibration i.source) else rest

  abbrev pub mismatch_of : String → Option Field → Option EvaluateErr → Option EvaluateErr
  mismatch_of source none rest = rest
  mismatch_of source (some f) rest = some (mismatch source f)

  -- The loop that compares every report with the first calibration.
  unfoldable pub mismatched : Report float → List (Input float) → Option EvaluateErr
  unfolding diff
  mismatched base [] = none
  mismatched base (i ∷ is) =
      let rest = mismatched base is in
      if str_eq i.source ""
      then some missing_path
      else mismatch_of i.source (diff base i.report) rest

  abbrev pub unverified : List (Input float) → List Reason
  unverified [] = []
  unverified (i ∷ is) =
      if not (i.report.snapshot_match)
      then record { code = snapshot_not_verified; source = i.source } ∷ unverified is
      else unverified is

  abbrev pub is_noisy : Report float → Bool
  is_noisy r =
      gt r.baseline_noise_ratio noise_ratio_limit || gt r.candidate_noise_ratio noise_ratio_limit

  abbrev pub push_noise : Input float → EvaluateErr ⊎ List Reason → EvaluateErr ⊎ List Reason
  push_noise i (inl e) = inl e
  push_noise i (inr rs) =
      if is_noisy (i.report)
      then inr (record { code = calibration_noise_exceeds_limit; source = i.source } ∷ rs)
      else inr rs

  -- The loop over the calibrations' noise.
  unfoldable pub noisy : List (Input float) → EvaluateErr ⊎ List Reason
  noisy [] = inr []
  noisy (i ∷ is) =
      let rest = noisy is in
      if i.report.measured || i.report.decided
      then inl (calibration_with_measurement i.source)
      else push_noise i rest

  abbrev pub direction_reasons : Input float → Option String → List Reason
  direction_reasons m none = record { code = measurement_missing; source = m.source } ∷ []
  direction_reasons m (some v) =
      if not (m.report.measured) || not (m.report.decided)
      then record { code = measurement_missing; source = m.source } ∷ []
      else if not (str_eq v "Better")
      then record { code = measurement_direction_not_better; source = m.source } ∷ []
      else []

  abbrev pub claim_reasons : Input float → List Reason
  claim_reasons m =
      if not (m.report.eligible)
      then record { code = measurement_not_eligible; source = m.source } ∷ []
      else []

  abbrev pub concluded : List (Input float) → Input float → List Reason → Admission
  concluded calibrations m reasons = record {
    calibration_files = map (λ (i : Input float). i.source) calibrations;
    measurement_file = m.source;
    eligible_for_performance_claim = is_empty reasons;
    evidence_level = if is_empty reasons then l2 else l1;
    rejection_reasons = reasons;
  }

  abbrev pub with_noise :
      List (Input float) → Input float → EvaluateErr ⊎ List Reason → EvaluateErr ⊎ Admission
  with_noise calibrations m (inl e) = inl e
  with_noise calibrations m (inr noise) = inr (
      concluded calibrations m (
        unverified (calibrations ++ m ∷ [])
        ++ (noise ++ (direction_reasons m m.report.direction_verdict ++ claim_reasons m))))

  abbrev pub or_else : Option EvaluateErr → EvaluateErr ⊎ Admission → EvaluateErr ⊎ Admission
  or_else none r = r
  or_else (some e) r = inl e

  abbrev pub based : List (Input float) → List (Input float) → Option EvaluateErr
  based [] all_inputs = some too_few_calibrations
  based (first ∷ rest) all_inputs = mismatched (first.report) all_inputs

  unfoldable pub evaluate : List (Input float) → Input float → EvaluateErr ⊎ Admission
  unfolding repeated mismatched noisy
  evaluate calibrations m =
      if ltb (length calibrations) 2
      then inl too_few_calibrations
      else or_else (repeated [] calibrations) (
          if str_eq m.source ""
          then inl missing_measurement_path
          else or_else (based calibrations (calibrations ++ m ∷ []))
              (with_noise calibrations m (noisy calibrations)))
