-- ===== src/Diagnosis.antt =====
-- internal/diagnosis/diagnosis.go: Analyze on a comparison that has been decoded, with derive and
-- comparableEstimatedRows. The texts of statements and facts are left out; a hypothesis keeps its
-- code and the values that its facts show.
pub mod Rows
pub mod Derived
use sql_sentinel.Prelude.{
  String, Bool, true, false, not, ◌&&◌, ◌||◌, Option, none, some, ◌⊎◌, inl, inr, List, [], ◌∷◌,
  ◌++◌, ◌≡◌, str_eq, all, if◌then◌else◌,
}
use sql_sentinel.Prelude.Int.{ℤ, pos, ◌+ℤ◌, ltb_ℤ, wrap64}
use sql_sentinel.Prelude.Bytes.{bytes}
use sql_sentinel.PlanCompare.{TableAccess, Summary, Difference}
use sql_sentinel.Evaluation.{is_space}

-- The fields of plancompare.Report that Analyze reads; `sha` is the digest of its bytes.
pub record Comparison : Type 0 where
  pub sha : String
  pub generated_at : String
  pub evidence_level : String
  pub eligible : Bool
  pub mysql_version : String
  pub snapshot_digest : String
  pub sql : String
  pub baseline : Summary
  pub candidate : Summary
  pub difference : Difference

pub data Hypothesis : Type 0 where
  filesort_removed : Hypothesis
  access_path_changed : List String → Hypothesis
  estimated_scan_reduced : ℤ → ℤ → Hypothesis

pub record Source : Type 0 where
  pub sha : String
  pub generated_at : String
  pub mysql_version : String
  pub snapshot : String

pub record Report : Type 0 where
  pub evidence_level : String
  pub eligible : Bool
  pub source : Source
  pub hypotheses : List Hypothesis

pub data DiagnosisErr : Type 0 where
  wrong_level performance_eligible missing_evidence : DiagnosisErr

abbrev pub add_int64 : ℤ → ℤ → ℤ
add_int64 a b = wrap64 (a +ℤ b)

abbrev add_rows : Option ℤ → Option ℤ → (ℤ → ℤ → Option (ℤ × ℤ)) → Option (ℤ × ℤ)
add_rows (some b) (some c) f = f b c
add_rows _ _ f = none

-- The loop, from the totals so far; the sums are int64.
unfoldable pub sum_rows : ℤ → ℤ → List TableAccess → List TableAccess → Option (ℤ × ℤ)
unfolding ◌+ℤ◌ wrap64
sum_rows b_total c_total [] [] = some (b_total, c_total)
sum_rows b_total c_total [] (c ∷ cs) = none
sum_rows b_total c_total (b ∷ bs) [] = none
sum_rows b_total c_total (b ∷ bs) (c ∷ cs) =
    let totals =
      add_rows b.rows_examined_per_scan c.rows_examined_per_scan
        (λ m n. sum_rows (add_int64 b_total m) (add_int64 c_total n) bs cs) in
    if str_eq b.table_name c.table_name then totals else none

unfoldable pub comparable_rows : Summary → Summary → Option (ℤ × ℤ)
unfolding sum_rows
comparable_rows baseline candidate = elim (baseline.tables) [
  | [] ↦ none
  | t ∷ ts ↦ sum_rows (pos 0) (pos 0) (t ∷ ts) candidate.tables
]

abbrev when : Bool → Hypothesis → List Hypothesis
when true h = h ∷ []
when false h = []

abbrev reduced : Option (ℤ × ℤ) → List Hypothesis
reduced none = []
reduced (some (baseline_rows, candidate_rows)) =
    when (ltb_ℤ candidate_rows baseline_rows) (estimated_scan_reduced baseline_rows candidate_rows)

abbrev changed : List String → List Hypothesis
changed [] = []
changed (k ∷ ks) = access_path_changed (k ∷ ks) ∷ []

unfoldable pub derive : Comparison → List Hypothesis
unfolding comparable_rows
derive c =
    when (c.difference.baseline_uses_filesort && not c.difference.candidate_uses_filesort)
      filesort_removed
    ++ (changed c.difference.candidate_only_keys
        ++ reduced (comparable_rows c.baseline c.candidate))

unfoldable pub analyze : Comparison → DiagnosisErr ⊎ Report
unfolding derive
analyze c =
    if not (str_eq c.evidence_level "L1")
    then inl wrong_level
    else if c.eligible
    then inl performance_eligible
    else if all is_space (bytes c.sql) || str_eq c.snapshot_digest ""
    then inl missing_evidence
    else inr (record {
      evidence_level = "L1";
      eligible = false;
      source = record {
        sha = c.sha;
        generated_at = c.generated_at;
        mysql_version = c.mysql_version;
        snapshot = c.snapshot_digest;
      };
      hypotheses = derive c;
    })
