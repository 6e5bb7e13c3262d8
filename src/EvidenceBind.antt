-- ===== src/EvidenceBind.antt =====
-- internal/evidencebind/bind.go: Bind on reports that were decoded, with filepath.Base on bytes. Each
-- report is a record of the fields that Bind reads; SHA-256 is a parameter.
pub mod Exact
use sql_sentinel.Prelude.{
  ℕ, String, Bool, true, false, not, ◌&&◌, ◌||◌, ◌⊎◌, inl, inr, List, [], ◌∷◌, ◌++◌, ◌==◌, str_eq,
  map, if◌then◌else◌,
}
use sql_sentinel.Prelude.Bytes.{Bytes, bytes, bytes_eq}
use sql_sentinel.Diagnosis.{Source}

-- diagnosis.Report, with the codes of its hypotheses.
pub record Diagnosed : Type 0 where
  pub evidence_level : String
  pub eligible : Bool
  pub source : Source
  pub codes : List String

-- plancompare.Report
pub record Compared : Type 0 where
  pub evidence_level : String
  pub eligible : Bool
  pub snapshot_digest : String
  pub mysql_version : String
  pub sql : String
  pub candidate_index : String

-- report.Result
pub record Measured : Type 0 where
  pub snapshot_digest : String
  pub mysql_version : String
  pub sql : String
  pub candidate_index : String

-- series.Admission
pub record Admitted : Type 0 where
  pub measurement_file : Bytes
  pub eligible : Bool
  pub evidence_level : String

pub data Reason : Type 0 where
  source_mismatch snapshot_mismatch mysql_mismatch : Reason
  measured_snapshot_mismatch measured_mysql_mismatch measured_sql_mismatch : Reason
  index_mismatch file_mismatch series_not_eligible series_not_l2 : Reason

pub data Err : Type 0 where
  diagnosis_verified comparison_verified no_hypotheses : Err

pub record Binding : Type 0 where
  pub code : String
  pub bound : Bool

pub record BindSource : Type 0 where
  pub diagnosis_sha : String
  pub comparison_sha : String
  pub snapshot_digest : String
  pub mysql_version : String
  pub measurement_file : Bytes
  pub candidate_index : String

pub record Report : Type 0 where
  pub evidence_level : String
  pub eligible : Bool
  pub binding_complete : Bool
  pub source : BindSource
  pub hypotheses : List Binding
  pub reasons : List Reason

abbrev keep_unless_slash : ℕ → Bytes → Bytes
keep_unless_slash c [] = if c == b'/' then [] else c ∷ []
keep_unless_slash c (d ∷ s) = c ∷ (d ∷ s)

unfoldable pub strip_slashes : Bytes → Bytes
strip_slashes [] = []
strip_slashes (c ∷ s) = keep_unless_slash c (strip_slashes s)

-- What stands behind the last slash; `word` is what was read behind the last one so far.
unfoldable pub last_part : Bytes → Bytes → Bytes
last_part word [] = word
last_part word (c ∷ s) =
    let fresh = last_part [] s in
    let longer = last_part (word ++ c ∷ []) s in if c == b'/' then fresh else longer

abbrev or_slash : Bytes → Bytes
or_slash [] = bytes "/"
or_slash (c ∷ s) = c ∷ s

-- filepath.Base on Unix
unfoldable pub base : Bytes → Bytes
unfolding strip_slashes last_part
base [] = bytes "."
base (c ∷ s) = or_slash (last_part [] (strip_slashes (c ∷ s)))

-- The reasons of the tests that fail, in their order.
unfoldable pub mismatches : List (Bool × Reason) → List Reason
mismatches [] = []
mismatches ((fits, reason) ∷ tests) =
    let rest = mismatches tests in if fits then rest else reason ∷ rest

abbrev is_nil {ℓ} : {A : Type ℓ} → List A → Bool
is_nil [] = true
is_nil (x ∷ xs) = false

module _ (digest : Bytes → String) (diagnosis_raw comparison_raw : Bytes) (path : Bytes)
    (d : Diagnosed) (c : Compared) (m : Measured) (s : Admitted) where
  unfoldable pub identity_tests : List (Bool × Reason)
  unfolding base bytes_eq
  identity_tests =
      (str_eq d.source.sha (digest comparison_raw), source_mismatch)
      ∷ ((str_eq d.source.snapshot c.snapshot_digest, snapshot_mismatch)
          ∷ ((str_eq d.source.mysql_version c.mysql_version, mysql_mismatch)
              ∷ ((str_eq m.snapshot_digest c.snapshot_digest, measured_snapshot_mismatch)
                  ∷ ((str_eq m.mysql_version c.mysql_version, measured_mysql_mismatch)
                      ∷ ((str_eq m.sql c.sql, measured_sql_mismatch)
                          ∷ ((str_eq m.candidate_index c.candidate_index, index_mismatch)
                              ∷ ((bytes_eq (base path) (base s.measurement_file), file_mismatch)
                                  ∷ [])))))))

  abbrev pub series_tests : List (Bool × Reason)
  series_tests =
      (s.eligible, series_not_eligible) ∷ ((str_eq s.evidence_level "L2", series_not_l2) ∷ [])

  unfoldable pub is_eligible : Bool
  unfolding mismatches identity_tests
  is_eligible = is_nil (mismatches identity_tests) && s.eligible && str_eq s.evidence_level "L2"

  unfoldable pub bound_report : Report
  unfolding is_eligible
  bound_report = record {
    evidence_level = if is_eligible then "L2" else "L1";
    eligible = is_eligible;
    binding_complete = is_nil (mismatches identity_tests);
    source = record {
      diagnosis_sha = digest diagnosis_raw;
      comparison_sha = digest comparison_raw;
      snapshot_digest = c.snapshot_digest;
      mysql_version = c.mysql_version;
      measurement_file = base path;
      candidate_index = c.candidate_index;
    };
    hypotheses = map (λ code. record { code = code; bound = is_eligible }) d.codes;
    reasons = mismatches identity_tests ++ mismatches series_tests;
  }

  unfoldable pub bind : Err ⊎ Report
  unfolding bound_report
  bind =
      if not (str_eq d.evidence_level "L1") || d.eligible
      then inl diagnosis_verified
      else if not (str_eq c.evidence_level "L1") || c.eligible
      then inl comparison_verified
      else if is_nil d.codes
      then inl no_hypotheses
      else inr bound_report
