-- ===== src/Evaluation.antt =====
-- internal/evaluation/evaluation.go: evaluateStatic, which runs the admission of internal/sqladmit over
-- the cases of a manifest, and RunSecurityChecks. The files are a function from a name to its bytes.
-- Recall, a float64, is Detected / Total of the result.
pub mod Static
use sql_sentinel.Prelude.{
  ℕ, suc, ◌+◌, ◌≡◌, refl, Bool, true, false, not, ◌&&◌, ◌||◌, Option, none, some, ◌⊎◌, inl, inr,
  List, [], ◌∷◌, ◌++◌, ◌==◌, any, all, length, if◌then◌else◌,
}
use sql_sentinel.Prelude.Bytes.{Bytes, bytes, bytes_eq, mem_bytes}
use sql_sentinel.SqlAdmit.{ScanErr, unterminated, executable_comment}
use sql_sentinel.SqlAdmit.Decision.{
  ReasonCode, scan_failed, empty_sql, multiple_statements, not_readonly_select, locking_read,
  write_or_ddl_statement, select_into_file, inspect_failed, Signal, select_star,
  leading_wildcard_like, function_on_probable_column, AdmitResult, admit,
}

-- The texts of the codes.
unfoldable pub code_text : ReasonCode → Bytes
code_text (scan_failed unterminated) = bytes "unterminated_literal_or_comment"
code_text (scan_failed executable_comment) = bytes "executable_comment_not_supported"
code_text empty_sql = bytes "empty_sql"
code_text multiple_statements = bytes "multiple_statements"
code_text not_readonly_select = bytes "not_readonly_select"
code_text locking_read = bytes "locking_read"
code_text write_or_ddl_statement = bytes "write_or_ddl_statement"
code_text select_into_file = bytes "select_into_file"
code_text (inspect_failed text) = text

unfoldable pub signal_text : Signal → Bytes
signal_text select_star = bytes "select_star"
signal_text leading_wildcard_like = bytes "leading_wildcard_like"
signal_text function_on_probable_column = bytes "function_on_probable_column"

pub record Case : Type 0 where
  pub id : Bytes
  pub sql_file : Bytes
  pub expect_signal : Bytes
  pub expect_rejection : Bytes

pub record Manifest : Type 0 where
  pub dataset_version : Bytes
  pub cases : List Case

pub record CaseResult : Type 0 where
  pub id : Bytes
  pub detected : Bool
  pub signal : Bytes
  pub rejection : Bytes

pub record StaticRules : Type 0 where
  pub dataset_version : Bytes
  pub manifest_sha : Bytes
  pub detected : ℕ
  pub total : ℕ
  pub cases : List CaseResult

pub data EvalErr : Type 0 where
  empty_manifest : EvalErr
  invalid_case duplicate_case unreadable : Bytes → EvalErr

-- strings.TrimSpace(s) == "", on ASCII
abbrev pub is_space : ℕ → Bool
is_space c = any (λ b. b == c) (b' ' ∷ 9 ∷ 10 ∷ 11 ∷ 12 ∷ 13 ∷ [])

-- filepath.Base(name) == name holds for "/" and for the names without a separator.
unfoldable pub safe_base_name : Bytes → Bool
unfolding bytes_eq
safe_base_name name =
    not (bytes_eq name [])
    && (not (any (λ b. b == b'/') name) || bytes_eq name (bytes "/"))
    && not (bytes_eq name (bytes "."))
    && not (bytes_eq name (bytes ".."))

abbrev pub is_empty : Bytes → Bool
is_empty [] = true
is_empty (c ∷ s) = false

abbrev same_bool : Bool → Bool → Bool
same_bool true b = b
same_bool false b = not b

unfoldable pub bad_case : Case → Bool
unfolding safe_base_name
bad_case c =
    is_empty c.id
    || not (safe_base_name c.sql_file)
    || same_bool (is_empty c.expect_signal) (is_empty c.expect_rejection)

abbrev pub rejection_text : Option ReasonCode → Bytes
rejection_text none = []
rejection_text (some code) = code_text code

-- The loop over the signals: the expected one, if it is there.
unfoldable pub found_signal : Bytes → List Signal → Bytes
unfolding bytes_eq signal_text
found_signal expected [] = []
found_signal expected (s ∷ signals) =
    let rest = found_signal expected signals in
    if bytes_eq (signal_text s) expected then expected else rest

unfoldable pub case_result : Case → AdmitResult → CaseResult
unfolding bytes_eq found_signal code_text
case_result c admission =
    let signal = found_signal c.expect_signal admission.signals in
    let rejection = rejection_text admission.reason_code in
    record {
      id = c.id;
      detected = not (is_empty signal) || bytes_eq rejection c.expect_rejection;
      signal = signal;
      rejection = rejection;
    }

abbrev pub count : Bool → ℕ → ℕ
count true n = n + 1
count false n = n

-- The result while the loop runs: `detected` and `cases` grow with each case.
unfoldable pub add_case : CaseResult → StaticRules → StaticRules
add_case r s = record s { detected = count r.detected s.detected; cases = s.cases ++ r ∷ [] }

abbrev pub with_total : EvalErr ⊎ StaticRules → EvalErr ⊎ StaticRules
with_total (inl e) = inl e
with_total (inr s) = inr (record s { total = length s.cases })

abbrev pub fresh_rules : Manifest → Bytes → StaticRules
fresh_rules m sha = record {
  dataset_version = m.dataset_version;
  manifest_sha = sha;
  detected = 0;
  total = 0;
  cases = [];
}

abbrev pub is_nil : List Case → Bool
is_nil [] = true
is_nil (c ∷ cases) = false

module _ (unicode : Bytes → Bytes) (inspect : Bytes → Option Bytes)
    (files : Bytes → Option Bytes) where
  unfoldable pub evaluate_cases : List Bytes → List Case → StaticRules → EvalErr ⊎ StaticRules
  unfolding bad_case mem_bytes case_result add_case
  evaluate_cases seen [] s = inr s
  evaluate_cases seen (c ∷ cases) s = elim (files c.sql_file) [
    | none ↦
        if bad_case c
        then inl (invalid_case c.id)
        else if mem_bytes c.id seen
        then inl (duplicate_case c.id)
        else inl (unreadable c.id)
    | some sql ↦
        let rest =
          evaluate_cases (c.id ∷ seen) cases
            (add_case (case_result c (admit unicode inspect sql)) s) in
        if bad_case c
        then inl (invalid_case c.id)
        else if mem_bytes c.id seen
        then inl (duplicate_case c.id)
        else rest
  ]

  unfoldable pub evaluate_static : Manifest → Bytes → EvalErr ⊎ StaticRules
  unfolding evaluate_cases
  evaluate_static m sha =
      if all is_space m.dataset_version || is_nil m.cases
      then inl empty_manifest
      else with_total (evaluate_cases [] m.cases (fresh_rules m sha))

pub data CheckStatus : Type 0 where
  not_run passed failed : CheckStatus

pub record SecurityCheck : Type 0 where
  pub name : Bytes
  pub package_path : Bytes
  pub status : CheckStatus

pub record Security : Type 0 where
  pub status : CheckStatus
  pub checks : List SecurityCheck

abbrev check_of : Bytes → Bytes → SecurityCheck
check_of name path = record { name = name; package_path = path; status = not_run }

abbrev pub security_checklist : List SecurityCheck
security_checklist =
    check_of (bytes "candidate_spec_strict_decode") (bytes "./internal/candidate/...")
    ∷ check_of (bytes "agent_prompt_injection") (bytes "./internal/agentgraph/...")
    ∷ check_of (bytes "readonly_sql_locking_read") (bytes "./internal/sqladmit/...")
    ∷ check_of (bytes "webhook_signature_queue_and_degrade") (bytes "./internal/webhook/...")
    ∷ check_of (bytes "pipeline_stop_and_partial_evidence") (bytes "./internal/pipeline/...")
    ∷ []

-- The runner's answer for a package is whether it succeeded.
unfoldable pub run_checks : (Bytes → Bool) → List SecurityCheck → List SecurityCheck × Bool
run_checks run [] = ([], true)
run_checks run (c ∷ checks) =
    let (done, all_passed) = run_checks run checks in
    if run c.package_path
    then (record c { status = passed } ∷ done, all_passed)
    else (record c { status = failed } ∷ done, false)

unfoldable pub run_security_checks : (Bytes → Bool) → Security
unfolding run_checks
run_security_checks run =
    let (checks, all_passed) = run_checks run security_checklist in
    record { status = if all_passed then passed else failed; checks = checks }
