-- ===== src/Samples/Proposals.antt =====
-- internal/agentgraph and internal/evaluation on concrete data.
use sql_sentinel.Prelude.{
  ℕ, ◌≤◌, ◌≡◌, refl, ◌≢◌, true, false, Option, none, some, inl, inr, [], ◌∷◌, arith, length, ◌==◌,
  if◌then◌else◌,
}
use sql_sentinel.Prelude.Int.{pos}
use sql_sentinel.Prelude.Bytes.{Bytes, bytes, bytes_eq}
use sql_sentinel.DraftGraph.{World, DraftResult, draft_bounded, too_many_steps}
use sql_sentinel.DraftGraph.Bounded.{IsSettled, draft_bounded-IsSettled}
use sql_sentinel.SqlAdmit.Decision.{admit, ReasonCode}
use sql_sentinel.Evaluation.{
  Case, Manifest, StaticRules, evaluate_static, case_result, rejection_text, code_text,
}
use sql_sentinel.Evaluation.Static.{evaluate_static-Counts, case_result-detected, detections}

-- The model answers with a proposal that is accepted at the second attempt.
abbrev world : World
world = record {
  draft = λ n prompt. some (if n == 2 then bytes "good" else bytes "bad");
  validate = λ text. bytes_eq text (bytes "good");
  cancelled_at = λ n. false;
}

draft_bounded-IsSettled_example :
    (draft_bounded world (pos 3) (bytes "index orders") ≢ inl too_many_steps)
    × ((r : DraftResult)
        → draft_bounded world (pos 3) (bytes "index orders") ≡ inr r
        → IsSettled world 3 r)
    × (((n : ℕ) → world.cancelled_at n ≡ false)
        → (r : DraftResult) × (draft_bounded world (pos 3) (bytes "index orders") ≡ inr r))
unfolding sql_sentinel.DraftGraph.out_of_bounds
draft_bounded-IsSettled_example =
    draft_bounded-IsSettled world 3 (bytes "index orders") (omega arith) (omega arith) refl

draft_runs :
    draft_bounded world (pos 3) (bytes "index orders")
    ≡ inr
        (record { prompt = []; text = bytes "good"; attempts = 2; accepted = true; reason = none })
unfolding draft_bounded bytes_eq
draft_runs = refl

abbrev keep_case : Bytes → Bytes
keep_case s = s

abbrev no_objection : Bytes → Option Bytes
no_objection sql = none

-- A case that expects `select *` to be found in a statement without one.
abbrev case : Case
case = record {
  id = bytes "c1";
  sql_file = bytes "a.sql";
  expect_signal = bytes "select_star";
  expect_rejection = [];
}

abbrev manifest : Manifest
manifest = record { dataset_version = bytes "v1"; cases = case ∷ [] }

abbrev files : Bytes → Option Bytes
files name = some (bytes "SELECT id FROM t")

abbrev rules : StaticRules
rules = record {
  dataset_version = bytes "v1";
  manifest_sha = [];
  detected = 1;
  total = 1;
  cases = record { id = bytes "c1"; detected = true; signal = []; rejection = [] } ∷ [];
}

-- The signal is not there, and the case counts as detected all the same.
counted : evaluate_static keep_case no_objection files manifest [] ≡ inr rules
unfolding evaluate_static admit
counted = refl

evaluate_static-Counts_example :
    (rules.total ≡ length manifest.cases)
    × (length rules.cases ≡ rules.total)
    × (rules.detected ≡ detections rules.cases)
    × (rules.detected ≤ rules.total)
evaluate_static-Counts_example =
    evaluate_static-Counts keep_case no_objection files manifest [] rules counted

no_code :
    (code : ReasonCode)
    → (admit keep_case no_objection (bytes "SELECT id FROM t")).reason_code ≡ some code
    → code_text code ≢ []
unfolding admit
no_code code h = absurd (ground (arith, h))

case_result-detected_example :
    let a = admit keep_case no_objection (bytes "SELECT id FROM t") in
    (case.expect_signal ≡ []
      → (case_result case a).detected
        ≡ bytes_eq (rejection_text a.reason_code) case.expect_rejection)
    × (case.expect_rejection ≡ [] → (case_result case a).detected ≡ a.accepted)
case_result-detected_example =
    case_result-detected keep_case no_objection case (bytes "SELECT id FROM t") no_code
