-- ===== src/Samples/Claims.antt =====
-- internal/candidate, internal/measure and internal/series on concrete data.
use sql_sentinel.Prelude.{
  arith, ◌<◌, ℕ, ◌+◌, ◌≡◌, ◌↔◌, refl, String, Bool, true, false, Option, none, some, List, [], ◌∷◌,
  ◌⊎◌, inr, if◌then◌else◌,
}
use sql_sentinel.Prelude.Int.{◌-ℤ◌, ℤ, pos, ltb_ℤ, leb_ℤ}
use sql_sentinel.Prelude.Bytes.{Bytes, bytes}
use sql_sentinel.Candidate.{Column, Spec, validate, compile_create_index, direction_of}
use sql_sentinel.Candidate.Sound.{IsSafe, validate-IsSafe}
use sql_sentinel.Candidate.Quoting.{split_quotes, after_column, compile_create_index-split}
use sql_sentinel.Measure.{Float, SideStats, Decision, admit, decide, l2}
use sql_sentinel.Measure.Claims.{IsQuiet, admit-decide}
use sql_sentinel.Measure.Gates.{SideSnapshot}
use sql_sentinel.Series.{Report, Input, Admission, evaluate}
use sql_sentinel.Series.Admissible.{IsAdmissible}
use sql_sentinel.Series.Complete.{evaluate-IsAdmissible}

-- A case mapping that leaves what is not ASCII alone.
abbrev keep_case : Bytes → Bytes
keep_case s = s

abbrev spec : Spec
spec = record {
  table = bytes "orders";
  index_name = bytes "idx_cand_user";
  columns =
      record { name = bytes "user_id"; direction = [] }
      ∷ record { name = bytes "created_at"; direction = bytes "desc" }
      ∷ [];
}

validate-IsSafe_example : (validate keep_case spec ≡ none) ↔ IsSafe keep_case spec
validate-IsSafe_example = validate-IsSafe keep_case spec

abbrev statement : Bytes
statement = bytes "CREATE INDEX `idx_cand_user` ON `orders` (`user_id` ASC, `created_at` DESC)"

compile_create_index-split_example :
    IsSafe keep_case spec
    × ((first : Column) × (rest : List Column) × (spec.columns ≡ first ∷ rest)
        × (split_quotes statement
            ≡ bytes "CREATE INDEX "
              ∷ spec.index_name
              ∷ bytes " ON "
              ∷ spec.table
              ∷ bytes " ("
              ∷ first.name
              ∷ after_column keep_case (direction_of keep_case first) rest))
unfolding compile_create_index
compile_create_index-split_example = compile_create_index-split keep_case spec statement refl

-- Ratios in thousandths, with the limit 0.10.
abbrev thousandths : Float
thousandths = record {
  F = ℤ;
  of_int = λ n. n;
  mul = λ a b. b;
  div = λ a b. a;
  neg = λ a. pos 0 -ℤ a;
  gt = λ a b. ltb_ℤ b a;
  le = leb_ℤ;
  zero_f = pos 0;
  significance_multiplier = pos 2000;
  noise_ratio_limit = pos 100;
}

abbrev side : String → ℕ → ℕ → SideStats thousandths
side name median noise = record {
  name = name;
  samples = 30;
  median = pos median;
  scaled_mad = pos 1;
  noise_ratio = pos noise;
}

abbrev calm : SideStats thousandths
calm = side "baseline" 900 20

abbrev slower : Option (Decision thousandths)
slower = some (decide thousandths calm (side "candidate" 980 30))

admit-decide_example :
    let c = side "candidate" 500 30 in
    let a = admit thousandths calm calm (some (decide thousandths calm c)) in
    ((a.eligible_for_performance_claim ≡ true) × (a.evidence_level ≡ l2)) ↔ (
      IsQuiet thousandths calm
      × IsQuiet thousandths calm
      × (0 < 900)
      × (500 < 900)
      × (leb_ℤ (pos 0 -ℤ (pos 500 -ℤ pos 900)) (pos 30) ≡ false))
admit-decide_example =
    admit-decide thousandths calm (side "candidate" 500 30) 900 500 refl refl (omega arith)
      (omega arith) calm calm (λ d m p. refl)

abbrev snapshot : String → SideSnapshot
snapshot name = record { name = name; digest = "d41d"; rows = pos 1000 }

-- A probe that counts its questions.
abbrev probe : String → ℕ → (String ⊎ SideSnapshot) × ℕ
probe name n = (inr (snapshot name), n + 1)

abbrev report : Bool → Report thousandths
report measured = record {
  dataset_version = "v1";
  snapshot_digest = "d41d";
  snapshot_match = true;
  mysql_version = "8.4.0";
  case_name = "orders";
  case_sql = "SELECT 1";
  case_args = "7" ∷ [];
  candidate_index = "idx_cand_user";
  executions_per_round = pos 10;
  baseline_noise_ratio = pos 20;
  candidate_noise_ratio = pos 30;
  measured = measured;
  decided = measured;
  direction_verdict = if measured then some "Better" else none;
  eligible = measured;
}

abbrev calibrations : List (Input thousandths)
calibrations =
    record { source = "c1"; report = report false }
    ∷ record { source = "c2"; report = report false }
    ∷ []

abbrev measurement : Input thousandths
measurement = record { source = "m"; report = report true }

evaluate-IsAdmissible_example :
    ((a : Admission) × (evaluate thousandths calibrations measurement ≡ inr a)
      × (a.eligible_for_performance_claim ≡ true))
    ↔ IsAdmissible thousandths calibrations measurement
evaluate-IsAdmissible_example = evaluate-IsAdmissible thousandths calibrations measurement

-- The series above is admitted.
admitted :
    (a : Admission) × (evaluate thousandths calibrations measurement ≡ inr a)
    × (a.eligible_for_performance_claim ≡ true)
unfolding evaluate
admitted = (_, refl, refl)
