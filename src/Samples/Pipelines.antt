-- ===== src/Samples/Pipelines.antt =====
-- internal/pipeline and internal/evidencebind on concrete data.
use sql_sentinel.Prelude.{◌≡◌, refl, true, false, none, some, [], ◌∷◌}
use sql_sentinel.Prelude.Bytes.{Bytes, bytes}
use sql_sentinel.Json.{Stream, obj, field, str, end}
use sql_sentinel.SqlAdmit.Decision.{admit}
use sql_sentinel.Pipeline.{World, Explained, run}
use sql_sentinel.Pipeline.Evidence.{run-IsEvidence}
use sql_sentinel.Pipeline.Recorded.{IsEvidence, all_steps}
use sql_sentinel.EvidenceBind.{Diagnosed, Compared, Measured, Admitted, bind, bound_report}
use sql_sentinel.EvidenceBind.Exact.{IsBound, bind-IsBound}

abbrev plan : Stream
plan = record {
  values = obj (field "table_name" (str "orders") (field "key" (str "ix") end)) ∷ [];
  broken = false;
}

abbrev explained : Explained
explained = record {
  generated_at = "";
  mysql_version = "8.0";
  snapshot_digest = "d";
  sql = "SELECT id FROM orders";
  candidate_plan = plan;
  baseline_plan = plan;
  baseline_raw = bytes "{}";
}

abbrev world : World
world = record {
  now = "today";
  digest = λ raw. "sha";
  encode = record {
    of_admission = λ a sha. bytes "admission";
    of_explained = λ x a b. bytes "explained";
    of_comparison = λ c a b. bytes "comparison";
    of_diagnosis = λ r. bytes "diagnosis";
    of_summary = λ r. bytes "summary";
  };
  unicode = λ s. s;
  inspect = λ s. none;
  explain = λ sql spec. some explained;
  dir_works = true;
  write_works = λ step. true;
  summary_works = true;
}

abbrev sql : Bytes
sql = bytes "SELECT id FROM orders"

run-IsEvidence_example :
    IsEvidence world (admit (λ s. s) (λ s. none) sql).accepted (run world sql (bytes "{}"))
run-IsEvidence_example = run-IsEvidence world sql (bytes "{}")

pipeline_runs :
    ((run world sql (bytes "{}")).state.report.completed_steps ≡ all_steps)
    × ((run world sql (bytes "{}")).error ≡ none)
unfolding run admit
pipeline_runs = (refl, refl)

abbrev diagnosed : Diagnosed
diagnosed = record {
  evidence_level = "L1";
  eligible = false;
  source = record { sha = "c"; generated_at = ""; mysql_version = "8.0"; snapshot = "d" };
  codes = "filesort_removed" ∷ [];
}

abbrev compared : Compared
compared = record {
  evidence_level = "L1";
  eligible = false;
  snapshot_digest = "d";
  mysql_version = "8.0";
  sql = "SELECT id FROM orders";
  candidate_index = "ix";
}

abbrev measured : Measured
measured = record {
  snapshot_digest = "d";
  mysql_version = "8.0";
  sql = "SELECT id FROM orders";
  candidate_index = "ix";
}

abbrev admitted : Admitted
admitted = record { measurement_file = bytes "runs/m.json"; eligible = true; evidence_level = "L2" }

bind-IsBound_example :
    IsBound
      (λ raw. "c")
      (bytes "d")
      (bytes "c")
      (bytes "/out/m.json/")
      diagnosed
      compared
      measured
      admitted
      (bound_report
        (λ raw. "c")
        (bytes "d")
        (bytes "c")
        (bytes "/out/m.json/")
        diagnosed
        compared
        measured
        admitted)
unfolding bind
bind-IsBound_example =
    bind-IsBound (λ raw. "c") (bytes "d") (bytes "c") (bytes "/out/m.json/") diagnosed compared
      measured admitted _ refl

bound_runs :
    (bound_report
      (λ raw. "c")
      (bytes "d")
      (bytes "c")
      (bytes "/out/m.json/")
      diagnosed
      compared
      measured
      admitted).evidence_level
    ≡ "L2"
unfolding bound_report
bound_runs = refl
