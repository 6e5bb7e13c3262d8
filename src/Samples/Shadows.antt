-- ===== src/Samples/Shadows.antt =====
-- internal/shadowgate and internal/plancompare on concrete data: a statement with its index, a database
-- of one index, and two plans.
use sql_sentinel.Prelude.{
  ◌≡◌, refl, Bool, true, false, none, List, [], ◌∷◌, ◌⊎◌, inr, if◌then◌else◌,
}
use sql_sentinel.Prelude.Bytes.{Bytes, bytes, bytes_eq}
use sql_sentinel.Candidate.{Spec}
use sql_sentinel.ShadowGate.{Prepared, prepare, has_bind_placeholder, expected_index, Database}
use sql_sentinel.ShadowGate.Prepare.{IsChecked, prepare-IsChecked}
use sql_sentinel.PlanCompare.{TableAccess, Summary}
use sql_sentinel.Prelude.{String}
use sql_sentinel.ShadowGate.Run.{Shadow, IsRefused, IsCleared, run, run-IsCleared}
use sql_sentinel.Prelude.Int.{pos}

abbrev keep_case : Bytes → Bytes
keep_case s = s

abbrev spec : Spec
spec = record {
  table = bytes "orders";
  index_name = bytes "idx_cand_user";
  columns = record { name = bytes "user_id"; direction = [] } ∷ [];
}

abbrev query : Bytes
query = bytes "SELECT id FROM orders WHERE note = 'what?'"

abbrev inspect : Bytes → Bytes ⊎ List Bytes
inspect sql = inr (bytes "orders" ∷ [])

abbrev prepared : Prepared
prepared = record {
  sql = query;
  sql_signals = [];
  spec = spec;
  ddl = bytes "CREATE INDEX `idx_cand_user` ON `orders` (`user_id` ASC)";
}

prepare-IsChecked_example : IsChecked keep_case inspect bytes_eq query spec prepared
unfolding prepare
prepare-IsChecked_example = prepare-IsChecked keep_case inspect bytes_eq query spec prepared refl

markers :
    (has_bind_placeholder (bytes "SELECT ?") ≡ true)
    × (has_bind_placeholder (bytes "SELECT '?', `?` -- ?") ≡ false)
unfolding has_bind_placeholder
markers = (refl, refl)

-- A database that remembers whether the index was created.
abbrev database : Database Bool Bytes
database = record {
  existing_index =
      λ table name created. inr (if created then expected_index keep_case (spec.columns) else []);
  exec = λ statement created. (none, true);
}

abbrev shadow : Shadow Bool Bytes
shadow = record {
  version = λ side s. inr (bytes "8.4.0");
  snapshot = λ side tables s. inr (record { digest = bytes "d41d"; rows = pos 1000 });
  table_count = λ table s. inr (pos 1);
  column_count = λ table column s. inr (pos 1);
  index_db = database;
  analyze = λ table s. (none, s);
  explain = λ sql s. inr (bytes "{}");
}

run-IsCleared_example :
    IsRefused shadow keep_case inspect
      (λ t. true)
      (λ t. true)
      prepared
      false
      (run shadow keep_case inspect (λ t. true) (λ t. true) prepared false)
    ⊎ IsCleared shadow keep_case inspect (λ t. true) (λ t. true) prepared false
run-IsCleared_example =
    run-IsCleared shadow keep_case inspect (λ t. true) (λ t. true) prepared false

abbrev access : String → TableAccess
access key = record {
  table_name = "orders";
  access_type = "ref";
  possible_keys = [];
  key = key;
  rows_examined_per_scan = none;
  using_index = false;
}

abbrev plan : List TableAccess → Summary
plan tables = record { tables = tables; uses_filesort = false }
