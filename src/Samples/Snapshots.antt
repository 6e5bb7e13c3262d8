-- ===== src/Samples/Snapshots.antt =====
-- internal/snapshot on two small tables.
use sql_sentinel.Prelude.{◌≡◌, ◌↔◌, true, none, some, inr, List, [], ◌∷◌, arith}
use sql_sentinel.Prelude.Int.{pos}
use sql_sentinel.Prelude.Bytes.{bytes}
use sql_sentinel.Snapshot.{Row, Moment, Side, compute, compare_sides}
use sql_sentinel.Snapshot.Chunks.{table_query}
use sql_sentinel.Snapshot.Fields.{IsPlain}
use sql_sentinel.Snapshot.Match.{compare_sides-table}

abbrev noon : Moment
noon = record {
  year = 2024;
  month = 1;
  day = 2;
  hour = 12;
  minute = 0;
  second = 5;
  nanosecond = 7000;
}

abbrev first : Row
first = record {
  id = 1;
  user_id = 10;
  status = bytes "paid";
  created_at = noon;
  amount_cents = pos 250;
  note = none;
  payload = bytes "ab";
}

abbrev second : Row
second = record first { id = 4; note = some (bytes "late") }

abbrev orders : List Row
orders = first ∷ (second ∷ [])

first-IsPlain : IsPlain first
first-IsPlain = record {
  plain_status = omega arith;
  plain_note = omega arith;
  plain_payload = omega arith;
  whole_micros = omega arith;
}

second-IsPlain : IsPlain second
second-IsPlain = record {
  plain_status = omega arith;
  plain_note = omega arith;
  plain_payload = omega arith;
  whole_micros = omega arith;
}

compare_sides-table_example :
    (x : Side) × (y : Side) × (compute 3 (λ s. s) (table_query orders) [] (pos 1) ≡ some (inr x))
    × (compute 3 (λ s. s) (table_query (first ∷ [])) [] (pos 1) ≡ some (inr y))
    × (((compare_sides x y).is_match ≡ true) ↔ (orders ≡ first ∷ []))
compare_sides-table_example =
    compare_sides-table 3 (λ s. s) (pos 1) orders (first ∷ []) (omega arith) (omega arith)
      (omega arith) (omega arith) (first-IsPlain, (second-IsPlain, tt)) (first-IsPlain, tt) (λ h. h)
