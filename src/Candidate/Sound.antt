-- ===== src/Candidate/Sound.antt =====
-- Validate of internal/candidate/spec.go against what a safe specification is.
use sql_sentinel.Prelude.{
  le→ltb, ◌↔◌, sym, ℕ, ◌+◌, ◌≤◌, ◌≡◌, ◌≢◌, inl, inr, refl, arith, true, false, none, List, [], ◌∷◌,
  length, All, Bool-cases, ap,
}
use sql_sentinel.Prelude.Bytes.{
  bytes_eq_sound, Bytes, bytes_eq, mem_bytes, bytes_eq_refl, has_prefix, to_upper,
}
use sql_sentinel.Candidate.{
  Column, Spec, is_identifier, lowered, is_direction, check_columns, validate,
  required_index_prefix,
}

-- No two columns have the same name, whatever its case.
abbrev pub Distinct : List Column → Type 0
Distinct [] = Unit
Distinct (col ∷ cols) = All (λ other. lowered other ≢ lowered col) cols × Distinct cols

module _ (unicode : Bytes → Bytes) where
  -- A column that compiles into a quoted name and a direction.
  pub record IsSafeColumn (col : Column) : Type 0 where
    pub named : is_identifier col.name ≡ true
    pub directed : is_direction (to_upper unicode col.direction) ≡ true

  pub record IsSafe (spec : Spec) : Type 0 where
    pub table_ok : is_identifier spec.table ≡ true
    pub index_ok : is_identifier spec.index_name ≡ true
    pub prefixed : has_prefix spec.index_name required_index_prefix ≡ true
    pub some_column : 1 ≤ length spec.columns
    pub few_columns : length spec.columns ≤ 4
    pub columns_ok : All IsSafeColumn spec.columns
    pub distinct : Distinct spec.columns

  -- A column is passed.
  record Passed (i : ℕ) (seen : List Bytes) (col : Column) (cols : List Column) : Type 0 where
    safe : IsSafeColumn col
    unseen : mem_bytes (lowered col) seen ≡ false
    others : check_columns unicode (i + 1) (lowered col ∷ seen) cols ≡ none

  check_columns-Passed :
      (i : ℕ) (seen : List Bytes) (col : Column) (cols : List Column)
      → check_columns unicode i seen (col ∷ cols) ≡ none
      → Passed i seen col cols
  unfolding check_columns
  check_columns-Passed i seen col cols h = elim (Bool-cases (is_identifier col.name)) [
    | inr bad ↦ absurd (ground arith)
    | inl named ↦ elim (Bool-cases (mem_bytes (lowered col) seen)) [
      | inl bad ↦ absurd (ground arith)
      | inr unseen ↦ elim (Bool-cases (is_direction (to_upper unicode col.direction))) [
        | inr bad ↦ absurd (ground arith)
        | inl directed ↦ record {
          safe = record { named = named; directed = directed };
          unseen = unseen;
          others = ground arith;
        }
      ]
    ]
  ]

  check_columns-safe :
      (i : ℕ) (seen : List Bytes) (cols : List Column)
      → check_columns unicode i seen cols ≡ none
      → All IsSafeColumn cols
  check_columns-safe i seen [] h = tt
  check_columns-safe i seen (col ∷ cols) h =
      let p = check_columns-Passed i seen col cols h in
      (p.safe, check_columns-safe (i + 1) (lowered col ∷ seen) cols p.others)

  -- A name that was seen does not come again.
  check_columns-apart :
      (i : ℕ) (seen : List Bytes) (cols : List Column) (x : Bytes)
      → mem_bytes x seen ≡ true
      → check_columns unicode i seen cols ≡ none
      → All (λ other. lowered other ≢ x) cols
  unfolding mem_bytes
  check_columns-apart i seen [] x m h = tt
  check_columns-apart i seen (col ∷ cols) x m h =
      let p = check_columns-Passed i seen col cols h in
      (
        λ e. ground (arith, p.unseen, ap (λ y. mem_bytes y seen) e),
        check_columns-apart (i + 1) (lowered col ∷ seen) cols x (ground arith) p.others,
      )

  check_columns-Distinct :
      (i : ℕ) (seen : List Bytes) (cols : List Column)
      → check_columns unicode i seen cols ≡ none
      → Distinct cols
  unfolding mem_bytes
  check_columns-Distinct i seen [] h = tt
  check_columns-Distinct i seen (col ∷ cols) h =
      let p = check_columns-Passed i seen col cols h in
      (
        check_columns-apart (i + 1) (lowered col ∷ seen) cols (lowered col)
            (ground (arith, bytes_eq_refl (lowered col))) p.others,
        check_columns-Distinct (i + 1) (lowered col ∷ seen) cols p.others,
      )

  -- Columns whose names were not seen and differ from the next one are not seen behind it.
  unseen_behind :
      (x : Bytes) (seen : List Bytes) (cols : List Column)
      → All (λ other. lowered other ≢ x) cols
      → All (λ col. mem_bytes (lowered col) seen ≡ false) cols
      → All (λ col. mem_bytes (lowered col) (x ∷ seen) ≡ false) cols
  unfolding mem_bytes
  unseen_behind x seen [] d u = tt
  unseen_behind x seen (col ∷ cols) d u = (
    elim (Bool-cases (bytes_eq x (lowered col))) [
      | inl hit ↦ absurd (d.0 (sym (bytes_eq_sound x (lowered col) hit)))
      | inr miss ↦ ground (arith, u.0)
    ],
    unseen_behind x seen cols d.1 u.1,
  )

  check_columns-passes :
      (i : ℕ) (seen : List Bytes) (cols : List Column)
      → All IsSafeColumn cols
      → Distinct cols
      → All (λ col. mem_bytes (lowered col) seen ≡ false) cols
      → check_columns unicode i seen cols ≡ none
  unfolding check_columns
  check_columns-passes i seen [] s d u = refl
  check_columns-passes i seen (col ∷ cols) s d u =
      rw (s.0.named, u.0, s.0.directed)
        (check_columns-passes (i + 1) (lowered col ∷ seen) cols s.1 d.1
          (unseen_behind (lowered col) seen cols d.0 u.1))

  unseen_first : (cols : List Column) → All (λ col. mem_bytes (lowered col) [] ≡ false) cols
  unfolding mem_bytes
  unseen_first [] = tt
  unseen_first (col ∷ cols) = (refl, unseen_first cols)

  IsSafe-validate : (spec : Spec) → IsSafe spec → validate unicode spec ≡ none
  unfolding validate
  IsSafe-validate spec s =
      let cols =
        check_columns-passes 0 [] spec.columns s.columns_ok s.distinct
          (unseen_first spec.columns) in
      let low = le→ltb 1 (length spec.columns) s.some_column in
      let high = le→ltb (length spec.columns) 4 s.few_columns in
      rw (s.table_ok, s.index_ok, s.prefixed, low, high) cols

  validate_sound : (spec : Spec) → validate unicode spec ≡ none → IsSafe spec
  unfolding validate
  validate_sound spec h = elim (Bool-cases (is_identifier spec.table)) [
    | inr bad ↦ absurd (ground arith)
    | inl table ↦ elim (Bool-cases (is_identifier spec.index_name)) [
      | inr bad ↦ absurd (ground arith)
      | inl index ↦ elim (Bool-cases (has_prefix spec.index_name required_index_prefix)) [
        | inr bad ↦ absurd (ground arith)
        | inl prefixed ↦
            let cols : check_columns unicode 0 [] spec.columns ≡ none = ground arith in
            record {
              table_ok = table;
              index_ok = index;
              prefixed = prefixed;
              some_column = ground arith;
              few_columns = ground arith;
              columns_ok = check_columns-safe 0 [] spec.columns cols;
              distinct = check_columns-Distinct 0 [] spec.columns cols;
            }
      ]
    ]
  ]

  -- Validate accepts exactly the safe specifications: the table, the index and one to four columns are plain
  -- identifiers, the index has the required prefix, the columns have different names whatever their
  -- case, and each direction is empty, ASC or DESC.
  pub validate-IsSafe : (spec : Spec) → (validate unicode spec ≡ none) ↔ IsSafe spec
  validate-IsSafe spec = (validate_sound spec, IsSafe-validate spec)
