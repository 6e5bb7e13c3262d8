-- ===== src/Candidate.antt =====
-- internal/candidate/spec.go: Spec, Validate and CompileCreateIndex.
pub mod Sound
pub mod Quoting
use sql_sentinel.Prelude.{
  inl, inr, ◌⊎◌, ℕ, suc, ◌+◌, ◌≡◌, Bool, true, false, not, ◌&&◌, ◌||◌, Option, none, some, List, [],
  ◌∷◌, ◌++◌, map, length, all, ltb, leb, ◌==◌, if◌then◌else◌,
}
use sql_sentinel.Prelude.Bytes.{
  Bytes, bytes, bytes_eq, mem_bytes, has_prefix, in_range, lower_byte, to_upper, join,
}

pub record Column : Type 0 where
  pub name : Bytes
  pub direction : Bytes

pub record Spec : Type 0 where
  pub table : Bytes
  pub index_name : Bytes
  pub columns : List Column

-- The errors of Validate, with the position of the column.
pub data Refusal : Type 0 where
  unsafe_table unsafe_index_name missing_prefix bad_column_count : Refusal
  unsafe_column duplicate_column bad_direction : ℕ → Refusal

abbrev pub required_index_prefix : Bytes
required_index_prefix = bytes "idx_cand_"

abbrev pub is_start : ℕ → Bool
is_start c = in_range b'A' b'Z' c || in_range b'a' b'z' c || (c == b'_')

abbrev pub is_word : ℕ → Bool
is_word c = is_start c || in_range b'0' b'9' c

-- The expression `identifier` matches.
unfoldable pub is_identifier : Bytes → Bool
is_identifier [] = false
is_identifier (c ∷ rest) = is_start c && all is_word rest && leb (length rest) 63

-- strings.ToLower of a name that is an identifier, so ASCII.
abbrev pub lowered : Column → Bytes
lowered col = map lower_byte col.name

abbrev pub is_direction : Bytes → Bool
is_direction d = bytes_eq d [] || bytes_eq d (bytes "ASC") || bytes_eq d (bytes "DESC")

abbrev pub quote_identifier : Bytes → Bytes
quote_identifier value = b'`' ∷ (value ++ (b'`' ∷ []))

-- `unicode` is the case mapping of texts that are not ASCII.
module _ (unicode : Bytes → Bytes) where
  -- The loop of Validate over the columns, from column i on.
  unfoldable pub check_columns : ℕ → List Bytes → List Column → Option Refusal
  unfolding is_identifier mem_bytes to_upper bytes_eq
  check_columns i seen [] = none
  check_columns i seen (col ∷ cols) =
      let rest = check_columns (i + 1) (lowered col ∷ seen) cols in
      if not (is_identifier col.name)
      then some (unsafe_column i)
      else if mem_bytes (lowered col) seen
      then some (duplicate_column i)
      else if not (is_direction (to_upper unicode col.direction))
      then some (bad_direction i)
      else rest

  -- `none` is nil.
  unfoldable pub validate : Spec → Option Refusal
  unfolding check_columns has_prefix is_identifier
  validate spec =
      if not (is_identifier spec.table)
      then some unsafe_table
      else if not (is_identifier spec.index_name)
      then some unsafe_index_name
      else if not (has_prefix spec.index_name required_index_prefix)
      then some missing_prefix
      else if ltb (length spec.columns) 1 || ltb 4 (length spec.columns)
      then some bad_column_count
      else check_columns 0 [] spec.columns

  unfoldable pub direction_of : Column → Bytes
  unfolding to_upper bytes_eq
  direction_of col =
      let direction = to_upper unicode col.direction in
      if bytes_eq direction [] then bytes "ASC" else direction

  abbrev pub column_text : Column → Bytes
  column_text col = quote_identifier col.name ++ (bytes " " ++ direction_of col)

  -- The statement of a specification that is valid.
  unfoldable pub create_index : Spec → Bytes
  unfolding direction_of join
  create_index spec =
      bytes "CREATE INDEX "
      ++ (quote_identifier spec.index_name
          ++ (bytes " ON "
              ++ (quote_identifier spec.table
                  ++ (bytes " ("
                      ++ (join (bytes ", ") (map column_text spec.columns) ++ bytes ")")))))

  abbrev pub compiled : Option Refusal → Bytes → Refusal ⊎ Bytes
  compiled none text = inr text
  compiled (some e) text = inl e

  unfoldable pub compile_create_index : Spec → Refusal ⊎ Bytes
  unfolding validate create_index
  compile_create_index spec = compiled (validate spec) (create_index spec)
