-- ===== src/ShadowGate.antt =====
-- internal/shadowgate/gate.go: Prepare, which admits a statement and an index before any database is
-- asked, and the checks and the creation of the index on the candidate.
pub mod Prepare
pub mod Index
pub mod Run
use sql_sentinel.Prelude.{
  ℕ, ◌≡◌, Bool, true, false, not, ◌&&◌, ◌||◌, Option, none, some, List, [], ◌∷◌, ◌⊎◌, inl, inr, any,
  map, ◌==◌, if◌then◌else◌,
}
use sql_sentinel.Prelude.Bytes.{Bytes, bytes, bytes_eq}
use sql_sentinel.Candidate.{Column, Spec, Refusal, compile_create_index, direction_of}
use sql_sentinel.SqlAdmit.{
  Mode, code, single, double, backquote, line, block, next_byte, has_next, second_byte, has_second,
}
use sql_sentinel.SqlAdmit.Decision.{AdmitResult, ReasonCode, Signal, admit}

-- Where hasBindPlaceholder stands, and whether the byte behind is passed over.
abbrev pub Move : Type 0
Move = Mode × Bool

abbrev pub quoted_move : Mode → ℕ → ℕ → Bytes → Move
quoted_move state mark c rest =
    if (c == b'\\') && has_next rest
    then (state, true)
    else if (c == mark) && (next_byte rest == mark)
    then (state, true)
    else if c == mark
    then (code, false)
    else (state, false)

abbrev pub backquote_move : ℕ → Bytes → Move
backquote_move c rest =
    if (c == b'`') && (next_byte rest == b'`')
    then (backquote, true)
    else if c == b'`'
    then (code, false)
    else (backquote, false)

-- The blanks behind -- are fewer than those of the scanner.
abbrev pub is_blank : ℕ → Bool
is_blank c = (c == b' ') || (c == b'\t') || (c == b'\r') || (c == b'\n')

abbrev pub code_move : ℕ → Bytes → Move
code_move c rest =
    if (c == b'-') && (next_byte rest == b'-') && has_second rest && is_blank (second_byte rest)
    then (line, true)
    else if c == b'#'
    then (line, false)
    else if (c == b'/') && (next_byte rest == b'*')
    then (block, true)
    else if c == b'\''
    then (single, false)
    else if c == b'"'
    then (double, false)
    else if c == b'`'
    then (backquote, false)
    else (code, false)

abbrev pub move : Mode → ℕ → Bytes → Move
move code c rest = code_move c rest
move single c rest = quoted_move single b'\'' c rest
move double c rest = quoted_move double b'"' c rest
move backquote c rest = backquote_move c rest
move line c rest = if c == b'\n' then (code, false) else (line, false)
move block c rest = if (c == b'*') && (next_byte rest == b'/') then (code, true) else (block, false)

abbrev pub is_marker : Mode → ℕ → Bool
is_marker code c = c == b'?'
is_marker _ c = false

unfoldable pub has_placeholder_from : Mode → Bool → Bytes → Bool
has_placeholder_from state passed [] = false
has_placeholder_from state true (c ∷ rest) = has_placeholder_from state false rest
has_placeholder_from state false (c ∷ rest) =
    let (state', skipped) = move state c rest in
    let found = has_placeholder_from state' skipped rest in is_marker state c || found

unfoldable pub has_bind_placeholder : Bytes → Bool
unfolding has_placeholder_from
has_bind_placeholder s = has_placeholder_from code false s

pub data PrepareErr : Type 0 where
  sql_rejected : Option ReasonCode → PrepareErr
  placeholder_unsupported unsupported_table : PrepareErr
  inspect_error : Bytes → PrepareErr
  bad_spec : Refusal → PrepareErr

pub record Prepared : Type 0 where
  pub sql : Bytes
  pub sql_signals : List Signal
  pub spec : Spec
  pub ddl : Bytes

-- Inspect answers with the tables or an error; `equal_fold` is strings.EqualFold.
module _ (unicode : Bytes → Bytes) (inspect : Bytes → Bytes ⊎ List Bytes)
    (equal_fold : Bytes → Bytes → Bool) where
  -- The error of Inspect.
  abbrev pub objection : Bytes ⊎ List Bytes → Option Bytes
  objection (inl e) = some e
  objection (inr tables) = none

  abbrev pub with_ddl : Bytes → List Signal → Spec → Refusal ⊎ Bytes → PrepareErr ⊎ Prepared
  with_ddl sql signals spec (inl e) = inl (bad_spec e)
  with_ddl sql signals spec (inr ddl) =
      inr (record { sql = sql; sql_signals = signals; spec = spec; ddl = ddl })

  abbrev pub with_tables : Bytes → List Signal → Spec → Bytes ⊎ List Bytes → PrepareErr ⊎ Prepared
  with_tables sql signals spec (inl e) = inl (inspect_error e)
  with_tables sql signals spec (inr tables) =
      if not (any (λ t. equal_fold t spec.table) tables)
      then inl unsupported_table
      else with_ddl sql signals spec (compile_create_index unicode spec)

  unfoldable pub prepare : Bytes → Spec → PrepareErr ⊎ Prepared
  unfolding admit has_bind_placeholder compile_create_index
  prepare sql spec =
      let admission = admit unicode (λ s. objection (inspect s)) sql in
      if not (admission.accepted)
      then inl (sql_rejected admission.reason_code)
      else if has_bind_placeholder sql
      then inl placeholder_unsupported
      else with_tables sql admission.signals spec (inspect sql)

pub record IndexColumn : Type 0 where
  pub column : Bytes
  pub order : Bytes

-- expectedIndex: a name and a direction for each column.
unfoldable pub expected_index : (Bytes → Bytes) → List Column → List IndexColumn
unfolding direction_of
expected_index unicode [] = []
expected_index unicode (col ∷ cols) =
    record { column = col.name; order = direction_of unicode col } ∷ expected_index unicode cols

unfoldable pub same_index : List IndexColumn → List IndexColumn → Bool
unfolding bytes_eq
same_index [] [] = true
same_index [] (y ∷ ys) = false
same_index (x ∷ xs) [] = false
same_index (x ∷ xs) (y ∷ ys) =
    bytes_eq x.column y.column && bytes_eq x.order y.order && same_index xs ys

pub data IndexErr (E : Type 0) : Type 0 where
  inspect_index create_index_failed : E → IndexErr E
  index_definition_conflict : IndexErr E

-- The candidate's database: what existingIndex reads of an index, and a statement that is executed.
pub record Database (S E : Type 0) : Type 0 where
  pub existing_index : Bytes → Bytes → S → E ⊎ List IndexColumn
  pub exec : Bytes → S → Option E × S

module _ {S E : Type 0} (db : Database S E) (unicode : Bytes → Bytes) where
  abbrev pub executed : Option E × S → (IndexErr E ⊎ Bool) × S
  executed (some e, s) = (inl (create_index_failed e), s)
  executed (none, s) = (inr true, s)

  abbrev pub with_actual : Prepared → E ⊎ List IndexColumn → S → (IndexErr E ⊎ Bool) × S
  with_actual p (inl e) s = (inl (inspect_index e), s)
  with_actual p (inr []) s = executed (db.exec p.ddl s)
  with_actual p (inr (a ∷ actual)) s = (
    if not (same_index (a ∷ actual) (expected_index unicode p.spec.columns))
        then inl index_definition_conflict
        else inr false,
    s,
  )

  -- Whether the index was created.
  unfoldable pub ensure_candidate_index : Prepared → S → (IndexErr E ⊎ Bool) × S
  unfolding same_index expected_index
  ensure_candidate_index p s = with_actual p (db.existing_index p.spec.table p.spec.index_name s) s
