-- ===== src/SqlAdmit/Decision.antt =====
-- Admit of internal/sqladmit/admit.go. Inspect, which walks the tree of the TiDB parser, is a
-- parameter: `none` is nil.
use sql_sentinel.Prelude.{
  Bool, true, false, not, ◌&&◌, ◌||◌, Option, none, some, List, [], ◌∷◌, ◌++◌, ◌⊎◌, inl, inr, ltb,
  if◌then◌else◌,
}
use sql_sentinel.Prelude.Bytes.{Bytes, bytes, bytes_eq, has_prefix, join}
use sql_sentinel.SqlAdmit.{ScanErr, Scan, scan}

pub data ReasonCode : Type 0 where
  scan_failed : ScanErr → ReasonCode
  empty_sql multiple_statements not_readonly_select : ReasonCode
  locking_read write_or_ddl_statement select_into_file : ReasonCode
  inspect_failed : Bytes → ReasonCode

pub data Signal : Type 0 where
  select_star leading_wildcard_like function_on_probable_column : Signal

-- `none` is an empty reason.
pub record AdmitResult : Type 0 where
  pub accepted : Bool
  pub reason_code : Option ReasonCode
  pub signals : List Signal

abbrev pub refuse : ReasonCode → AdmitResult
refuse code = record { accepted = false; reason_code = some code; signals = [] }

-- strings.Contains(s, p)
unfoldable pub contains : Bytes → Bytes → Bool
unfolding has_prefix
contains [] p = has_prefix [] p
contains (c ∷ s) p = has_prefix (c ∷ s) p || contains s p

-- " " + strings.Join(tokens, " ") + " "
abbrev pub spaced : List Bytes → Bytes
spaced tokens = bytes " " ++ (join (bytes " ") tokens ++ bytes " ")

-- The tokens that are no literals.
unfoldable pub code_tokens : List Bytes → List Bytes
unfolding has_prefix
code_tokens [] = []
code_tokens (t ∷ ts) =
    let rest = code_tokens ts in if not (has_prefix t (bytes "'")) then t ∷ rest else rest

pub record Phrase : Type 0 where
  pub code : ReasonCode
  pub phrase : Bytes

abbrev pub forbidden : List Phrase
forbidden =
    record { code = locking_read; phrase = bytes " FOR UPDATE " }
    ∷ record { code = locking_read; phrase = bytes " LOCK IN SHARE MODE " }
    ∷ record { code = write_or_ddl_statement; phrase = bytes " INSERT " }
    ∷ record { code = write_or_ddl_statement; phrase = bytes " UPDATE " }
    ∷ record { code = write_or_ddl_statement; phrase = bytes " DELETE " }
    ∷ record { code = write_or_ddl_statement; phrase = bytes " CREATE " }
    ∷ record { code = write_or_ddl_statement; phrase = bytes " ALTER " }
    ∷ record { code = write_or_ddl_statement; phrase = bytes " DROP " }
    ∷ record { code = select_into_file; phrase = bytes " INTO OUTFILE " }
    ∷ record { code = select_into_file; phrase = bytes " INTO DUMPFILE " }
    ∷ []

-- The code of the first phrase that the text contains.
unfoldable pub first_forbidden : Bytes → List Phrase → Option ReasonCode
unfolding contains
first_forbidden text [] = none
first_forbidden text (p ∷ ps) =
    let rest = first_forbidden text ps in if contains text p.phrase then some p.code else rest

unfoldable pub has_select_star : List Bytes → Bool
unfolding bytes_eq
has_select_star [] = false
has_select_star (t ∷ []) = false
has_select_star (t ∷ (u ∷ ts)) =
    (bytes_eq t (bytes "SELECT") && bytes_eq u (bytes "*")) || has_select_star (u ∷ ts)

-- f ( x, with x no closing bracket
unfoldable pub calls : Bytes → List Bytes → Bool
unfolding bytes_eq
calls f [] = false
calls f (t ∷ []) = false
calls f (t ∷ (u ∷ [])) = false
calls f (t ∷ (u ∷ (v ∷ ts))) =
    (bytes_eq t f && bytes_eq u (bytes "(") && not (bytes_eq v (bytes ")")))
    || calls f (u ∷ (v ∷ ts))

unfoldable pub has_function_on_column : List Bytes → Bool
unfolding calls
has_function_on_column ts =
    calls (bytes "LOWER") ts
    || calls (bytes "UPPER") ts
    || calls (bytes "DATE") ts
    || calls (bytes "YEAR") ts
    || calls (bytes "MONTH") ts

abbrev signal_if : Bool → Signal → List Signal
signal_if true s = s ∷ []
signal_if false s = []

unfoldable pub signals_of : List Bytes → List Signal
unfolding has_select_star has_function_on_column contains join
signals_of tokens =
    signal_if (has_select_star tokens) select_star
    ++ (signal_if (contains (spaced tokens) (bytes " LIKE '%")) leading_wildcard_like
        ++ signal_if (has_function_on_column tokens) function_on_probable_column)

abbrev pub inspected : Option Bytes → List Bytes → AdmitResult
inspected (some e) tokens = refuse (inspect_failed e)
inspected none tokens = record { accepted = true; reason_code = none; signals = signals_of tokens }

abbrev pub unless : Option ReasonCode → AdmitResult → AdmitResult
unless (some code) r = refuse code
unless none r = r

abbrev pub is_select : Bytes → Bool
is_select t = bytes_eq t (bytes "SELECT") || bytes_eq t (bytes "WITH")

-- Admit behind the scanner.
unfoldable pub admit_scanned : Scan → Option Bytes → AdmitResult
unfolding bytes_eq join code_tokens first_forbidden signals_of
admit_scanned st inspection = elim (st.tokens) [
  | [] ↦ refuse empty_sql
  | first ∷ others ↦
      if ltb 1 st.semis || st.token_after_semicolon
      then refuse multiple_statements
      else if not (is_select first)
      then refuse not_readonly_select
      else unless (first_forbidden (spaced (code_tokens (first ∷ others))) forbidden)
          (inspected inspection (first ∷ others))
]

abbrev pub admit_scan : ScanErr ⊎ Scan → Option Bytes → AdmitResult
admit_scan (inl e) inspection = refuse (scan_failed e)
admit_scan (inr st) inspection = admit_scanned st inspection

unfoldable pub admit : (Bytes → Bytes) → (Bytes → Option Bytes) → Bytes → AdmitResult
unfolding scan admit_scanned
admit unicode inspect sql = admit_scan (scan unicode sql) (inspect sql)
