-- ===== src/Samples/Statements.antt =====
-- internal/sqladmit on concrete statements.
use sql_sentinel.Prelude.{◌≡◌, refl, Option, none, some, inr}
use sql_sentinel.Prelude.Bytes.{Bytes, bytes}
use sql_sentinel.SqlAdmit.{unterminated, executable_comment, Scan, scan}
use sql_sentinel.SqlAdmit.Decision.{
  admit, locking_read, write_or_ddl_statement, multiple_statements, scan_failed,
}
use sql_sentinel.SqlAdmit.Accepted.{IsReadOnly, admit-IsReadOnly}

abbrev keep_case : Bytes → Bytes
keep_case s = s

abbrev no_objection : Bytes → Option Bytes
no_objection sql = none

abbrev query : Bytes
query = bytes "select id from orders where note = 'DROP it' # DELETE"

admit-IsReadOnly_example :
    (st : Scan) × (scan keep_case query ≡ inr st) × IsReadOnly st × (no_objection query ≡ none)
unfolding admit
admit-IsReadOnly_example = admit-IsReadOnly keep_case no_objection query refl

-- What is refused, and why.
refused :
    ((admit keep_case no_objection (bytes "SELECT 1 FOR UPDATE")).reason_code ≡ some locking_read)
    × ((admit keep_case no_objection (bytes "WITH a AS (DELETE")).reason_code
        ≡ some write_or_ddl_statement)
    × ((admit keep_case no_objection (bytes "SELECT 1; SELECT 2")).reason_code
        ≡ some multiple_statements)
    × ((admit keep_case no_objection (bytes "SELECT 1 /*! 2 */")).reason_code
        ≡ some (scan_failed executable_comment))
    × ((admit keep_case no_objection (bytes "SELECT 'a")).reason_code
        ≡ some (scan_failed unterminated))
unfolding admit
refused = (refl, refl, refl, refl, refl)
