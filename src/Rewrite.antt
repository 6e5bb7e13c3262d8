-- ===== src/Rewrite.antt =====
-- internal/rewrite/rewrite.go: Is and Decode. Analyze of internal/sqladmit/ast.go, which walks the
-- tree of a third-party parser, is a parameter.
pub mod Admitted
use sql_sentinel.Prelude.{
  ℕ, ◌+◌, ◌*◌, String, Bool, true, false, not, ◌&&◌, ◌||◌, Option, none, some, ◌⊎◌, inl, inr, List,
  [], ◌∷◌, ltb, str_eq, length, if◌then◌else◌,
}
use sql_sentinel.Prelude.Text.{byte_length}
use sql_sentinel.Json.{
  Json, Stream, Next, value, eof, bad, next, at_end, read_struct, read_string, same_key,
}

pub record Spec : Type 0 where
  pub kind : String
  pub sql : String

pub record Analysis : Type 0 where
  pub tables : List String
  pub ordered : Bool
  pub unordered_limit : Bool

-- `none` is an error.
abbrev pub Analyze : Type 0
Analyze = String → Option Analysis

abbrev zero_spec : Spec
zero_spec = record { kind = ""; sql = "" }

abbrev set_text : Option String → (String → Spec) → Option Spec
set_text none f = none
set_text (some s) f = some (f s)

unfoldable pub store_spec : String → Json → Spec → Option Spec
unfolding read_string same_key
store_spec k v s =
    if same_key "kind" k
    then set_text (read_string s.kind v) (λ x. record s { kind = x })
    else if same_key "sql" k
    then set_text (read_string s.sql v) (λ x. record s { sql = x })
    else none

-- A struct with `kind` alone; Unmarshal ignores the other fields.
unfoldable pub store_kind : String → Json → String → Option String
unfolding read_string same_key
store_kind k v old = if same_key "kind" k then read_string old v else some old

abbrev is_rewrite_kind : Option String → Bool
is_rewrite_kind none = false
is_rewrite_kind (some k) = str_eq k "rewrite"

abbrev kind_of_next : Next → Bool
kind_of_next (value v rest) = at_end rest && is_rewrite_kind (read_struct store_kind v "")
kind_of_next eof = false
kind_of_next bad = false

-- Is: the bytes are one value, an object with that kind.
unfoldable pub is_rewrite : Stream → Bool
unfolding read_struct store_kind
is_rewrite raw = kind_of_next (next raw)

abbrev pub max_bytes : ℕ
max_bytes = 64 * 1024

abbrev after_value : Option Spec → Bool → Option Spec
after_value none ended = none
after_value (some s) ended =
    if not ended
      || not (str_eq s.kind "rewrite")
      || str_eq s.sql ""
      || ltb max_bytes (byte_length s.sql)
    then none
    else some s

abbrev spec_of_next : Next → Option Spec
spec_of_next (value v rest) = after_value (read_struct store_spec v zero_spec) (at_end rest)
spec_of_next eof = none
spec_of_next bad = none

-- The first test of Decode; `size` is the number of bytes.
unfoldable pub decode_spec : ℕ → Stream → Option Spec
unfolding read_struct store_spec
decode_spec size raw = if ltb max_bytes size then none else spec_of_next (next raw)

-- slices.Equal
unfoldable pub same_texts : List String → List String → Bool
same_texts [] [] = true
same_texts [] (y ∷ ys) = false
same_texts (x ∷ xs) [] = false
same_texts (x ∷ xs) (y ∷ ys) = str_eq x y && same_texts xs ys

abbrev is_nil : List String → Bool
is_nil [] = true
is_nil (x ∷ xs) = false

abbrev same_order : Bool → Bool → Bool
same_order true b = b
same_order false b = not b

-- The tests on the two statements.
unfoldable pub comparable : Analysis → Analysis → Bool
unfolding same_texts
comparable a b = not (
    is_nil a.tables
    || not (same_texts a.tables b.tables)
    || not (same_order a.ordered b.ordered)
    || a.unordered_limit
    || b.unordered_limit)

abbrev pub check_both : Option Analysis → Option Analysis → Bool
check_both (some a) (some b) = comparable a b
check_both _ _ = false

abbrev pub admitted : Analyze → String → Option Spec → Option Spec
admitted analyze original none = none
admitted analyze original (some s) =
    if check_both (analyze original) (analyze s.sql) then some s else none

-- `none` is ErrInvalid.
unfoldable pub decode : Analyze → ℕ → Stream → String → Option Spec
unfolding decode_spec comparable
decode analyze size raw original = admitted analyze original (decode_spec size raw)
