-- ===== src/PlanCompare/Parse.antt =====
-- Parse and walk of internal/plancompare/compare.go: the accesses of tables in the tree of an EXPLAIN.
-- The fields of an object stand in the order in which Go visits the map, and a key stands once.
pub mod Nodes
pub mod Walk
use sql_sentinel.Prelude.{
  ℕ, zero, suc, ◌+◌, ◌*◌, ◌-◌, String, Bool, true, false, not, ◌&&◌, ◌||◌, Option, none, some, ◌⊎◌,
  inl, inr, List, [], ◌∷◌, ◌++◌, leb, ◌==◌, str_eq, if◌then◌else◌,
}
use sql_sentinel.Prelude.Int.{ℤ, pos, sub_ℕ, fits_int64}
use sql_sentinel.Prelude.Text.{codes}
use sql_sentinel.Json.{
  Json, null, bool, num, str, arr, obj, Items, nil, cons, Fields, end, field, Stream, Next, value,
  eof, bad, next, at_end,
}
use sql_sentinel.PlanCompare.{TableAccess, Summary}

-- values[key]
unfoldable pub lookup_field : String → Fields → Option Json
lookup_field key end = none
lookup_field key (field name v rest) = if str_eq name key then some v else lookup_field key rest

abbrev pub text_of : Option Json → String
text_of (some (str s)) = s
text_of _ = ""

unfoldable pub string_field : Fields → String → String
unfolding lookup_field
string_field fields key = text_of (lookup_field key fields)

unfoldable pub texts : Items → List String
texts nil = []
texts (cons (str s) rest) = s ∷ texts rest
texts (cons _ rest) = texts rest

abbrev texts_of : Option Json → List String
texts_of (some (arr items)) = texts items
texts_of _ = []

unfoldable pub strings_field : Fields → String → List String
unfolding lookup_field texts
strings_field fields key = texts_of (lookup_field key fields)

abbrev is_digit : ℕ → Bool
is_digit c = leb b'0' c && leb c b'9'

-- The number that digits spell, behind the digits that were read.
unfoldable pub read_digits : ℕ → List ℕ → Option ℕ
read_digits n [] = some n
read_digits n (c ∷ rest) =
    let more = read_digits (n * 10 + (c - b'0')) rest in if is_digit c then more else none

unfoldable pub read_unsigned : List ℕ → Option ℕ
unfolding read_digits
read_unsigned [] = none
read_unsigned (c ∷ rest) = read_digits 0 (c ∷ rest)

abbrev as_positive : Option ℕ → Option ℤ
as_positive none = none
as_positive (some n) = some (pos n)

abbrev as_negative : Option ℕ → Option ℤ
as_negative none = none
as_negative (some n) = some (sub_ℕ 0 n)

unfoldable pub read_signed : List ℕ → Option ℤ
unfolding read_unsigned
read_signed [] = none
read_signed (c ∷ rest) =
    if c == b'-'
    then as_negative (read_unsigned rest)
    else if c == b'+'
    then as_positive (read_unsigned rest)
    else as_positive (read_unsigned (c ∷ rest))

abbrev within_int64 : Option ℤ → Option ℤ
within_int64 none = none
within_int64 (some n) = if fits_int64 n then some n else none

-- strconv.ParseInt(text, 10, 64)
unfoldable pub parse_int64 : String → Option ℤ
unfolding read_signed
parse_int64 text = within_int64 (read_signed (codes text))

abbrev int_of : Option Json → Option ℤ
int_of (some (num n)) = within_int64 n
int_of (some (str s)) = parse_int64 s
int_of _ = none

unfoldable pub int64_field : Fields → String → Option ℤ
unfolding lookup_field parse_int64
int64_field fields key = int_of (lookup_field key fields)

abbrev pub flag_of : Option Json → Bool
flag_of (some (bool b)) = b
flag_of _ = false

unfoldable pub bool_field : Fields → String → Bool
unfolding lookup_field
bool_field fields key = flag_of (lookup_field key fields)

-- The access that an object tells of, if it names a table.
abbrev pub access : String → Fields → TableAccess
access name fields = record {
  table_name = name;
  access_type = string_field fields "access_type";
  possible_keys = strings_field fields "possible_keys";
  key = string_field fields "key";
  rows_examined_per_scan = int64_field fields "rows_examined_per_scan";
  using_index = bool_field fields "using_index";
}

abbrev pub accesses : Option Json → Fields → List TableAccess
accesses (some (str name)) fields = access name fields ∷ []
accesses _ fields = []

-- What an object itself adds to the summary.
unfoldable pub note_object : Fields → Summary → Summary
unfolding lookup_field string_field strings_field int64_field bool_field
note_object fields s = record {
  tables = s.tables ++ accesses (lookup_field "table_name" fields) fields;
  uses_filesort = s.uses_filesort || bool_field fields "using_filesort";
}

unfoldable mutual
  unfolding note_object

  pub walk : Json → Summary → Summary
  walk (obj fields) s = walk_fields fields (note_object fields s)
  walk (arr items) s = walk_items items s
  walk null s = s
  walk (bool b) s = s
  walk (num n) s = s
  walk (str t) s = s

  pub walk_fields : Fields → Summary → Summary
  walk_fields end s = s
  walk_fields (field name v rest) s = walk_fields rest (walk v s)

  pub walk_items : Items → Summary → Summary
  walk_items nil s = s
  walk_items (cons v rest) s = walk_items rest (walk v s)

abbrev pub empty_summary : Summary
empty_summary = record { tables = []; uses_filesort = false }

-- Decode of the rest fails at its end, and where something stands that is no value; only a value is
-- trailing.
abbrev has_trailing : Stream → Bool
has_trailing s = elim (next s) [ value v r ↦ true | eof ↦ false | bad ↦ false ]

abbrev parse_next : Next → Option Summary
parse_next (value v rest) = if has_trailing rest then none else some (walk v empty_summary)
parse_next eof = none
parse_next bad = none

-- The summary of a plan; `none` is an error. The plan keeps the bytes beside it.
unfoldable pub parse : Stream → Option Summary
unfolding walk
parse raw = parse_next (next raw)
