-- ===== src/Webhook/Added.antt =====
-- ExtractAddedSQL of internal/webhook/webhook.go, on the bytes of a diff.
use sql_sentinel.Prelude.{
  ℕ, Bool, false, not, ◌&&◌, ◌||◌, List, [], ◌∷◌, ◌++◌, ◌==◌, map, if◌then◌else◌,
}
use sql_sentinel.Prelude.Bytes.{Bytes, bytes, has_prefix, lower_byte, bytes_eq}
use sql_sentinel.Evaluation.{is_space}

abbrev cons_line : ℕ → List Bytes → List Bytes
cons_line c [] = (c ∷ []) ∷ []
cons_line c (line ∷ lines) = (c ∷ line) ∷ lines

-- strings.Split(s, "\n")
unfoldable pub split_lines : Bytes → List Bytes
split_lines [] = [] ∷ []
split_lines (c ∷ s) = let rest = split_lines s in if c == b'\n' then [] ∷ rest else cons_line c rest

-- strings.TrimSpace, on ASCII: the blanks in front, and those behind.
unfoldable pub trim_left : Bytes → Bytes
trim_left [] = []
trim_left (c ∷ s) = let rest = trim_left s in if is_space c then rest else c ∷ s

abbrev keep_unless_blank : ℕ → Bytes → Bytes
keep_unless_blank c [] = if is_space c then [] else c ∷ []
keep_unless_blank c (d ∷ s) = c ∷ (d ∷ s)

unfoldable pub trim_right : Bytes → Bytes
trim_right [] = []
trim_right (c ∷ s) = keep_unless_blank c (trim_right s)

unfoldable pub trim_space : Bytes → Bytes
unfolding trim_left trim_right
trim_space s = trim_right (trim_left s)

abbrev add_word : Bytes → List Bytes → List Bytes
add_word [] words = words
add_word (c ∷ w) words = (c ∷ w) ∷ words

-- strings.Fields, on ASCII: `word` is the word that was begun.
unfoldable pub fields_from : Bytes → Bytes → List Bytes
fields_from word [] = add_word word []
fields_from word (c ∷ s) =
    let ended = add_word word (fields_from [] s) in
    let longer = fields_from (word ++ c ∷ []) s in if is_space c then ended else longer

-- strings.HasSuffix
unfoldable pub has_suffix : Bytes → Bytes → Bool
unfolding bytes_eq
has_suffix [] part = bytes_eq [] part
has_suffix (c ∷ s) part = bytes_eq (c ∷ s) part || has_suffix s part

abbrev fourth_is_sql : List Bytes → Bool
fourth_is_sql (a ∷ (b ∷ (c ∷ (d ∷ [])))) = has_suffix (map lower_byte d) (bytes ".sql")
fourth_is_sql _ = false

-- The header of a file's part names a `.sql` file; ToLower is taken on ASCII.
unfoldable pub names_sql_file : Bytes → Bool
unfolding fields_from has_suffix
names_sql_file line = fourth_is_sql (fields_from [] line)

pub record Extraction : Type 0 where
  pub sqls : List Bytes
  pub current : Bytes
  pub in_sql_file : Bool

abbrev added_to : Bytes → List Bytes → List Bytes
added_to [] sqls = sqls
added_to (c ∷ sql) sqls = sqls ++ (c ∷ sql) ∷ []

unfoldable pub flush_sql : Extraction → Extraction
unfolding trim_space
flush_sql e = record e { sqls = added_to (trim_space e.current) e.sqls; current = [] }

abbrev pub header : Bytes
header = bytes "diff --git "

abbrev drop_first : Bytes → Bytes
drop_first [] = []
drop_first (c ∷ s) = s

unfoldable pub read_line : Bytes → Extraction → Extraction
unfolding flush_sql names_sql_file has_prefix
read_line line e =
    if has_prefix line header
    then record (flush_sql e) { in_sql_file = names_sql_file line }
    else if e.in_sql_file && has_prefix line (bytes "+") && not (has_prefix line (bytes "+++"))
    then record e { current = e.current ++ (drop_first line ++ b'\n' ∷ []) }
    else e

unfoldable pub read_lines : List Bytes → Extraction → Extraction
unfolding read_line
read_lines [] e = e
read_lines (line ∷ lines) e = read_lines lines (read_line line e)

unfoldable pub extract_added_sql : Bytes → List Bytes
unfolding split_lines read_lines flush_sql
extract_added_sql diff =
    (flush_sql (
      read_lines (split_lines diff) (record { sqls = []; current = []; in_sql_file = false }))).sqls
