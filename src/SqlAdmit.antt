-- ===== src/SqlAdmit.antt =====
-- internal/sqladmit/admit.go: the scanner of a statement.
pub mod Decision
pub mod Spaced
pub mod Accepted
pub mod Invisible
use sql_sentinel.Prelude.{
  ◌+◌, ℕ, suc, ◌≡◌, Bool, true, false, not, ◌&&◌, ◌||◌, Option, none, some, List, [], ◌∷◌, ◌++◌,
  ◌⊎◌, inl, inr, ltb, ◌==◌, if◌then◌else◌,
}
use sql_sentinel.Prelude.Bytes.{Bytes, bytes, has_prefix, in_range, to_upper}

-- `state`: code, a quoted text, or a comment.
pub data Mode : Type 0 where
  code single double backquote line block : Mode

pub data ScanErr : Type 0 where
  unterminated executable_comment : ScanErr

-- The variables of scan; `word` is its b.
pub record Scan : Type 0 where
  pub tokens : List Bytes
  pub word : Bytes
  pub literal : Bytes
  pub semis : ℕ
  pub token_after_semicolon : Bool
  pub mode : Mode

abbrev pub start : Scan
start = record {
  tokens = [];
  word = [];
  literal = [];
  semis = 0;
  token_after_semicolon = false;
  mode = code;
}

-- unicode.IsSpace, IsLetter and IsDigit of rune(c) for a byte c.
abbrev pub is_space : ℕ → Bool
is_space c = in_range 9 13 c || (c == b' ') || (c == 0x85) || (c == 0xa0)

abbrev pub is_letter : ℕ → Bool
is_letter c =
    in_range b'A' b'Z' c
    || in_range b'a' b'z' c
    || (c == 0xaa)
    || (c == 0xb5)
    || (c == 0xba)
    || in_range 0xc0 0xd6 c
    || in_range 0xd8 0xf6 c
    || in_range 0xf8 0xff c

abbrev pub is_word_byte : ℕ → Bool
is_word_byte c = is_letter c || in_range b'0' b'9' c || (c == b'_') || (c == b'%')

-- The byte behind, with 0 for none, and whether there is one.
abbrev pub next_byte : Bytes → ℕ
next_byte [] = 0
next_byte (d ∷ rest) = d

abbrev pub has_next : Bytes → Bool
has_next [] = false
has_next (d ∷ rest) = true

abbrev pub append_token : Bytes → Scan → Scan
append_token token st = record st {
  tokens = st.tokens ++ token ∷ [];
  token_after_semicolon = ltb 0 st.semis || st.token_after_semicolon;
}

-- `true` says that the byte behind is passed over.
abbrev pub Move : Type 0
Move = ScanErr ⊎ (Scan × Bool)

abbrev pub stay : Scan → Move
stay st = inr (st, false)

abbrev pub skip : Scan → Move
skip st = inr (st, true)

unfoldable pub step_single : Scan → ℕ → Bytes → Move
step_single st c rest =
    if (c == b'\\') && has_next rest
    then skip (record st { literal = st.literal ++ next_byte rest ∷ [] })
    else if (c == b'\'') && (next_byte rest == b'\'')
    then skip (record st { literal = st.literal ++ c ∷ [] })
    else if c == b'\''
    then stay (record (append_token (b'\'' ∷ (st.literal ++ b'\'' ∷ [])) st) {
      literal = [];
      mode = code;
    })
    else stay (record st { literal = st.literal ++ c ∷ [] })

unfoldable pub step_double : Scan → ℕ → Bytes → Move
step_double st c rest =
    if (c == b'\\') && has_next rest
    then skip st
    else if (c == b'"') && (next_byte rest == b'"')
    then skip st
    else if c == b'"'
    then stay (record st { mode = code })
    else stay st

unfoldable pub step_backquote : Scan → ℕ → Bytes → Move
step_backquote st c rest =
    if (c == b'`') && (next_byte rest == b'`')
    then skip st
    else if c == b'`'
    then stay (record st { mode = code })
    else stay st

unfoldable pub step_line : Scan → ℕ → Bytes → Move
step_line st c rest = if c == b'\n' then stay (record st { mode = code }) else stay st

unfoldable pub step_block : Scan → ℕ → Bytes → Move
step_block st c rest =
    if (c == b'*') && (next_byte rest == b'/') then skip (record st { mode = code }) else stay st

-- s[i+2], with 0 for none.
abbrev pub second_byte : Bytes → ℕ
second_byte [] = 0
second_byte (d ∷ rest) = next_byte rest

abbrev pub has_second : Bytes → Bool
has_second [] = false
has_second (d ∷ rest) = has_next rest

abbrev after_three : Bytes → Bytes
after_three (a ∷ (b ∷ (c ∷ s))) = s
after_three s = s

-- strings.TrimPrefix(s, "\uFEFF")
unfoldable pub trim_mark : Bytes → Bytes
unfolding has_prefix
trim_mark s = if has_prefix s (0xef ∷ 0xbb ∷ 0xbf ∷ []) then after_three s else s

-- `unicode` is the case mapping of texts that are not ASCII.
module _ (unicode : Bytes → Bytes) where
  abbrev pub flushed : Bytes → Scan → Scan
  flushed [] st = st
  flushed (c ∷ word) st = record (append_token (to_upper unicode (c ∷ word)) st) { word = [] }

  abbrev pub flush : Scan → Scan
  flush st = flushed st.word st

  unfoldable pub step_code : Scan → ℕ → Bytes → Move
  unfolding to_upper
  step_code st c rest =
      if (c == b'-') && (next_byte rest == b'-') && has_second rest && is_space (second_byte rest)
      then skip (record (flush st) { mode = line })
      else if c == b'#'
      then stay (record (flush st) { mode = line })
      else if (c == b'/') && (next_byte rest == b'*')
      then (if has_second rest && (second_byte rest == b'!')
          then inl executable_comment
          else skip (record (flush st) { mode = block }))
      else if c == b'\''
      then stay (record (flush st) { mode = single })
      else if c == b'"'
      then stay (record (flush st) { mode = double })
      else if c == b'`'
      then stay (record (flush st) { mode = backquote })
      else if c == b';'
      then stay (record (flush st) { semis = (flush st).semis + 1 })
      else if c == b'*'
      then stay (append_token (bytes "*") (flush st))
      else if (c == b'(') || (c == b')')
      then stay (append_token (c ∷ []) (flush st))
      else if is_word_byte c
      then stay (record st { word = st.word ++ c ∷ [] })
      else stay (flush st)

  abbrev pub step_in : Mode → Scan → ℕ → Bytes → Move
  step_in code = step_code
  step_in single = step_single
  step_in double = step_double
  step_in backquote = step_backquote
  step_in line = step_line
  step_in block = step_block

  abbrev pub finished : Mode → Scan → ScanErr ⊎ Scan
  finished code st = inr (flush st)
  finished line st = inr (flush st)
  finished _ st = inl unterminated

  -- The loop; `true` says that the next byte is passed over.
  unfoldable pub scan_loop : Scan → Bool → Bytes → ScanErr ⊎ Scan
  unfolding step_code step_single step_double step_backquote step_line step_block
  scan_loop st passed [] = finished (st.mode) st
  scan_loop st true (c ∷ rest) = scan_loop st false rest
  scan_loop st false (c ∷ rest) = elim (step_in (st.mode) st c rest) [
    | inl e ↦ inl e
    | inr m ↦ scan_loop (m.0) (m.1) rest
  ]

  unfoldable pub scan : Bytes → ScanErr ⊎ Scan
  unfolding scan_loop trim_mark
  scan s = scan_loop start false (trim_mark s)
