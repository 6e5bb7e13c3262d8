-- ===== src/SqlAdmit/Invisible.antt =====
-- What the scanner of internal/sqladmit/admit.go makes of literals and comments, whatever is in them.
use sql_sentinel.Prelude.{
  ℕ, ◌≡◌, refl, arith, Bool, true, false, not, [], ◌∷◌, ◌++◌, inl, inr, all, Bool-cases, ap, ◌∙◌,
  append_assoc, append-nil, ◌==◌, ==_iff, if◌then◌else◌,
}
use sql_sentinel.Prelude.Bytes.{Bytes}
use sql_sentinel.SqlAdmit.{
  code, single, line, Scan, append_token, next_byte, flush, flushed, scan_loop, step_single, stay,
  Move,
}

-- A text written between quotes: a quote is doubled and a backslash stands behind another.
unfoldable pub escaped : Bytes → Bytes
escaped [] = []
escaped (c ∷ w) =
    let rest = escaped w in
    if c == b'\''
    then b'\'' ∷ (b'\'' ∷ rest)
    else if c == b'\\'
    then b'\\' ∷ (b'\\' ∷ rest)
    else c ∷ rest

abbrev pub closes : Bytes → Bool
closes post = not (next_byte post == b'\'')

-- The state behind a literal.
abbrev pub with_literal : Bytes → Scan → Scan
with_literal w st = record (append_token (b'\'' ∷ (w ++ b'\'' ∷ [])) st) {
  literal = [];
  mode = code;
}

-- The state behind the opening quote, with a part of the literal read.
abbrev pub in_literal : Bytes → Scan → Scan
in_literal l st = record st { mode = single; literal = l }

abbrev pub in_code : Scan → Scan
in_code st = record st { mode = code; literal = [] }

step_single-plain :
    (c : ℕ) (rest l : Bytes) (st : Scan)
    → (c == b'\'') ≡ false
    → (c == b'\\') ≡ false
    → step_single (in_literal l st) c rest ≡ stay (in_literal (l ++ c ∷ []) st)
unfolding step_single
step_single-plain c rest l st h k = rw (k, h, step_single) refl

module _ (unicode : Bytes → Bytes) where
  scan_loop-plain :
      (c : ℕ) (rest l : Bytes) (st : Scan)
      → (c == b'\'') ≡ false
      → (c == b'\\') ≡ false
      → scan_loop unicode (in_literal l st) false (c ∷ rest)
        ≡ scan_loop unicode (in_literal (l ++ c ∷ []) st) false rest
  unfolding scan_loop
  scan_loop-plain c rest l st h k =
      ap (λ (r : Move). elim r [ inl e ↦ inl e | inr m ↦ scan_loop unicode (m.0) (m.1) rest ])
        (step_single-plain c rest l st h k)

  scan_loop-inside :
      (w post l : Bytes) (st : Scan)
      → closes post ≡ true
      → scan_loop unicode (in_literal l st) false (escaped w ++ (b'\'' ∷ post))
        ≡ scan_loop unicode (with_literal (l ++ w) st) false post
  unfolding scan_loop escaped
  scan_loop-inside [] post l st h =
      let other : (next_byte post == b'\'') ≡ false = ground (arith, h) in
      rw (append-nil l, other, scan_loop) refl
  scan_loop-inside (c ∷ w) post l st h = elim (Bool-cases (c == b'\'')) [
    | inl quote ↦
        let e = (==_iff c b'\'').0 quote in
        rw (e, scan_loop)
          (scan_loop-inside w post (l ++ b'\'' ∷ []) st h
            ∙ ap (λ v. scan_loop unicode (with_literal v st) false post)
                (append_assoc l (b'\'' ∷ []) w))
    | inr plain ↦ elim (Bool-cases (c == b'\\')) [
      | inl slash ↦
          let e = (==_iff c b'\\').0 slash in
          rw (e, scan_loop)
            (scan_loop-inside w post (l ++ b'\\' ∷ []) st h
              ∙ ap (λ v. scan_loop unicode (with_literal v st) false post)
                  (append_assoc l (b'\\' ∷ []) w))
      | inr other ↦
          rw (plain, other)
            (scan_loop-plain c (escaped w ++ (b'\'' ∷ post)) l st plain other
              ∙ scan_loop-inside w post (l ++ c ∷ []) st h
              ∙ ap (λ v. scan_loop unicode (with_literal v st) false post)
                  (append_assoc l (c ∷ []) w))
    ]
  ]

  flushed-inside :
      (word w post : Bytes) (st : Scan)
      → closes post ≡ true
      → scan_loop unicode
          (record (flushed unicode word (in_code st)) { mode = single })
          false
          (escaped w ++ (b'\'' ∷ post))
        ≡ scan_loop unicode (with_literal w (flushed unicode word (in_code st))) false post
  flushed-inside [] w post st h = scan_loop-inside w post [] (in_code st) h
  flushed-inside (c ∷ word) w post st h =
      scan_loop-inside w post [] (flushed unicode (c ∷ word) (in_code st)) h

  -- A literal in code is read back as it was written, as one token in its quotes: nothing that
  -- stands in it becomes a token of its own. The byte behind it is no quote.
  pub scan_loop-literal :
      (w post : Bytes) (st : Scan)
      → closes post ≡ true
      → scan_loop unicode (in_code st) false (b'\'' ∷ (escaped w ++ (b'\'' ∷ post)))
        ≡ scan_loop unicode (with_literal w (flush unicode (in_code st))) false post
  unfolding scan_loop
  scan_loop-literal w post st h = flushed-inside st.word w post st h

  -- A comment to the end of the line is passed over.
  line_comment :
      (w post : Bytes) (st : Scan)
      → all (λ c. not (c == b'\n')) w ≡ true
      → scan_loop unicode (record st { mode = line }) false (w ++ (b'\n' ∷ post))
        ≡ scan_loop unicode (record st { mode = code }) false post
  unfolding scan_loop
  line_comment [] post st h = refl
  line_comment (c ∷ w) post st h = elim (Bool-cases (c == b'\n')) [
    | inl end ↦ absurd (ground arith)
    | inr more ↦ rw (more, scan_loop) (line_comment w post st (ground arith))
  ]

  flushed-comment :
      (word w post : Bytes) (st : Scan)
      → all (λ c. not (c == b'\n')) w ≡ true
      → scan_loop unicode
          (record (flushed unicode word (in_code st)) { mode = line })
          false
          (w ++ (b'\n' ∷ post))
        ≡ scan_loop unicode (flushed unicode word (in_code st)) false post
  flushed-comment [] w post st h = line_comment w post (in_code st) h
  flushed-comment (c ∷ word) w post st h =
      line_comment w post (flushed unicode (c ∷ word) (in_code st)) h

  -- A comment that begins with # counts as much as a blank, whatever is in its line.
  pub scan_loop-comment :
      (w post : Bytes) (st : Scan)
      → all (λ c. not (c == b'\n')) w ≡ true
      → scan_loop unicode (in_code st) false (b'#' ∷ (w ++ (b'\n' ∷ post)))
        ≡ scan_loop unicode (in_code st) false (b' ' ∷ post)
  unfolding scan_loop
  scan_loop-comment w post st h = flushed-comment st.word w post st h
