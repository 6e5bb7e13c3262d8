-- ===== src/Candidate/Quoting.antt =====
-- CompileCreateIndex of internal/candidate/spec.go: no name leaves its quotes.
use sql_sentinel.Prelude.{
  ◌≤◌, subst, ℕ, ◌≡◌, inl, inr, refl, arith, Bool, true, not, Option, none, some, List, [], ◌∷◌,
  ◌++◌, map, length, All, all, Bool-cases, ap, sym, ◌∙◌, append_assoc, if◌then◌else◌, ◌==◌,
}
use sql_sentinel.Prelude.Bytes.{bytes_eq_sound, Bytes, bytes, bytes_eq, to_upper, join}
use sql_sentinel.Candidate.{
  compiled, Column, Spec, Refusal, is_identifier, is_word, is_direction, validate, direction_of,
  column_text, create_index, compile_create_index, quote_identifier,
}
use sql_sentinel.Candidate.Sound.{IsSafe, IsSafeColumn, validate-IsSafe}

-- A text between backquotes, and outside them.
abbrev pub push : ℕ → List Bytes → List Bytes
push c [] = (c ∷ []) ∷ []
push c (piece ∷ pieces) = (c ∷ piece) ∷ pieces

unfoldable pub split_quotes : Bytes → List Bytes
split_quotes [] = [] ∷ []
split_quotes (c ∷ s) = let rest = split_quotes s in if c == b'`' then [] ∷ rest else push c rest

abbrev pub is_plain : Bytes → Bool
is_plain = all (λ c. not (c == b'`'))

split_quotes-plain :
    (s rest : Bytes) → is_plain s ≡ true → split_quotes (s ++ b'`' ∷ rest) ≡ s ∷ split_quotes rest
unfolding split_quotes
split_quotes-plain [] rest h = refl
split_quotes-plain (c ∷ s) rest h = elim (Bool-cases (c == b'`')) [
  | inl tick ↦ absurd (ground arith)
  | inr other ↦ rw (other, split_quotes-plain s rest (ground arith)) refl
]

split_quotes-end : (s : Bytes) → is_plain s ≡ true → split_quotes s ≡ s ∷ []
unfolding split_quotes
split_quotes-end [] h = refl
split_quotes-end (c ∷ s) h = elim (Bool-cases (c == b'`')) [
  | inl tick ↦ absurd (ground arith)
  | inr other ↦ rw (other, split_quotes-end s (ground arith)) refl
]

is_word-plain : (s : Bytes) → all is_word s ≡ true → is_plain s ≡ true
is_word-plain [] h = refl
is_word-plain (c ∷ s) h = ground (arith, is_word-plain s)

is_identifier-plain : (s : Bytes) → is_identifier s ≡ true → is_plain s ≡ true
unfolding is_identifier
is_identifier-plain [] h = absurd (ground arith)
is_identifier-plain (c ∷ s) h = ground (arith, is_word-plain s)

is_plain-append : (s t : Bytes) → is_plain s ≡ true → is_plain t ≡ true → is_plain (s ++ t) ≡ true
is_plain-append [] t h k = k
is_plain-append (c ∷ s) t h k = ground (arith, is_plain-append s t)

-- A quoted name between two texts.
split_quotes-quoted :
    (before name after : Bytes)
    → is_plain before ≡ true
    → is_plain name ≡ true
    → split_quotes (before ++ (quote_identifier name ++ after)) ≡ before ∷ name ∷ split_quotes after
split_quotes-quoted before name after b n = rw (append_assoc name (b'`' ∷ []) after) (
    rw (split_quotes-plain before (name ++ (b'`' ∷ after)) b, split_quotes-plain name after n) refl)

regroup : (q w s j e : Bytes) → ((q ++ w) ++ (s ++ j)) ++ e ≡ q ++ ((w ++ s) ++ (j ++ e))
regroup q w s j e =
    append_assoc (q ++ w) (s ++ j) e
    ∙ append_assoc q w ((s ++ j) ++ e)
    ∙ ap (λ x. q ++ x) (ap (λ x. w ++ x) (append_assoc s j e) ∙ sym (append_assoc w s (j ++ e)))

module _ (unicode : Bytes → Bytes) where
  -- What stands between the backquotes behind the name of a column with direction d, and what
  -- follows.
  abbrev pub after_column : Bytes → List Column → List Bytes
  after_column d [] = ((bytes " " ++ d) ++ bytes ")") ∷ []
  after_column d (col ∷ cols) =
      ((bytes " " ++ d) ++ bytes ", ") ∷ col.name ∷ after_column (direction_of unicode col) cols

  direction_of-plain :
      (col : Column)
      → is_direction (to_upper unicode col.direction) ≡ true
      → is_plain (direction_of unicode col) ≡ true
  unfolding direction_of
  direction_of-plain col h =
      let d = to_upper unicode col.direction in
      elim (Bool-cases (bytes_eq d [])) [
        | inl empty ↦ rw empty refl
        | inr given ↦ rw given (elim (Bool-cases (bytes_eq d (bytes "ASC"))) [
          | inl asc ↦ rw (bytes_eq_sound d (bytes "ASC") asc) refl
          | inr other ↦ rw (bytes_eq_sound d (bytes "DESC") (ground arith)) refl
        ])
      ]

  split_quotes-columns :
      (opening : Bytes) (col : Column) (cols : List Column)
      → is_plain opening ≡ true
      → All (IsSafeColumn unicode) (col ∷ cols)
      → split_quotes
          (opening ++ (join (bytes ", ") (map (column_text unicode) (col ∷ cols)) ++ bytes ")"))
        ≡ opening ∷ col.name ∷ after_column (direction_of unicode col) cols
  unfolding join
  split_quotes-columns opening col [] o s =
      let d = bytes " " ++ direction_of unicode col in
      let plain = direction_of-plain col s.0.directed in
      rw (append_assoc (quote_identifier col.name) d (bytes ")")) (
        rw
          (split_quotes-quoted opening col.name (d ++ bytes ")") o
            (is_identifier-plain col.name s.0.named))
          (rw (split_quotes-end (d ++ bytes ")") (is_plain-append d (bytes ")") plain refl)) refl))
  split_quotes-columns opening col (next ∷ cols) o s =
      let d = bytes " " ++ direction_of unicode col in
      let plain = direction_of-plain col s.0.directed in
      let j = join (bytes ", ") (map (column_text unicode) (next ∷ cols)) in
      rw (regroup (quote_identifier col.name) d (bytes ", ") j (bytes ")")) (
        rw
          (split_quotes-quoted opening col.name ((d ++ bytes ", ") ++ (j ++ bytes ")")) o
            (is_identifier-plain col.name s.0.named))
          (rw
            (split_quotes-columns (d ++ bytes ", ") next cols
              (is_plain-append d (bytes ", ") plain refl) s.1)
            refl))

  create_index-split :
      (spec : Spec) (col : Column) (cols : List Column)
      → spec.columns ≡ col ∷ cols
      → IsSafe unicode spec
      → split_quotes (create_index unicode spec)
        ≡ bytes "CREATE INDEX "
          ∷ spec.index_name
          ∷ bytes " ON "
          ∷ spec.table
          ∷ bytes " ("
          ∷ col.name
          ∷ after_column (direction_of unicode col) cols
  unfolding create_index
  create_index-split spec col cols e s =
      let columns = subst (All (IsSafeColumn unicode)) e s.columns_ok in
      rw e (
        rw
          (split_quotes-quoted (bytes "CREATE INDEX ") spec.index_name _ refl
            (is_identifier-plain _ s.index_ok))
          (rw
            (split_quotes-quoted (bytes " ON ") spec.table _ refl
              (is_identifier-plain _ s.table_ok))
            (rw (split_quotes-columns (bytes " (") col cols refl columns) refl)))

  compiled-some :
      (o : Option Refusal) (t text : Bytes)
      → compiled unicode o t ≡ inr text
      → (o ≡ none) × (t ≡ text)
  compiled-some none t text h = (refl, ground (arith, h))
  compiled-some (some r) t text h = absurd (ground arith)

  columns-first :
      (cols : List Column)
      → 1 ≤ length cols
      → (first : Column) × (rest : List Column) × (cols ≡ first ∷ rest)
  columns-first [] h = absurd (omega arith)
  columns-first (c ∷ cols) h = (c, cols, refl)

  pub compile_create_index-create_index :
      (spec : Spec) (text : Bytes)
      → compile_create_index unicode spec ≡ inr text
      → IsSafe unicode spec × (text ≡ create_index unicode spec)
  unfolding compile_create_index
  compile_create_index-create_index spec text h =
      let c = compiled-some (validate unicode spec) (create_index unicode spec) text h in
      ((validate-IsSafe unicode spec).0 c.0, sym c.1)

  -- A statement that CompileCreateIndex returns is that of a safe specification, and a reader that
  -- cuts it at the backquotes finds the index, the table and the names of the columns in their
  -- places, with only the fixed text and the directions around them: no name leaves its quotes.
  pub compile_create_index-split :
      (spec : Spec) (text : Bytes)
      → compile_create_index unicode spec ≡ inr text
      → IsSafe unicode spec
        × ((first : Column) × (rest : List Column) × (spec.columns ≡ first ∷ rest)
            × (split_quotes text
                ≡ bytes "CREATE INDEX "
                  ∷ spec.index_name
                  ∷ bytes " ON "
                  ∷ spec.table
                  ∷ bytes " ("
                  ∷ first.name
                  ∷ after_column (direction_of unicode first) rest))
  unfolding compile_create_index
  compile_create_index-split spec text h =
      let c = compiled-some (validate unicode spec) (create_index unicode spec) text h in
      let safe = (validate-IsSafe unicode spec).0 c.0 in
      let f = columns-first spec.columns safe.some_column in
      (
        safe,
        (f.0, f.1, f.2, ap split_quotes (sym c.1) ∙ create_index-split spec (f.0) (f.1) f.2 safe),
      )
