-- ===== src/Snapshot/Chunks.antt =====
-- Compute of internal/snapshot/compare.go reads a table chunk by chunk as if at once.
use mathlib.Core.List.{append_assoc}
use sql_sentinel.Prelude.{
  ltb→lt, Bool-cases, ℕ, zero, suc, ◌+◌, ◌≤◌, ◌<◌, ◌≡◌, refl, sym, ap, ◌∙◌, subst, arith, true,
  Option, some, ◌⊎◌, inl, inr, List, [], ◌∷◌, ◌++◌, ltb, take, length, map, if◌then◌else◌,
}
use sql_sentinel.Snapshot.{
  Row, Hasher, Query, ReadErr, add, scan_rows, scan_chunk, read_chunks, after_chunk,
}

-- WHERE id > last, on rows that come in the order of the primary key.
abbrev pub above : ℕ → List Row → List Row
above last [] = []
above last (r ∷ rows) = if ltb last r.id then r ∷ above last rows else above last rows

-- The database that answers selectChunk for a table without a fault.
abbrev pub table_query : List Row → Query
table_query table last n =
    some (record { rows = map some (take n (above last table)); ends_well = true })

-- The identifiers ascend, and are greater than `last`.
abbrev pub IsAbove : ℕ → List Row → Type 0
IsAbove last [] = Unit
IsAbove last (r ∷ rows) = (last < r.id) × IsAbove r.id rows

abbrev last_id : ℕ → List Row → ℕ
last_id last [] = last
last_id last (r ∷ rows) = last_id r.id rows

abbrev pub hash_rows : Hasher → List Row → Hasher
hash_rows h [] = h
hash_rows h (r ∷ rows) = hash_rows (add h r) rows

abbrev drop_rows : ℕ → List Row → List Row
drop_rows zero rows = rows
drop_rows (suc n) [] = []
drop_rows (suc n) (r ∷ rows) = drop_rows n rows

take-append-drop_rows : (n : ℕ) (rows : List Row) → take n rows ++ drop_rows n rows ≡ rows
take-append-drop_rows zero rows = refl
take-append-drop_rows (suc n) [] = refl
take-append-drop_rows (suc n) (r ∷ rows) = ap (λ rest. r ∷ rest) (take-append-drop_rows n rows)

take_all : (n : ℕ) (rows : List Row) → length rows < n → take n rows ≡ rows
take_all zero rows h = elim h [ ]
take_all (suc n) [] h = refl
take_all (suc n) (r ∷ rows) h = ap (λ rest. r ∷ rest) (take_all n rows (omega arith))

take_full :
    (n : ℕ) (rows : List Row)
    → n ≤ length rows
    → (length (take n rows) ≡ n) × (length (drop_rows n rows) + n ≡ length rows)
take_full zero rows h = (refl, omega arith)
take_full (suc n) [] h = absurd (omega arith)
take_full (suc n) (r ∷ rows) h =
    let (taken, left) = take_full n rows (omega arith) in (omega arith, omega arith)

hash_rows-append :
    (h : Hasher) (xs ys : List Row) → hash_rows h (xs ++ ys) ≡ hash_rows (hash_rows h xs) ys
hash_rows-append h [] ys = refl
hash_rows-append h (x ∷ xs) ys = hash_rows-append (add h x) xs ys

last_id-append :
    (last : ℕ) (xs ys : List Row) → last_id last (xs ++ ys) ≡ last_id (last_id last xs) ys
last_id-append last [] ys = refl
last_id-append last (x ∷ xs) ys = last_id-append x.id xs ys

above-IsAbove : (last m : ℕ) (rows : List Row) → last ≤ m → IsAbove m rows → above last rows ≡ rows
above-IsAbove last m [] h a = refl
above-IsAbove last m (r ∷ rows) h a = ground (arith, above-IsAbove last r.id rows (omega arith) a.1)

le-last_id :
    (last : ℕ) (seen rest : List Row) → IsAbove last (seen ++ rest) → last ≤ last_id last seen
le-last_id last [] rest a = omega arith
le-last_id last (r ∷ seen) rest a = omega (arith, le-last_id r.id seen rest a.1)

-- Behind the last row that was seen, the query finds the rest.
above-rest :
    (last : ℕ) (seen rest : List Row)
    → IsAbove last (seen ++ rest)
    → above (last_id last seen) (seen ++ rest) ≡ rest
above-rest last [] rest a = above-IsAbove last last rest (omega arith) a
above-rest last (r ∷ seen) rest a =
    ground (arith, le-last_id r.id seen rest a.1, above-rest r.id seen rest a.1)

scan_rows-all :
    (rows : List Row) (n last : ℕ) (h : Hasher)
    → scan_rows (map some rows) true (n, last, h)
      ≡ inr (n + length rows, last_id last rows, hash_rows h rows)
unfolding scan_rows
scan_rows-all [] n last h = ap (λ (k : ℕ). inr (k, last, h)) (omega arith)
scan_rows-all (r ∷ rows) n last h =
    scan_rows-all rows (n + 1) r.id (add h r)
    ∙ ap (λ (k : ℕ). inr (k, last_id r.id rows, hash_rows (add h r) rows)) (omega arith)

lt_or_le : (m n : ℕ) → (m < n) ⊎ (n ≤ m)
lt_or_le m n = elim (Bool-cases (ltb m n)) [
  | inl h ↦ inl (ltb→lt m n h)
  | inr h ↦ inr (ground arith)
]

module _ (chunk : ℕ) (h : Hasher) where
  scan_chunk-rest :
      (seen rest : List Row)
      → IsAbove 0 (seen ++ rest)
      → scan_chunk (table_query (seen ++ rest)) chunk (last_id 0 seen) (hash_rows h seen)
        ≡ inr (
          length (take chunk rest),
          last_id 0 (seen ++ take chunk rest),
          hash_rows h (seen ++ take chunk rest),
        )
  unfolding scan_chunk
  scan_chunk-rest seen rest a =
      ap (λ rows. scan_rows (map some (take chunk rows)) true (0, last_id 0 seen, hash_rows h seen))
        (above-rest 0 seen rest a)
      ∙ scan_rows-all (take chunk rest) 0 (last_id 0 seen) (hash_rows h seen)
      ∙ rw (last_id-append 0 seen (take chunk rest), hash_rows-append h seen (take chunk rest))
          (ap
            (λ (k : ℕ). inr (
              k,
              last_id (last_id 0 seen) (take chunk rest),
              hash_rows (hash_rows h seen) (take chunk rest),
            ))
            (omega arith))

  after_last :
      (again : ℕ → Hasher → Option (ReadErr ⊎ Hasher)) (n last : ℕ) (t : Hasher)
      → n < chunk
      → after_chunk chunk again (inr (n, last, t)) ≡ some (inr t)
  after_last again n last t small = ground arith

  after_full :
      (again : ℕ → Hasher → Option (ReadErr ⊎ Hasher)) (n last : ℕ) (t : Hasher)
      → n ≡ chunk
      → after_chunk chunk again (inr (n, last, t)) ≡ again last t
  after_full again n last t full = ground arith

  -- The loop, behind the rows that were seen.
  read_rest :
      (rounds : ℕ) (seen rest : List Row)
      → 0 < chunk
      → length rest < rounds
      → IsAbove 0 (seen ++ rest)
      → read_chunks rounds (table_query (seen ++ rest)) chunk (last_id 0 seen) (hash_rows h seen)
        ≡ some (inr (hash_rows h (seen ++ rest)))
  unfolding read_chunks
  read_rest zero seen rest p m a = elim m [ ]
  read_rest (suc rounds) seen rest p m a =
      let again = read_chunks rounds (table_query (seen ++ rest)) chunk in
      let front = take chunk rest in
      ap (after_chunk chunk again) (scan_chunk-rest seen rest a)
      ∙ elim (lt_or_le (length rest) chunk) [
        | inl small ↦
            after_last again (length front) _ _
              (subst (λ rows. length rows < chunk) (sym (take_all chunk rest small)) small)
            ∙ ap (λ rows. some (inr (hash_rows h (seen ++ rows)))) (take_all chunk rest small)
        | inr large ↦
            let (full, left) = take_full chunk rest large in
            let e : (seen ++ front) ++ drop_rows chunk rest ≡ seen ++ rest =
              append_assoc seen front (drop_rows chunk rest)
              ∙ ap (λ rows. seen ++ rows) (take-append-drop_rows chunk rest) in
            after_full again (length front) _ _ full
            ∙ subst
                (λ t.
                  read_chunks rounds (table_query t) chunk (last_id 0 (seen ++ front))
                    (hash_rows h (seen ++ front))
                  ≡ some (inr (hash_rows h t)))
                e
                (read_rest rounds (seen ++ front) (drop_rows chunk rest) p (omega arith)
                  (subst (λ t. IsAbove 0 t) (sym e) a))
      ]

-- Whatever the chunk, the loop hashes every row of the table in the order of the primary key, and ends
-- within one more round than there are rows.
pub read_chunks-table :
    (rounds chunk : ℕ) (table : List Row) (h : Hasher)
    → 0 < chunk
    → length table < rounds
    → IsAbove 0 table
    → read_chunks rounds (table_query table) chunk 0 h ≡ some (inr (hash_rows h table))
read_chunks-table rounds chunk table h = read_rest chunk h rounds [] table
