-- ===== src/Snapshot/Match.antt =====
-- What the comparison of internal/snapshot/compare.go says of two tables.
use mathlib.Core.List.{append_assoc, append-nil}
use sql_sentinel.Prelude.{
  ℕ, zero, suc, ◌&&◌, ◌+◌, ◌<◌, ◌≡◌, ◌↔◌, ap, ◌∙◌, subst, arith, true, Bool, some, inr, List, [],
  ◌∷◌, ◌++◌, All, length,
}
use sql_sentinel.Prelude.Int.{ℤ, pos, negsuc}
use sql_sentinel.Prelude.Bytes.{Bytes, bytes_eq_refl, bytes_eq_sound}
use sql_sentinel.Snapshot.{
  Row, Hasher, Side, add, compute, compare_sides, chunk_of, new_hasher, side_of, normalize,
}
use sql_sentinel.Snapshot.Chunks.{table_query, IsAbove, hash_rows, read_chunks-table}
use sql_sentinel.Snapshot.Fields.{IsPlain, normalize_all, normalize_all_injective, normalize-append}

hash_rows_lem :
    (h : Hasher) (rows : List Row)
    → hash_rows h rows
      ≡ record { written = h.written ++ normalize_all rows; rows = h.rows + length rows }
unfolding add
hash_rows_lem h [] = ground (arith, append-nil h.written)
hash_rows_lem h (r ∷ rows) =
    hash_rows_lem (add h r) rows
    ∙ ground (
      arith,
      append_assoc h.written (normalize r []) (normalize_all rows),
      normalize-append r (normalize_all rows),
    )

left_of : (a b : Bool) → a && b ≡ true → a ≡ true
left_of a b h = ground arith

chunk_of_pos : (chunk : ℤ) → 0 < chunk_of chunk
chunk_of_pos (pos zero) = omega arith
chunk_of_pos (pos (suc n)) = omega arith
chunk_of_pos (negsuc n) = omega arith

abbrev pub side_for : (Bytes → Bytes) → Bytes → List Row → Side
side_for hash name table = record {
  name = name;
  digest = hash (normalize_all table);
  rows = length table;
}

-- Compute ends, with the digest of all rows of the table in the order of the primary key.
pub compute-table :
    (rounds : ℕ) (hash : Bytes → Bytes) (name : Bytes) (chunk : ℤ) (table : List Row)
    → length table < rounds
    → IsAbove 0 table
    → compute rounds hash (table_query table) name chunk ≡ some (inr (side_for hash name table))
unfolding compute
compute-table rounds hash name chunk table m a =
    ap (side_of name hash)
      (read_chunks-table rounds (chunk_of chunk) table new_hasher (chunk_of_pos chunk) m a)
    ∙ ap (λ h. side_of name hash (some (inr h))) (hash_rows_lem new_hasher table)
    ∙ ap
        (λ (k : ℕ).
          some (inr (record { name = name; digest = hash (normalize_all table); rows = k })))
        (omega arith)

-- Compute of two tables without a fault ends with a digest for each, however the rows are divided into
-- chunks, and Compare calls them a match exactly when the tables are the same. The identifiers are
-- positive and ascend, no text has the separator behind it, times have no more than microseconds, and
-- the hash does not take the bytes of these two tables for one another.
pub compare_sides-table :
    (rounds : ℕ) (hash : Bytes → Bytes) (chunk : ℤ) (b c : List Row)
    → length b < rounds
    → length c < rounds
    → IsAbove 0 b
    → IsAbove 0 c
    → All IsPlain b
    → All IsPlain c
    → (hash (normalize_all b) ≡ hash (normalize_all c) → normalize_all b ≡ normalize_all c)
    → (x : Side) × (y : Side) × (compute rounds hash (table_query b) [] chunk ≡ some (inr x))
      × (compute rounds hash (table_query c) [] chunk ≡ some (inr y))
      × (((compare_sides x y).is_match ≡ true) ↔ (b ≡ c))
unfolding compare_sides
compare_sides-table rounds hash chunk b c mb mc ab ac pb pc apart = (
  side_for hash [] b,
  side_for hash [] c,
  compute-table rounds hash [] chunk b mb ab,
  compute-table rounds hash [] chunk c mc ac,
  (
    λ h. normalize_all_injective b c pb pc (apart (bytes_eq_sound _ _ (left_of _ _ h))),
    λ e.
        subst (λ t. (compare_sides (side_for hash [] b) (side_for hash [] t)).is_match ≡ true) e
          (ground (arith, bytes_eq_refl (hash (normalize_all b)))),
  ),
)
