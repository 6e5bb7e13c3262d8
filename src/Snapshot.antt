-- ===== src/Snapshot.antt =====
-- internal/snapshot: normalize and Hasher of digest.go, Compute and Compare of compare.go. The database
-- answers a query of a chunk with a cursor; SHA-256 is a parameter of the digest. A time is given by
-- its fields in UTC.
pub mod Fields
pub mod Chunks
pub mod Match
use sql_sentinel.Prelude.{
  ℕ, zero, suc, ◌+◌, ◌/◌, Bool, true, false, Option, none, some, ◌⊎◌, inl, inr, List, [], ◌∷◌, ◌++◌,
  ltb, leb, ◌==◌, take, length, if◌then◌else◌, ◌&&◌,
}
use sql_sentinel.Prelude.Int.{ℤ, pos, negsuc}
use sql_sentinel.Prelude.Bytes.{Bytes, bytes_eq}
use sql_sentinel.Prelude.Decimal.{decimal, padded}

pub record Moment : Type 0 where
  pub year : ℕ
  pub month : ℕ
  pub day : ℕ
  pub hour : ℕ
  pub minute : ℕ
  pub second : ℕ
  pub nanosecond : ℕ

pub record Row : Type 0 where
  pub id : ℕ
  pub user_id : ℕ
  pub status : Bytes
  pub created_at : Moment
  pub amount_cents : ℤ
  pub note : Option Bytes
  pub payload : Bytes

abbrev pub field_sep : ℕ
field_sep = 0x1f

abbrev pub row_sep : ℕ
row_sep = 0x1e

-- AppendFormat by the layout "2006-01-02T15:04:05.000000Z", which cuts off the nanoseconds.
unfoldable pub stamp : Moment → Bytes
stamp t =
    padded 4 t.year
    ++ b'-'
      ∷ (padded 2 t.month
          ++ b'-'
            ∷ (padded 2 t.day
                ++ b'T'
                  ∷ (padded 2 t.hour
                      ++ b':'
                        ∷ (padded 2 t.minute
                            ++ b':'
                              ∷ (padded 2 t.second
                                  ++ b'.' ∷ (padded 6 (t.nanosecond / 1000) ++ b'Z' ∷ []))))))

-- strconv.AppendInt
unfoldable pub signed_decimal : ℤ → Bytes
signed_decimal (pos n) = decimal n
signed_decimal (negsuc n) = b'-' ∷ decimal (suc n)

abbrev pub note_bytes : Option Bytes → Bytes
note_bytes none = 0x00 ∷ []
note_bytes (some s) = 0x01 ∷ s

-- normalize, in front of what follows.
unfoldable pub normalize : Row → Bytes → Bytes
unfolding stamp signed_decimal
normalize r rest =
    decimal r.id
    ++ field_sep
      ∷ (decimal r.user_id
          ++ field_sep
            ∷ (r.status
                ++ field_sep
                  ∷ (stamp r.created_at
                      ++ field_sep
                        ∷ (signed_decimal r.amount_cents
                            ++ field_sep
                              ∷ (note_bytes r.note ++ field_sep ∷ (r.payload ++ row_sep ∷ rest))))))

-- What was written to the hash, and the number of rows.
pub record Hasher : Type 0 where
  pub written : Bytes
  pub rows : ℕ

abbrev pub new_hasher : Hasher
new_hasher = record { written = []; rows = 0 }

unfoldable pub add : Hasher → Row → Hasher
unfolding normalize
add h r = record { written = h.written ++ normalize r []; rows = h.rows + 1 }

-- What a query gives: the rows, `none` for one whose Scan fails, and whether rows.Err is nil.
pub record Cursor : Type 0 where
  pub rows : List (Option Row)
  pub ends_well : Bool

pub data ReadErr : Type 0 where
  query_failed scan_failed rows_failed : ReadErr

-- `none` is a query that fails.
abbrev pub Query : Type 0
Query = ℕ → ℕ → Option Cursor

-- The rows of the chunk, the next cursor and the hasher.
abbrev pub Chunk : Type 0
Chunk = ℕ × ℕ × Hasher

unfoldable pub scan_rows : List (Option Row) → Bool → Chunk → ReadErr ⊎ Chunk
unfolding add
scan_rows [] ends_well x = if ends_well then inr x else inl rows_failed
scan_rows (none ∷ rows) ends_well x = inl scan_failed
scan_rows (some r ∷ rows) ends_well (n, last, h) = scan_rows rows ends_well (n + 1, r.id, add h r)

abbrev scan_cursor : Option Cursor → ℕ → Hasher → ReadErr ⊎ Chunk
scan_cursor none last h = inl query_failed
scan_cursor (some c) last h = scan_rows c.rows c.ends_well (0, last, h)

unfoldable pub scan_chunk : Query → ℕ → ℕ → Hasher → ReadErr ⊎ Chunk
unfolding scan_rows
scan_chunk query chunk last h = scan_cursor (query last chunk) last h

-- What follows a chunk: the loop ends behind one that is not full.
abbrev pub after_chunk :
    ℕ → (ℕ → Hasher → Option (ReadErr ⊎ Hasher)) → ReadErr ⊎ Chunk → Option (ReadErr ⊎ Hasher)
after_chunk chunk again (inl e) = some (inl e)
after_chunk chunk again (inr (n, last, h)) =
    let more = again last h in if ltb n chunk then some (inr h) else more

-- The loop of Compute; `none` says that the rounds did not suffice.
unfoldable pub read_chunks : ℕ → Query → ℕ → ℕ → Hasher → Option (ReadErr ⊎ Hasher)
unfolding scan_chunk
read_chunks zero query chunk last h = none
read_chunks (suc rounds) query chunk last h =
    after_chunk chunk (read_chunks rounds query chunk) (scan_chunk query chunk last h)

abbrev pub default_chunk : ℕ
default_chunk = 5000

abbrev pub chunk_of : ℤ → ℕ
chunk_of (pos zero) = default_chunk
chunk_of (pos (suc n)) = suc n
chunk_of (negsuc n) = default_chunk

pub record Side : Type 0 where
  pub name : Bytes
  pub digest : Bytes
  pub rows : ℕ

abbrev pub side_of : Bytes → (Bytes → Bytes) → Option (ReadErr ⊎ Hasher) → Option (ReadErr ⊎ Side)
side_of name hash none = none
side_of name hash (some (inl e)) = some (inl e)
side_of name hash (some (inr h)) =
    some (inr (record { name = name; digest = hash h.written; rows = h.rows }))

unfoldable pub compute : ℕ → (Bytes → Bytes) → Query → Bytes → ℤ → Option (ReadErr ⊎ Side)
unfolding read_chunks
compute rounds hash query name chunk =
    side_of name hash (read_chunks rounds query (chunk_of chunk) 0 new_hasher)

pub record Comparison : Type 0 where
  pub baseline : Side
  pub candidate : Side
  pub is_match : Bool

unfoldable pub compare_sides : Side → Side → Comparison
unfolding bytes_eq
compare_sides b c = record {
  baseline = b;
  candidate = c;
  is_match = bytes_eq b.digest c.digest && b.rows == c.rows;
}
