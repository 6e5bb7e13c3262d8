-- ===== src/Service/Shadow.antt =====
-- cleanIndexes of internal/service/runner.go, and the lock with its deferred clean-up around what
-- explain (runner.go) and runRewrite (rewrite.go) do with the shadow databases. The calls of the
-- database are those of Kafka/Mysql/Db: each may fail, with or without its effect.
use sql_sentinel.Prelude.{
  ℕ, Bool, true, false, not, ◌&&◌, ◌||◌, Option, none, some, List, [], ◌∷◌, any, ◌==◌,
  if◌then◌else◌,
}
use sql_sentinel.Prelude.Bytes.{Bytes, bytes, bytes_eq, has_prefix}
use sql_sentinel.Kafka.Model.{Err, invalid, Result, ok, err}
use sql_sentinel.Kafka.Mysql.Db.{Db, Sql, ◌>>=◌, ◌>>◌, return, raise, exec, query, call}
use sql_sentinel.Candidate.{is_identifier}

pub record Index : Type 0 where
  pub table : Bytes
  pub name : Bytes

-- The candidate's database: its indexes, whether the connection in hand holds the lock, whether another
-- one does, and all else.
pub record ShadowTables (R : Type 0) : Type 0 where
  pub indexes : List Index
  pub is_locked : Bool
  pub is_busy : Bool
  pub others : R

abbrev pub prefix : Bytes
prefix = bytes "idx_cand_"

unfoldable pub same_place : Index → Index → Bool
unfolding bytes_eq
same_place i j = bytes_eq i.table j.table && bytes_eq i.name j.name

unfoldable pub removed : Index → List Index → List Index
unfolding same_place
removed i [] = []
removed i (j ∷ indexes) = let rest = removed i indexes in if same_place i j then rest else j ∷ rest

-- The indexes that the LIKE of the query takes.
unfoldable pub listed : (Bytes → Bool) → List Index → List Index
listed like [] = []
listed like (i ∷ indexes) = let rest = listed like indexes in if like i.name then i ∷ rest else rest

abbrev is_control : ℕ → Bool
is_control c = c == b'`' || c == b'\r' || c == b'\n'

abbrev pub is_foreign : Index → Bool
is_foreign i =
    not (is_identifier i.table) || any is_control i.name || not (has_prefix i.name prefix)

abbrev pub busy : Err
busy = invalid "shadow_busy"

abbrev pub cleanup_failed : Err
cleanup_failed = invalid "shadow_cleanup_failed"

-- What the deferred function makes of the answer when the lock was not released: explain keeps it,
-- runRewrite has an error of its own.
abbrev pub on_failed_unlock : {A : Type 0} → Option Err → Result A → Result A
on_failed_unlock none r = r
on_failed_unlock (some e) r = err e

module _ {R : Type 0} where
  -- DROP INDEX, which fails for an index that is not there.
  abbrev pub drop : Index → ShadowTables R → Result (Unit {0}) × ShadowTables R
  drop i t =
      if any (same_place i) t.indexes
      then (ok tt, record t { indexes = removed i t.indexes })
      else (err (invalid "1091"), t)

  unfoldable pub drop_all : List Index → Sql (ShadowTables R) (Unit {0})
  unfolding ◌>>=◌ ◌>>◌ exec is_identifier has_prefix removed
  drop_all [] = return tt
  drop_all (i ∷ indexes) =
      let rest = exec (drop i) >> drop_all indexes in
      if is_foreign i then raise (invalid "invalid_shadow_index") else rest

  unfoldable pub clean_indexes : (Bytes → Bool) → Sql (ShadowTables R) (Unit {0})
  unfolding ◌>>=◌ query listed drop_all
  clean_indexes like = query (λ t. ok (listed like t.indexes)) >>= drop_all

  abbrev pub lock : ShadowTables R → Result Bool × ShadowTables R
  lock t = if t.is_busy then (ok false, t) else (ok true, record t { is_locked = true })

  -- GET_LOCK and RELEASE_LOCK; a NULL counts as 0.
  unfoldable pub get_lock : Sql (ShadowTables R) Bool
  unfolding exec
  get_lock = exec lock

  unfoldable pub release_lock : Sql (ShadowTables R) Bool
  unfolding exec
  release_lock = exec (λ t. (ok t.is_locked, record t { is_locked = false }))

  -- driver.ErrBadConn: the connection is closed, and the server gives its lock free.
  abbrev pub discard : Db (ShadowTables R) → Db (ShadowTables R)
  discard db = record db { tables = record db.tables { is_locked = false } }

  module _ {A : Type 0} where
    abbrev pub released :
        Option Err → Result A → Result Bool × Db (ShadowTables R) → Result A × Db (ShadowTables R)
    released unlock r (ok true, db) = (r, db)
    released unlock r (ok false, db) = (on_failed_unlock unlock r, discard db)
    released unlock r (err e, db) = (on_failed_unlock unlock r, discard db)

    abbrev pub cleaned :
        Option Err
        → Result A
        → Result (Unit {0}) × Db (ShadowTables R)
        → Result A × Db (ShadowTables R)
    cleaned unlock r (ok x, db) = released unlock r (release_lock db)
    cleaned unlock r (err e, db) = released unlock (err cleanup_failed) (release_lock db)

    -- The deferred function, after the answer r.
    unfoldable pub deferred :
        (Bytes → Bool)
        → Option Err
        → Result A × Db (ShadowTables R)
        → Result A × Db (ShadowTables R)
    unfolding clean_indexes release_lock
    deferred like unlock (r, db) = cleaned unlock r (clean_indexes like db)

    abbrev pub entered :
        (Bytes → Bool)
        → Option Err
        → Sql (ShadowTables R) A
        → Result Bool × Db (ShadowTables R)
        → Result A × Db (ShadowTables R)
    entered like unlock body (ok true, db) = deferred like unlock ((clean_indexes like >> body) db)
    entered like unlock body (ok false, db) = (err busy, db)
    entered like unlock body (err e, db) = (err busy, db)

    -- From the two connections on, each with its limit of time: `body` runs under the lock.
    unfoldable pub with_lock :
        (Bytes → Bool) → Option Err → Sql (ShadowTables R) A → Sql (ShadowTables R) A
    unfolding ◌>>◌ call get_lock deferred clean_indexes
    with_lock like unlock body =
        call >> (call >> (call >> (call >> λ db. entered like unlock body (get_lock db))))
