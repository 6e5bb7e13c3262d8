-- ===== src/Service/Clean.antt =====
-- What the lock of internal/service/runner.go and rewrite.go leaves behind, whatever call fails.
use sql_sentinel.Prelude.{
  ◌≡◌, refl, ap, sym, ◌∙◌, subst, arith, Bool, true, false, Option, none, some, ◌⊎◌, inl, inr, List,
  [], ◌∷◌, All,
}
use sql_sentinel.Prelude.Bytes.{Bytes, has_prefix}
use sql_sentinel.Kafka.Model.{Err, Result, ok, err}
use sql_sentinel.Kafka.Mysql.Db.{Db, Fault, fails, lost, Sql, ◌>>◌, serve, call, resume}
use sql_sentinel.Service.Drops.{IsOrdinary, clean_indexes-IsOrdinary}
use sql_sentinel.Service.Shadow.{
  lock, ShadowTables, prefix, busy, cleanup_failed, clean_indexes, get_lock, release_lock, released,
  cleaned, deferred, entered, with_lock, on_failed_unlock,
}

-- An answer that says that the clean-up failed, or that the lock was not released.
abbrev pub IsFailed : {A : Type 0} → Option Err → Result A → Type 0
IsFailed unlock r = (r ≡ err cleanup_failed) ⊎ ((e : Err) × (unlock ≡ some e) × (r ≡ err e))

keep-IsFailed :
    {A P : Type 0} (unlock : Option Err) (r : Result A)
    → P ⊎ IsFailed unlock r
    → P ⊎ IsFailed unlock (on_failed_unlock unlock r)
keep-IsFailed none r h = h
keep-IsFailed (some e) r (inl p) = inl p
keep-IsFailed (some e) r (inr failed) = inr (inr (e, refl, refl))

module _ {R : Type 0} where
  abbrev unlock : ShadowTables R → Result Bool × ShadowTables R
  unlock t = (ok t.is_locked, record t { is_locked = false })

  serve-call :
      (faults : List (Option Fault)) (db : Db (ShadowTables R))
      → (serve faults (λ t. (ok (tt {0}), t)) db).1.tables ≡ db.tables
  serve-call [] db = refl
  serve-call (none ∷ rest) db = refl
  serve-call (some (fails e) ∷ rest) db = refl
  serve-call (some (lost e) ∷ rest) db = refl

  serve-lock :
      (faults : List (Option Fault)) (db : Db (ShadowTables R))
      → (serve faults lock db).1.tables.indexes ≡ db.tables.indexes
  serve-lock [] db = ground arith
  serve-lock (none ∷ rest) db = ground arith
  serve-lock (some (fails e) ∷ rest) db = refl
  serve-lock (some (lost e) ∷ rest) db = ground arith

  serve-release_lock :
      (faults : List (Option Fault)) (db : Db (ShadowTables R))
      → ((serve faults unlock db).1.tables.indexes ≡ db.tables.indexes)
        × ((serve faults unlock db).0 ≡ ok true
            → (serve faults unlock db).1.tables.is_locked ≡ false)
  serve-release_lock [] db = (refl, λ h. refl)
  serve-release_lock (none ∷ rest) db = (refl, λ h. refl)
  serve-release_lock (some (fails e) ∷ rest) db = (refl, λ h. absurd (ground (arith, h)))
  serve-release_lock (some (lost e) ∷ rest) db = (refl, λ h. refl)

  -- The indexes and the lock are as they were.
  abbrev IsSame : Db (ShadowTables R) → Db (ShadowTables R) → Type 0
  IsSame db t = (t.tables.indexes ≡ db.tables.indexes) × (t.tables.is_locked ≡ db.tables.is_locked)

  module _ {A : Type 0} (like : Bytes → Bool)
      (taken : (name : Bytes) → has_prefix name prefix ≡ true → like name ≡ true)
      (unlock_err : Option Err) where
    -- The connection does not hold the lock, and no index of a candidate is left, or the answer says
    -- so.
    abbrev pub IsClean : Result A × Db (ShadowTables R) → Type 0
    IsClean x =
        (x.1.tables.is_locked ≡ false)
        × (All IsOrdinary x.1.tables.indexes ⊎ IsFailed unlock_err x.0)

    released-IsClean :
        (r : Result A) (x : Result Bool × Db (ShadowTables R))
        → (x.0 ≡ ok true → x.1.tables.is_locked ≡ false)
        → All IsOrdinary x.1.tables.indexes ⊎ IsFailed unlock_err r
        → IsClean (released unlock_err r x)
    released-IsClean r (ok true, db) free left = (free refl, left)
    released-IsClean r (ok false, db) free left = (refl, keep-IsFailed unlock_err r left)
    released-IsClean r (err e, db) free left = (refl, keep-IsFailed unlock_err r left)

    cleaned-IsClean :
        (r : Result A) (x : Result (Unit {0}) × Db (ShadowTables R))
        → (x.0 ≡ ok tt → All IsOrdinary x.1.tables.indexes)
        → IsClean (cleaned unlock_err r x)
    unfolding release_lock
    cleaned-IsClean r (ok x, db) left =
        let (same, free) = serve-release_lock db.faults db in
        released-IsClean r (release_lock db) free
          (inl (subst (λ t. All IsOrdinary t) (sym same) (left refl)))
    cleaned-IsClean r (err e, db) left =
        let (same, free) = serve-release_lock db.faults db in
        released-IsClean (err cleanup_failed) (release_lock db) free (inr (inl refl))

    deferred-IsClean : (x : Result A × Db (ShadowTables R)) → IsClean (deferred like unlock_err x)
    unfolding deferred
    deferred-IsClean (r, db) =
        cleaned-IsClean r (clean_indexes like db) (clean_indexes-IsOrdinary like taken db)

    -- The section was not entered: an error, and the indexes are as they were, and so is the lock in the
    -- hand of the connection, unless the error is that of GET_LOCK.
    abbrev pub IsRefused : Db (ShadowTables R) → Result A × Db (ShadowTables R) → Type 0
    IsRefused db x =
        ((e : Err) × (x.0 ≡ err e))
        × (x.1.tables.indexes ≡ db.tables.indexes)
        × ((x.1.tables.is_locked ≡ db.tables.is_locked) ⊎ (x.0 ≡ err busy))

    entered-IsClean :
        (body : Sql (ShadowTables R) A) (db : Db (ShadowTables R))
        (x : Result Bool × Db (ShadowTables R))
        → x.1.tables.indexes ≡ db.tables.indexes
        → IsRefused db (entered like unlock_err body x) ⊎ IsClean (entered like unlock_err body x)
    entered-IsClean body db (ok true, t) same =
        inr (deferred-IsClean ((clean_indexes like >> body) t))
    entered-IsClean body db (ok false, t) same = inl ((busy, refl), same, inr refl)
    entered-IsClean body db (err e, t) same = inl ((busy, refl), same, inr refl)

    bound-IsClean :
        (db : Db (ShadowTables R)) (x : Result (Unit {0}) × Db (ShadowTables R))
        (f : Unit {0} → Sql (ShadowTables R) A)
        → IsSame db x.1
        → ((u : Unit {0}) (t : Db (ShadowTables R))
            → IsSame db t
            → IsRefused db (f u t) ⊎ IsClean (f u t))
        → IsRefused db (resume f x) ⊎ IsClean (resume f x)
    bound-IsClean db (ok u, t) f same next = next u t same
    bound-IsClean db (err e, t) f same next = inl ((e, refl), same.0, inl same.1)

    call-IsClean :
        (db : Db (ShadowTables R)) (k : Sql (ShadowTables R) A)
        → ((t : Db (ShadowTables R)) → IsSame db t → IsRefused db (k t) ⊎ IsClean (k t))
        → (t : Db (ShadowTables R)) → IsSame db t
        → IsRefused db ((call >> k) t) ⊎ IsClean ((call >> k) t)
    unfolding ◌>>◌ call
    call-IsClean db k next t same =
        bound-IsClean db (call t) (λ u. k)
          (
            ap (λ s. s.indexes) (serve-call t.faults t) ∙ same.0,
            ap (λ s. s.is_locked) (serve-call t.faults t) ∙ same.1,
          )
          (λ u. next)

    lock-IsClean :
        (body : Sql (ShadowTables R) A) (db t : Db (ShadowTables R))
        → IsSame db t
        → IsRefused db (entered like unlock_err body (get_lock t))
          ⊎ IsClean (entered like unlock_err body (get_lock t))
    unfolding get_lock
    lock-IsClean body db t same =
        entered-IsClean body db (get_lock t) (serve-lock t.faults t ∙ same.0)

    -- Whatever calls fail, and whatever `body` does: with_lock answers with an error and has left the
    -- indexes as they were, and the lock too unless the error is shadow_busy (when the answer of
    -- GET_LOCK is lost, the connection goes back with the lock); or it ends with the lock given free,
    -- and with no index of a candidate in the shadow database unless its answer says that the clean-up
    -- failed (or, for runRewrite, that the unlocking did). LIKE takes every name with the prefix.
    pub with_lock-IsClean :
        (body : Sql (ShadowTables R) A) (db : Db (ShadowTables R))
        → IsRefused db (with_lock like unlock_err body db)
          ⊎ IsClean (with_lock like unlock_err body db)
    unfolding with_lock
    with_lock-IsClean body db =
        let enter = λ (t : Db (ShadowTables R)). entered like unlock_err body (get_lock t) in
        call-IsClean db (call >> (call >> (call >> enter)))
          (call-IsClean db (call >> (call >> enter))
            (call-IsClean db (call >> enter) (call-IsClean db enter (lock-IsClean body db))))
          db (refl, refl)
