-- ===== src/Service/Entered.antt =====
-- What stands behind an answer of the section under the lock of internal/service/runner.go: the section
-- itself gave it, on the world that the calls before it found.
use sql_sentinel.Prelude.{
  ◌≡◌, refl, sym, ap, ◌∙◌, arith, Bool, true, false, Option, none, some, List, [], ◌∷◌, inl, inr,
  Bool-cases,
}
use sql_sentinel.Prelude.Bytes.{Bytes}
use sql_sentinel.Kafka.Model.{Err, Result, ok, err}
use sql_sentinel.Kafka.Mysql.Db.{
  Db, Fault, fails, lost, Sql, ◌>>=◌, ◌>>◌, exec, serve, resume, call,
}
use sql_sentinel.Service.Drops.{exec-ok, bind-ok}
use sql_sentinel.Service.Shadow.{
  Index, ShadowTables, cleanup_failed, is_foreign, listed, drop, drop_all, clean_indexes, lock,
  get_lock, release_lock, released, cleaned, deferred, entered, with_lock,
}

module _ {R : Type 0} where
  pub both-ok :
      {B : Type 0} (m : Sql (ShadowTables R) (Unit {0})) (k : Sql (ShadowTables R) B)
      (t : Db (ShadowTables R)) (b : B)
      → ((m >> k) t).0 ≡ ok b
      → ((m t).0 ≡ ok tt) × ((k (m t).1).0 ≡ ok b)
  unfolding ◌>>◌ ◌>>=◌
  both-ok m k t b h =
      let (x, there, same) = bind-ok (m t) (λ _. k) b h in (there, ap (λ y. y.0) (sym same) ∙ h)

  drop-others : (i : Index) (t : ShadowTables R) → (drop i t).1.others ≡ t.others
  drop-others i t = ground arith

  drop_all-others :
      (names : List Index) (db : Db (ShadowTables R))
      → (drop_all names db).0 ≡ ok tt
      → (drop_all names db).1.tables.others ≡ db.tables.others
  unfolding drop_all
  drop_all-others [] db h = refl
  drop_all-others (i ∷ names) db h = elim (Bool-cases (is_foreign i)) [
    | inl foreign ↦ absurd (ground (arith, h, foreign))
    | inr own ↦
        let h' : (resume (λ x. drop_all names) (exec (drop i) db)).0 ≡ ok tt = rw own at h in
        let (x, done, same) = bind-ok (exec (drop i) db) (λ x. drop_all names) tt h' in
        let (dropping, moved) = exec-ok (drop i) db x done in
        rw own (
          ap (λ y. y.1.tables.others) same
          ∙ drop_all-others names (exec (drop i) db).1 (ap (λ y. y.0) (sym same) ∙ h')
          ∙ ap (λ t. t.others) moved
          ∙ drop-others i db.tables)
  ]

  clean_indexes-others :
      (like : Bytes → Bool) (db : Db (ShadowTables R))
      → (clean_indexes like db).0 ≡ ok tt
      → (clean_indexes like db).1.tables.others ≡ db.tables.others
  unfolding clean_indexes
  clean_indexes-others like db h =
      let read : ShadowTables R → Result (List Index) × ShadowTables R =
        λ t. (ok (listed like t.indexes), t) in
      let (names, found, same) = bind-ok (exec read db) drop_all tt h in
      let (list, moved) = exec-ok read db names found in
      ap (λ y. y.1.tables.others) same
      ∙ drop_all-others names (exec read db).1 (ap (λ y. y.0) (sym same) ∙ h)
      ∙ ap (λ t. t.others) moved

  module _ {A : Type 0} (like : Bytes → Bool) (unlock : Option Err) (a : A) where
    released-ok :
        (r : Result A) (x : Result Bool × Db (ShadowTables R))
        → (released unlock r x).0 ≡ ok a
        → r ≡ ok a
    released-ok r (ok true, db) h = h
    released-ok r (ok false, db) h = ground (arith, h, unlock)
    released-ok r (err e, db) h = ground (arith, h, unlock)

    cleaned-ok :
        (r : Result A) (x : Result (Unit {0}) × Db (ShadowTables R))
        → (cleaned unlock r x).0 ≡ ok a
        → r ≡ ok a
    cleaned-ok r (ok x, db) h = released-ok r (release_lock db) h
    cleaned-ok r (err e, db) h =
        absurd (ground (arith, released-ok (err cleanup_failed) (release_lock db) h))

    -- The section gave the answer a, on a world where all but the indexes and the lock is as w.
    abbrev pub Accepts : Sql (ShadowTables R) A → R → Type 0
    Accepts body w = (t : Db (ShadowTables R)) × (t.tables.others ≡ w) × ((body t).0 ≡ ok a)

    entered-Accepts :
        (body : Sql (ShadowTables R) A) (w : R) (x : Result Bool × Db (ShadowTables R))
        → x.1.tables.others ≡ w
        → (entered like unlock body x).0 ≡ ok a
        → Accepts body w
    unfolding deferred
    entered-Accepts body w (ok true, db) here h =
        let inner = (clean_indexes like >> body) db in
        let done = cleaned-ok inner.0 (clean_indexes like inner.1) h in
        let (clean, rest) = both-ok (clean_indexes like) body db a done in
        ((clean_indexes like db).1, clean_indexes-others like db clean ∙ here, rest)
    entered-Accepts body w (ok false, db) here h = absurd (ground (arith, h))
    entered-Accepts body w (err e, db) here h = absurd (ground (arith, h))

    lock-others :
        (faults : List (Option Fault)) (db : Db (ShadowTables R))
        → (serve faults lock db).1.tables.others ≡ db.tables.others
    lock-others [] db = ground arith
    lock-others (none ∷ rest) db = ground arith
    lock-others (some (fails e) ∷ rest) db = refl
    lock-others (some (lost e) ∷ rest) db = ground arith

    call-Accepts :
        (body k : Sql (ShadowTables R) A) (w : R)
        → ((t : Db (ShadowTables R)) → t.tables.others ≡ w → (k t).0 ≡ ok a → Accepts body w)
        → (t : Db (ShadowTables R)) → t.tables.others ≡ w
        → ((call >> k) t).0 ≡ ok a
        → Accepts body w
    unfolding call
    call-Accepts body k w next t here h =
        let (called, rest) = both-ok call k t a h in
        let (found, moved) = exec-ok (λ s. (ok (tt {0}), s)) t tt called in
        next (call t).1 (ap (λ s. s.others) moved ∙ here) rest

    lock-Accepts :
        (body : Sql (ShadowTables R) A) (w : R) (t : Db (ShadowTables R))
        → t.tables.others ≡ w
        → (entered like unlock body (get_lock t)).0 ≡ ok a
        → Accepts body w
    unfolding get_lock exec
    lock-Accepts body w t here h =
        entered-Accepts body w (get_lock t) (lock-others t.faults t ∙ here) h

    pub with_lock-Accepts :
        (body : Sql (ShadowTables R) A) (t : Db (ShadowTables R))
        → (with_lock like unlock body t).0 ≡ ok a
        → Accepts body t.tables.others
    unfolding with_lock
    with_lock-Accepts body t h =
        let w = t.tables.others in
        let enter = λ (s : Db (ShadowTables R)). entered like unlock body (get_lock s) in
        call-Accepts body (call >> (call >> (call >> enter))) w
          (call-Accepts body (call >> (call >> enter)) w
            (call-Accepts body (call >> enter) w (call-Accepts body enter w (lock-Accepts body w))))
          t refl h
