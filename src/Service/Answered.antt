-- ===== src/Service/Answered.antt =====
-- The questions of runRewrite in internal/service/rewrite.go that were answered, one at a time.
use sql_sentinel.Prelude.{◌≡◌, sym, ap, ◌∙◌, arith, Bool, true, false, refl}
use sql_sentinel.Kafka.Model.{Err, Result, ok, err}
use sql_sentinel.Kafka.Mysql.Db.{Db, Sql, ◌>>=◌, ◌>>◌, exec}
use sql_sentinel.Service.Shadow.{ShadowTables}
use sql_sentinel.Service.RunRewrite.{Engine, renamed, asked, ask, instead, demand}
use sql_sentinel.Service.Drops.{exec-ok, bind-ok}

-- One answer of each step, and where the world stands behind it.
module _ {W P : Type 0} (db : Engine W P) where
  pub renamed-ok :
      {A : Type 0} (e : Err) (x : Result A × Db (ShadowTables W)) (a : A)
      → (renamed db e x).0 ≡ ok a
      → (x.0 ≡ ok a) × ((renamed db e x).1 ≡ x.1)
  renamed-ok e (ok b, t) a h = (h, refl)
  renamed-ok e (err f, t) a h = absurd (ground (arith, h))

  module _ {A B : Type 0} (f : A → Sql (ShadowTables W) B) (b : B) (t : Db (ShadowTables W)) (w : W)
      (here : t.tables.others ≡ w) where
    -- The question was answered on the world w, and f went on behind it.
    abbrev pub Answered : (W → Result A) → Type 0
    Answered read =
        (a : A) × (read w ≡ ok a)
        × ((u : Db (ShadowTables W)) × (u.tables.others ≡ db.pass w) × ((f a u).0 ≡ ok b))

    answered :
        (read : W → Result A) (a : A) (u : Db (ShadowTables W))
        → (read t.tables.others ≡ ok a)
        → (u.tables.others ≡ db.pass t.tables.others)
        → (f a u).0 ≡ ok b
        → Answered read
    answered read a u h k rest = (a, ap read (sym here) ∙ h, (u, k ∙ ap db.pass here, rest))

    pub ask-Answered : (read : W → Result A) → ((ask db read >>= f) t).0 ≡ ok b → Answered read
    unfolding ask ◌>>=◌
    ask-Answered read h =
        let (a, there, same) = bind-ok (exec (asked db read) t) f b h in
        let (found, moved) = exec-ok (asked db read) t a there in
        answered read a (exec (asked db read) t).1 found (ap (λ s. s.others) moved)
          (ap (λ y. y.0) (sym same) ∙ h)

    pub instead-Answered :
        (e : Err) (read : W → Result A)
        → ((instead db e (ask db read) >>= f) t).0 ≡ ok b
        → Answered read
    unfolding ask ◌>>=◌ instead
    instead-Answered e read h =
        let x = exec (asked db read) t in
        let (a, there, same) = bind-ok (renamed db e x) f b h in
        let (inner, moved_on) = renamed-ok e x a there in
        let (found, moved) = exec-ok (asked db read) t a inner in
        answered read a (renamed db e x).1 found
          (ap (λ s. s.tables.others) moved_on ∙ ap (λ s. s.others) moved)
          (ap (λ y. y.0) (sym same) ∙ h)

  pub demand-then :
      {B : Type 0} (test : Bool) (e : Err) (m : Sql (ShadowTables W) B) (t : Db (ShadowTables W))
      (b : B)
      → ((demand db test e >> m) t).0 ≡ ok b
      → (test ≡ true) × ((m t).0 ≡ ok b)
  unfolding demand ◌>>◌ ◌>>=◌
  demand-then true e m t b h = (refl, h)
  demand-then false e m t b h = absurd (ground (arith, h))

  pub demand-ok :
      (test : Bool) (e : Err) (t : Db (ShadowTables W)) (b : Unit {0})
      → (demand db test e t).0 ≡ ok b
      → test ≡ true
  unfolding demand
  demand-ok true e t b h = refl
  demand-ok false e t b h = absurd (ground (arith, h))
