-- ===== src/Kafka/Mysql/Atomic/Effects.antt =====
-- What a program of internal/kafka/mysql.go that succeeds has done: its statements one by one, and
-- the transaction around them.
use sql_sentinel.Prelude.{Option, none, some, List, [], ◌∷◌, ◌≡◌, refl, ◌⊎◌, inl, inr, arith}
use sql_sentinel.Kafka.Model.{Result, ok, err}
use sql_sentinel.Kafka.Mysql.Db.{
  Db, Sql, Fault, fails, lost, Ending, rolled_back, committed, ◌>>=◌, attempt, attempted, exec,
  query, serve, serve_commit, resume, call, commit, close, transaction,
}
use sql_sentinel.Kafka.Mysql.Atomic.{subst, resume-inv}

module _ {T : Type 0} where
  -- A program answers, and ends with the database `db'`.
  unfoldable pub Succeeds : {A : Type 0} → Sql T A → Db T → A → Db T → Type 0
  Succeeds m db a db' = m db ≡ (ok a, db')

  pub >>=-Succeeds :
      {A B : Type 0} (m : Sql T A) (f : A → Sql T B) (db db' : Db T) (b : B)
      → Succeeds (m >>= f) db b db'
      → (a : A) × (db1 : Db T) × Succeeds m db a db1 × Succeeds (f a) db1 b db'
  unfolding Succeeds ◌>>=◌
  >>=-Succeeds m f db db' b h = resume-inv f (m db) db' b h

  serve-inv :
      {A : Type 0} (faults : List (Option Fault)) (step : T → Result A × T) (db db' : Db T) (a : A)
      → serve faults step db ≡ (ok a, db')
      → step db.tables ≡ (ok a, db'.tables)
  serve-inv [] step db db' a h = ground arith
  serve-inv (none ∷ rest) step db db' a h = ground arith
  serve-inv (some (fails e) ∷ rest) step db db' a h = absurd (ground arith)
  serve-inv (some (lost e) ∷ rest) step db db' a h = absurd (ground arith)

  pub exec-Succeeds :
      {A : Type 0} (step : T → Result A × T) (db db' : Db T) (a : A)
      → Succeeds (exec step) db a db'
      → step db.tables ≡ (ok a, db'.tables)
  unfolding Succeeds exec
  exec-Succeeds step db db' a h = serve-inv db.faults step db db' a h

  pub query-Succeeds :
      {A : Type 0} (read : T → Result A) (db db' : Db T) (a : A)
      → Succeeds (query read) db a db'
      → (read db.tables ≡ ok a) × (db'.tables ≡ db.tables)
  unfolding query
  query-Succeeds read db db' a h =
      let e = exec-Succeeds (λ t. (read t, t)) db db' a h in (ground (arith, e), ground (arith, e))

  attempted-inv :
      {A : Type 0} (x : Result A × Db T) (db' : Db T) (r : Result A)
      → attempted x ≡ (ok r, db')
      → x ≡ (r, db')
  attempted-inv (r1, db1) db' r h = ground arith

  pub attempt-Succeeds :
      {A : Type 0} (m : Sql T A) (db db' : Db T) (r : Result A)
      → Succeeds (attempt m) db r db'
      → m db ≡ (r, db')
  unfolding Succeeds attempt
  attempt-Succeeds m db db' r h = attempted-inv (m db) db' r h

  -- The body of a transaction has come to a commit that leaves the tables `new`.
  pub record Done {A : Type 0} (body : Sql T (Ending A)) (old new : T) : Type 0 where
    pub answer : A
    pub start : Db T
    pub end : Db T
    pub begins : start.tables ≡ old
    pub runs : Succeeds body start (committed answer) end
    pub leaves : new ≡ end.tables

  commit-Done :
      {A : Type 0} (body : Sql T (Ending A)) (faults : List (Option Fault)) (old : T) (a : A)
      (start db : Db T)
      → start.tables ≡ old
      → body start ≡ (ok (committed a), db)
      → ((serve_commit faults old a db).1.tables ≡ old)
        ⊎ Done body old (serve_commit faults old a db).1.tables
  unfolding Succeeds
  commit-Done body [] old a start db s h =
      inr (record { answer = a; start = start; end = db; begins = s; runs = h; leaves = refl })
  commit-Done body (none ∷ rest) old a start db s h =
      inr (record { answer = a; start = start; end = db; begins = s; runs = h; leaves = refl })
  commit-Done body (some (fails e) ∷ rest) old a start db s h = inl refl
  commit-Done body (some (lost e) ∷ rest) old a start db s h =
      inr (record { answer = a; start = start; end = db; begins = s; runs = h; leaves = refl })

  close-Done :
      {A : Type 0} (body : Sql T (Ending A)) (start : Db T) (r : Result (Ending A) × Db T)
      → body start ≡ r
      → ((close start.tables r).1.tables ≡ start.tables)
        ⊎ Done body start.tables (close start.tables r).1.tables
  unfolding close commit
  close-Done body start (err e, db) h = inl refl
  close-Done body start (ok (rolled_back a), db) h = inl refl
  close-Done body start (ok (committed a), db) h =
      commit-Done body db.faults start.tables a start db refl h

  serve-same :
      (faults : List (Option Fault)) (db : Db T)
      → (serve faults (λ t. (ok tt, t)) db).1.tables ≡ db.tables
  serve-same [] db = refl
  serve-same (none ∷ rest) db = refl
  serve-same (some (fails e) ∷ rest) db = refl
  serve-same (some (lost e) ∷ rest) db = refl

  began-Done :
      {A : Type 0} (body : Sql T (Ending A)) (old : T) (r : Result (Unit {0}) × Db T)
      → r.1.tables ≡ old
      → let end = resume (λ _ db1. close db1.tables (body db1)) r in
        (end.1.tables ≡ old) ⊎ Done body old end.1.tables
  began-Done body old (err e, db1) p = inl p
  began-Done body old (ok tt, db1) p =
      subst
        (λ (t : T).
          ((close db1.tables (body db1)).1.tables ≡ t)
          ⊎ Done body t (close db1.tables (body db1)).1.tables)
        p (close-Done body db1 (body db1) refl)

  -- A transaction leaves the tables, or has taken place: its body has come to a commit.
  pub transaction-Done :
      {A : Type 0} (body : Sql T (Ending A)) (db : Db T)
      → ((transaction body db).1.tables ≡ db.tables)
        ⊎ Done body db.tables (transaction body db).1.tables
  unfolding transaction ◌>>=◌ call exec
  transaction-Done body db = began-Done body db.tables (call db) (serve-same db.faults db)
