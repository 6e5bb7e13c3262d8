-- ===== src/Kafka/Mysql/Atomic.antt =====
-- What faults can do to the tables of MySQLStore: a transaction of internal/kafka/mysql.go and
-- recovery.go takes place as a whole or not at all.
pub mod Effects
pub mod Events
pub mod Jobs
pub mod Recovered
pub mod Retries
pub mod Stored
use sql_sentinel.Prelude.{
  ℕ, ◌+◌, String, Bool, true, false, Option, none, some, List, [], ◌∷◌, ◌≡◌, refl, ◌⊎◌, inl, inr,
  sym, subst, ◌∙◌, ap, arith, ◌≢◌,
}
use sql_sentinel.Kafka.Model.{Err, Result, ok, err, Hash, Time, ReceiveInput}
use sql_sentinel.Kafka.Mysql.Db.{
  serve_commit, serve, attempted, resume, Db, Sql, Fault, fails, lost, Ending, rolled_back,
  committed, ◌>>=◌, ◌>>◌, return, raise, attempt, exec, query, after_step, serve, serve_commit,
  resume, attempted, call, commit, close, transaction,
}

module _ {T : Type 0} where
  -- The database when nothing goes wrong with the calls to come.
  abbrev pub calm : Db T → Db T
  calm db = record db { faults = [] }

  -- A program that succeeds does so in the same way when nothing goes wrong.
  abbrev pub Steady : {A : Type 0} → Sql T A → Type 0
  Steady {A} m = (db db' : Db T) (a : A) → m db ≡ (ok a, db') → m (calm db) ≡ (ok a, calm db')

  -- The same, for programs that call for a commit.
  abbrev pub Commits : {A : Type 0} → Sql T (Ending A) → Type 0
  Commits {A} m =
      (db db' : Db T) (a : A)
      → m db ≡ (ok (committed a), db')
      → m (calm db) ≡ (ok (committed a), calm db')

  pub resume-inv :
      {A B : Type 0} (f : A → Sql T B) (r : Result A × Db T) (db' : Db T) (b : B)
      → resume f r ≡ (ok b, db')
      → (a : A) × (db1 : Db T) × (r ≡ (ok a, db1)) × (f a db1 ≡ (ok b, db'))
  resume-inv f (err e, db) db' b h = absurd (ground arith)
  resume-inv f (ok a, db) db' b h = (a, db, refl, h)

  pub >>=-Steady :
      {A B : Type 0} (m : Sql T A) (f : A → Sql T B)
      → Steady m
      → ((a : A) → Steady (f a))
      → Steady (m >>= f)
  unfolding ◌>>=◌
  >>=-Steady m f sm sf db db' b h =
      let (a, db1, p, q) = resume-inv f (m db) db' b h in rw (sm db db1 a p) (sf a db1 db' b q)

  pub >>=-Commits :
      {A B : Type 0} (m : Sql T A) (f : A → Sql T (Ending B))
      → Steady m
      → ((a : A) → Commits (f a))
      → Commits (m >>= f)
  unfolding ◌>>=◌
  >>=-Commits m f sm sf db db' b h =
      let (a, db1, p, q) = resume-inv f (m db) db' (committed b) h in
      rw (sm db db1 a p) (sf a db1 db' b q)

  after_step-calm :
      {A : Type 0} (r : Result A × T) (db db' : Db T) (a : A)
      → after_step db r ≡ (ok a, db')
      → after_step (calm db) r ≡ (ok a, calm db')
  after_step-calm r db db' a h = ground arith

  serve-calm :
      {A : Type 0} (faults : List (Option Fault)) (step : T → Result A × T) (db db' : Db T) (a : A)
      → serve faults step db ≡ (ok a, db')
      → serve [] step (calm db) ≡ (ok a, calm db')
  serve-calm [] step db db' a h = after_step-calm (step db.tables) db db' a h
  serve-calm (none ∷ rest) step db db' a h =
      after_step-calm (step db.tables) (record db { faults = rest }) db' a h
  serve-calm (some (fails e) ∷ rest) step db db' a h = absurd (ground arith)
  serve-calm (some (lost e) ∷ rest) step db db' a h = absurd (ground arith)

  pub exec-Steady : {A : Type 0} (step : T → Result A × T) → Steady (exec step)
  unfolding exec
  exec-Steady step db db' a h = serve-calm db.faults step db db' a h

  pub query-Steady : {A : Type 0} (read : T → Result A) → Steady (query read)
  unfolding query
  query-Steady read = exec-Steady (λ t. (read t, t))

  pub return-Steady : {A : Type 0} (a : A) → Steady (return a)
  return-Steady a db db' b h = ground arith

  pub return-Commits : {A : Type 0} (a : A) → Commits (return (committed a))
  return-Commits a db db' b h = ground arith

  pub rolled_back-Commits : {A : Type 0} (a : A) → Commits (return (rolled_back a))
  rolled_back-Commits a db db' b h = absurd (ground arith)

  attempted-Commits :
      {A B : Type 0} (m : Sql T A) (f : Result A → Sql T (Ending B)) (db db' : Db T) (b : B)
      (r : Result A × Db T)
      → m db ≡ r
      → Steady m
      → ((a : A) → Commits (f (ok a)))
      → ((e : Err) (db db' : Db T) (b : B) → f (err e) db ≢ (ok (committed b), db'))
      → resume f (attempted r) ≡ (ok (committed b), db')
      → resume f (attempted (m (calm db))) ≡ (ok (committed b), calm db')
  attempted-Commits m f db db' b (ok a, db1) p sm sf no_commit h =
      rw (sm db db1 a p) (sf a db1 db' b h)
  attempted-Commits m f db db' b (err e, db1) p sm sf no_commit h = absurd (no_commit e db1 db' b h)

  pub attempt-Commits :
      {A B : Type 0} (m : Sql T A) (f : Result A → Sql T (Ending B))
      → Steady m
      → ((a : A) → Commits (f (ok a)))
      → ((e : Err) (db db' : Db T) (b : B) → f (err e) db ≢ (ok (committed b), db'))
      → Commits (attempt m >>= f)
  unfolding ◌>>=◌ attempt
  attempt-Commits m f sm sf no_commit db db' b h =
      attempted-Commits m f db db' b (m db) refl sm sf no_commit h

  serve-call :
      (faults : List (Option Fault)) (db : Db T)
      → calm (serve faults (λ t. (ok tt, t)) db).1 ≡ calm db
  serve-call [] db = refl
  serve-call (none ∷ rest) db = refl
  serve-call (some (fails e) ∷ rest) db = refl
  serve-call (some (lost e) ∷ rest) db = refl

  commit-tables :
      {A : Type 0} (faults : List (Option Fault)) (old : T) (a : A) (db : Db T)
      → ((serve_commit faults old a db).1.tables ≡ old)
        ⊎ ((serve_commit faults old a db).1.tables ≡ db.tables)
  commit-tables [] old a db = inr refl
  commit-tables (none ∷ rest) old a db = inr refl
  commit-tables (some (fails e) ∷ rest) old a db = inl refl
  commit-tables (some (lost e) ∷ rest) old a db = inr refl

  close-tables :
      {A : Type 0} (body : Sql T (Ending A)) (db : Db T) (r : Result (Ending A) × Db T)
      → body db ≡ r
      → Commits body
      → ((close db.tables r).1.tables ≡ db.tables)
        ⊎ ((close db.tables r).1.tables ≡ (close db.tables (body (calm db))).1.tables)
  unfolding close commit
  close-tables body db (err e, db') p c = inl refl
  close-tables body db (ok (rolled_back a), db') p c = inl refl
  close-tables body db (ok (committed a), db') p c =
      rw (c db db' a p) (commit-tables db'.faults db.tables a db')

  began-tables :
      {A : Type 0} (body : Sql T (Ending A)) (db : Db T) (r : Result (Unit {0}) × Db T)
      → call db ≡ r
      → Commits body
      → let end = resume (λ _ db1. close db1.tables (body db1)) r in
        (end.1.tables ≡ db.tables) ⊎ (end.1.tables ≡ (transaction body (calm db)).1.tables)
  unfolding transaction ◌>>=◌ call exec
  began-tables body db (err e, db1) p c = inl (
      ap (λ (x : Result (Unit {0}) × Db T). x.1.tables) (sym p)
      ∙ ap (λ (x : Db T). x.tables) (serve-call db.faults db))
  began-tables body db (ok tt, db1) p c =
      let end = (close db1.tables (body db1)).1.tables in
      let same : calm db1 ≡ calm db =
        ap (λ (x : Result (Unit {0}) × Db T). calm x.1) (sym p) ∙ serve-call db.faults db in
      subst (λ (x : Db T). (end ≡ x.tables) ⊎ (end ≡ (close x.tables (body x)).1.tables)) same
        (close-tables body db1 (body db1) refl c)

  -- After a transaction the tables are as before, or as the transaction leaves them when nothing
  -- goes wrong.
  pub transaction-atomic :
      {A : Type 0} (body : Sql T (Ending A)) (db : Db T)
      → Commits body
      → ((transaction body db).1.tables ≡ db.tables)
        ⊎ ((transaction body db).1.tables ≡ (transaction body (calm db)).1.tables)
  unfolding transaction ◌>>=◌
  transaction-atomic body db c = began-tables body db (call db) refl c

  -- Faults change the tables only by what the program does without them.
  abbrev pub Atomic : {A : Type 0} → Sql T A → Type 0
  Atomic m =
      (db : Db T) → ((m db).1.tables ≡ db.tables) ⊎ ((m db).1.tables ≡ (m (calm db)).1.tables)

  -- A program that never changes the tables.
  abbrev pub Reads : {A : Type 0} → Sql T A → Type 0
  Reads m = (db : Db T) → (m db).1.tables ≡ db.tables

  pub resume-Reads :
      {A B : Type 0} (f : A → Sql T B) (r : Result A × Db T)
      → ((a : A) → Reads (f a))
      → (resume f r).1.tables ≡ r.1.tables
  resume-Reads f (err e, db) h = refl
  resume-Reads f (ok a, db) h = h a db

  pub >>=-Reads :
      {A B : Type 0} (m : Sql T A) (f : A → Sql T B)
      → Reads m
      → ((a : A) → Reads (f a))
      → Reads (m >>= f)
  unfolding ◌>>=◌
  >>=-Reads m f rm rf db = resume-Reads f (m db) rf ∙ rm db

  -- What only reads may follow a program.
  pub >>=-Atomic :
      {A B : Type 0} (m : Sql T A) (f : A → Sql T B)
      → Atomic m
      → ((a : A) → Reads (f a))
      → Atomic (m >>= f)
  unfolding ◌>>=◌
  >>=-Atomic m f am rf db =
      ground (arith, resume-Reads f (m db) rf, resume-Reads f (m (calm db)) rf, am db)

  serve-query :
      {A : Type 0} (faults : List (Option Fault)) (read : T → Result A) (db : Db T)
      → (serve faults (λ t. (read t, t)) db).1.tables ≡ db.tables
  serve-query [] read db = refl
  serve-query (none ∷ rest) read db = refl
  serve-query (some (fails e) ∷ rest) read db = refl
  serve-query (some (lost e) ∷ rest) read db = refl

  pub query-Reads : {A : Type 0} (read : T → Result A) → Reads (query read)
  unfolding query exec
  query-Reads read db = serve-query db.faults read db

  serve_commit-calm :
      {A : Type 0} (faults : List (Option Fault)) (old : T) (a b : A) (db db' : Db T)
      → serve_commit faults old a db ≡ (ok b, db')
      → serve_commit [] old a (calm db) ≡ (ok b, calm db')
  serve_commit-calm [] old a b db db' h = ground arith
  serve_commit-calm (none ∷ rest) old a b db db' h = ground arith
  serve_commit-calm (some (fails e) ∷ rest) old a b db db' h = absurd (ground arith)
  serve_commit-calm (some (lost e) ∷ rest) old a b db db' h = absurd (ground arith)

  close-calm :
      {A : Type 0} (body : Sql T (Ending A)) (db db' : Db T) (b : A) (r : Result (Ending A) × Db T)
      → body db ≡ r
      → Steady body
      → close db.tables r ≡ (ok b, db')
      → close db.tables (body (calm db)) ≡ (ok b, calm db')
  unfolding close commit
  close-calm body db db' b (err e, db1) p c h = absurd (ground arith)
  close-calm body db db' b (ok (rolled_back a), db1) p c h =
      rw (c db db1 (rolled_back a) p) (ground arith)
  close-calm body db db' b (ok (committed a), db1) p c h =
      rw (c db db1 (committed a) p) (serve_commit-calm db1.faults db.tables a b db1 db' h)

  pub transaction-Steady :
      {A : Type 0} (body : Sql T (Ending A)) → Steady body → Steady (transaction body)
  unfolding transaction call
  transaction-Steady body c =
      >>=-Steady _ _ (exec-Steady _) λ _ db db' b h. close-calm body db db' b (body db) refl c h
