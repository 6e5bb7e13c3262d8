-- ===== src/Kafka/Mysql/Db.antt =====
-- How internal/kafka/mysql.go talks to database/sql: statements, each of which works or returns an
-- error, and the transactions around them.
use sql_sentinel.Prelude.{ℕ, Option, none, some, List, [], ◌∷◌}
use sql_sentinel.Kafka.Model.{Err, Result, ok, err}

-- What goes wrong with one call of the database: it fails without an effect, or its effect takes
-- place and the answer is lost.
pub data Fault : Type 0 where
  fails lost : Err → Fault

-- The database with tables T, the counter of newID (a variable of the process), and what happens to
-- the calls to come: `none` is a call that works, and so are those behind the end of the list.
pub record Db (T : Type 0) : Type 0 where
  pub tables : T
  pub id_sequence : ℕ
  pub faults : List (Option Fault)

abbrev pub Sql : Type 0 → Type 0 → Type 0
Sql T A = Db T → Result A × Db T

-- How a transaction ends: with Rollback and an answer, or with Commit.
pub data Ending (A : Type 0) : Type 0 where
  rolled_back committed : A → Ending A

module _ {T : Type 0} where
  abbrev pub resume : {A B : Type 0} → (A → Sql T B) → Result A × Db T → Result B × Db T
  resume f (err e, db) = (err e, db)
  resume f (ok a, db) = f a db

  infixl 5 ◌>>=◌ ◌>>◌
  unfoldable pub ◌>>=◌ : {A B : Type 0} → Sql T A → (A → Sql T B) → Sql T B
  ◌>>=◌ m f db = resume f (m db)

  unfoldable pub ◌>>◌ : {B : Type 0} → Sql T (Unit {0}) → Sql T B → Sql T B
  unfolding ◌>>=◌
  ◌>>◌ m k = m >>= λ _. k

  abbrev pub return : {A : Type 0} → A → Sql T A
  return a db = (ok a, db)

  abbrev pub raise : {A : Type 0} → Err → Sql T A
  raise e db = (err e, db)

  abbrev pub attempted : {A : Type 0} → Result A × Db T → Result (Result A) × Db T
  attempted (r, db) = (ok r, db)

  -- The answer of a call, with its error as a value.
  unfoldable pub attempt : {A : Type 0} → Sql T A → Sql T (Result A)
  attempt m db = attempted (m db)

  abbrev pub after_step : {A : Type 0} → Db T → Result A × T → Result A × Db T
  after_step db (r, t) = (r, record db { tables = t })

  abbrev pub after_lost : {A : Type 0} → Err → Db T → Result A × T → Result A × Db T
  after_lost e db (r, t) = (err e, record db { tables = t })

  abbrev pub serve : {A : Type 0} → List (Option Fault) → (T → Result A × T) → Sql T A
  serve [] step db = after_step db (step db.tables)
  serve (none ∷ rest) step db = after_step (record db { faults = rest }) (step db.tables)
  serve (some (fails e) ∷ rest) step db = (err e, record db { faults = rest })
  serve (some (lost e) ∷ rest) step db = after_lost e (record db { faults = rest }) (step db.tables)

  -- One call that changes the tables, or returns an error of MySQL and leaves them.
  unfoldable pub exec : {A : Type 0} → (T → Result A × T) → Sql T A
  exec step db = serve db.faults step db

  -- One call that reads.
  unfoldable pub query : {A : Type 0} → (T → Result A) → Sql T A
  unfolding exec
  query read = exec (λ t. (read t, t))

  -- BeginTx and Commit
  unfoldable pub call : Sql T (Unit {0})
  unfolding exec
  call = exec (λ t. (ok tt, t))

  abbrev pub serve_commit : {A : Type 0} → List (Option Fault) → T → A → Sql T A
  serve_commit [] old a db = (ok a, db)
  serve_commit (none ∷ rest) old a db = (ok a, record db { faults = rest })
  serve_commit (some (fails e) ∷ rest) old a db = (err e, record db { tables = old; faults = rest })
  serve_commit (some (lost e) ∷ rest) old a db = (err e, record db { faults = rest })

  -- Commit, in a transaction that began with the tables `old`: a commit that fails rolls back.
  unfoldable pub commit : {A : Type 0} → T → A → Sql T A
  commit old a db = serve_commit db.faults old a db

  unfoldable pub close : {A : Type 0} → T → Result (Ending A) × Db T → Result A × Db T
  unfolding commit
  close old (err e, db) = (err e, record db { tables = old })
  close old (ok (rolled_back a), db) = (ok a, record db { tables = old })
  close old (ok (committed a), db) = commit old a db

  -- BeginTx, the statements, and the end that they call for; an error rolls back.
  unfoldable pub transaction : {A : Type 0} → Sql T (Ending A) → Sql T A
  unfolding ◌>>=◌ call close
  transaction body = call >>= λ _ db. close db.tables (body db)
