-- ===== src/Kafka/Mysql/Refines/Steps.antt =====
-- One call on MySQLStore in which nothing goes wrong, beside the same call on MemoryStore.
use sql_sentinel.Prelude.{
  ◌∷◌, ◌++◌, [], ℕ, String, Bool, true, false, not, none, some, ◌≡◌, refl, sym, ◌∙◌, arith, inl,
  inr, ◌⊎◌, Option-cases, Bool-cases,
}
use sql_sentinel.Prelude.Assoc.{lookup, insert}
use sql_sentinel.Kafka.Model.{is_terminal, JobStatus, Time, Duration, Job, Result, ok}
use sql_sentinel.Kafka.Memory.{
  refuses, holds_lease, MemoryStore, claimed_job, finished_job, retried_job, put_job,
}
use sql_sentinel.Kafka.Mysql.Db.{Db}
use sql_sentinel.Kafka.Mysql.Rows.{Tables, JobRow, scan_job}
use sql_sentinel.Kafka.Mysql.Lease
use sql_sentinel.Kafka.Memory
use sql_sentinel.Kafka.Mysql.Lease.{
  store_retry, is_leased, is_claimable, is_renewable, finished_row, claimed_row, retried_row,
  renewed_row,
}
use sql_sentinel.Kafka.Mysql.Rows.{update_row}
use sql_sentinel.Kafka.Mysql.Refines.{
  seen, IsSane, Represents, refuses-seen, holds_lease-seen, refuses-scan_job, holds_lease-scan_job,
}
use sql_sentinel.Kafka.Mysql.Refines.Calls.{
  seen-finished_row, put-Represents, of_bool, replied, Reply,
}

-- A row of the tables and the job of the store under an identifier.
pub record At (t : Tables) (s : MemoryStore) (id : String) : Type 0 where
  pub row : JobRow
  pub job : Job
  pub row_at : lookup id t.jobs ≡ some row
  pub job_at : lookup id s.jobs ≡ some job
  pub same : seen (scan_job t row) ≡ seen job
  pub sane : IsSane id row

-- Both stores have a job under an identifier, or neither has.
pub Represents-At :
    (t : Tables) (s : MemoryStore) (id : String)
    → Represents t s
    → ((lookup id t.jobs ≡ none) × (lookup id s.jobs ≡ none)) ⊎ At t s id
Represents-At t s id rep = elim (Option-cases (lookup id t.jobs)) [
  | inl absent ↦ elim (Option-cases (lookup id s.jobs)) [
    | inl gone ↦ inl (absent, gone)
    | inr (j, at) ↦ absurd (ground (arith, rep.agree id))
  ]
  | inr (r, at) ↦ elim (Option-cases (lookup id s.jobs)) [
    | inl gone ↦ absurd (ground (arith, rep.agree id))
    | inr (j, at') ↦ inr (record {
      row = r;
      job = j;
      row_at = at;
      job_at = at';
      same = ground (arith, rep.agree id);
      sane = rep.sane id r at;
    })
  ]
]

-- A reply and stores that belong together, as the two calls leave them.
abbrev pub Meets :
    {A : Type 0} → (A → Reply) → Result A × Db Tables → Result A × MemoryStore → Type 0
Meets f x y = (replied f y.0 ≡ replied f x.0) × Represents x.1.tables y.1

-- The database with these tables, when nothing goes wrong.
abbrev pub quiet : Tables → ℕ → Db Tables
quiet t n = record { tables = t; id_sequence = n; faults = [] }

module _ (t : Tables) (s : MemoryStore) (id : String) (a : At t s id) where
  pub At-holds :
      (owner : String) (now : Time) (b : Bool)
      → is_leased owner now a.row ≡ b
      → holds_lease a.job owner now ≡ b
  At-holds owner now b h =
      holds_lease-seen a.job (scan_job t a.row) owner now (sym a.same)
      ∙ holds_lease-scan_job t a.row owner now
      ∙ h

  pub At-refuses : (now : Time) (b : Bool) → is_claimable now a.row ≡ not b → refuses a.job now ≡ b
  At-refuses now b h =
      refuses-seen a.job (scan_job t a.row) now (sym a.same)
      ∙ refuses-scan_job t id a.row now a.sane
      ∙ ground (arith, h)

  At-finished :
      (now : Time) (status : JobStatus) (reason : String)
      → is_terminal status ≡ true
      → IsSane id (finished_row now status reason a.row)
  unfolding finished_row
  At-finished now status reason h = record {
    keyed = a.sane.keyed;
    begun = ground arith;
    leased = ground arith;
  }

  pub At-claimed :
      (owner : String) (now : Time) (lease : Duration)
      → IsSane id (claimed_row owner now lease a.row)
  unfolding claimed_row
  At-claimed owner now lease = record {
    keyed = a.sane.keyed;
    begun = ground arith;
    leased = λ h. ground arith;
  }

  pub At-retried :
      (now later : Time) (reason : String) → IsSane id (retried_row now later reason a.row)
  unfolding retried_row
  At-retried now later reason = record {
    keyed = a.sane.keyed;
    begun = ground arith;
    leased = ground arith;
  }

  pub At-renewed : (now : Time) (lease : Duration) → IsSane id (renewed_row now lease a.row)
  unfolding renewed_row
  At-renewed now lease = record {
    keyed = a.sane.keyed;
    begun = a.sane.begun;
    leased = λ h. ground arith;
  }

-- Renew changes the row if it holds the lease: one that it would leave as it is counts as not renewed.
abbrev pub Moves : Tables → String → String → Time → Duration → Type 0
Moves t id owner now lease =
    (r : JobRow)
    → lookup id t.jobs ≡ some r
    → is_renewable owner now lease r ≡ is_leased owner now r

module _ (t : Tables) (n : ℕ) (id owner : String) (now : Time) where
  finish-absent :
      (status : JobStatus) (reason : String) (clock : Time)
      → lookup id t.jobs ≡ none
      → Lease.finish id owner now status reason clock (quiet t n) ≡ (ok false, quiet t n)
  unfolding Lease.finish update_row
  finish-absent status reason clock h = rw (Lease.finish, update_row, h) refl

  finish-found :
      (status : JobStatus) (reason : String) (clock : Time) (r : JobRow)
      → lookup id t.jobs ≡ some r
      → is_leased owner now r ≡ true
      → Lease.finish id owner now status reason clock (quiet t n) ≡ (
        ok true,
        quiet
            (record t {
              jobs = insert id (finished_row now status reason r) t.jobs;
              history =
                  t.history
                  ++ record { job_id = id; status = status; reason = reason; created_at = clock }
                    ∷ [];
            })
            n,
      )
  unfolding Lease.finish update_row
  finish-found status reason clock r h l = rw (Lease.finish, update_row, h, l) refl

  finish-refused :
      (status : JobStatus) (reason : String) (clock : Time) (r : JobRow)
      → lookup id t.jobs ≡ some r
      → is_leased owner now r ≡ false
      → Lease.finish id owner now status reason clock (quiet t n) ≡ (ok false, quiet t n)
  unfolding Lease.finish update_row
  finish-refused status reason clock r h l = rw (Lease.finish, update_row, h, l) refl

  pub finish-Meets :
      (s : MemoryStore) (status : JobStatus) (reason : String) (clock : Time)
      → Represents t s
      → is_terminal status ≡ true
      → Meets of_bool
          (Lease.finish id owner now status reason clock (quiet t n))
          (Memory.finish id owner now status reason s)
  unfolding Memory.finish
  finish-Meets s status reason clock rep h = elim (Represents-At t s id rep) [
    | inl (no_row, no_job) ↦
        rw (finish-absent status reason clock no_row, Memory.finish, no_job) (refl, rep)
    | inr a ↦ elim (Bool-cases (is_leased owner now a.row)) [
      | inr free ↦
          rw
            (
              finish-refused status reason clock a.row a.row_at free,
              Memory.finish,
              a.job_at,
              At-holds t s id a owner now false free,
            )
            (refl, rep)
      | inl held ↦
          rw
            (
              finish-found status reason clock a.row a.row_at held,
              Memory.finish,
              a.job_at,
              At-holds t s id a owner now true held,
            )
            (
              refl,
              put-Represents t _ s _ id _ _ rep refl refl refl
                  (At-finished t s id a now status reason h)
                  (seen-finished_row t a.job a.row a.same now status reason),
            )
    ]
  ]
