-- ===== src/Kafka/Mysql/Refines/Calls.antt =====
-- The calls of a worker on MySQLStore and on MemoryStore (internal/kafka/mysql.go and memory.go), and
-- the step from one pair of stores to the next.
use sql_sentinel.Prelude.{
  str_eq, String, Bool, true, false, Option, none, some, ◌≡◌, refl, ap, sym, ◌∙◌, subst, arith, inl,
  inr,
}
use sql_sentinel.Prelude.Assoc.{Assoc, lookup, insert, lookup-insert_cases}
use sql_sentinel.Kafka.Model.{add_time, JobStatus, Time, Duration, Job, Hash, Result, ok, err}
use sql_sentinel.Kafka.Memory.{MemoryStore, claimed_job, finished_job, retried_job, put_job}
use sql_sentinel.Kafka.Memory
use sql_sentinel.Kafka.Mysql.Db.{Db}
use sql_sentinel.Kafka.Mysql.Rows.{Tables, JobRow, scan_job}
use sql_sentinel.Kafka.Mysql.Lease.{Mysql, claimed_row, finished_row, retried_row, renewed_row}
use sql_sentinel.Kafka.Mysql.Lease
use sql_sentinel.Kafka.Mysql.Refines.{
  lookup-insert, Bool-cases, seen, seen_job, seen_row, IsSane, Represents,
}

-- A call of a worker, with the times that it reads; the last time is that of the history entry.
pub data Call : Type 0 where
  claim_call : String → String → Time → Duration → Time → Call
  complete_call : String → String → Time → Time → Call
  reject_call bury_call : String → String → Time → String → Time → Call
  retry_call : String → String → Time → Time → String → Call
  renew_call : String → String → Time → Duration → Call

-- What a caller sees: whether the call was granted, and the job of a claim.
pub data Reply : Type 0 where
  granted denied : Option Job → Reply

abbrev pub of_claim : Job × Bool → Reply
of_claim (j, true) = granted (some (seen j))
of_claim (j, false) = denied (some (seen j))

abbrev pub of_bool : Bool → Reply
of_bool true = granted none
of_bool false = denied none

-- ErrNotFound counts as denied: MySQLStore answers (false, nil) for a job that is not there, where
-- MemoryStore returns that error.
abbrev pub replied : {A : Type 0} → (A → Reply) → Result A → Reply
replied f (ok a) = f a
replied f (err e) = denied none

abbrev pub answer_of : {A : Type 0} {S : Type 0} → (A → Reply) → Result A × S → Reply × S
answer_of f (r, s) = (replied f r, s)

unfoldable pub memory_call : Hash → Call → MemoryStore → Reply × MemoryStore
memory_call hash (claim_call id owner now lease clock) s =
    answer_of of_claim (Memory.claim id owner now lease s)
memory_call hash (complete_call id owner now clock) s =
    answer_of of_bool (Memory.complete id owner now s)
memory_call hash (reject_call id owner now reason clock) s =
    answer_of of_bool (Memory.reject id owner now reason s)
memory_call hash (bury_call id owner now reason clock) s =
    answer_of of_bool (Memory.bury id owner now reason s)
memory_call hash (retry_call id owner now later reason) s =
    answer_of of_bool (Memory.retry hash id owner now later reason s)
memory_call hash (renew_call id owner now lease) s =
    answer_of of_bool (Memory.renew id owner now lease s)

abbrev pub sql_answer : {A : Type 0} → (A → Reply) → Result A × Db Tables → Result Reply × Db Tables
sql_answer f (ok a, db) = (ok (f a), db)
sql_answer f (err e, db) = (err e, db)

unfoldable pub mysql_call : Hash → Call → Mysql Reply
mysql_call hash (claim_call id owner now lease clock) db =
    sql_answer of_claim (Lease.claim id owner now lease clock db)
mysql_call hash (complete_call id owner now clock) db =
    sql_answer of_bool (Lease.complete id owner now clock db)
mysql_call hash (reject_call id owner now reason clock) db =
    sql_answer of_bool (Lease.reject id owner now reason clock db)
mysql_call hash (bury_call id owner now reason clock) db =
    sql_answer of_bool (Lease.bury id owner now reason clock db)
mysql_call hash (retry_call id owner now later reason) db =
    sql_answer of_bool (Lease.retry hash id owner now later reason db)
mysql_call hash (renew_call id owner now lease) db =
    sql_answer of_bool (Lease.renew id owner now lease db)

module _ (t : Tables) (j : Job) (r : JobRow) (e : seen (scan_job t r) ≡ seen j) where
  pub seen-claimed_row :
      (owner : String) (now : Time) (lease : Duration)
      → seen (scan_job t (claimed_row owner now lease r)) ≡ seen (claimed_job j owner now lease)
  seen-claimed_row owner now lease =
      unfold seen scan_job claimed_row claimed_job in
      ap (λ (x : Job). seen (claimed_job x owner now lease)) e

  pub seen-finished_row :
      (now : Time) (status : JobStatus) (reason : String)
      → seen (scan_job t (finished_row now status reason r))
        ≡ seen (finished_job j now status reason)
  seen-finished_row now status reason =
      unfold seen scan_job finished_row finished_job in
      ap (λ (x : Job). seen (finished_job x now status reason)) e

  pub seen-retried_row :
      (now later : Time) (reason : String)
      → seen (scan_job t (retried_row now later reason r)) ≡ seen (retried_job j now later reason)
  seen-retried_row now later reason =
      unfold seen scan_job retried_row retried_job in
      ap (λ (x : Job). seen (retried_job x now later reason)) e

  pub seen-renewed_row :
      (now : Time) (lease : Duration)
      → seen (scan_job t (renewed_row now lease r))
        ≡ seen (record j { lease_until = add_time now lease })
  seen-renewed_row now lease =
      unfold seen scan_job renewed_row in
      ap (λ (x : Job). seen (record x { lease_until = add_time now lease })) e

scan_job-options :
    (t u : Tables) (r : JobRow) → u.job_options ≡ t.job_options → scan_job u r ≡ scan_job t r
unfolding scan_job
scan_job-options t u r e = rw e refl

seen_row-options :
    (t u : Tables) (r : Option JobRow) → u.job_options ≡ t.job_options → seen_row u r ≡ seen_row t r
seen_row-options t u none e = refl
seen_row-options t u (some r) e = rw (scan_job-options t u r e) refl

lookup-put_same :
    {V : Type 0} (id i : String) (r : V) (rows new : Assoc V)
    → new ≡ insert id r rows
    → str_eq id i ≡ true
    → lookup i new ≡ some r
lookup-put_same id i r rows new p h = ground (arith, lookup-insert id i r rows, p, h)

lookup-put_other :
    {V : Type 0} (id i : String) (r : V) (rows new : Assoc V)
    → new ≡ insert id r rows
    → str_eq id i ≡ false
    → lookup i new ≡ lookup i rows
lookup-put_other id i r rows new p h = ground (arith, lookup-insert id i r rows, p, h)

-- A row and its job are replaced together.
module _ (t u : Tables) (s v : MemoryStore) (id : String) (r : JobRow) (j : Job)
    (rep : Represents t s) (p : u.jobs ≡ insert id r t.jobs) (o : u.job_options ≡ t.job_options)
    (q : v.jobs ≡ insert id j s.jobs) (sane : IsSane id r) (e : seen (scan_job t r) ≡ seen j) where
  put-IsSane : (i : String) (r' : JobRow) → lookup i u.jobs ≡ some r' → IsSane i r'
  put-IsSane i r' h =
      elim (lookup-insert_cases id i r r' t.jobs (subst (λ x. lookup i x ≡ some r') p h)) [
        | inl (same, f) ↦ rw (same, f) sane
        | inr (other, f) ↦ rep.sane i r' f
      ]

  put-agree : (i : String) → seen_row u (lookup i u.jobs) ≡ seen_job (lookup i v.jobs)
  put-agree i = elim (Bool-cases (str_eq id i)) [
    | inl same ↦
        ap (seen_row u) (lookup-put_same id i r t.jobs u.jobs p same)
        ∙ rw (scan_job-options t u r o) (ap some e)
        ∙ sym (ap seen_job (lookup-put_same id i j s.jobs v.jobs q same))
    | inr other ↦
        ap (seen_row u) (lookup-put_other id i r t.jobs u.jobs p other)
        ∙ seen_row-options t u (lookup i t.jobs) o
        ∙ rep.agree i
        ∙ sym (ap seen_job (lookup-put_other id i j s.jobs v.jobs q other))
  ]

  pub put-Represents : Represents u v
  put-Represents = record { sane = put-IsSane; agree = put-agree }
