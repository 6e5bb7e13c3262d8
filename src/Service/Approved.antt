-- ===== src/Service/Approved.antt =====
-- The approval that Runner.Run of internal/service/runner.go asks for before a benchmark.
use sql_sentinel.Prelude.{
  ◌≡◌, refl, sym, ap, ◌∙◌, subst, arith, ◌⊎◌, inl, inr, Bool, true, false, Option, none, some, List,
  [], ◌∷◌, if◌then◌else◌, Bool-cases,
}
use sql_sentinel.Prelude.Assoc.{lookup}
use sql_sentinel.Kafka.Model.{Err, input_rejected, Result, ok, err, Job}
use sql_sentinel.Kafka.Mysql.Db.{
  Db, Fault, fails, lost, serve, exec, Sql, ◌>>=◌, ◌>>◌, resume, query, attempt, return, raise,
}
use sql_sentinel.Kafka.Mysql.Atomic.{Reads, query-Reads}
use sql_sentinel.Service.Persist.{Approval, Control}
use sql_sentinel.Service.RunJob.{approves, approval_row, check_approval}

-- The answer of two programs, where the first one only reads.
pub then-ok :
    (m k : Sql Control (Unit {0})) (db : Db Control)
    → Reads m
    → ((m >> k) db).0 ≡ ok tt
    → (t : Db Control) × (t.tables ≡ db.tables)
      × ((m db).0 ≡ ok tt)
      × ((k t).0 ≡ ok tt)
      × ((m >> k) db ≡ k t)
unfolding ◌>>◌ ◌>>=◌
then-ok m k db reads h = go (m db) refl h
  where
    go :
        (x : Result (Unit {0}) × Db Control)
        → m db ≡ x
        → (resume (λ _. k) x).0 ≡ ok tt
        → (t : Db Control) × (t.tables ≡ db.tables)
          × (x.0 ≡ ok tt)
          × ((k t).0 ≡ ok tt)
          × (resume (λ _. k) x ≡ k t)
    go (ok tt, t) p h = (t, ap (λ y. y.1.tables) (sym p) ∙ reads db, refl, h, refl)
    go (err e, t) p h = absurd (ground (arith, h))

judged-Reads : (test : Bool) (e : Err) → Reads {T = Control} (if test then return tt else raise e)
judged-Reads true e db = refl
judged-Reads false e db = refl

-- The approval of a benchmark, as the table holds it.
abbrev pub IsApproved : Job → Control → Type 0
IsApproved job t =
    job.options.benchmark ≡ true
    → approves job (approval_row (lookup job.options.approved_job_id t.approvals)) ≡ true

serve-answer :
    {A : Type 0} (faults : List (Option Fault)) (read : Control → Result A) (db : Db Control)
    → ((serve faults (λ t. (read t, t)) db).0 ≡ read db.tables)
      ⊎ ((e : Err) × ((serve faults (λ t. (read t, t)) db).0 ≡ err e))
serve-answer [] read db = inl refl
serve-answer (none ∷ rest) read db = inl refl
serve-answer (some (fails e) ∷ rest) read db = inr (e, refl)
serve-answer (some (lost e) ∷ rest) read db = inr (e, refl)

-- The statement that reads the approval
abbrev approval_of : Job → Control → Result Approval
approval_of job t = approval_row (lookup job.options.approved_job_id t.approvals)

pub check_approval-Reads : (job : Job) → Reads (check_approval job)
unfolding check_approval ◌>>=◌ query attempt exec
check_approval-Reads job db = elim (Bool-cases job.options.benchmark) [
  | inl needed ↦
      let x = query (approval_of job) db in
      rw needed
        (judged-Reads (approves job x.0) input_rejected x.1 ∙ query-Reads (approval_of job) db)
  | inr free ↦ rw free refl
]

judged-ok :
    (job : Job) (r : Result Approval) (db t : Db Control)
    → (r ≡ approval_of job t.tables) ⊎ ((e : Err) × (r ≡ err e))
    → ((if approves job r then return {T = Control} tt else raise input_rejected) db).0 ≡ ok tt
    → approves job (approval_of job t.tables) ≡ true
judged-ok job r db t (inl same) h =
    subst (λ a. approves job a ≡ true) same
      (elim (Bool-cases (approves job r)) [
        | inl passes ↦ passes
        | inr fails_it ↦ absurd (ground (arith, (rw fails_it at h)))
      ])
judged-ok job (ok a) db t (inr (e, failed)) h = absurd (ground (arith, failed))
judged-ok job (err f) db t (inr (e, failed)) h = absurd (ground (arith, h))

pub check_approval-IsApproved :
    (job : Job) (db : Db Control) → (check_approval job db).0 ≡ ok tt → IsApproved job db.tables
unfolding check_approval ◌>>=◌ ◌>>◌ query attempt exec
check_approval-IsApproved job db h benchmark =
    let x = query (approval_of job) db in
    judged-ok job x.0 x.1 db (serve-answer db.faults (approval_of job) db) (rw benchmark at h)
