-- ===== src/Kafka/Mysql/Refines/Runs.antt =====
-- A sequence of calls on MySQLStore and on MemoryStore (internal/kafka/mysql.go and memory.go).
use sql_sentinel.Prelude.{ℕ, Option, none, some, List, [], ◌∷◌, ◌≡◌, refl, sym, ◌∙◌, subst, arith}
use sql_sentinel.Kafka.Model.{dead_letter, rejected, completed, Hash, Result, ok, err}
use sql_sentinel.Kafka.Memory.{MemoryStore}
use sql_sentinel.Kafka.Memory
use sql_sentinel.Kafka.Mysql.Db.{Db}
use sql_sentinel.Kafka.Mysql.Rows.{Tables}
use sql_sentinel.Kafka.Mysql.Lease
use sql_sentinel.Kafka.Mysql.Atomic.Retries.{
  claim-Steady, finish-Steady, retry-Steady, renew-Steady,
}
use sql_sentinel.Kafka.Mysql.Atomic.{calm, Steady}
use sql_sentinel.Kafka.Mysql.Refines.{inr, inl, Option-cases, Represents}
use sql_sentinel.Kafka.Mysql.Refines.Calls.{
  answer_of, Call, claim_call, complete_call, reject_call, bury_call, retry_call, renew_call, Reply,
  of_claim, of_bool, memory_call, mysql_call, sql_answer,
}
use sql_sentinel.Kafka.Mysql.Refines.Steps.{Meets, quiet, Moves, finish-Meets}
use sql_sentinel.Kafka.Mysql.Refines.Renewals.{renew-Meets}
use sql_sentinel.Kafka.Mysql.Refines.Claims.{claim-Meets}
use sql_sentinel.Kafka.Mysql.Refines.Retries.{retry-Meets}
use sql_sentinel.Kafka.Mysql.Lease.{Mysql}

-- The calls of a run, one after the other, on each store: the replies and the store at the end.
unfoldable pub memory_run : Hash → List Call → MemoryStore → List Reply × MemoryStore
unfolding memory_call
memory_run hash [] s = ([], s)
memory_run hash (call ∷ calls) s =
    let (reply, s1) = memory_call hash call s in
    let (replies, s2) = memory_run hash calls s1 in (reply ∷ replies, s2)

abbrev cons_reply : Reply → Option (List Reply × Db Tables) → Option (List Reply × Db Tables)
cons_reply reply none = none
cons_reply reply (some (replies, db)) = some (reply ∷ replies, db)

abbrev later_calls :
    (Db Tables → Option (List Reply × Db Tables))
    → Result Reply × Db Tables
    → Option (List Reply × Db Tables)
later_calls run (err e, db) = none
later_calls run (ok reply, db) = cons_reply reply (run db)

-- `none` when a call returns an error.
unfoldable pub mysql_run : Hash → List Call → Db Tables → Option (List Reply × Db Tables)
unfolding mysql_call
mysql_run hash [] db = some ([], db)
mysql_run hash (call ∷ calls) db =
    later_calls (λ db1. mysql_run hash calls db1) (mysql_call hash call db)

abbrev MovesCall : Call → Tables → Type 0
MovesCall (renew_call id owner now lease) t = Moves t id owner now lease
MovesCall call t = Unit

-- No call of the run is a Renew of a row that has the new values already.
unfoldable pub MovesAll : Hash → List Call → Db Tables → Type 0
MovesAll hash [] db = Unit
MovesAll hash (call ∷ calls) db =
    MovesCall call db.tables
    × ((reply : Reply) (db1 : Db Tables)
        → mysql_call hash call db ≡ (ok reply, db1)
        → MovesAll hash calls db1)

answer-Meets :
    {A : Type 0} (f : A → Reply) (x : Result A × Db Tables) (y : Result A × MemoryStore)
    (reply : Reply) (db' : Db Tables)
    → Meets f x y
    → sql_answer f x ≡ (ok reply, db')
    → ((answer_of f y).0 ≡ reply) × Represents db'.tables (answer_of f y).1
answer-Meets f (err e, db) y reply db' m h = absurd (ground arith)
answer-Meets f (ok a, db) (r, s) reply db' (p, rep) h =
    let same : db ≡ db' = ground (arith, h) in
    let told : f a ≡ reply = ground (arith, h) in
    (p ∙ told, subst (λ (z : Db Tables). Represents z.tables s) same rep)

sql_answer-inv :
    {A : Type 0} (f : A → Reply) (x : Result A × Db Tables) (reply : Reply) (db' : Db Tables)
    → sql_answer f x ≡ (ok reply, db')
    → (a : A) × (x ≡ (ok a, db')) × (f a ≡ reply)
sql_answer-inv f (err e, db) reply db' h = absurd (ground arith)
sql_answer-inv f (ok a, db) reply db' h = (a, ground arith, ground arith)

-- A call that succeeds does the same when nothing goes wrong.
answer-Steady :
    {A : Type 0} (f : A → Reply) (m : Mysql A) → Steady m → Steady (λ db. sql_answer f (m db))
answer-Steady f m s db db' reply h =
    let (a, p, q) = sql_answer-inv f (m db) reply db' h in rw (s db db' a p) (rw q refl)

mysql_call-Steady : (hash : Hash) (call : Call) → Steady (mysql_call hash call)
unfolding mysql_call Lease.complete Lease.reject Lease.bury
mysql_call-Steady hash (claim_call id owner now lease clock) =
    answer-Steady of_claim _ (claim-Steady id owner now lease clock)
mysql_call-Steady hash (complete_call id owner now clock) =
    answer-Steady of_bool _ (finish-Steady id owner now completed "" clock)
mysql_call-Steady hash (reject_call id owner now reason clock) =
    answer-Steady of_bool _ (finish-Steady id owner now rejected reason clock)
mysql_call-Steady hash (bury_call id owner now reason clock) =
    answer-Steady of_bool _ (finish-Steady id owner now dead_letter reason clock)
mysql_call-Steady hash (retry_call id owner now later reason) =
    answer-Steady of_bool _ (retry-Steady hash id owner now later reason)
mysql_call-Steady hash (renew_call id owner now lease) =
    answer-Steady of_bool _ (renew-Steady id owner now lease)

call-Meets :
    (hash : Hash) (call : Call) (t : Tables) (n : ℕ) (s : MemoryStore) (reply : Reply)
    (db' : Db Tables)
    → Represents t s
    → MovesCall call t
    → mysql_call hash call (quiet t n) ≡ (ok reply, db')
    → ((memory_call hash call s).0 ≡ reply) × Represents db'.tables (memory_call hash call s).1
unfolding memory_call mysql_call Lease.complete Lease.reject Lease.bury Memory.complete
    Memory.reject Memory.bury
call-Meets hash (claim_call id owner now lease clock) t n s reply db' rep m h =
    answer-Meets of_claim _ _ reply db' (claim-Meets t n id owner now s lease clock rep) h
call-Meets hash (complete_call id owner now clock) t n s reply db' rep m h =
    answer-Meets of_bool _ _ reply db' (finish-Meets t n id owner now s completed "" clock rep refl)
      h
call-Meets hash (reject_call id owner now reason clock) t n s reply db' rep m h =
    answer-Meets of_bool _ _ reply db'
      (finish-Meets t n id owner now s rejected reason clock rep refl) h
call-Meets hash (bury_call id owner now reason clock) t n s reply db' rep m h =
    answer-Meets of_bool _ _ reply db'
      (finish-Meets t n id owner now s dead_letter reason clock rep refl) h
call-Meets hash (retry_call id owner now later reason) t n s reply db' rep m h =
    let (b, p, q) = sql_answer-inv of_bool _ reply db' h in
    answer-Meets of_bool _ _ reply db'
      (retry-Meets hash t n id owner now later reason s b db' rep p) h
call-Meets hash (renew_call id owner now lease) t n s reply db' rep m h =
    answer-Meets of_bool _ _ reply db' (renew-Meets t n id owner now s lease rep m) h

later_calls-inv :
    (run : Db Tables → Option (List Reply × Db Tables)) (r : Result Reply × Db Tables)
    (replies : List Reply) (db' : Db Tables)
    → later_calls run r ≡ some (replies, db')
    → (reply : Reply) × (db1 : Db Tables) × (more : List Reply) × (r ≡ (ok reply, db1))
      × (run db1 ≡ some (more, db'))
      × (replies ≡ reply ∷ more)
later_calls-inv run (err e, db) replies db' h = absurd (ground arith)
later_calls-inv run (ok reply, db) replies db' h = elim (Option-cases (run db)) [
  | inl stuck ↦ absurd (ground (arith, h, stuck))
  | inr ((more, db2), p) ↦ (reply, db, more, refl, ground (arith, p, h), ground (arith, p, h))
]

-- MySQLStore refines MemoryStore: whatever fails meanwhile, a sequence of claims, finishes, retries and
-- renewals in which no call returns an error, and no renewal finds its row as it would leave it, grants
-- exactly the calls that MemoryStore grants, with the jobs that it hands out, and leaves tables that
-- hold the jobs that it leaves, if the tables held the jobs of the store at first. A call that is not
-- granted may be refused with ErrNotFound by MemoryStore and without an error by MySQLStore. The times
-- of the last change and of the completion are not compared.
pub mysql_run-Represents :
    (hash : Hash) (calls : List Call) (db : Db Tables) (s : MemoryStore) (replies : List Reply)
    (db' : Db Tables)
    → Represents db.tables s
    → MovesAll hash calls db
    → mysql_run hash calls db ≡ some (replies, db')
    → ((memory_run hash calls s).0 ≡ replies) × Represents db'.tables (memory_run hash calls s).1
unfolding mysql_run memory_run MovesAll
mysql_run-Represents hash [] db s replies db' rep m h =
    let same : db ≡ db' = ground (arith, h) in
    (ground (arith, h), subst (λ (z : Db Tables). Represents z.tables s) same rep)
mysql_run-Represents hash (call ∷ calls) db s replies db' rep (moves, rest) h =
    let (reply, db1, more, p, q, e) = later_calls-inv _ (mysql_call hash call db) replies db' h in
    let (r, rep1) =
      call-Meets hash call db.tables db.id_sequence s reply (calm db1) rep moves
        (mysql_call-Steady hash call db db1 reply p) in
    let (rs, rep2) =
      mysql_run-Represents hash calls db1 (memory_call hash call s).1 more db' rep1
        (rest reply db1 p) q in
    (rw (r, rs) (sym e), rep2)
