-- ===== src/Kafka/Memory/Lease.antt =====
-- A lease of MemoryStore from its claim to its end: who may finish the job, and until when.
use sql_sentinel.Prelude.{
  ◌≤◌, ◌<◌, String, Bool, true, false, some, List, ◌≡◌, refl, ◌≢◌, arith, eq_iff, eq_refl, ◌∙◌, ap,
  if◌then◌else◌,
}
use sql_sentinel.Prelude.Assoc.{lookup, lookup-insert_same}
use sql_sentinel.Kafka.Model.{JobStatus, Time, Duration, add_time, Job, Hash, Result, ok}
use sql_sentinel.Kafka.Memory.{
  MemoryStore, refuses, claimed_job, claim, put_job, holds_lease, finished_job, finish,
}
use sql_sentinel.Kafka.Memory.Steps.{Op}
use sql_sentinel.Kafka.Memory.Life.{run, SparesAll, AllForeign, run-foreign}

pub claim-granted :
    (id owner : String) (now : Time) (lease : Duration) (s : MemoryStore) (j : Job)
    → lookup id s.jobs ≡ some j
    → refuses j now ≡ false
    → claim id owner now lease s
      ≡ (ok (claimed_job j owner now lease, true), put_job id (claimed_job j owner now lease) s)
unfolding claim
claim-granted id owner now lease s j at r = rw (at, claim, r) refl

pub finish-found :
    (id owner : String) (now : Time) (status : JobStatus) (reason : String) (s : MemoryStore)
    (j : Job)
    → lookup id s.jobs ≡ some j
    → finish id owner now status reason s ≡ (
        if holds_lease j owner now
        then (ok true, put_job id (finished_job j now status reason) s)
        else (ok false, s))
unfolding finish
finish-found id owner now status reason s j at = rw (at, finish) refl

module _ (j : Job) (owner : String) (now : Time) (lease : Duration) where
  holds_lease-claimed :
      (later : Time)
      → later < add_time now lease
      → holds_lease (claimed_job j owner now lease) owner later ≡ true
  unfolding holds_lease claimed_job
  holds_lease-claimed later h = ground (arith, eq_refl owner)

  holds_lease-expired :
      (later : Time)
      → add_time now lease ≤ later
      → holds_lease (claimed_job j owner now lease) owner later ≡ false
  unfolding holds_lease claimed_job
  holds_lease-expired later h = ground (arith, eq_refl owner)

  holds_lease-other :
      (other : String) (later : Time)
      → other ≢ owner
      → holds_lease (claimed_job j owner now lease) other later ≡ false
  unfolding holds_lease claimed_job
  holds_lease-other other later h = ground (arith, eq_iff owner other)

-- What a worker that claimed a job can rely on. The claim returns the job with one attempt more;
-- after any calls of others while the lease runs, the owner can still finish the job (complete,
-- reject or bury it), nobody else can at any time, and the owner cannot once the lease has run out;
-- a refused finish changes nothing. No new delivery may have drawn the job's identifier.
pub claim-finish :
    (hash : Hash) (ops : List Op) (id owner : String) (now : Time) (lease : Duration)
    (s : MemoryStore) (j : Job) (status : JobStatus) (reason : String)
    → lookup id s.jobs ≡ some j
    → refuses j now ≡ false
    → AllForeign id owner (add_time now lease) ops
    → SparesAll hash id ops (claim id owner now lease s).1
    → let mine = claimed_job j owner now lease in
      let u = run hash ops (claim id owner now lease s).1 in
      ((claim id owner now lease s).0 ≡ ok (mine, true))
      × (lookup id u.jobs ≡ some mine)
      × ((later : Time)
          → later < add_time now lease
          → finish id owner later status reason u
            ≡ (ok true, put_job id (finished_job mine later status reason) u))
      × ((other : String) (later : Time)
          → other ≢ owner
          → finish id other later status reason u ≡ (ok false, u))
      × ((later : Time)
          → add_time now lease ≤ later
          → finish id owner later status reason u ≡ (ok false, u))
claim-finish hash ops id owner now lease s j status reason at r f sp =
    let e = claim-granted id owner now lease s j at r in
    let mine = claimed_job j owner now lease in
    let kept : lookup id (run hash ops (claim id owner now lease s).1).jobs ≡ some mine =
      run-foreign hash ops id mine (claim id owner now lease s).1
        (rw e (lookup-insert_same id mine s.jobs)) (unfold claimed_job in refl)
        (unfold claimed_job in f) sp in
    let u = run hash ops (claim id owner now lease s).1 in
    (
      ap (λ (x : Result (Job × Bool) × MemoryStore). x.0) e,
      kept,
      λ later h.
          finish-found id owner later status reason u mine kept
          ∙ rw (holds_lease-claimed j owner now lease later h) refl,
      λ other later h.
          finish-found id other later status reason u mine kept
          ∙ rw (holds_lease-other j owner now lease other later h) refl,
      λ later h.
          finish-found id owner later status reason u mine kept
          ∙ rw (holds_lease-expired j owner now lease later h) refl,
    )
