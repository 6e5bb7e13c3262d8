-- ===== src/Kafka/Mysql/Refines.antt =====
-- MySQLStore against MemoryStore (internal/kafka/mysql.go and memory.go): what a call does to a row
-- is what the MemoryStore does to the job, but for the two times that the stores keep differently.
pub mod Calls
pub mod Steps
pub mod Retries
pub mod Runs
pub mod Claims
pub mod Renewals
use sql_sentinel.Prelude.{
  ℕ, ◌+◌, ◌≤◌, ◌<◌, String, Bool, true, false, not, ◌&&◌, ◌||◌, Option, none, some, ◌≡◌, refl, ◌≢◌,
  ◌⊎◌, inl, inr, ap, sym, ◌∙◌, subst, arith, eq_iff, if◌then◌else◌, Option-cases, Bool-cases,
}
use sql_sentinel.Prelude.Assoc.{
  Assoc, lookup, insert, lookup-insert, lookup-insert_same, lookup-insert_other,
  lookup-insert_cases,
}
use sql_sentinel.Kafka.Model.{JobStatus, received, running, Time, Duration, Job, zero_time}
use sql_sentinel.Kafka.Memory.{
  MemoryStore, refuses, holds_lease, claimed_job, finished_job, retried_job, put_job,
}
use sql_sentinel.Kafka.Mysql.Rows.{Tables, JobRow, scan_job}
use sql_sentinel.Kafka.Mysql.Lease.{
  is_claimable, is_leased, claimed_row, finished_row, retried_row, renewed_row,
}

-- A job without its completion time, which MySQLStore also sets on a dead letter, and without the
-- time of its last change, which only MySQLStore's Renew sets.
unfoldable pub seen : Job → Job
seen j = record j { updated_at = zero_time; completed_at = none }

abbrev pub seen_job : Option Job → Option Job
seen_job none = none
seen_job (some j) = some (seen j)

abbrev pub seen_row : Tables → Option JobRow → Option Job
seen_row t none = none
seen_row t (some r) = some (seen (scan_job t r))

-- A row as Receive and Claim leave it: past RECEIVED, and with a lease while it is RUNNING.
pub record IsSane (id : String) (r : JobRow) : Type 0 where
  pub keyed : r.job_id ≡ id
  pub begun : r.status ≢ received
  pub leased : r.status ≡ running → r.lease_until ≢ none

-- The tables hold the jobs of the store.
pub record Represents (t : Tables) (s : MemoryStore) : Type 0 where
  pub sane : (id : String) (r : JobRow) → lookup id t.jobs ≡ some r → IsSane id r
  pub agree : (id : String) → seen_row t (lookup id t.jobs) ≡ seen_job (lookup id s.jobs)

pub refuses-seen : (j k : Job) (now : Time) → seen j ≡ seen k → refuses j now ≡ refuses k now
refuses-seen j k now e = unfold refuses seen in ap (λ (x : Job). refuses x now) e

pub holds_lease-seen :
    (j k : Job) (owner : String) (now : Time)
    → seen j ≡ seen k
    → holds_lease j owner now ≡ holds_lease k owner now
holds_lease-seen j k owner now e =
    unfold holds_lease seen in ap (λ (x : Job). holds_lease x owner now) e

pub refuses-scan_job :
    (t : Tables) (id : String) (r : JobRow) (now : Time)
    → IsSane id r
    → refuses (scan_job t r) now ≡ not (is_claimable now r)
unfolding refuses is_claimable scan_job
refuses-scan_job t id r now s = ground (arith, s.begun, s.leased)

pub holds_lease-scan_job :
    (t : Tables) (r : JobRow) (owner : String) (now : Time)
    → holds_lease (scan_job t r) owner now ≡ is_leased owner now r
unfolding holds_lease is_leased scan_job
holds_lease-scan_job t r owner now = ground arith
