-- ===== src/Kafka/Worker/Outcomes.antt =====
-- What Worker.Handle makes of a message: the outcome of a run under a lease that is kept alive, and
-- the guarantees that hold whatever others do.
use sql_sentinel.Kafka.Worker.Settled.{
  KeptAlive, Leaves, leased, outcome, renew_loop-kept, settle-outcome, until_after,
}
use sql_sentinel.Prelude.{◌+◌, ◌<◌, String, true, false, some, ◌≡◌, refl, ◌∙◌}
use sql_sentinel.Prelude.Int.{pos, ltb_ℤ}
use sql_sentinel.Prelude.Assoc.{lookup, lookup-insert_same}
use sql_sentinel.Kafka.Model.{Time, Duration, add_time, Job, Config, with_defaults, Hash}
use sql_sentinel.Kafka.Event.{Event}
use sql_sentinel.Kafka.Memory.{MemoryStore, refuses, claimed_job, put_job}
use sql_sentinel.Kafka.Memory.Life.{run, SparesAll, AllForeign, run-foreign}
use sql_sentinel.Kafka.Memory.Lease.{claim-granted}
use sql_sentinel.Kafka.Worker.{
  Meeting, Runner, renew_loop, is_intact, run_job, settle, handle_claimed, claim_owner,
  handle_event,
}

-- The claim of one call of Handle: its owner, its configuration, the claimed job and the store.
abbrev pub store_named : MemoryStore → MemoryStore
store_named s = record s { id_sequence = s.id_sequence + 1 }

abbrev pub mine : Hash → Config → Meeting → MemoryStore → Job → Job
mine hash config m s j =
    claimed_job j (claim_owner hash m s) m.claimed_at (with_defaults config).lease

abbrev pub claimed_store : Hash → Config → Meeting → MemoryStore → Job → MemoryStore
claimed_store hash config m s j = put_job j.id (mine hash config m s j) (store_named s)

abbrev pub first_until : Config → Meeting → Time
first_until config m = add_time m.claimed_at (with_defaults config).lease

abbrev pub last_until : Hash → Config → Meeting → MemoryStore → Job → Time
last_until hash config m s j =
    until_after hash j.id (claim_owner hash m s) (with_defaults config).lease (first_until config m)
      m.ticks

abbrev pub run_store : Hash → Config → Meeting → MemoryStore → Job → MemoryStore
run_store hash config m s j =
    (renew_loop hash j.id (claim_owner hash m s) (with_defaults config).lease m.ticks
      (claimed_store hash config m s j)).0

run_job-kept :
    (hash : Hash) (runner : Runner) (cfg : Config) (owner : String) (m : Meeting) (event : Event)
    (job : Job) (s : MemoryStore)
    → is_intact hash job event ≡ true
    → m.cancelled ≡ false
    → (renew_loop hash job.id owner cfg.lease m.ticks s).1 ≡ false
    → run_job hash runner cfg owner m event job s
      ≡ (runner job, (renew_loop hash job.id owner cfg.lease m.ticks s).0)
unfolding run_job
run_job-kept hash runner cfg owner m event job s intact live lost = rw (intact, live, lost) refl

handle_claimed-runs :
    (hash : Hash) (runner : Runner) (cfg : Config) (owner : String) (m : Meeting) (event : Event)
    (job : Job) (s : MemoryStore)
    → ltb_ℤ cfg.max_attempts (pos job.attempts) ≡ false
    → handle_claimed hash runner cfg owner m event job s ≡ (
        let (e, s') = run_job hash runner cfg owner m event job s in
        settle hash cfg owner m.finished_at job e (run hash m.late s'))
unfolding handle_claimed
handle_claimed-runs hash runner cfg owner m event job s more = rw more refl

is_intact-claimed :
    (hash : Hash) (j : Job) (event : Event) (owner : String) (now : Time) (lease : Duration)
    → is_intact hash (claimed_job j owner now lease) event ≡ is_intact hash j event
unfolding is_intact claimed_job
is_intact-claimed hash j event owner now lease = refl

-- A due job that is intact and has an attempt left is claimed, run once, and left as the runner's
-- answer says: completed, rejected, put off by the retry delay, or dead-lettered after the last
-- attempt; Handle returns nil. This holds as long as the lease is kept alive by its renewals until
-- the outcome is stored, the context is not cancelled, and what others do meanwhile is foreign to
-- the lease and draws no identifier twice.
pub handle_event-outcome :
    (hash : Hash) (runner : Runner) (config : Config) (m : Meeting) (event : Event)
    (s : MemoryStore) (j : Job)
    → lookup j.id s.jobs ≡ some j
    → event.job_id ≡ j.id
    → refuses j m.claimed_at ≡ false
    → ltb_ℤ (with_defaults config).max_attempts (pos (j.attempts + 1)) ≡ false
    → is_intact hash j event ≡ true
    → m.cancelled ≡ false
    → KeptAlive hash j.id
        (claim_owner hash m s)
        (with_defaults config).lease
        (first_until config m)
        m.ticks
        (claimed_store hash config m s j)
    → AllForeign j.id (claim_owner hash m s) (last_until hash config m s j) m.late
    → SparesAll hash j.id m.late (run_store hash config m s j)
    → m.finished_at < last_until hash config m s j
    → let job = mine hash config m s j in
      Leaves
        (handle_event hash runner config m event s)
        j.id
        (outcome (with_defaults config) (runner job) job m.finished_at)
unfolding handle_event claimed_job
handle_event-outcome hash runner config m event s j at e due more intact live alive foreign spare
      time =
    let cfg = with_defaults config in
    let owner = claim_owner hash m s in
    let job = mine hash config m s j in
    let start = claimed_store hash config m s j in
    let looped =
      renew_loop-kept hash j.id owner cfg.lease m.ticks (first_until config m) start job
        (lookup-insert_same j.id job (store_named s).jobs) refl refl alive in
    let kept =
      run-foreign hash m.late j.id (leased job (last_until hash config m s j))
        (run_store hash config m s j) looped.1 refl foreign spare in
    rw
      (
        e,
        claim-granted j.id (claim_owner hash m s) m.claimed_at (with_defaults config).lease
            (store_named s) j at due,
      )
      (rw (handle_claimed-runs hash runner cfg owner m event job start more) (
        rw
          (run_job-kept hash runner cfg owner m event job start
            (is_intact-claimed hash j event owner m.claimed_at cfg.lease ∙ intact) live looped.0)
          (settle-outcome hash owner m.finished_at (last_until hash config m s j) job
            (run hash m.late (run_store hash config m s j)) kept refl refl time cfg (runner job))))
