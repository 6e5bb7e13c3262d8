-- ===== src/Kafka/Worker/Settled.antt =====
-- What Worker.Handle of internal/kafka/runtime.go stores under a lease that is kept alive.
use sql_sentinel.Prelude.{
  ◌<◌, String, true, false, Option, none, some, List, [], ◌∷◌, ◌≡◌, refl, inl, inr, arith, eq_iff,
  sym, subst, Bool-cases, if◌then◌else◌,
}
use sql_sentinel.Prelude.Int.{pos, leb_ℤ}
use sql_sentinel.Prelude.Assoc.{lookup, lookup-insert_same}
use sql_sentinel.Kafka.Model.{
  JobStatus, running, completed, rejected, dead_letter, Err, input_rejected, Time, Duration,
  add_time, Job, Config, Hash, ok,
}
use sql_sentinel.Kafka.Retry.{retry_delay}
use sql_sentinel.Kafka.Memory.{
  MemoryStore, put_job, holds_lease, finished_job, finish, complete, reject, bury, retried_job,
  retried_store, retry, renew,
}
use sql_sentinel.Kafka.Memory.Life.{run, SparesAll, AllForeign, run-foreign}
use sql_sentinel.Kafka.Memory.Lease.{finish-found}
use sql_sentinel.Kafka.Worker.{Tick, truncate_error, conclude, renew_loop, settle, settle_failure}

-- The job under a lease that runs until a time.
abbrev pub leased : Job → Time → Job
leased j until = record j { lease_until = until }

holds_lease-leased :
    (j : Job) (owner : String) (now until : Time)
    → j.status ≡ running
    → j.lease_owner ≡ owner
    → now < until
    → holds_lease (leased j until) owner now ≡ true
unfolding holds_lease
holds_lease-leased j owner now until r o h = ground (arith, eq_iff j.lease_owner owner)

module _ (hash : Hash) (id owner : String) (lease : Duration) where
  -- The end of the lease after the ticks.
  abbrev pub until_after : Time → List Tick → Time
  until_after until [] = until
  until_after until (t ∷ ticks) = until_after (add_time t.at lease) ticks

  -- At each tick the lease still runs, and what others did since the last one is foreign to it.
  abbrev pub KeptAlive : Time → List Tick → MemoryStore → Type 0
  KeptAlive until [] s = Unit
  KeptAlive until (t ∷ ticks) s =
      AllForeign id owner until t.others
      × SparesAll hash id t.others s
      × (t.at < until)
      × KeptAlive (add_time t.at lease) ticks (renew id owner t.at lease (run hash t.others s)).1

  renew-found :
      (now until : Time) (s : MemoryStore) (j : Job)
      → lookup id s.jobs ≡ some (leased j until)
      → j.status ≡ running
      → j.lease_owner ≡ owner
      → now < until
      → renew id owner now lease s ≡ (ok true, put_job id (leased j (add_time now lease)) s)
  unfolding renew
  renew-found now until s j at r o h =
      rw (at, renew, holds_lease-leased j owner now until r o h) refl

  pub renew_loop-kept :
      (ticks : List Tick) (until : Time) (s : MemoryStore) (j : Job)
      → lookup id s.jobs ≡ some (leased j until)
      → j.status ≡ running
      → j.lease_owner ≡ owner
      → KeptAlive until ticks s
      → let (s', lost) = renew_loop hash id owner lease ticks s in
        (lost ≡ false) × (lookup id s'.jobs ≡ some (leased j (until_after until ticks)))
  unfolding renew_loop
  renew_loop-kept [] until s j at r o k = (refl, at)
  renew_loop-kept (t ∷ ticks) until s j at r o k =
      let u = run hash t.others s in
      let foreign = subst (λ w. AllForeign id w until t.others) (sym o) k.0 in
      let kept = run-foreign hash t.others id (leased j until) s at r foreign k.1 in
      let e = renew-found t.at until u j kept r o k.2 in
      rw (e, renew_loop)
        (renew_loop-kept ticks (add_time t.at lease) (renew id owner t.at lease u).1 j
          (rw e (lookup-insert_same id _ u.jobs)) r o k.3)

-- The outcome of a run that ended with no error, with a rejection, or with another error: the last
-- puts the job off until its next attempt, or buries it after the last one.
abbrev pub failure : Config → Err → Job → Time → Job
failure cfg e j now =
    if leb_ℤ cfg.max_attempts (pos j.attempts)
    then finished_job j now dead_letter (truncate_error e)
    else retried_job j now
        (add_time now (retry_delay cfg.retry_base cfg.retry_max (pos j.attempts)))
        (truncate_error e)

abbrev pub outcome : Config → Option Err → Job → Time → Job
outcome cfg none j now = finished_job j now completed ""
outcome cfg (some input_rejected) j now = finished_job j now rejected "input_rejected"
outcome cfg (some e) j now = failure cfg e j now

-- A call answered without an error, and the job that it left.
abbrev pub Leaves : Option Err × MemoryStore → String → Job → Type 0
Leaves r id j = (r.0 ≡ none) × (lookup id r.1.jobs ≡ some j)

pub retry-found :
    (hash : Hash) (id owner : String) (now later : Time) (reason : String) (s : MemoryStore)
    (j : Job)
    → lookup id s.jobs ≡ some j
    → retry hash id owner now later reason s ≡ (
        if holds_lease j owner now
        then (ok true, retried_store hash id j now later reason s)
        else (ok false, s))
unfolding retry
retry-found hash id owner now later reason s j at = rw (at, retry) refl

module _ (hash : Hash) (owner : String) (now until : Time) (j : Job) (s : MemoryStore)
    (at : lookup j.id s.jobs ≡ some (leased j until)) (r : j.status ≡ running)
    (o : j.lease_owner ≡ owner) (h : now < until) where
  finish-leased :
      (status : JobStatus) (reason : String)
      → Leaves
          (conclude (finish j.id owner now status reason s))
          j.id
          (finished_job j now status reason)
  finish-leased status reason =
      rw (finish-found j.id owner now status reason s (leased j until) at) (
        rw (holds_lease-leased j owner now until r o h)
          (unfold finished_job in (refl, lookup-insert_same j.id _ s.jobs)))

  retry-leased :
      (later : Time) (reason : String)
      → Leaves
          (conclude (retry hash j.id owner now later reason s))
          j.id
          (retried_job j now later reason)
  retry-leased later reason =
      rw (retry-found hash j.id owner now later reason s (leased j until) at) (
        rw (holds_lease-leased j owner now until r o h)
          (unfold retried_store retried_job in (refl, lookup-insert_same j.id _ s.jobs)))

  failure-leased :
      (cfg : Config) (e : Err)
      → Leaves (settle_failure hash cfg owner now j e s) j.id (failure cfg e j now)
  unfolding settle_failure bury
  failure-leased cfg e = elim (Bool-cases (leb_ℤ cfg.max_attempts (pos j.attempts))) [
    | inl last ↦ rw last (finish-leased dead_letter (truncate_error e))
    | inr more ↦ rw more (retry-leased _ (truncate_error e))
  ]

  pub settle-outcome :
      (cfg : Config) (e : Option Err)
      → Leaves (settle hash cfg owner now j e s) j.id (outcome cfg e j now)
  unfolding settle complete reject
  settle-outcome cfg none = finish-leased completed ""
  settle-outcome cfg (some input_rejected) = finish-leased rejected "input_rejected"
  settle-outcome cfg (some e) = failure-leased cfg e
