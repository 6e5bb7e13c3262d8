-- ===== src/Kafka/Worker.antt =====
-- Worker.Handle of internal/kafka/runtime.go over MemoryStore: one message is decoded, its job is
-- claimed and run, and the outcome is stored under the lease.
pub mod Outcomes
pub mod Progress
pub mod Commits
pub mod Run
pub mod Settled
use sql_sentinel.Prelude.{
  ℕ, ◌+◌, String, Bool, true, false, not, ◌&&◌, ◌||◌, Option, none, some, List, [], ◌∷◌, str_eq,
  if◌then◌else◌,
}
use sql_sentinel.Prelude.Int.{ℤ, pos, ltb_ℤ, leb_ℤ}
use sql_sentinel.Json.{Stream}
use sql_sentinel.Kafka.Model.{
  Err, lease_lost, lease_busy, input_rejected, invalid, Time, Duration, add_time, Job, Config,
  with_defaults, Hash, new_id, Result, ok, err, is_terminal,
}
use sql_sentinel.Kafka.Event.{Event, decode_event}
use sql_sentinel.Kafka.Retry.{retry_delay}
use sql_sentinel.Kafka.Memory.{MemoryStore, claim, complete, reject, bury, retry, renew}
use sql_sentinel.Kafka.Memory.Steps.{Op}
use sql_sentinel.Kafka.Memory.Life.{run}

-- A tick of the renewal's ticker while the runner works: the calls of others since the last one, and
-- the time.
pub record Tick : Type 0 where
  pub others : List Op
  pub at : Time

-- What one call of Handle meets: the times that it reads, the ticks, whether the context was
-- cancelled meanwhile, and the calls of others before the outcome is stored.
pub record Meeting : Type 0 where
  pub named_at : Time
  pub claimed_at : Time
  pub ticks : List Tick
  pub cancelled : Bool
  pub late : List Op
  pub finished_at : Time

-- `none` is nil.
abbrev pub Runner : Type 0
Runner = Job → Option Err

abbrev pub truncate_error : Err → String
truncate_error input_rejected = "input_rejected"
truncate_error lease_lost = "lease_lost"
truncate_error _ = "runner_failed"

-- `if finishErr != nil … if !updated …`
abbrev pub conclude : Result Bool × MemoryStore → Option Err × MemoryStore
conclude (err e, s) = (some e, s)
conclude (ok true, s) = (none, s)
conclude (ok false, s) = (some lease_lost, s)

-- The renewal: it stops, and cancels the runner's context, when the lease is not renewed.
unfoldable pub renew_loop :
    Hash → String → String → Duration → List Tick → MemoryStore → MemoryStore × Bool
renew_loop hash id owner lease [] s = (s, false)
renew_loop hash id owner lease (t ∷ ticks) s =
    let (answer, s') = renew id owner t.at lease (run hash t.others s) in
    let rest = renew_loop hash id owner lease ticks s' in
    elim answer [ err e ↦ (s', true) | ok b ↦ if b then rest else (s', true) ]

unfoldable pub is_intact : Hash → Job → Event → Bool
is_intact hash job event = not (
    not (str_eq job.delivery_id event.delivery_id)
    || not (str_eq (hash job.sql) job.sql_sha256)
    || not (str_eq (hash job.candidate_spec) job.candidate_spec_sha256))

-- The error that the run of a job ends with.
unfoldable pub run_job :
    Hash → Runner → Config → String → Meeting → Event → Job → MemoryStore → Option Err × MemoryStore
unfolding renew_loop is_intact
run_job hash runner cfg owner m event job s =
    if is_intact hash job event
    then (let (s', lost) = renew_loop hash job.id owner cfg.lease m.ticks s in
        (if lost || m.cancelled then some lease_lost else runner job, s'))
    else (some input_rejected, s)

-- The rest of Handle for an error that is no rejection.
unfoldable pub settle_failure :
    Hash → Config → String → Time → Job → Err → MemoryStore → Option Err × MemoryStore
settle_failure hash cfg owner now job e s =
    if leb_ℤ cfg.max_attempts (pos job.attempts)
    then conclude (bury job.id owner now (truncate_error e) s)
    else conclude (
        retry hash job.id owner now
          (add_time now (retry_delay cfg.retry_base cfg.retry_max (pos job.attempts)))
          (truncate_error e) s)

unfoldable pub settle :
    Hash → Config → String → Time → Job → Option Err → MemoryStore → Option Err × MemoryStore
unfolding settle_failure
settle hash cfg owner now job none s = conclude (complete job.id owner now s)
settle hash cfg owner now job (some input_rejected) s =
    conclude (reject job.id owner now (truncate_error input_rejected) s)
settle hash cfg owner now job (some e) s = settle_failure hash cfg owner now job e s

-- Handle behind a claim that was granted.
unfoldable pub handle_claimed :
    Hash → Runner → Config → String → Meeting → Event → Job → MemoryStore → Option Err × MemoryStore
unfolding run_job settle
handle_claimed hash runner cfg owner m event job s =
    if ltb_ℤ cfg.max_attempts (pos job.attempts)
    then conclude (bury job.id owner m.finished_at "attempts_exhausted" (run hash m.late s))
    else (let (e, s') = run_job hash runner cfg owner m event job s in
        settle hash cfg owner m.finished_at job e (run hash m.late s'))

abbrev pub after_claim :
    Hash
    → Runner
    → Config
    → String
    → Meeting
    → Event
    → Result (Job × Bool) × MemoryStore
    → Option Err × MemoryStore
after_claim hash runner cfg owner m event (err e, s) = (some e, s)
after_claim hash runner cfg owner m event (ok (job, true), s) =
    handle_claimed hash runner cfg owner m event job s
after_claim hash runner cfg owner m event (ok (job, false), s) =
    (if is_terminal job.status then none else some lease_busy, s)

-- A new fencing identity for each claim.
unfoldable pub claim_owner : Hash → Meeting → MemoryStore → String
claim_owner hash m s = new_id hash "claim" m.named_at 0 (s.id_sequence + 1)

-- Handle for an event that was decoded.
unfoldable pub handle_event :
    Hash → Runner → Config → Meeting → Event → MemoryStore → Option Err × MemoryStore
unfolding handle_claimed claim_owner
handle_event hash runner config m event s =
    let cfg = with_defaults config in
    let owner = claim_owner hash m s in
    after_claim hash runner cfg owner m event (
      claim event.job_id owner m.claimed_at cfg.lease
        (record s { id_sequence = s.id_sequence + 1 }))

unfoldable pub handle :
    Hash → Runner → Config → Meeting → Stream → MemoryStore → Option Err × MemoryStore
unfolding handle_event
handle hash runner config m bytes s = elim (decode_event bytes) [
  | none ↦ (some (invalid "decode event"), s)
  | some event ↦ handle_event hash runner config m event s
]
