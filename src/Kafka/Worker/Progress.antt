-- ===== src/Kafka/Worker/Progress.antt =====
-- A job that workers serve often enough comes to its end: Worker.Handle of internal/kafka/runtime.go,
-- delivery after delivery.
use sql_sentinel.Prelude.{
  ℕ, suc, ◌+◌, ◌<◌, ◌≤◌, String, true, false, Option, none, some, List, [], ◌∷◌, ◌≡◌, refl, inl,
  inr, arith, ◌∙◌, sym, subst, take, length, ◌⊎◌, Bool-cases,
}
use sql_sentinel.Prelude.Int.{pos, leb_ℤ}
use sql_sentinel.Prelude.Assoc.{lookup}
use sql_sentinel.Kafka.Model.{
  Err, input_rejected, is_terminal, Time, Job, Config, with_defaults, Hash,
}
use sql_sentinel.Kafka.Event.{Event}
use sql_sentinel.Kafka.Memory.{MemoryStore, refuses, claimed_job, finished_job, retried_job}
use sql_sentinel.Kafka.Memory.Life.{SparesAll, AllForeign}
use sql_sentinel.Kafka.Worker.{Meeting, Runner, is_intact, claim_owner, handle_event}
use sql_sentinel.Kafka.Worker.Outcomes.{
  mine, claimed_store, first_until, last_until, run_store, handle_event-outcome,
}
use sql_sentinel.Kafka.Worker.Settled.{KeptAlive, Leaves, failure, outcome}

-- A message that reaches Handle, with the runner's answers and what others do meanwhile.
pub record Delivery : Type 0 where
  pub runner : Runner
  pub meeting : Meeting
  pub event : Event

-- The run ended the job, or it left it waiting with attempts left.
abbrev Goes : Job → Job → ℕ → Type 0
Goes k j limit =
    (is_terminal k.status ≡ true)
    ⊎ ((is_terminal k.status ≡ false)
        × (k.attempts ≡ j.attempts)
        × (k.id ≡ j.id)
        × (j.attempts < limit))

failure-Goes :
    (cfg : Config) (e : Err) (j : Job) (now : Time) (limit : ℕ)
    → cfg.max_attempts ≡ pos limit
    → Goes (failure cfg e j now) j limit
unfolding finished_job retried_job
failure-Goes cfg e j now limit h = elim (Bool-cases (leb_ℤ cfg.max_attempts (pos j.attempts))) [
  | inl last ↦ rw last (inl refl)
  | inr more ↦
      let fewer : j.attempts < limit = ground (arith, h, more) in
      rw more (inr (refl, refl, refl, fewer))
]

outcome-Goes :
    (cfg : Config) (e : Option Err) (j : Job) (now : Time) (limit : ℕ)
    → cfg.max_attempts ≡ pos limit
    → Goes (outcome cfg e j now) j limit
unfolding finished_job
outcome-Goes cfg none j now limit h = inl refl
outcome-Goes cfg (some input_rejected) j now limit h = inl refl
outcome-Goes cfg (some e) j now limit h = failure-Goes cfg e j now limit h

module _ (hash : Hash) (config : Config) (id : String) where
  unfoldable pub deliver : List Delivery → MemoryStore → MemoryStore
  unfolding handle_event
  deliver [] s = s
  deliver (d ∷ ds) s = deliver ds (handle_event hash d.runner config d.meeting d.event s).1

  -- The message names the job, which is due and intact, and the lease is kept until the end.
  pub record IsServed (d : Delivery) (s : MemoryStore) (j : Job) : Type 0 where
    pub named : d.event.job_id ≡ id
    pub due : refuses j d.meeting.claimed_at ≡ false
    pub intact : is_intact hash j d.event ≡ true
    pub live : d.meeting.cancelled ≡ false
    pub alive :
        KeptAlive hash j.id
          (claim_owner hash d.meeting s)
          (with_defaults config).lease
          (first_until config d.meeting)
          d.meeting.ticks
          (claimed_store hash config d.meeting s j)
    pub foreign :
        AllForeign j.id
          (claim_owner hash d.meeting s)
          (last_until hash config d.meeting s j)
          d.meeting.late
    pub spare : SparesAll hash j.id d.meeting.late (run_store hash config d.meeting s j)
    pub in_time : d.meeting.finished_at < last_until hash config d.meeting s j

  -- Each message meets the job so, as long as the job has not ended.
  abbrev pub Serves : List Delivery → MemoryStore → Type 0
  Serves [] s = Unit
  Serves (d ∷ ds) s =
      ((j : Job) → lookup id s.jobs ≡ some j → is_terminal j.status ≡ false → IsServed d s j)
      × Serves ds (handle_event hash d.runner config d.meeting d.event s).1

  -- After some of the messages the job has a final status.
  abbrev pub Settles : List Delivery → MemoryStore → Type 0
  Settles ds s =
      (n : ℕ) × (k : Job) × (n ≤ length ds)
      × (lookup id (deliver (take n ds) s).jobs ≡ some k)
      × (is_terminal k.status ≡ true)

  served-Leaves :
      (d : Delivery) (s : MemoryStore) (j : Job) (limit : ℕ)
      → lookup id s.jobs ≡ some j
      → j.id ≡ id
      → (with_defaults config).max_attempts ≡ pos limit
      → j.attempts < limit
      → IsServed d s j
      → let job = mine hash config d.meeting s j in
        Leaves
          (handle_event hash d.runner config d.meeting d.event s)
          id
          (outcome (with_defaults config) (d.runner job) job d.meeting.finished_at)
  served-Leaves d s j limit at keyed most more v =
      subst
        (λ i. Leaves (handle_event hash d.runner config d.meeting d.event s) i (
          outcome (with_defaults config) (d.runner (mine hash config d.meeting s j))
            (mine hash config d.meeting s j) d.meeting.finished_at))
        keyed
        (handle_event-outcome hash d.runner config d.meeting d.event s j
          (subst (λ i. lookup i s.jobs ≡ some j) (sym keyed) at) (v.named ∙ sym keyed) v.due
          (rw most (ground arith)) v.intact v.live v.alive v.foreign v.spare v.in_time)

  -- A job that is served once for each attempt that it has left ends: after at most that many messages
  -- it is completed, rejected or dead-lettered, whatever its runs answer.
  pub deliver-Settles :
      (ds : List Delivery) (s : MemoryStore) (j : Job) (limit : ℕ)
      → lookup id s.jobs ≡ some j
      → j.id ≡ id
      → is_terminal j.status ≡ false
      → (with_defaults config).max_attempts ≡ pos limit
      → j.attempts < limit
      → limit ≤ j.attempts + length ds
      → Serves ds s
      → Settles ds s
  unfolding deliver claimed_job
  deliver-Settles [] s j limit at keyed unsettled most more enough serves = absurd (omega arith)
  deliver-Settles (d ∷ ds) s j limit at keyed unsettled most more enough (served, serves) =
      let v = served j at unsettled in
      let job = mine hash config d.meeting s j in
      let k = outcome (with_defaults config) (d.runner job) job d.meeting.finished_at in
      let left = (served-Leaves d s j limit at keyed most more v).1 in
      elim (outcome-Goes (with_defaults config) (d.runner job) job d.meeting.finished_at limit
        most) [
          | inl settled ↦ (1, k, omega arith, left, settled)
          | inr (going, attempts, same, fewer) ↦
              let (n, last, within, found, settled) =
                deliver-Settles ds (handle_event hash d.runner config d.meeting d.event s).1 k limit
                  left (same ∙ keyed) going most (omega (arith, attempts)) (omega (arith, attempts))
                  serves in
              (suc n, last, omega arith, found, settled)
        ]
