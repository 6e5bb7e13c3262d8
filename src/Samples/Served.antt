-- ===== src/Samples/Served.antt =====
-- Two runs of a job by Worker.Handle that both fail: the second is the last attempt.
use sql_sentinel.Prelude.{
  ℕ, ◌≤◌, String, true, false, Option, none, some, List, [], ◌∷◌, ◌≡◌, refl, arith, subst, take,
  length,
}
use sql_sentinel.Prelude.Int.{pos}
use sql_sentinel.Prelude.Assoc.{lookup}
use sql_sentinel.Kafka.Model.{Config, Job, not_found, is_terminal, with_defaults, JobStatus}
use sql_sentinel.Kafka.Memory.{MemoryStore}
use sql_sentinel.Kafka.Worker.{Meeting, handle_event}
use sql_sentinel.Kafka.Worker.Outcomes.{mine}
use sql_sentinel.Kafka.Worker.Settled.{outcome}
use sql_sentinel.Kafka.Worker.Progress.{Delivery, IsServed, Settles, deliver-Settles}
use sql_sentinel.Samples.Jobs.{hash, job, store, event}

abbrev config : Config
config = record {
  topic = "";
  max_attempts = pos 2;
  lease = pos 50;
  retry_base = pos 10;
  retry_max = pos 40;
  owner = "";
}

abbrev quiet : ℕ → Meeting
quiet now = record {
  named_at = now;
  claimed_at = now;
  ticks = [];
  cancelled = false;
  late = [];
  finished_at = now;
}

abbrev delivery : ℕ → Delivery
delivery now = record { runner = λ j. some not_found; meeting = quiet now; event = event }

abbrev once : MemoryStore
once = (handle_event hash (λ j. some not_found) config (quiet 200) event store).1

abbrev retried : Job
retried =
    outcome (with_defaults config) (some not_found) (mine hash config (quiet 200) store job) 200

served :
    (d : Delivery) (s : MemoryStore) (k : Job)
    → lookup "j1" s.jobs ≡ some k
    → IsServed hash config "j1" d s k
    → (j : Job) → lookup "j1" s.jobs ≡ some j
    → is_terminal j.status ≡ false
    → IsServed hash config "j1" d s j
served d s k at v j found unsettled =
    let same : k ≡ j = ground (arith, at, found) in
    subst (λ i. IsServed hash config "j1" d s i) same v

first : IsServed hash config "j1" (delivery 200) store job
unfolding sql_sentinel.Kafka.Memory.refuses sql_sentinel.Kafka.Worker.is_intact with_defaults
first = record {
  named = refl;
  due = refl;
  intact = refl;
  live = refl;
  alive = tt;
  foreign = tt;
  spare = tt;
  in_time = omega arith;
}

found : lookup "j1" once.jobs ≡ some retried
unfolding lookup handle_event with_defaults sql_sentinel.Kafka.Memory.claim
    sql_sentinel.Kafka.Memory.Life.run sql_sentinel.Prelude.Assoc.insert
    sql_sentinel.Kafka.Model.new_id sql_sentinel.Prelude.Int.wrap64 sql_sentinel.Kafka.Memory.retry
found = refl

second : IsServed hash config "j1" (delivery 300) once retried
unfolding sql_sentinel.Kafka.Memory.refuses sql_sentinel.Kafka.Worker.is_intact with_defaults
    sql_sentinel.Kafka.Memory.claimed_job sql_sentinel.Kafka.Memory.retried_job
    sql_sentinel.Kafka.Retry.retry_delay
second = record {
  named = refl;
  due = refl;
  intact = refl;
  live = refl;
  alive = tt;
  foreign = tt;
  spare = tt;
  in_time = omega arith;
}

deliver-Settles_example : Settles hash config "j1" (delivery 200 ∷ (delivery 300 ∷ [])) store
unfolding with_defaults lookup
deliver-Settles_example =
    deliver-Settles hash config "j1" (delivery 200 ∷ (delivery 300 ∷ [])) store job 2 refl refl refl
      refl (omega arith) (omega arith)
      (
        served (delivery 200) store job refl first,
        (served (delivery 300) once retried found second, tt),
      )
