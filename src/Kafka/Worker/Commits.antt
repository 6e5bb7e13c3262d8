-- ===== src/Kafka/Worker/Commits.antt =====
-- When Worker.Handle returns nil, whatever others did meanwhile: only then is a message committed.
use sql_sentinel.Prelude.{String, true, Option, none, some, ◌≡◌, ◌⊎◌}
use sql_sentinel.Prelude.Assoc.{lookup}
use sql_sentinel.Kafka.Model.{retrying, Err, is_terminal, Job, Hash}
use sql_sentinel.Kafka.Event.{Event}
use sql_sentinel.Kafka.Memory.{MemoryStore}
use sql_sentinel.Kafka.Memory.Invariant.{Announced}

-- The job is finished, or a retry of it has been announced.
pub record IsSettled (hash : Hash) (id : String) (s : MemoryStore) : Type 0 where
  pub job : Job
  pub found : lookup id s.jobs ≡ some job
  pub settled : (is_terminal job.status ≡ true) ⊎ ((job.status ≡ retrying) × Announced hash job s)

-- A call that returns nil has settled the job.
abbrev Settles : Hash → String → Option Err × MemoryStore → Type 0
Settles hash id r = r.0 ≡ none → IsSettled hash id r.1
