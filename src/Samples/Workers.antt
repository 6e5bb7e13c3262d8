-- ===== src/Samples/Workers.antt =====
-- internal/kafka/runtime.go on concrete data: a worker that runs a job while another one tries to
-- take it, and a relay whose broker takes what it is given.
use sql_sentinel.Prelude.{
  ℕ, ◌+◌, ◌<◌, Bool, true, false, Option, none, some, List, [], ◌∷◌, refl, arith, ◌∙◌, get_elem?,
  suc,
}
use sql_sentinel.Prelude.Int.{pos}
use sql_sentinel.Prelude.Assoc.{Assoc, lookup}
use sql_sentinel.Kafka.Model.{not_found, Err, Time, Config, with_defaults}
use sql_sentinel.Kafka.Event.{Event, marshal}
use sql_sentinel.Kafka.Memory.{OutboxRecord, MemoryStore, refuses}
use sql_sentinel.Kafka.Memory.Steps.{claim_op}
use sql_sentinel.Kafka.Broker.{MemoryBroker, new_memory_broker, publish}
use sql_sentinel.Kafka.Relay.{run_once}
use sql_sentinel.Kafka.Relay.Brokered.{memory_publisher}
use sql_sentinel.Kafka.Relay.Safety.{Kept, run_once-Kept}
use sql_sentinel.Kafka.Worker.{Tick, Meeting, Runner, handle_event}
use sql_sentinel.Kafka.Worker.Outcomes.{mine, handle_event-outcome}
use sql_sentinel.Kafka.Worker.Settled.{Leaves, outcome}
use sql_sentinel.Kafka.Broker.{Message}
use sql_sentinel.Kafka.Worker.Run.{Try}
use sql_sentinel.Samples.Jobs.{hash, job, row, store, event}

abbrev config : Config
config = record {
  topic = "";
  max_attempts = pos 3;
  lease = pos 50;
  retry_base = pos 10;
  retry_max = pos 40;
  owner = "";
}

-- The lease is taken at 200 and renewed at 240; another worker tries at 230 and at 260.
abbrev meeting : Meeting
meeting = record {
  named_at = 190;
  claimed_at = 200;
  ticks = record { others = claim_op "j1" "w2" 230 (pos 50) ∷ []; at = 240 } ∷ [];
  cancelled = false;
  late = claim_op "j1" "w2" 260 (pos 50) ∷ [];
  finished_at = 280;
}

abbrev runner : Runner
runner j = none

handle_event-outcome_example :
    let j = mine hash config meeting store job in
    Leaves
      (handle_event hash runner config meeting event store)
      "j1"
      (outcome (with_defaults config) (runner j) j 280)
unfolding refuses lookup with_defaults sql_sentinel.Kafka.Worker.is_intact
handle_event-outcome_example =
    handle_event-outcome hash runner config meeting event store job refl refl refl refl refl refl
      ((λ _. omega arith, tt), (tt, tt), omega arith, tt) (λ _. omega arith, tt) (tt, tt)
      (omega arith)

abbrev failing : Runner
failing j = some not_found

run_once-Kept_example :
    let o =
      run_once
        (memory_publisher.publish)
        (λ n. 150)
        (λ _. row ∷ [])
        (pos 0)
        store
        new_memory_broker in
    Kept memory_publisher (λ n. 150) store "e1" row o.store o.publisher
unfolding lookup
run_once-Kept_example =
    run_once-Kept memory_publisher (λ n. 150) (λ _. row ∷ []) (pos 0) store new_memory_broker "e1"
      row (refl, tt) refl

abbrev two : MemoryBroker
two = publish "t" "k2" none (publish "t" "k1" none new_memory_broker)

-- A message of a job that the runner fails, and one that does not decode.
abbrev inbox : MemoryBroker
inbox =
    publish "sql-sentinel.jobs" "x" none
      (publish "sql-sentinel.jobs" "j1" (some (marshal event)) new_memory_broker)

abbrev one_try : List Try
one_try = record { before = []; meeting = meeting; ended = false } ∷ []

abbrev shelf : Option (Message → Bool)
shelf = some (λ m. true)
