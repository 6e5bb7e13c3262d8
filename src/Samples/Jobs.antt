-- ===== src/Samples/Jobs.antt =====
-- internal/kafka on concrete data: a store with one job, and calls of its methods.
use sql_sentinel.Prelude.{
  if◌then◌else◌, ◌-◌, ◌*◌, ◌^◌, ◌≤◌, ◌<◌, min, String, true, false, none, some, List, [], ◌∷◌, ◌≡◌,
  refl, ◌≢◌, arith, eq_iff,
}
use sql_sentinel.Prelude.Int.{pos}
use sql_sentinel.Prelude.Assoc.{lookup}
use sql_sentinel.Json.{obj, field, str, end}
use sql_sentinel.Kafka.Model.{
  delivery_conflict, same_delivery, queued, running, completed, Time, Job, JobOptions, zero_job,
  ReceiveInput, Hash, ok, err,
}
use sql_sentinel.Kafka.Event.{Event, marshal, decode_event}
use sql_sentinel.Kafka.Retry.{retry_delay, retry_delay-eq-min}
use sql_sentinel.Kafka.Memory.{
  finished_job, put_job, MemoryStore, OutboxRecord, bad_input, receive, claim, finish, refuses,
  claimed_job,
}
use sql_sentinel.Kafka.Memory.Steps.{Op, receive_op, claim_op, complete_op, renew_op, retry_op}
use sql_sentinel.Kafka.Memory.Life.{run, run-terminal, run-Keeps, run-foreign, Keeps, AllForeign}
use sql_sentinel.Kafka.Memory.Invariant
use sql_sentinel.Kafka.Memory.Delivery.{receive-run}
use sql_sentinel.Kafka.Memory.Lease.{claim-finish}

-- A hash that shows its input.
abbrev pub hash : Hash
hash s = s

abbrev pub options : JobOptions
options = zero_job.options

abbrev pub input : ReceiveInput
input = record {
  options = options;
  delivery_id = "d1";
  pr_number = pos 7;
  sql = "SELECT id FROM orders";
  candidate_spec = "{}";
  source_json = "";
}

-- The job of that delivery, queued and due since 100.
abbrev pub job : Job
job = record zero_job {
  options = record options { tenant_id = "operator"; project_id = "default"; actor = "operator" };
  id = "j1";
  delivery_id = "d1";
  pr_number = pos 7;
  sql = "SELECT id FROM orders";
  candidate_spec = "{}";
  sql_sha256 = "SELECT id FROM orders";
  candidate_spec_sha256 = "{}";
  status = queued;
  next_attempt_at = 100;
  created_at = 100;
  updated_at = 100;
}

abbrev pub row : OutboxRecord
row = record {
  event_id = "e1";
  job_id = "j1";
  topic = "sql-sentinel.jobs";
  payload = some (record { values = []; broken = false });
  attempts = 2;
  available_at = 100;
}

abbrev pub store : MemoryStore
store = record {
  jobs = ("j1", job) ∷ [];
  by_deliv = ("d1", "j1") ∷ [];
  outbox = ("e1", row) ∷ [];
  seq = 1;
  id_sequence = 2;
}

w2≢w1 : ◌≢◌ {A = String} "w2" "w1"
w2≢w1 e = ground (arith, eq_iff "w2" "w1")

j2≢j1 : ◌≢◌ {A = String} "j2" "j1"
j2≢j1 e = ground (arith, eq_iff "j2" "j1")

stored : lookup "j1" store.jobs ≡ some job
unfolding lookup
stored = refl

-- The job under the lease that `w1` takes at 200.
abbrev leased_job : Job
leased_job = record job {
  status = running;
  attempts = 1;
  lease_owner = "w1";
  lease_until = 250;
  updated_at = 200;
}

abbrev raced : MemoryStore
raced = record store { jobs = ("j1", leased_job) ∷ [] }

abbrev closed_job : Job
closed_job = record job {
  status = completed;
  attempts = 1;
  updated_at = 240;
  completed_at = some 240;
}

abbrev closed : MemoryStore
closed = record store { jobs = ("j1", closed_job) ∷ [] }

-- What others may try while the lease runs.
abbrev race : List Op
race =
    claim_op "j1" "w2" 210 (pos 50) ∷ complete_op "j1" "w2" 220 ∷ retry_op "j2" "w1" 230 300 "" ∷ []

race_foreign : AllForeign "j1" "w1" 250 race
race_foreign = (λ _. omega arith, (λ _ e. absurd (w2≢w1 e), (λ e. absurd (j2≢j1 e), tt)))

-- Two workers race, and a third call comes after the lease of the first has run out.
abbrev calls : List Op
calls =
    claim_op "j1" "w1" 200 (pos 50)
    ∷ claim_op "j1" "w2" 210 (pos 50)
    ∷ renew_op "j1" "w1" 240 (pos 50)
    ∷ claim_op "j1" "w2" 300 (pos 50)
    ∷ complete_op "j1" "w1" 310
    ∷ retry_op "j1" "w2" 320 400 "runner_failed"
    ∷ []

retry_delay-eq-min_example :
    retry_delay (pos (10 ^ 9)) (pos (60 * 10 ^ 9)) (pos 7)
    ≡ pos (min (60 * 10 ^ 9) (10 ^ 9 * 2 ^ (7 - 1)))
retry_delay-eq-min_example = retry_delay-eq-min (10 ^ 9) (60 * 10 ^ 9) 7 (omega arith)

abbrev pub event : Event
event = record {
  schema_version = pos 1;
  event_id = "e1";
  job_id = "j1";
  delivery_id = "d1";
  attempt = pos 3;
}

-- Unknown fields and data behind the object are refused.
refused :
    (decode_event (record (marshal event) { broken = true }) ≡ none)
    × (decode_event (record { values = obj (field "sql" (str "") end) ∷ []; broken = false })
        ≡ none)
unfolding decode_event
refused = (refl, refl)

run-foreign_example : lookup "j1" (run hash race raced).jobs ≡ some leased_job
unfolding lookup
run-foreign_example =
    run-foreign hash race "j1" leased_job raced refl refl race_foreign (tt, (tt, (tt, tt)))

run-terminal_example : lookup "j1" (run hash calls closed).jobs ≡ some closed_job
unfolding lookup
run-terminal_example =
    run-terminal hash calls "j1" closed_job closed refl refl (tt, (tt, (tt, (tt, (tt, (tt, tt))))))

run-Keeps_example : (k : Job) × (lookup "j1" (run hash calls store).jobs ≡ some k) × Keeps job k
run-Keeps_example =
    run-Keeps hash calls "j1" job store stored (tt, (tt, (tt, (tt, (tt, (tt, tt))))))

abbrev history : List Op
history = receive_op 100 input ∷ claim_op "j1" "w1" 200 (pos 50) ∷ []

not_bad : bad_input input ≡ false
unfolding bad_input
not_bad = refl

receive-run_example :
    let t = run hash calls store in
    (k : Job) × (lookup "j1" t.jobs ≡ some k)
    × Keeps job k
    × (receive hash 500 input t ≡ (
        if same_delivery hash job input
        then (ok (record { job = k; duplicate = true }), t)
        else (err delivery_conflict, t)))
unfolding lookup
receive-run_example =
    receive-run hash calls 500 input store "j1" job not_bad refl refl
      (tt, (tt, (tt, (tt, (tt, (tt, tt))))))

claim-finish_example :
    let own = claimed_job job "w1" 200 (pos 50) in
    let u = run hash race (claim "j1" "w1" 200 (pos 50) store).1 in
    ((claim "j1" "w1" 200 (pos 50) store).0 ≡ ok (own, true))
    × (lookup "j1" u.jobs ≡ some own)
    × ((later : Time)
        → later < 250
        → finish "j1" "w1" later completed "" u
          ≡ (ok true, put_job "j1" (finished_job own later completed "") u))
    × ((other : String) (later : Time)
        → other ≢ "w1"
        → finish "j1" other later completed "" u ≡ (ok false, u))
    × ((later : Time) → 250 ≤ later → finish "j1" "w1" later completed "" u ≡ (ok false, u))
unfolding refuses
claim-finish_example =
    claim-finish hash race "j1" "w1" 200 (pos 50) store job completed "" stored refl race_foreign
      (tt, (tt, (tt, tt)))
