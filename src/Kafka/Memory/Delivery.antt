-- ===== src/Kafka/Memory/Delivery.antt =====
-- Receive of internal/kafka/memory.go under repeated deliveries.
use sql_sentinel.Prelude.{
  String, true, false, none, some, List, [], ◌∷◌, ◌≡◌, refl, arith, ◌∙◌, ap, if◌then◌else◌,
}
use sql_sentinel.Prelude.Assoc.{lookup, lookup-insert_other, lookup-insert_same}
use sql_sentinel.Kafka.Model.{
  same_delivery_of, Time, Job, ReceiveInput, Hash, ok, err, delivery_conflict, same_delivery,
}
use sql_sentinel.Kafka.Memory.{
  queued, MemoryStore, receive, receive_new, receive_known, bad_input, new_job, next_job_id, job_at,
  retried_store,
}
use sql_sentinel.Kafka.Memory.Steps.{
  Op, apply, apply-Step, Step, idle, create, change, requeue, mark,
}
use sql_sentinel.Kafka.Memory.Life.{run, SparesAll, Keeps, run-Keeps}

Step-known :
    {hash : Hash} {op : Op} {s t : MemoryStore} (d id : String)
    → lookup d s.by_deliv ≡ some id
    → Step hash op s t
    → lookup d t.by_deliv ≡ some id
unfolding receive_new retried_store
Step-known d id at (idle e) = rw e at
Step-known {s = s} d id at (create now inp o b new e) = rw e (
    lookup-insert_other inp.delivery_id d _ s.by_deliv
      (λ x. ground (arith, ap (λ k. lookup k s.by_deliv) x))
    ∙ at)
Step-known d id at (change i j k l st w e) = rw e at
Step-known d id at (requeue i owner j now later reason l o h e) = rw e at
Step-known d id at (mark event_id r failed now l e) = rw e at

-- A delivery stays known by the job that it got.
run-known :
    (hash : Hash) (ops : List Op) (s : MemoryStore) (d id : String)
    → lookup d s.by_deliv ≡ some id
    → lookup d (run hash ops s).by_deliv ≡ some id
unfolding run
run-known hash [] s d id at = at
run-known hash (op ∷ ops) s d id at =
    run-known hash ops (apply hash op s) d id (Step-known d id at (apply-Step hash s op))

same_delivery-Keeps :
    (hash : Hash) (inp : ReceiveInput) (j k : Job)
    → Keeps j k
    → same_delivery hash k inp ≡ same_delivery hash j inp
unfolding same_delivery
same_delivery-Keeps hash inp j k h =
    cc (h.pr_number, h.sql_sha256, h.candidate_spec_sha256, h.options)

receive-known :
    (hash : Hash) (now : Time) (inp : ReceiveInput) (s : MemoryStore) (id : String) (j : Job)
    → bad_input inp ≡ false
    → lookup inp.delivery_id s.by_deliv ≡ some id
    → lookup id s.jobs ≡ some j
    → receive hash now inp s ≡ (
        if same_delivery hash j inp
        then (ok (record { job = j; duplicate = true }), s)
        else (err delivery_conflict, s))
unfolding receive receive_known
receive-known hash now inp s id j b d at = rw (b, d, job_at, at) refl

-- Receiving a delivery again, after any calls, creates nothing: it returns the job that the delivery
-- got, as it is by then and marked as a duplicate, if the input is the same, and the conflict error
-- otherwise; the store is as it was. No new delivery may have drawn the job's identifier.
pub receive-run :
    (hash : Hash) (ops : List Op) (now : Time) (inp : ReceiveInput) (s : MemoryStore) (id : String)
    (j : Job)
    → bad_input inp ≡ false
    → lookup inp.delivery_id s.by_deliv ≡ some id
    → lookup id s.jobs ≡ some j
    → SparesAll hash id ops s
    → let t = run hash ops s in
      (k : Job) × (lookup id t.jobs ≡ some k)
      × Keeps j k
      × (receive hash now inp t ≡ (
          if same_delivery hash j inp
          then (ok (record { job = k; duplicate = true }), t)
          else (err delivery_conflict, t)))
receive-run hash ops now inp s id j b d at sp =
    let (k, found, kept) = run-Keeps hash ops id j s at sp in
    (
      k,
      found,
      kept,
      receive-known hash now inp (run hash ops s) id k b (run-known hash ops s _ id d) found
          ∙ rw (same_delivery-Keeps hash inp j k kept),
    )

receive-unknown :
    (hash : Hash) (now : Time) (inp : ReceiveInput) (s : MemoryStore)
    → bad_input inp ≡ false
    → lookup inp.delivery_id s.by_deliv ≡ none
    → receive hash now inp s ≡ receive_new hash now inp s
unfolding receive
receive-unknown hash now inp s b d = rw (b, d) refl

-- The job that an unknown delivery gets.
abbrev pub first_job : Hash → Time → ReceiveInput → MemoryStore → Job
first_job hash now inp s = record (new_job hash (next_job_id hash now s) now inp) {
  status = queued;
  updated_at = now;
}

receive_new_known :
    (hash : Hash) (now : Time) (inp : ReceiveInput) (s : MemoryStore)
    → let t = (receive_new hash now inp s).1 in
      (lookup inp.delivery_id t.by_deliv ≡ some (next_job_id hash now s))
      × (lookup (next_job_id hash now s) t.jobs ≡ some (first_job hash now inp s))
unfolding receive_new
receive_new_known hash now inp s = (
  lookup-insert_same inp.delivery_id _ s.by_deliv,
  lookup-insert_same (next_job_id hash now s) _ _,
)

first_job-same :
    (hash : Hash) (now : Time) (inp : ReceiveInput) (s : MemoryStore)
    → same_delivery hash (first_job hash now inp s) inp ≡ true
unfolding new_job
first_job-same hash now inp s = same_delivery_of hash _ inp refl refl refl refl

receive_new-result :
    (hash : Hash) (now : Time) (inp : ReceiveInput) (s : MemoryStore)
    → (receive_new hash now inp s).0
      ≡ ok (record { job = first_job hash now inp s; duplicate = false })
unfolding receive_new
receive_new-result hash now inp s = refl

-- A delivery that is not known gets a job that is queued with no attempt made, due at once; when the
-- same input is received again, after any calls, that job is returned, as it is by then and marked
-- as a duplicate, and the store stays as it is. No new delivery may have drawn the identifier.
pub receive_twice :
    (hash : Hash) (ops : List Op) (now later : Time) (inp : ReceiveInput) (s : MemoryStore)
    → bad_input inp ≡ false
    → lookup inp.delivery_id s.by_deliv ≡ none
    → SparesAll hash (next_job_id hash now s) ops (receive hash now inp s).1
    → let first = receive hash now inp s in
      let t = run hash ops first.1 in
      (first.0 ≡ ok (record { job = first_job hash now inp s; duplicate = false }))
      × ((k : Job) × Keeps (first_job hash now inp s) k
          × (receive hash later inp t ≡ (ok (record { job = k; duplicate = true }), t)))
receive_twice hash ops now later inp s b d sp =
    let e = receive-unknown hash now inp s b d in
    let (known, stored) = receive_new_known hash now inp s in
    let (k, found, kept, again) =
      receive-run hash ops later inp (receive_new hash now inp s).1 (next_job_id hash now s)
        (first_job hash now inp s) b known stored ((rw e at sp)) in
    rw e (receive_new-result hash now inp s, (k, kept, again ∙ rw (first_job-same hash now inp s)))
