-- ===== src/Kafka/Memory/Preserve/Requeue.antt =====
-- Retry of internal/kafka/memory.go on the invariant of the store.
use sql_sentinel.Prelude.{◌+◌, String, true, none, some, ◌≡◌, refl, inl, inr, sym, ◌∙◌, ap, subst}
use sql_sentinel.Prelude.Assoc.{lookup, lookup-insert_cases, lookup-insert_same}
use sql_sentinel.Kafka.Memory.Invariant.{Stored, Announced, IsValid}
use sql_sentinel.Kafka.Memory.Steps
use sql_sentinel.Kafka.Memory.Steps.{
  Act, JobStep, uses, Step, idle, create, change, requeue, mark, Op, apply, apply-Step,
}
use sql_sentinel.Kafka.Memory.{
  outbox_row, retried_store, retried_job, retry_event_id, holds_lease, Time, MemoryStore,
  OutboxRecord, put_job, is_waiting,
}
use sql_sentinel.Kafka.Memory.Preserve.Put.{
  Stored-put, put-jobs_ok, put-delivered, put-known_delivery, Announced-fresh,
}
use sql_sentinel.Kafka.Model.{Job, Hash}

-- Retry announces the next attempt.
pub retried-Announced :
    (hash : Hash) (id : String) (j : Job) (now later : Time) (reason : String) (s : MemoryStore)
    → Announced hash (retried_job j now later reason) (retried_store hash id j now later reason s)
unfolding retried_store retried_job outbox_row retry_event_id
retried-Announced hash id j now later reason s = record {
  event_id = retry_event_id hash now j s;
  serial = j.attempts;
  sequence = s.id_sequence + 1;
  row = outbox_row (retry_event_id hash now j s) j.id j.delivery_id (j.attempts + 1) later;
  found = lookup-insert_same (retry_event_id hash now j s) _ s.outbox;
  about = refl;
  named = inr (refl, refl);
  payload = inr refl;
}

-- A job goes back to waiting, and a new event announces it.
module _ (hash : Hash) (s : MemoryStore) (v : IsValid hash s) (id : String) (j : Job)
    (now later : Time) (reason owner : String) (at : lookup id s.jobs ≡ some j)
    (holds : holds_lease j owner now ≡ true)
    (fresh : lookup (retry_event_id hash now j s) s.outbox ≡ none) where
  abbrev pub requeued : MemoryStore
  requeued = retried_store hash id j now later reason s

  abbrev event : String
  event = retry_event_id hash now j s

  retried : JobStep id (uses id owner now) j (retried_job j now later reason)
  retried = Steps.retried owner now later reason refl holds

  abbrev put : MemoryStore
  put = put_job id (retried_job j now later reason) s

  Stored-requeued : (i : String) → Stored i s → Stored i requeued
  unfolding retried_store
  Stored-requeued i x =
      let y = Stored-put hash s v id j (retried_job j now later reason) at retried i x in
      record { job = y.job; found = y.found }

  requeued-Announced :
      (i : String) (l : Job)
      → lookup i requeued.jobs ≡ some l
      → is_waiting l.status ≡ true
      → Announced hash l requeued
  unfolding retried_store
  requeued-Announced i l h x =
      elim (lookup-insert_cases id i (retried_job j now later reason) l s.jobs h) [
        | inl (e, f) ↦
            subst (λ k. Announced hash k requeued) (sym f)
              (retried-Announced hash id j now later reason s)
        | inr (n, h') ↦ Announced-fresh hash s requeued event _ fresh refl l (v.announced i l h' x)
      ]

  requeued-rows_keyed :
      (e : String) (q : OutboxRecord) → lookup e requeued.outbox ≡ some q → q.event_id ≡ e
  unfolding retried_store outbox_row
  requeued-rows_keyed e q h = elim (lookup-insert_cases event e _ q s.outbox h) [
    | inl (x, y) ↦ ap (λ (z : OutboxRecord). z.event_id) y ∙ sym x
    | inr (n, h') ↦ v.rows_keyed e q h'
  ]

  requeued-rows_about :
      (e : String) (q : OutboxRecord) → lookup e requeued.outbox ≡ some q → Stored q.job_id requeued
  unfolding retried_store outbox_row
  requeued-rows_about e q h = elim (lookup-insert_cases event e _ q s.outbox h) [
    | inl (x, y) ↦
        subst (λ i. Stored i requeued) (sym (ap (λ (z : OutboxRecord). z.job_id) y))
          (Stored-requeued j.id
            (record { job = j; found = ap (λ i. lookup i s.jobs) (v.jobs_ok id j at).keyed ∙ at }))
    | inr (n, h') ↦ Stored-requeued q.job_id (v.rows_about e q h')
  ]

  pub requeued-IsValid : IsValid hash requeued
  unfolding retried_store
  requeued-IsValid = record {
    jobs_ok = put-jobs_ok hash s v id j (retried_job j now later reason) at retried;
    delivered = put-delivered hash s v id j (retried_job j now later reason) at retried;
    known = λ d i h. Stored-requeued i (v.known d i h);
    known_delivery = put-known_delivery hash s v id j (retried_job j now later reason) at retried;
    rows_keyed = requeued-rows_keyed;
    rows_about = requeued-rows_about;
    announced = requeued-Announced;
  }
