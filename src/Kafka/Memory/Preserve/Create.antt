-- ===== src/Kafka/Memory/Preserve/Create.antt =====
-- Receive of internal/kafka/memory.go on the invariant of the store.
use sql_sentinel.Prelude.{
  ◌+◌, String, true, none, some, ◌≡◌, refl, ◌≢◌, ◌⊎◌, inl, inr, arith, sym, ◌∙◌, ap, subst,
}
use sql_sentinel.Prelude.Assoc.{
  lookup, lookup-insert_cases, lookup-insert_other, lookup-insert_same,
}
use sql_sentinel.Kafka.Memory.Invariant.{IsConsistent, Stored, Announced, IsValid}
use sql_sentinel.Kafka.Memory.{
  queued, receive_new, new_job, next_event_id, next_job_id, ReceiveInput, outbox_row, Time,
  MemoryStore, OutboxRecord, is_waiting,
}
use sql_sentinel.Kafka.Memory.Preserve.Put.{Announced-fresh}
use sql_sentinel.Kafka.Model.{Job, Hash}

-- A delivery that is not known is stored as a new job.
module _ (hash : Hash) (s : MemoryStore) (v : IsValid hash s) (now : Time) (inp : ReceiveInput)
    (unknown : lookup inp.delivery_id s.by_deliv ≡ none)
    (fresh_job : lookup (next_job_id hash now s) s.jobs ≡ none)
    (fresh_event : lookup (next_event_id hash now s) s.outbox ≡ none) where
  abbrev pub created : MemoryStore
  created = (receive_new hash now inp s).1

  abbrev id : String
  id = next_job_id hash now s

  abbrev queued_job : Job
  queued_job = record (new_job hash id now inp) { status = queued; updated_at = now }

  created_cases :
      (i : String) (l : Job)
      → lookup i created.jobs ≡ some l
      → ((i ≡ id) × (l ≡ queued_job)) ⊎ ((id ≢ i) × (lookup i s.jobs ≡ some l))
  unfolding receive_new
  created_cases i l h = elim (lookup-insert_cases id i queued_job l _ h) [
    | inl hit ↦ inl hit
    | inr (n, h') ↦ inr (n, sym (lookup-insert_other id i _ s.jobs n) ∙ h')
  ]

  created_job : lookup id created.jobs ≡ some queued_job
  unfolding receive_new
  created_job = lookup-insert_same id queued_job _

  Stored-created : (i : String) → Stored i s → Stored i created
  unfolding receive_new
  Stored-created i x =
      let n : id ≢ i = λ e. ground (arith, ap (λ k. lookup k s.jobs) e) in
      record {
        job = x.job;
        found = lookup-insert_other id i _ _ n ∙ lookup-insert_other id i _ s.jobs n ∙ x.found;
      }

  queued_job-IsConsistent : IsConsistent hash id queued_job
  unfolding new_job
  queued_job-IsConsistent = ground arith

  created-jobs_ok : (i : String) (l : Job) → lookup i created.jobs ≡ some l → IsConsistent hash i l
  created-jobs_ok i l h = elim (created_cases i l h) [
    | inl (e, f) ↦ rw (e, f) queued_job-IsConsistent
    | inr (n, h') ↦ v.jobs_ok i l h'
  ]

  created-delivered :
      (i : String) (l : Job)
      → lookup i created.jobs ≡ some l
      → lookup l.delivery_id created.by_deliv ≡ some i
  unfolding receive_new new_job
  created-delivered i l h = elim (created_cases i l h) [
    | inl (e, f) ↦ rw (e, f) (lookup-insert_same inp.delivery_id id s.by_deliv)
    | inr (n, h') ↦
        lookup-insert_other inp.delivery_id l.delivery_id id s.by_deliv
          (λ e. ground (arith, ap (λ k. lookup k s.by_deliv) e, v.delivered i l h'))
        ∙ v.delivered i l h'
  ]

  created-known : (d i : String) → lookup d created.by_deliv ≡ some i → Stored i created
  unfolding receive_new
  created-known d i h = elim (lookup-insert_cases inp.delivery_id d id i s.by_deliv h) [
    | inl (e, f) ↦ record {
      job = queued_job;
      found = ap (λ k. lookup k created.jobs) f ∙ created_job;
    }
    | inr (n, h') ↦ Stored-created i (v.known d i h')
  ]

  created-known_delivery :
      (d i : String) (l : Job)
      → lookup d created.by_deliv ≡ some i
      → lookup i created.jobs ≡ some l
      → l.delivery_id ≡ d
  unfolding receive_new new_job
  created-known_delivery d i l b h = elim (created_cases i l h) [
    | inl (e, f) ↦ elim (lookup-insert_cases inp.delivery_id d id i s.by_deliv b) [
      | inl (x, y) ↦ ap (λ (z : Job). z.delivery_id) f ∙ sym x
      | inr (m, b') ↦ absurd (ground (arith, (v.known d i b').found, ap (λ k. lookup k s.jobs) e))
    ]
    | inr (n, h') ↦ elim (lookup-insert_cases inp.delivery_id d id i s.by_deliv b) [
      | inl (e, f) ↦ absurd (n (sym f))
      | inr (m, b') ↦ v.known_delivery d i l b' h'
    ]
  ]

  created-rows_keyed :
      (e : String) (q : OutboxRecord) → lookup e created.outbox ≡ some q → q.event_id ≡ e
  unfolding receive_new outbox_row
  created-rows_keyed e q h =
      elim (lookup-insert_cases (next_event_id hash now s) e _ q s.outbox h) [
        | inl (x, y) ↦ ap (λ (z : OutboxRecord). z.event_id) y ∙ sym x
        | inr (n, h') ↦ v.rows_keyed e q h'
      ]

  created-rows_about :
      (e : String) (q : OutboxRecord) → lookup e created.outbox ≡ some q → Stored q.job_id created
  unfolding receive_new outbox_row
  created-rows_about e q h =
      elim (lookup-insert_cases (next_event_id hash now s) e _ q s.outbox h) [
        | inl (x, y) ↦
            subst (λ i. Stored i created) (sym (ap (λ (z : OutboxRecord). z.job_id) y))
              (record { job = queued_job; found = created_job })
        | inr (n, h') ↦ Stored-created q.job_id (v.rows_about e q h')
      ]

  queued_job-Announced : Announced hash queued_job created
  unfolding receive_new outbox_row new_job next_event_id
  queued_job-Announced = record {
    event_id = next_event_id hash now s;
    serial = s.seq + 1;
    sequence = s.id_sequence + 2;
    row = outbox_row (next_event_id hash now s) id inp.delivery_id 1 now;
    found = lookup-insert_same (next_event_id hash now s) _ s.outbox;
    about = refl;
    named = inl (refl, refl);
    payload = inr refl;
  }

  created-Announced :
      (i : String) (l : Job)
      → lookup i created.jobs ≡ some l
      → is_waiting l.status ≡ true
      → Announced hash l created
  unfolding receive_new outbox_row
  created-Announced i l h x = elim (created_cases i l h) [
    | inl (e, f) ↦ subst (λ k. Announced hash k created) (sym f) queued_job-Announced
    | inr (n, h') ↦
        Announced-fresh hash s created (next_event_id hash now s) _ fresh_event refl l
          (v.announced i l h' x)
  ]

  pub created-IsValid : IsValid hash created
  created-IsValid = record {
    jobs_ok = created-jobs_ok;
    delivered = created-delivered;
    known = created-known;
    known_delivery = created-known_delivery;
    rows_keyed = created-rows_keyed;
    rows_about = created-rows_about;
    announced = created-Announced;
  }
