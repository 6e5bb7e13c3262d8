-- ===== src/Kafka/Memory/Preserve/Put.antt =====
-- put of internal/kafka/memory.go: a job is replaced by what one step makes of it.
use sql_sentinel.Prelude.{
  String, true, false, none, some, ◌≡◌, inl, inr, arith, str_eq, eq_iff, ◌∙◌, ap, Bool-cases,
}
use sql_sentinel.Prelude.Assoc.{
  lookup, insert, lookup-insert_cases, lookup-insert_other, lookup-insert_same,
}
use sql_sentinel.Kafka.Memory.Invariant.{
  IsConsistent, JobStep-IsConsistent, Stored, Announced, IsValid,
}
use sql_sentinel.Kafka.Memory.Life.{JobStep-Keeps}
use sql_sentinel.Kafka.Memory.Steps.{Act, JobStep}
use sql_sentinel.Kafka.Memory.{MemoryStore, OutboxRecord, put_job, is_waiting}
use sql_sentinel.Kafka.Model.{Job, Hash}

-- A job is replaced by what one step makes of it.
module _ (hash : Hash) (s : MemoryStore) (v : IsValid hash s) {a : Act} (id : String) (j k : Job)
    (at : lookup id s.jobs ≡ some j) (st : JobStep id a j k) where
  pub Stored-put : (i : String) → Stored i s → Stored i (put_job id k s)
  Stored-put i x = elim (Bool-cases (str_eq id i)) [
    | inl hit ↦ record {
      job = k;
      found = rw (← (eq_iff id i).0 hit) (lookup-insert_same id k s.jobs);
    }
    | inr miss ↦ record {
      job = x.job;
      found = lookup-insert_other id i k s.jobs (ground (arith, eq_iff id i)) ∙ x.found;
    }
  ]

  pub put-jobs_ok :
      (i : String) (l : Job) → lookup i (insert id k s.jobs) ≡ some l → IsConsistent hash i l
  put-jobs_ok i l h = elim (lookup-insert_cases id i k l s.jobs h) [
    | inl (e, f) ↦ rw (e, f) (JobStep-IsConsistent st (v.jobs_ok id j at))
    | inr (n, h') ↦ v.jobs_ok i l h'
  ]

  pub put-delivered :
      (i : String) (l : Job)
      → lookup i (insert id k s.jobs) ≡ some l
      → lookup l.delivery_id s.by_deliv ≡ some i
  put-delivered i l h = elim (lookup-insert_cases id i k l s.jobs h) [
    | inl (e, f) ↦ rw (e, f, (JobStep-Keeps st).delivery_id) (v.delivered id j at)
    | inr (n, h') ↦ v.delivered i l h'
  ]

  pub put-known_delivery :
      (d i : String) (l : Job)
      → lookup d s.by_deliv ≡ some i
      → lookup i (insert id k s.jobs) ≡ some l
      → l.delivery_id ≡ d
  put-known_delivery d i l b h = elim (lookup-insert_cases id i k l s.jobs h) [
    | inl (e, f) ↦
        rw (f, (JobStep-Keeps st).delivery_id) (v.known_delivery d id j (b ∙ ap some e) at)
    | inr (n, h') ↦ v.known_delivery d i l b h'
  ]

  pub put-Announced :
      is_waiting k.status ≡ false
      → (i : String) (l : Job) → lookup i (insert id k s.jobs) ≡ some l
      → is_waiting l.status ≡ true
      → Announced hash l (put_job id k s)
  put-Announced w i l h x = elim (lookup-insert_cases id i k l s.jobs h) [
    | inl (e, f) ↦ absurd (ground (arith, ap (λ (y : Job). y.status) f))
    | inr (n, h') ↦
        let old = v.announced i l h' x in
        record {
          event_id = old.event_id;
          serial = old.serial;
          sequence = old.sequence;
          row = old.row;
          found = old.found;
          about = old.about;
          named = old.named;
          payload = old.payload;
        }
  ]

  pub put-IsValid : is_waiting k.status ≡ false → IsValid hash (put_job id k s)
  put-IsValid w = record {
    jobs_ok = put-jobs_ok;
    delivered = put-delivered;
    known = λ d i h. Stored-put i (v.known d i h);
    known_delivery = put-known_delivery;
    rows_keyed = v.rows_keyed;
    rows_about = λ e r h. Stored-put r.job_id (v.rows_about e r h);
    announced = put-Announced w;
  }

-- A row that the outbox did not have leaves the other rows where they are.
pub Announced-fresh :
    (hash : Hash) (s t : MemoryStore) (event_id : String) (r : OutboxRecord)
    → lookup event_id s.outbox ≡ none
    → t.outbox ≡ insert event_id r s.outbox
    → (j : Job) → Announced hash j s
    → Announced hash j t
Announced-fresh hash s t event_id r fresh e j x = record {
  event_id = x.event_id;
  serial = x.serial;
  sequence = x.sequence;
  named = x.named;
  payload = x.payload;
  row = x.row;
  found = rw e (lookup-insert_other event_id x.event_id r s.outbox (λ h. ground arith) ∙ x.found);
  about = x.about;
}
