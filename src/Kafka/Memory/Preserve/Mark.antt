-- ===== src/Kafka/Memory/Preserve/Mark.antt =====
-- MarkPublished of internal/kafka/memory.go on the invariant of the store.
use sql_sentinel.Prelude.{
  String, Bool, true, false, Option, none, some, ◌⊎◌, ◌≡◌, refl, inl, inr, arith, str_eq, eq_iff,
  sym, ◌∙◌, ap, subst, Bool-cases,
}
use sql_sentinel.Prelude.Assoc.{
  lookup, insert, lookup-insert_cases, lookup-insert_other, lookup-insert_same,
}
use sql_sentinel.Kafka.Memory.Invariant.{Stored, Announced, IsValid, next_event}
use sql_sentinel.Kafka.Event.{marshal_safe}
use sql_sentinel.Kafka.Memory.{marked_record, Time, MemoryStore, OutboxRecord}
use sql_sentinel.Kafka.Model.{Hash, Job}

pub marked-event :
    (failed : Bool) (now : Time) (r : OutboxRecord)
    → (marked_record failed now r).event_id ≡ r.event_id
unfolding marked_record
marked-event true now r = refl
marked-event false now r = refl

pub marked-job :
    (failed : Bool) (now : Time) (r : OutboxRecord) → (marked_record failed now r).job_id ≡ r.job_id
unfolding marked_record
marked-job true now r = refl
marked-job false now r = refl

some_injective : {A : Type 0} {x y : A} → some x ≡ some y → x ≡ y
some_injective h = ground (arith, h)

pub marked-payload :
    (failed : Bool) (now : Time) (r : OutboxRecord)
    → ((marked_record failed now r).payload ≡ none)
      ⊎ ((marked_record failed now r).payload ≡ r.payload)
unfolding marked_record
marked-payload true now r = inr refl
marked-payload false now r = inl refl

kept_payload :
    {A : Type 0} (x y z : Option A)
    → (x ≡ none) ⊎ (x ≡ y)
    → (y ≡ none) ⊎ (y ≡ z)
    → (x ≡ none) ⊎ (x ≡ z)
kept_payload x y z (inl gone) h = inl gone
kept_payload x y z (inr same) (inl gone) = inl (same ∙ gone)
kept_payload x y z (inr same) (inr kept) = inr (same ∙ kept)

-- A row of the outbox is marked: it keeps its identifier and its job.
module _ (hash : Hash) (s : MemoryStore) (v : IsValid hash s) (event_id : String) (r : OutboxRecord)
    (at : lookup event_id s.outbox ≡ some r) (r' : OutboxRecord)
    (same_id : r'.event_id ≡ r.event_id) (same_job : r'.job_id ≡ r.job_id)
    (same_payload : (r'.payload ≡ none) ⊎ (r'.payload ≡ r.payload)) where
  abbrev pub marked : MemoryStore
  marked = record s { outbox = insert event_id r' s.outbox }

  Stored-marked : (i : String) → Stored i s → Stored i marked
  Stored-marked i x = record { job = x.job; found = x.found }

  Announced-marked : (j : Job) → Announced hash j s → Announced hash j marked
  Announced-marked j x = elim (Bool-cases (str_eq event_id x.event_id)) [
    | inl hit ↦
        let same : event_id ≡ x.event_id = (eq_iff event_id x.event_id).0 hit in
        let old : r ≡ x.row =
          some_injective (sym at ∙ ap (λ e. lookup e s.outbox) same ∙ x.found) in
        record {
          event_id = x.event_id;
          serial = x.serial;
          sequence = x.sequence;
          row = r';
          found =
              ap (λ e. lookup x.event_id (insert e r' s.outbox)) same
              ∙ lookup-insert_same x.event_id r' s.outbox;
          about = same_job ∙ ap (λ (q : OutboxRecord). q.job_id) old ∙ x.about;
          named = x.named;
          payload =
              kept_payload r'.payload r.payload (marshal_safe (next_event x.event_id j))
                same_payload
                (subst
                  (λ (q : OutboxRecord).
                    (q.payload ≡ none) ⊎ (q.payload ≡ marshal_safe (next_event x.event_id j)))
                  (sym old) x.payload);
        }
    | inr miss ↦ record {
      event_id = x.event_id;
      serial = x.serial;
      sequence = x.sequence;
      named = x.named;
      payload = x.payload;
      row = x.row;
      found =
          lookup-insert_other event_id x.event_id r' s.outbox
            (ground (arith, eq_iff event_id x.event_id))
          ∙ x.found;
      about = x.about;
    }
  ]

  marked-rows_keyed :
      (e : String) (q : OutboxRecord)
      → lookup e (insert event_id r' s.outbox) ≡ some q
      → q.event_id ≡ e
  marked-rows_keyed e q h = elim (lookup-insert_cases event_id e r' q s.outbox h) [
    | inl (x, y) ↦ rw (x, y) (same_id ∙ v.rows_keyed event_id r at)
    | inr (n, h') ↦ v.rows_keyed e q h'
  ]

  marked-rows_about :
      (e : String) (q : OutboxRecord)
      → lookup e (insert event_id r' s.outbox) ≡ some q
      → Stored q.job_id marked
  marked-rows_about e q h = elim (lookup-insert_cases event_id e r' q s.outbox h) [
    | inl (x, y) ↦
        subst (λ i. Stored i marked) (sym (ap (λ (z : OutboxRecord). z.job_id) y ∙ same_job))
          (Stored-marked r.job_id (v.rows_about event_id r at))
    | inr (n, h') ↦ Stored-marked q.job_id (v.rows_about e q h')
  ]

  pub marked-IsValid : IsValid hash marked
  marked-IsValid = record {
    jobs_ok = v.jobs_ok;
    delivered = v.delivered;
    known = λ d i h. Stored-marked i (v.known d i h);
    known_delivery = v.known_delivery;
    rows_keyed = marked-rows_keyed;
    rows_about = marked-rows_about;
    announced = λ i l h x. Announced-marked l (v.announced i l h x);
  }
