-- ===== src/Kafka/Memory/Preserve.antt =====
-- Every call of a method keeps the invariant of MemoryStore.
pub mod Put
pub mod Mark
pub mod Requeue
pub mod Create
use sql_sentinel.Prelude.{
  ℕ, zero, suc, ◌+◌, ◌≤◌, ◌<◌, String, Bool, true, false, not, ◌&&◌, ◌||◌, Option, none, some, List,
  [], ◌∷◌, ◌≡◌, refl, ◌≢◌, ◌⊎◌, inl, inr, arith, str_eq, eq_iff, sym, ◌∙◌, ap, subst, Bool-cases,
  if◌then◌else◌,
}
use sql_sentinel.Prelude.Assoc.{
  Assoc, lookup, insert, lookup-insert_cases, lookup-insert_other, lookup-insert_same,
}
use sql_sentinel.Kafka.Memory.Invariant.{
  IsConsistent, JobStep-IsConsistent, Stored, Announced, IsValid, IsFresh,
}
use sql_sentinel.Kafka.Memory.Life.{Keeps, JobStep-Keeps}
use sql_sentinel.Kafka.Memory.Steps
use sql_sentinel.Kafka.Memory.Steps.{
  Act, JobStep, uses, Step, idle, create, change, requeue, mark, Op, apply, apply-Step,
}
use sql_sentinel.Kafka.Memory.{
  marked_record, queued, receive_new, new_job, next_event_id, next_job_id, ReceiveInput, outbox_row,
  retried_store, retried_job, retry_event_id, holds_lease, Time, MemoryStore, OutboxRecord, put_job,
  is_waiting,
}
use sql_sentinel.Kafka.Memory.Preserve.Put.{put-IsValid}
use sql_sentinel.Kafka.Memory.Preserve.Mark.{
  marked-IsValid, marked-event, marked-job, marked-payload,
}
use sql_sentinel.Kafka.Memory.Preserve.Requeue.{requeued-IsValid}
use sql_sentinel.Kafka.Memory.Preserve.Create.{created-IsValid}
use sql_sentinel.Kafka.Model.{Job, Hash}

Step-IsValid :
    {hash : Hash} {op : Op} {s t : MemoryStore}
    → IsValid hash s
    → IsFresh hash op s
    → Step hash op s t
    → IsValid hash t
Step-IsValid v f (idle e) = rw e v
Step-IsValid {hash} {op} {s} v f (create now inp o b d e) =
    let fresh = subst (λ x. IsFresh hash x s) o f in
    rw e (created-IsValid hash s v now inp d fresh.0 fresh.1)
Step-IsValid {hash} {op} {s} v f (change id j k at st w e) =
    rw e (put-IsValid hash s v id j k at st w)
Step-IsValid {hash} {op} {s} v f (requeue id owner j now later reason at o h e) =
    let fresh = subst (λ x. IsFresh hash x s) o f in
    rw e (requeued-IsValid hash s v id j now later reason owner at h (fresh j at))
Step-IsValid {hash} {op} {s} v f (mark event_id r failed now at e) = rw e (
    marked-IsValid hash s v event_id r at (marked_record failed now r) (marked-event failed now r)
      (marked-job failed now r) (marked-payload failed now r))

-- Every call, whatever it returns, keeps the invariant, if the identifiers that it draws are new.
pub apply-IsValid :
    (hash : Hash) (op : Op) (s : MemoryStore)
    → IsValid hash s
    → IsFresh hash op s
    → IsValid hash (apply hash op s)
apply-IsValid hash op s v f = Step-IsValid v f (apply-Step hash s op)

abbrev pub AllFresh : Hash → List Op → MemoryStore → Type 0
AllFresh hash [] s = Unit
AllFresh hash (op ∷ ops) s = IsFresh hash op s × AllFresh hash ops (apply hash op s)
