-- ===== src/Kafka/Memory/Became.antt =====
-- What a call of MemoryStore in internal/kafka/memory.go makes of one job.
use sql_sentinel.Prelude.{
  ap, subst, String, some, ◌≡◌, refl, ◌≢◌, inl, inr, arith, str_eq, eq_iff, Bool-cases,
}
use sql_sentinel.Prelude.Assoc.{lookup, insert, lookup-insert}
use sql_sentinel.Kafka.Model.{Time, Job, ReceiveInput, Hash}
use sql_sentinel.Kafka.Memory.{retried_store, receive_new, MemoryStore, next_job_id, retried_job}
use sql_sentinel.Kafka.Memory.Steps.{
  Act, JobStep, Op, Step, act, apply, apply-Step, change, create, idle, mark, receive_op, requeue,
  retried, stay,
}

-- A new delivery does not get the identifier of this job.
abbrev pub Spares : Hash → String → Op → MemoryStore → Type 0
Spares hash id (receive_op now inp) s = next_job_id hash now s ≢ id
Spares hash id _ s = Unit

-- What a call made of the job with this identifier.
pub record Became (a : Act) (j : Job) (id : String) (s : MemoryStore) : Type 0 where
  pub job : Job
  pub found : lookup id s.jobs ≡ some job
  pub step : JobStep id a j job

module _ (id : String) (j : Job) (s : MemoryStore) (at : lookup id s.jobs ≡ some j) where
  same : {a : Act} (t : MemoryStore) → lookup id t.jobs ≡ lookup id s.jobs → Became a j id t
  same t e = record { job = j; found = rw e at; step = stay }

  put-Became :
      {a : Act} (other : String) (k k' : Job) (t : MemoryStore)
      → lookup other s.jobs ≡ some k
      → t.jobs ≡ insert other k' s.jobs
      → JobStep other a k k'
      → Became a j id t
  put-Became other k k' t e new st = elim (Bool-cases (str_eq other id)) [
    | inl hit ↦
        let here : j ≡ k = ground (arith, eq_iff other id) in
        let there : id ≡ other = ground (arith, eq_iff other id) in
        record {
          job = k';
          found = rw (new, lookup-insert other id k' s.jobs, hit) refl;
          step = rw (here, there) st;
        }
    | inr miss ↦ same t (rw (new, lookup-insert other id k' s.jobs, miss) refl)
  ]

  receive_new-lookup :
      (hash : Hash) (now : Time) (inp : ReceiveInput)
      → next_job_id hash now s ≢ id
      → lookup id (receive_new hash now inp s).1.jobs ≡ lookup id s.jobs
  unfolding receive_new
  receive_new-lookup hash now inp fresh =
      simp lookup-insert (ground (arith, eq_iff (next_job_id hash now s) id))

  Step-Became :
      {hash : Hash} {op : Op} {t : MemoryStore}
      → Spares hash id op s
      → Step hash op s t
      → Became (act op) j id t
  unfolding retried_store
  Step-Became {hash} {op} {t} fresh (idle e) = same t (rw e refl)
  Step-Became {hash} {op} {t} fresh (create now inp o b d e) =
      same t (rw e (receive_new-lookup hash now inp (subst (λ x. Spares hash id x s) o fresh)))
  Step-Became {hash} {op} {t} fresh (change other k k' l st w e) =
      put-Became other k k' t l (rw e refl) st
  Step-Became {hash} {op} {t} fresh (requeue other owner k now later reason l a h e) =
      put-Became other k (retried_job k now later reason) t l (rw e refl)
        (retried owner now later reason (ap act a) h)
  Step-Became {hash} {op} {t} fresh (mark event_id r failed now l e) = same t (rw e refl)

  -- Whatever call is made, a stored job stays stored under its identifier, and the change made to
  -- it is a step of its life, as long as a new delivery does not draw the same identifier.
  pub apply-JobStep :
      (hash : Hash) (op : Op) → Spares hash id op s → Became (act op) j id (apply hash op s)
  apply-JobStep hash op fresh = Step-Became fresh (apply-Step hash s op)
