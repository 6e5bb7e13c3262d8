-- ===== src/Kafka/Memory/Steps.antt =====
-- The methods of MemoryStore that change state, as operations on the store, and the life of one job:
-- the relation of the changes that they make to it.
use sql_sentinel.Prelude.{
  String, Bool, true, false, some, ◌≡◌, refl, inl, inr, arith, Bool-cases, Option-cases,
}
use sql_sentinel.Prelude.Assoc.{lookup, insert}
use sql_sentinel.Kafka.Model.{
  JobStatus, is_terminal, Time, Duration, Job, ReceiveInput, Hash, add_time,
}
use sql_sentinel.Kafka.Memory.{
  marked_record, OutboxRecord, put_job, retried_store, none, is_waiting, receive_known, job_at,
  dead_letter, same_delivery, rejected, receive_new, finish, completed, bad_input, MemoryStore,
  receive, refuses, claimed_job, claim, holds_lease, finished_job, complete, reject, bury,
  retried_job, retry, renew, mark_published,
}

-- One call of a method, with the times that it reads. `bury` is DeadLetter.
pub data Op : Type 0 where
  receive_op : Time → ReceiveInput → Op
  claim_op : String → String → Time → Duration → Op
  complete_op : String → String → Time → Op
  reject_op bury_op : String → String → Time → String → Op
  retry_op : String → String → Time → Time → String → Op
  renew_op : String → String → Time → Duration → Op
  mark_op : String → Bool → Time → Op

-- The store that a call leaves.
unfoldable pub apply : Hash → Op → MemoryStore → MemoryStore
apply hash (receive_op now inp) s = (receive hash now inp s).1
apply hash (claim_op id owner now lease) s = (claim id owner now lease s).1
apply hash (complete_op id owner now) s = (complete id owner now s).1
apply hash (reject_op id owner now reason) s = (reject id owner now reason s).1
apply hash (bury_op id owner now reason) s = (bury id owner now reason s).1
apply hash (retry_op id owner now later reason) s = (retry hash id owner now later reason s).1
apply hash (renew_op id owner now lease) s = (renew id owner now lease s).1
apply hash (mark_op event_id failed now) s = (mark_published event_id failed now s).1

-- What a call does for whom: it takes a lease on a job, or it uses the lease that an owner holds.
pub data Act : Type 0 where
  takes : String → Time → Act
  uses : String → String → Time → Act
  neither : Act

abbrev pub act : Op → Act
act (claim_op id owner now lease) = takes id now
act (complete_op id owner now) = uses id owner now
act (reject_op id owner now reason) = uses id owner now
act (bury_op id owner now reason) = uses id owner now
act (retry_op id owner now later reason) = uses id owner now
act (renew_op id owner now lease) = uses id owner now
act _ = neither

-- What one call may do to the job that is stored under an identifier.
pub data JobStep (id : String) (a : Act) (j : Job) : Job → Type 0 where
  stay : JobStep id a j j
  claimed :
      (owner : String) (now : Time) (lease : Duration)
      → a ≡ takes id now
      → refuses j now ≡ false
      → JobStep id a j (claimed_job j owner now lease)
  finished :
      (owner : String) (now : Time) (status : JobStatus) (reason : String)
      → a ≡ uses id owner now
      → holds_lease j owner now ≡ true
      → is_terminal status ≡ true
      → JobStep id a j (finished_job j now status reason)
  retried :
      (owner : String) (now later : Time) (reason : String)
      → a ≡ uses id owner now
      → holds_lease j owner now ≡ true
      → JobStep id a j (retried_job j now later reason)
  renewed :
      (owner : String) (now : Time) (lease : Duration)
      → a ≡ uses id owner now
      → holds_lease j owner now ≡ true
      → JobStep id a j (record j { lease_until = add_time now lease })

-- What one call may do to the store.
pub data Step (hash : Hash) (op : Op) (s t : MemoryStore) : Type 0 where
  idle : t ≡ s → Step hash op s t
  create :
      (now : Time) (inp : ReceiveInput)
      → op ≡ receive_op now inp
      → bad_input inp ≡ false
      → lookup inp.delivery_id s.by_deliv ≡ none
      → t ≡ (receive_new hash now inp s).1
      → Step hash op s t
  change :
      (id : String) (j k : Job)
      → lookup id s.jobs ≡ some j
      → JobStep id (act op) j k
      → is_waiting k.status ≡ false
      → t ≡ put_job id k s
      → Step hash op s t
  requeue :
      (id owner : String) (j : Job) (now later : Time) (reason : String)
      → lookup id s.jobs ≡ some j
      → op ≡ retry_op id owner now later reason
      → holds_lease j owner now ≡ true
      → t ≡ retried_store hash id j now later reason s
      → Step hash op s t
  mark :
      (event_id : String) (r : OutboxRecord) (failed : Bool) (now : Time)
      → lookup event_id s.outbox ≡ some r
      → t ≡ record s { outbox = insert event_id (marked_record failed now r) s.outbox }
      → Step hash op s t

terminal-waiting : (status : JobStatus) → is_terminal status ≡ true → is_waiting status ≡ false
terminal-waiting status h = ground arith

holds_lease-waiting :
    (j : Job) (owner : String) (now : Time)
    → holds_lease j owner now ≡ true
    → is_waiting j.status ≡ false
unfolding holds_lease
holds_lease-waiting j owner now h = ground arith

module _ (hash : Hash) (s : MemoryStore) where
  claim-Step :
      (id owner : String) (now : Time) (lease : Duration)
      → Step hash (claim_op id owner now lease) s (claim id owner now lease s).1
  unfolding claim
  claim-Step id owner now lease = elim (Option-cases (lookup id s.jobs)) [
    | inl e ↦ idle (rw (e, claim) refl)
    | inr (j, e) ↦ elim (Bool-cases (refuses j now)) [
      | inl r ↦ idle (rw (e, claim, r) refl)
      | inr r ↦
          change id j (claimed_job j owner now lease) e (claimed owner now lease refl r)
            (unfold claimed_job in refl) (rw (e, claim, r) refl)
    ]
  ]

  finish-Step :
      (op : Op) (id owner : String) (now : Time) (status : JobStatus) (reason : String)
      → act op ≡ uses id owner now
      → is_terminal status ≡ true
      → Step hash op s (finish id owner now status reason s).1
  unfolding finish
  finish-Step op id owner now status reason a t = elim (Option-cases (lookup id s.jobs)) [
    | inl e ↦ idle (rw (e, finish) refl)
    | inr (j, e) ↦ elim (Bool-cases (holds_lease j owner now)) [
      | inl r ↦
          change id j (finished_job j now status reason) e (finished owner now status reason a r t)
            (unfold finished_job in terminal-waiting status t) (rw (e, finish, r) refl)
      | inr r ↦ idle (rw (e, finish, r) refl)
    ]
  ]

  retry-Step :
      (id owner : String) (now later : Time) (reason : String)
      → Step hash (retry_op id owner now later reason) s (retry hash id owner now later reason s).1
  unfolding retry
  retry-Step id owner now later reason = elim (Option-cases (lookup id s.jobs)) [
    | inl e ↦ idle (rw (e, retry) refl)
    | inr (j, e) ↦ elim (Bool-cases (holds_lease j owner now)) [
      | inl r ↦ requeue id owner j now later reason e refl r (rw (e, retry, r) refl)
      | inr r ↦ idle (rw (e, retry, r) refl)
    ]
  ]

  renew-Step :
      (id owner : String) (now : Time) (lease : Duration)
      → Step hash (renew_op id owner now lease) s (renew id owner now lease s).1
  unfolding renew
  renew-Step id owner now lease = elim (Option-cases (lookup id s.jobs)) [
    | inl e ↦ idle (rw (e, renew) refl)
    | inr (j, e) ↦ elim (Bool-cases (holds_lease j owner now)) [
      | inl r ↦
          change id j (record j { lease_until = add_time now lease }) e
            (renewed owner now lease refl r) (holds_lease-waiting j owner now r)
            (rw (e, renew, r) refl)
      | inr r ↦ idle (rw (e, renew, r) refl)
    ]
  ]

  mark-Step :
      (event_id : String) (failed : Bool) (now : Time)
      → Step hash (mark_op event_id failed now) s (mark_published event_id failed now s).1
  unfolding mark_published
  mark-Step event_id failed now = elim (Option-cases (lookup event_id s.outbox)) [
    | inl e ↦ idle (rw (e, mark_published) refl)
    | inr (r, e) ↦ mark event_id r failed now e (rw (e, mark_published) refl)
  ]

  receive-Step :
      (now : Time) (inp : ReceiveInput)
      → Step hash (receive_op now inp) s (receive hash now inp s).1
  unfolding receive
  receive-Step now inp = elim (Bool-cases (bad_input inp)) [
    | inl b ↦ idle (rw (receive, b) refl)
    | inr b ↦ elim (Option-cases (lookup inp.delivery_id s.by_deliv)) [
      | inl e ↦ create now inp refl b e (rw (receive, b, e) refl)
      | inr (known, e) ↦ elim (Bool-cases (same_delivery hash (job_at known s) inp)) [
        | inl d ↦ idle (rw (receive, b, e, receive_known, d) refl)
        | inr d ↦ idle (rw (receive, b, e, receive_known, d) refl)
      ]
    ]
  ]

  -- Every call is one of these steps.
  pub apply-Step : (op : Op) → Step hash op s (apply hash op s)
  unfolding apply complete reject bury
  apply-Step (receive_op now inp) = receive-Step now inp
  apply-Step (claim_op id owner now lease) = claim-Step id owner now lease
  apply-Step (complete_op id owner now) =
      finish-Step (complete_op id owner now) id owner now completed "" refl refl
  apply-Step (reject_op id owner now reason) =
      finish-Step (reject_op id owner now reason) id owner now rejected reason refl refl
  apply-Step (bury_op id owner now reason) =
      finish-Step (bury_op id owner now reason) id owner now dead_letter reason refl refl
  apply-Step (retry_op id owner now later reason) = retry-Step id owner now later reason
  apply-Step (renew_op id owner now lease) = renew-Step id owner now lease
  apply-Step (mark_op event_id failed now) = mark-Step event_id failed now
