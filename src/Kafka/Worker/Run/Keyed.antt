-- ===== src/Kafka/Worker/Run/Keyed.antt =====
-- Every call keeps each job of the MemoryStore under its own identifier (internal/kafka/memory.go and
-- runtime.go).
use sql_sentinel.Prelude.{
  ◌⊎◌, String, Bool, true, false, Option, none, some, List, [], ◌∷◌, ◌≡◌, refl, inl, inr, sym, ◌∙◌,
  ap, subst, Bool-cases, Option-cases,
}
use sql_sentinel.Prelude.Assoc.{Assoc, lookup, insert, lookup-insert_cases}
use sql_sentinel.Kafka.Worker.{
  ltb_ℤ, is_intact, decode_event, Stream, Event, retry_delay, conclude, settle, settle_failure,
  renew_loop, run_job, handle_claimed, handle_event, handle, after_claim, claim_owner, Tick,
  Meeting, Runner, truncate_error,
}
use sql_sentinel.Prelude.Int.{leb_ℤ, pos}
use sql_sentinel.Kafka.Memory.{retried_store, next_job_id, new_job, receive_new, renew}
use sql_sentinel.Prelude.{◌+◌}
use sql_sentinel.Kafka.Model.{
  with_defaults, ok, add_time, err, Time, Result, Duration, Config, input_rejected, Job, Hash, Err,
}
use sql_sentinel.Kafka.Memory.{retried_job, finished_job, claimed_job, MemoryStore}
use sql_sentinel.Kafka.Memory.Steps.{
  bury_op, retry_op, complete_op, reject_op, renew_op, claim_op, Op, Act, apply, Step, idle, create,
  change, requeue, mark, JobStep, stay, claimed, finished, retried, renewed, apply-Step,
}
use sql_sentinel.Kafka.Memory.Life.{run}

abbrev pub Keyed : MemoryStore → Type 0
Keyed s = (id : String) (j : Job) → lookup id s.jobs ≡ some j → j.id ≡ id

JobStep-id : (id : String) (a : Act) (j k : Job) → JobStep id a j k → k.id ≡ j.id
JobStep-id id a j k stay = refl
JobStep-id id a j k (claimed owner now lease e r) = unfold claimed_job in refl
JobStep-id id a j k (finished owner now status reason e h t) = unfold finished_job in refl
JobStep-id id a j k (retried owner now later reason e h) = unfold retried_job in refl
JobStep-id id a j k (renewed owner now lease e h) = refl

insert-keyed :
    (id : String) (j : Job) (jobs : Assoc Job)
    → ((i : String) (k : Job) → lookup i jobs ≡ some k → k.id ≡ i)
    → j.id ≡ id
    → (i : String) (k : Job) → lookup i (insert id j jobs) ≡ some k
    → k.id ≡ i
insert-keyed id j jobs kd e i k h = elim (lookup-insert_cases id i j k jobs h) [
  | inl (p, q) ↦ ap (λ (x : Job). x.id) q ∙ e ∙ sym p
  | inr (n, q) ↦ kd i k q
]

Step-Keyed : (hash : Hash) (op : Op) (s t : MemoryStore) → Step hash op s t → Keyed s → Keyed t
Step-Keyed hash op s t (idle e) kd = subst Keyed (sym e) kd
Step-Keyed hash op s t (create now inp o b u e) kd = subst Keyed (sym e) (
    unfold receive_new new_job in
    insert-keyed (next_job_id hash now s) _ _
      (insert-keyed (next_job_id hash now s) _ s.jobs kd refl) refl)
Step-Keyed hash op s t (change id j k at step w e) kd =
    subst Keyed (sym e) (insert-keyed id k s.jobs kd (JobStep-id id _ j k step ∙ kd id j at))
Step-Keyed hash op s t (requeue id owner j now later reason at o h e) kd =
    subst Keyed (sym e)
      (unfold retried_store retried_job in insert-keyed id _ s.jobs kd (kd id j at))
Step-Keyed hash op s t (mark event_id r failed now at e) kd = subst Keyed (sym e) kd

apply-Keyed : (hash : Hash) (op : Op) (s : MemoryStore) → Keyed s → Keyed (apply hash op s)
apply-Keyed hash op s kd = Step-Keyed hash op s (apply hash op s) (apply-Step hash s op) kd

pub run-Keyed : (hash : Hash) (ops : List Op) (s : MemoryStore) → Keyed s → Keyed (run hash ops s)
unfolding run
run-Keyed hash [] s kd = kd
run-Keyed hash (op ∷ ops) s kd = run-Keyed hash ops (apply hash op s) (apply-Keyed hash op s kd)

conclude-Keyed : (r : Result Bool × MemoryStore) → Keyed r.1 → Keyed (conclude r).1
conclude-Keyed (err e, s) kd = kd
conclude-Keyed (ok true, s) kd = kd
conclude-Keyed (ok false, s) kd = kd

Result-cases : {A : Type 0} (r : Result A) → ((e : Err) × (r ≡ err e)) ⊎ ((a : A) × (r ≡ ok a))
Result-cases (err e) = inl (e, refl)
Result-cases (ok a) = inr (a, refl)

module _ (hash : Hash) where
  settle_failure-Keyed :
      (cfg : Config) (owner : String) (now : Time) (job : Job) (e : Err) (s : MemoryStore)
      → Keyed s
      → Keyed (settle_failure hash cfg owner now job e s).1
  unfolding settle_failure apply
  settle_failure-Keyed cfg owner now job e s kd =
      elim (Bool-cases (leb_ℤ cfg.max_attempts (pos job.attempts))) [
        | inl last ↦
            rw last (
              conclude-Keyed _
                (apply-Keyed hash (bury_op job.id owner now (truncate_error e)) s kd))
        | inr more ↦ rw more (
            conclude-Keyed _ (
              apply-Keyed hash
                (retry_op job.id owner now
                  (add_time now (retry_delay cfg.retry_base cfg.retry_max (pos job.attempts)))
                  (truncate_error e))
                s kd))
      ]

  settle-Keyed :
      (cfg : Config) (owner : String) (now : Time) (job : Job) (e : Option Err) (s : MemoryStore)
      → Keyed s
      → Keyed (settle hash cfg owner now job e s).1
  unfolding settle apply
  settle-Keyed cfg owner now job none s kd =
      conclude-Keyed _ (apply-Keyed hash (complete_op job.id owner now) s kd)
  settle-Keyed cfg owner now job (some input_rejected) s kd =
      conclude-Keyed _ (apply-Keyed hash (reject_op job.id owner now "input_rejected") s kd)
  settle-Keyed cfg owner now job (some e) s kd = settle_failure-Keyed cfg owner now job e s kd

  renew_loop-Keyed :
      (id owner : String) (lease : Duration) (ticks : List Tick) (s : MemoryStore)
      → Keyed s
      → Keyed (renew_loop hash id owner lease ticks s).0
  unfolding renew_loop apply
  renew_loop-Keyed id owner lease [] s kd = kd
  renew_loop-Keyed id owner lease (t ∷ ticks) s kd =
      let s' = run hash t.others s in
      let after = renew id owner t.at lease s' in
      let kd' : Keyed after.1 =
        apply-Keyed hash (renew_op id owner t.at lease) s' (run-Keyed hash t.others s kd) in
      let rest = renew_loop-Keyed id owner lease ticks after.1 kd' in
      elim (Result-cases after.0) [
        | inl (e, p) ↦ rw (renew_loop, p) kd'
        | inr (true, p) ↦ rw (renew_loop, p) rest
        | inr (false, p) ↦ rw (renew_loop, p) kd'
      ]

  run_job-Keyed :
      (runner : Runner) (cfg : Config) (owner : String) (m : Meeting) (event : Event) (job : Job)
      (s : MemoryStore)
      → Keyed s
      → Keyed (run_job hash runner cfg owner m event job s).1
  unfolding run_job
  run_job-Keyed runner cfg owner m event job s kd = elim (Bool-cases (is_intact hash job event)) [
    | inl ok_job ↦ rw (run_job, ok_job) (renew_loop-Keyed job.id owner cfg.lease m.ticks s kd)
    | inr bad ↦ rw (run_job, bad) kd
  ]

  handle_claimed-Keyed :
      (runner : Runner) (cfg : Config) (owner : String) (m : Meeting) (event : Event) (job : Job)
      (s : MemoryStore)
      → Keyed s
      → Keyed (handle_claimed hash runner cfg owner m event job s).1
  unfolding handle_claimed apply
  handle_claimed-Keyed runner cfg owner m event job s kd =
      elim (Bool-cases (ltb_ℤ cfg.max_attempts (pos job.attempts))) [
        | inl spent ↦
            rw (handle_claimed, spent)
              (conclude-Keyed _ (
                apply-Keyed hash (bury_op job.id owner m.finished_at "attempts_exhausted") _
                  (run-Keyed hash m.late s kd)))
        | inr more ↦
            rw (handle_claimed, more)
              (settle-Keyed cfg owner m.finished_at job _ _
                (run-Keyed hash m.late _ (run_job-Keyed runner cfg owner m event job s kd)))
      ]

  after_claim-Keyed :
      (runner : Runner) (cfg : Config) (owner : String) (m : Meeting) (event : Event)
      (r : Result (Job × Bool) × MemoryStore)
      → Keyed r.1
      → Keyed (after_claim hash runner cfg owner m event r).1
  after_claim-Keyed runner cfg owner m event (err e, s) kd = kd
  after_claim-Keyed runner cfg owner m event (ok (job, true), s) kd =
      handle_claimed-Keyed runner cfg owner m event job s kd
  after_claim-Keyed runner cfg owner m event (ok (job, false), s) kd = kd

  pub handle-Keyed :
      (runner : Runner) (config : Config) (m : Meeting) (bytes : Stream) (s : MemoryStore)
      → Keyed s
      → Keyed (handle hash runner config m bytes s).1
  unfolding handle handle_event apply
  handle-Keyed runner config m bytes s kd = elim (Option-cases (decode_event bytes)) [
    | inl e ↦ rw (handle, e) kd
    | inr (event, e) ↦
        rw (handle, e)
          (after_claim-Keyed runner (with_defaults config) (claim_owner hash m s) m event _ (
            apply-Keyed hash
              (claim_op event.job_id (claim_owner hash m s) m.claimed_at
                (with_defaults config).lease)
              (record s { id_sequence = s.id_sequence + 1 }) kd))
  ]
