-- ===== src/Kafka/Memory/Life.antt =====
-- What the life of a job in MemoryStore can be: the diagram of its states, the ends of it, and who
-- may touch it while a lease runs, over any sequence of calls by any number of workers.
use sql_sentinel.Prelude.{
  All, ◌≤◌, ◌<◌, String, true, false, some, List, [], ◌∷◌, ◌≡◌, refl, ◌≢◌, arith, eq_iff, ◌∙◌, ap,
}
use sql_sentinel.Prelude.Assoc.{lookup}
use sql_sentinel.Kafka.Model.{JobStatus, running, retrying, is_terminal, Time, Job, Hash}
use sql_sentinel.Kafka.Memory.{
  MemoryStore, refuses, claimed_job, holds_lease, finished_job, retried_job,
}
use sql_sentinel.Kafka.Memory.Steps.{
  takes, uses, neither, Act, act, uses, act, Act, Op, apply, JobStep, stay, claimed, finished,
  retried, renewed,
}
use sql_sentinel.Kafka.Memory.Became.{Spares, apply-JobStep}

-- A sequence of calls.
unfoldable pub run : Hash → List Op → MemoryStore → MemoryStore
run hash [] s = s
run hash (op ∷ ops) s = run hash ops (apply hash op s)

-- No new delivery of the sequence draws the identifier of this job.
abbrev pub SparesAll : Hash → String → List Op → MemoryStore → Type 0
SparesAll hash id [] s = Unit
SparesAll hash id (op ∷ ops) s = Spares hash id op s × SparesAll hash id ops (apply hash op s)

-- The diagram of the states that a stored job goes through.
infix 40 ◌⟶◌
pub data ◌⟶◌ (a : JobStatus) (b : JobStatus) : Type 0 where
  same : b ≡ a → a ⟶ b
  start : is_terminal a ≡ false → b ≡ running → a ⟶ b
  close : a ≡ running → is_terminal b ≡ true → a ⟶ b
  again : a ≡ running → b ≡ retrying → a ⟶ b

pub holds_lease-running :
    (j : Job) (owner : String) (now : Time) → holds_lease j owner now ≡ true → j.status ≡ running
unfolding holds_lease
holds_lease-running j owner now h = ground arith

pub refuses-live : (j : Job) (now : Time) → refuses j now ≡ false → is_terminal j.status ≡ false
unfolding refuses
refuses-live j now h = ground arith

JobStep-⟶ : {id : String} {a : Act} {j k : Job} → JobStep id a j k → j.status ⟶ k.status
unfolding claimed_job finished_job retried_job
JobStep-⟶ stay = same refl
JobStep-⟶ {j} (claimed owner now lease e r) = start (refuses-live j now r) refl
JobStep-⟶ {j} (finished owner now status reason e h t) = close (holds_lease-running j owner now h) t
JobStep-⟶ {j} (retried owner now later reason e h) = again (holds_lease-running j owner now h) refl
JobStep-⟶ (renewed owner now lease e h) = same refl

JobStep-terminal :
    {id : String} {a : Act} {j k : Job} → JobStep id a j k → is_terminal j.status ≡ true → k ≡ j
JobStep-terminal stay t = refl
JobStep-terminal {j} (claimed owner now lease e r) t = absurd (ground (arith, refuses-live j now r))
JobStep-terminal {j} (finished owner now status reason e h u) t =
    absurd (ground (arith, holds_lease-running j owner now h))
JobStep-terminal {j} (retried owner now later reason e h) t =
    absurd (ground (arith, holds_lease-running j owner now h))
JobStep-terminal {j} (renewed owner now lease e h) t =
    absurd (ground (arith, holds_lease-running j owner now h))

-- Once a job is completed, rejected or dead-lettered, no sequence of calls changes anything of it,
-- as long as no new delivery draws its identifier.
pub run-terminal :
    (hash : Hash) (ops : List Op) (id : String) (j : Job) (s : MemoryStore)
    → lookup id s.jobs ≡ some j
    → is_terminal j.status ≡ true
    → SparesAll hash id ops s
    → lookup id (run hash ops s).jobs ≡ some j
unfolding run
run-terminal hash [] id j s at t sp = at
run-terminal hash (op ∷ ops) id j s at t sp =
    let b = apply-JobStep id j s at hash op sp.0 in
    run-terminal hash ops id j (apply hash op s) (b.found ∙ ap some (JobStep-terminal b.step t)) t
      sp.1

-- What of a job never changes, and the number of its claims, which never falls.
pub record Keeps (j : Job) (k : Job) : Type 0 where
  pub id : k.id ≡ j.id
  pub delivery_id : k.delivery_id ≡ j.delivery_id
  pub pr_number : k.pr_number ≡ j.pr_number
  pub sql : k.sql ≡ j.sql
  pub candidate_spec : k.candidate_spec ≡ j.candidate_spec
  pub sql_sha256 : k.sql_sha256 ≡ j.sql_sha256
  pub candidate_spec_sha256 : k.candidate_spec_sha256 ≡ j.candidate_spec_sha256
  pub options : k.options ≡ j.options
  pub created_at : k.created_at ≡ j.created_at
  pub attempts : j.attempts ≤ k.attempts

pub JobStep-Keeps : {id : String} {a : Act} {j k : Job} → JobStep id a j k → Keeps j k
unfolding claimed_job finished_job retried_job
JobStep-Keeps stay = ground arith
JobStep-Keeps (claimed owner now lease e r) = ground arith
JobStep-Keeps (finished owner now status reason e h u) = ground arith
JobStep-Keeps (retried owner now later reason e h) = ground arith
JobStep-Keeps (renewed owner now lease e h) = ground arith

Keeps-refl : (j : Job) → Keeps j j
Keeps-refl j = ground arith

Keeps-trans : {j k l : Job} → Keeps j k → Keeps k l → Keeps j l
Keeps-trans a b = record {
  id = b.id ∙ a.id;
  delivery_id = b.delivery_id ∙ a.delivery_id;
  pr_number = b.pr_number ∙ a.pr_number;
  sql = b.sql ∙ a.sql;
  candidate_spec = b.candidate_spec ∙ a.candidate_spec;
  sql_sha256 = b.sql_sha256 ∙ a.sql_sha256;
  candidate_spec_sha256 = b.candidate_spec_sha256 ∙ a.candidate_spec_sha256;
  options = b.options ∙ a.options;
  created_at = b.created_at ∙ a.created_at;
  attempts = omega (arith, a.attempts, b.attempts);
}

-- A stored job is never lost: after any sequence of calls it is stored under its identifier, with
-- the same input, and its count of attempts has not fallen, as long as no new delivery draws its
-- identifier.
pub run-Keeps :
    (hash : Hash) (ops : List Op) (id : String) (j : Job) (s : MemoryStore)
    → lookup id s.jobs ≡ some j
    → SparesAll hash id ops s
    → (k : Job) × (lookup id (run hash ops s).jobs ≡ some k) × Keeps j k
unfolding run
run-Keeps hash [] id j s at sp = (j, at, Keeps-refl j)
run-Keeps hash (op ∷ ops) id j s at sp =
    let b = apply-JobStep id j s at hash op sp.0 in
    let (k, found, kept) = run-Keeps hash ops id b.job (apply hash op s) b.found sp.1 in
    (k, found, Keeps-trans (JobStep-Keeps b.step) kept)

-- A call that is not made under the lease of this owner: it tries to take the lease while it runs,
-- or it comes as another owner, or it is about another job.
abbrev pub IsForeign : String → String → Time → Act → Type 0
IsForeign id owner until (takes other now) = other ≡ id → now < until
IsForeign id owner until (uses other who now) = other ≡ id → who ≢ owner
IsForeign id owner until neither = Unit

abbrev pub AllForeign : String → String → Time → List Op → Type 0
AllForeign id owner until = All (λ op. IsForeign id owner until (act op))

not-uses :
    (j : Job) (owner : String) (now : Time) → holds_lease j owner now ≡ true → owner ≡ j.lease_owner
unfolding holds_lease
not-uses j owner now h = ground (arith, eq_iff j.lease_owner owner)

refuses-leased :
    (j : Job) (now : Time) → j.status ≡ running → now < j.lease_until → refuses j now ≡ true
unfolding refuses
refuses-leased j now h l = ground arith

IsForeign-use :
    {a : Act} {id owner : String} {now : Time} (j : Job)
    → a ≡ uses id owner now
    → holds_lease j owner now ≡ true
    → ¬ IsForeign id j.lease_owner j.lease_until a
IsForeign-use j e h f = (rw e at f) refl (not-uses j _ _ h)

JobStep-foreign :
    {id : String} {a : Act} {j k : Job}
    → JobStep id a j k
    → j.status ≡ running
    → IsForeign id j.lease_owner j.lease_until a
    → k ≡ j
JobStep-foreign stay live f = refl
JobStep-foreign {j} (claimed owner now lease e r) live f =
    absurd (ground (arith, refuses-leased j now live ((rw e at f) refl)))
JobStep-foreign {j} (finished owner now status reason e h u) live f = absurd (IsForeign-use j e h f)
JobStep-foreign {j} (retried owner now later reason e h) live f = absurd (IsForeign-use j e h f)
JobStep-foreign {j} (renewed owner now lease e h) live f = absurd (IsForeign-use j e h f)

-- A lease excludes all others: while the lease of a running job has time left, no sequence of
-- claims by anyone, and no calls that other owners make to finish, retry or renew, change anything
-- of the job, as long as no new delivery draws its identifier.
pub run-foreign :
    (hash : Hash) (ops : List Op) (id : String) (j : Job) (s : MemoryStore)
    → lookup id s.jobs ≡ some j
    → j.status ≡ running
    → AllForeign id j.lease_owner j.lease_until ops
    → SparesAll hash id ops s
    → lookup id (run hash ops s).jobs ≡ some j
unfolding run
run-foreign hash [] id j s at r f sp = at
run-foreign hash (op ∷ ops) id j s at r f sp =
    let b = apply-JobStep id j s at hash op sp.0 in
    run-foreign hash ops id j (apply hash op s) (b.found ∙ ap some (JobStep-foreign b.step r f.0)) r
      f.1 sp.1
