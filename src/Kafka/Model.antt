-- ===== src/Kafka/Model.antt =====
-- internal/kafka/model.go: jobs, their options and states, the input of a delivery, the outbox
-- rows and the messages, the configuration and its defaults, and the identifiers.
-- A time is its number of nanoseconds since Go's zero time; a duration is a signed number of them.
use sql_sentinel.Prelude.{
  refl, eq_refl, arith, ◌≡◌, ℕ, ◌+◌, ◌-◌, ◌*◌, ◌^◌, String, Bool, true, false, not, ◌&&◌, Option,
  none, ltb, str_eq, if◌then◌else◌,
}
use sql_sentinel.Prelude.Int.{ℤ, pos, negsuc, ltb_ℤ, leb_ℤ, eqb_ℤ, sub_ℕ, wrap64}
use sql_sentinel.Prelude.Text.{◌+s+◌, prefix, show_int, show_nat}

pub data JobStatus : Type 0 where
  received queued running completed rejected retrying dead_letter : JobStatus

abbrev pub is_terminal : JobStatus → Bool
is_terminal completed = true
is_terminal rejected = true
is_terminal dead_letter = true
is_terminal _ = false

-- The error values of the package; `invalid` is an error made on the spot.
pub data Err : Type 0 where
  not_found lease_lost lease_busy input_rejected delivery_conflict backlog_full : Err
  invalid : String → Err

abbrev pub Time : Type 0
Time = ℕ

-- time.Time{}
abbrev pub zero_time : Time
zero_time = 0

abbrev pub Duration : Type 0
Duration = ℤ

abbrev pub second : Duration
second = pos (10 ^ 9)

abbrev pub minute : Duration
minute = pos (60 * 10 ^ 9)

-- t.Add(d)
abbrev pub add_time : Time → Duration → Time
add_time t (pos n) = t + n
add_time t (negsuc n) = t - (n + 1)

-- t.After(u)
abbrev pub after : Time → Time → Bool
after t u = ltb u t

pub record JobOptions : Type 0 where
  pub trace_parent : String
  pub trace_state : String
  pub tenant_id : String
  pub project_id : String
  pub actor : String
  pub benchmark : Bool
  pub approved_job_id : String
  pub approval_report_sha : String

abbrev or_default : String → String → String
or_default s d = if str_eq s "" then d else s

unfoldable pub normalized : JobOptions → JobOptions
normalized o = record o {
  tenant_id = or_default o.tenant_id "operator";
  project_id = or_default o.project_id "default";
  actor = or_default o.actor "operator";
}

pub record Job : Type 0 where
  pub options : JobOptions
  pub id : String
  pub delivery_id : String
  pub pr_number : ℤ
  pub sql : String
  pub candidate_spec : String
  pub sql_sha256 : String
  pub candidate_spec_sha256 : String
  pub status : JobStatus
  pub attempts : ℕ
  pub next_attempt_at : Time
  pub lease_owner : String
  pub lease_until : Time
  pub last_error : String
  pub created_at : Time
  pub updated_at : Time
  pub completed_at : Option Time

pub record ReceiveInput : Type 0 where
  pub options : JobOptions
  pub delivery_id : String
  pub pr_number : ℤ
  pub sql : String
  pub candidate_spec : String
  pub source_json : String

pub record ReceiveResult : Type 0 where
  pub job : Job
  pub duplicate : Bool

pub record Config : Type 0 where
  pub topic : String
  pub max_attempts : ℤ
  pub lease : Duration
  pub retry_base : Duration
  pub retry_max : Duration
  pub owner : String

unfoldable pub with_defaults : Config → Config
with_defaults c = record {
  topic = or_default c.topic "sql-sentinel.jobs";
  max_attempts = if ltb_ℤ c.max_attempts (pos 1) then pos 3 else c.max_attempts;
  lease = if leb_ℤ c.lease (pos 0) then pos (5 * 60 * 10 ^ 9) else c.lease;
  retry_base = if leb_ℤ c.retry_base (pos 0) then second else c.retry_base;
  retry_max = if leb_ℤ c.retry_max (pos 0) then minute else c.retry_max;
  owner = or_default c.owner "worker";
}

-- SHA-256 in hexadecimal, of a text.
abbrev pub Hash : Type 0
Hash = String → String

-- now.UnixNano()
unix_nano : Time → ℤ
unix_nano t = wrap64 (sub_ℕ t (62135596800 * 10 ^ 9))

-- `sequence` is the value that the package's counter has after its increment.
unfoldable pub new_id : Hash → String → Time → ℕ → ℕ → String
unfolding unix_nano prefix show_int show_nat
new_id hash kind now n sequence = prefix 32 (
    hash (
      kind
      +s+ ":"
      +s+ show_int (unix_nano now)
      +s+ ":"
      +s+ show_nat n
      +s+ ":"
      +s+ show_nat sequence))

abbrev bool_eq : Bool → Bool → Bool
bool_eq true b = b
bool_eq false b = not b

-- `left == right` on the options, once the trace fields of both are blank
same_options : JobOptions → JobOptions → Bool
same_options a b =
    str_eq a.tenant_id b.tenant_id
    && str_eq a.project_id b.project_id
    && str_eq a.actor b.actor
    && bool_eq a.benchmark b.benchmark
    && str_eq a.approved_job_id b.approved_job_id
    && str_eq a.approval_report_sha b.approval_report_sha

unfoldable pub same_delivery : Hash → Job → ReceiveInput → Bool
unfolding same_options normalized
same_delivery hash job inp =
    eqb_ℤ job.pr_number inp.pr_number
    && str_eq job.sql_sha256 (hash inp.sql)
    && str_eq job.candidate_spec_sha256 (hash inp.candidate_spec)
    && same_options job.options (normalized inp.options)

-- The fields of a job that the status response shows.
pub record SafeJob : Type 0 where
  pub job_id : String
  pub delivery_id : String
  pub pr_number : ℤ
  pub sql_sha256 : String
  pub candidate_spec_sha256 : String
  pub status : JobStatus
  pub attempts : ℕ
  pub next_attempt_at : Time
  pub created_at : Time
  pub updated_at : Time

unfoldable pub safe_job : Job → SafeJob
safe_job j = record {
  job_id = j.id;
  delivery_id = j.delivery_id;
  pr_number = j.pr_number;
  sql_sha256 = j.sql_sha256;
  candidate_spec_sha256 = j.candidate_spec_sha256;
  status = j.status;
  attempts = j.attempts;
  next_attempt_at = j.next_attempt_at;
  created_at = j.created_at;
  updated_at = j.updated_at;
}

-- A result of the store, or its error.
pub data Result {ℓ} (A : Type ℓ) : Type ℓ where
  ok : A → Result A
  err : Err → Result A

-- Job{}
abbrev pub zero_job : Job
zero_job = record {
  options = record {
    trace_parent = "";
    trace_state = "";
    tenant_id = "";
    project_id = "";
    actor = "";
    benchmark = false;
    approved_job_id = "";
    approval_report_sha = "";
  };
  id = "";
  delivery_id = "";
  pr_number = pos 0;
  sql = "";
  candidate_spec = "";
  sql_sha256 = "";
  candidate_spec_sha256 = "";
  status = received;
  attempts = 0;
  next_attempt_at = zero_time;
  lease_owner = "";
  lease_until = zero_time;
  last_error = "";
  created_at = zero_time;
  updated_at = zero_time;
  completed_at = none;
}

eqb_refl : (n : ℤ) → eqb_ℤ n n ≡ true
eqb_refl n = ground arith

bool_eq_refl : (b : Bool) → bool_eq b b ≡ true
bool_eq_refl true = refl
bool_eq_refl false = refl

-- A job that has the input of a delivery is the same delivery.
pub same_delivery_of :
    (hash : Hash) (j : Job) (inp : ReceiveInput)
    → j.pr_number ≡ inp.pr_number
    → j.sql_sha256 ≡ hash inp.sql
    → j.candidate_spec_sha256 ≡ hash inp.candidate_spec
    → j.options ≡ normalized inp.options
    → same_delivery hash j inp ≡ true
unfolding same_delivery
same_delivery_of hash j inp p q r o =
    rw (p, q, r, o)
      (simp (eq_refl, eqb_refl inp.pr_number) (ground (arith, bool_eq_refl inp.options.benchmark)))
