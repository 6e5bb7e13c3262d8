-- ===== src/Webhook/Serve.antt =====
-- ServeHTTP, process and persist of internal/webhook/webhook.go.
use sql_sentinel.Prelude.{
  ℕ, ◌^◌, String, Bool, true, false, not, ◌&&◌, ◌||◌, Option, none, some, ◌⊎◌, inl, inr, List, [],
  ◌∷◌, ◌++◌, ltb, map, length, if◌then◌else◌,
}
use sql_sentinel.Prelude.Int.{ℤ, pos, ltb_ℤ}
use sql_sentinel.Prelude.Text.{codes}
use sql_sentinel.Prelude.Bytes.{Bytes, bytes_eq, mem_bytes}
use sql_sentinel.SqlAdmit.Decision.{AdmitResult, ReasonCode, admit}
use sql_sentinel.Webhook.Added.{extract_added_sql}
use sql_sentinel.Webhook.Request.{
  PrEvent, Request, Body, decode_pr_event, is_delivery_id, parse_signature,
}

pub data Reason : Type 0 where
  no_sql multiple_sql sql_rejected pipeline_failed : Reason
  admission_code : Option ReasonCode → Reason
  pipeline_code : Bytes → Reason

pub data Rejection : Type 0 where
  method_not_allowed signature_missing invalid_signature body_too_large queue_full : Rejection
  invalid_event invalid_delivery delivery_exists delivery_write : Rejection

pub record PipelineReport : Type 0 where
  pub evidence_level : Bytes
  pub eligible : Bool
  pub completed_steps : List Bytes
  pub stopped_step : Bytes
  pub reasons : List Bytes
  pub artifacts : List Bytes

pub data Status : Type 0 where
  unavailable queued completed : Status

pub record DeliveryReport : Type 0 where
  pub delivery_id : String
  pub pr_number : ℤ
  pub job_id : Bytes
  pub duplicate : Bool
  pub status : Status
  pub evidence_level : Bytes
  pub eligible : Bool
  pub admissions : List AdmitResult
  pub completed_steps : List Bytes
  pub reasons : List Reason
  pub artifacts : List Bytes

-- kafka.ReceiveInput, as far as process fills it.
pub record QueueInput : Type 0 where
  pub delivery_id : String
  pub pr_number : ℤ
  pub sql : Bytes
  pub candidate_spec : Bytes

pub record Queued : Type 0 where
  pub job_id : Bytes
  pub duplicate : Bool

-- The server, over the states S of the queue. `enqueue` is AsyncEnqueue (`none` for nil), with `none`
-- for its error; the pipeline's answer comes with whether it succeeded.
pub record Server (S : Type 0) : Type 0 where
  pub secret : Bytes
  pub candidate_spec : Bytes
  pub hmac : Bytes → Bytes → Bytes
  pub unicode : Bytes → Bytes
  pub inspect : Bytes → Option Bytes
  pub max_concurrent : ℕ
  pub enqueue : Option (QueueInput → S → Option Queued × S)
  pub pipeline : Bytes → PipelineReport × Bool

-- The deliveries in hand, the directories of the output root with their reports, and the queue.
pub record State (S : Type 0) : Type 0 where
  pub in_hand : ℕ
  pub dirs : List Bytes
  pub reports : List DeliveryReport
  pub queue : S

-- Whether the next directory, report and comment can be written.
pub record Disk : Type 0 where
  pub mkdir_works : Bool
  pub report_works : Bool
  pub comment_works : Bool

pub data DeliveryErr : Type 0 where
  output_exists output_write not_enqueued : DeliveryErr

abbrev pub Outcome : Type 0
Outcome = DeliveryErr ⊎ DeliveryReport

abbrev pub fresh_report : PrEvent → List AdmitResult → DeliveryReport
fresh_report e admissions = record {
  delivery_id = e.delivery_id;
  pr_number = e.pr_number;
  job_id = [];
  duplicate = false;
  status = unavailable;
  evidence_level = [];
  eligible = false;
  admissions = admissions;
  completed_steps = [];
  reasons = [];
  artifacts = [];
}

abbrev is_nil {ℓ} : {A : Type ℓ} → List A → Bool
is_nil [] = true
is_nil (x ∷ xs) = false

-- The reasons of the statements that were refused.
unfoldable pub refusals : List AdmitResult → List Reason
refusals [] = []
refusals (a ∷ results) =
    let rest = refusals results in
    if a.accepted then rest else sql_rejected ∷ (admission_code a.reason_code ∷ rest)

abbrev pipeline_reasons : List Bytes → List Reason
pipeline_reasons [] = []
pipeline_reasons (c ∷ cs) = pipeline_code c ∷ pipeline_reasons cs

abbrev merged : DeliveryReport → PipelineReport × Bool → DeliveryReport
merged r (p, works) = record r {
  evidence_level = p.evidence_level;
  eligible = p.eligible;
  completed_steps = r.completed_steps ++ p.completed_steps;
  artifacts = r.artifacts ++ p.artifacts;
  reasons =
      r.reasons ++ (pipeline_reasons p.reasons ++ (if works then [] else pipeline_failed ∷ []));
  status = if works && is_nil p.stopped_step then completed else r.status;
}

abbrev with_reasons : List Reason → DeliveryReport → DeliveryReport
with_reasons reasons r = record r { reasons = reasons }

abbrev pub max_body : ℕ
max_body = 2 ^ 20

module _ {S : Type 0} where
  -- createDeliveryDir, then writeDelivery of the report that `make` gives.
  unfoldable pub store_report : Disk → DeliveryReport → State S → Outcome × State S
  unfolding mem_bytes
  store_report disk r s =
      if mem_bytes (codes r.delivery_id) s.dirs
      then (inl output_exists, s)
      else if not disk.mkdir_works
      then (inl output_write, s)
      else if not disk.report_works
      then (inl output_write, record s { dirs = codes r.delivery_id ∷ s.dirs })
      else (
        (if disk.comment_works then inr r else inl output_write),
        record s { dirs = codes r.delivery_id ∷ s.dirs; reports = r ∷ s.reports },
      )

  abbrev pub enqueued : DeliveryReport → State S → Option Queued × S → Outcome × State S
  enqueued r s (none, q) = (inl not_enqueued, record s { queue = q })
  enqueued r s (some x, q) = (
    inr (record r { job_id = x.job_id; duplicate = x.duplicate; status = queued }),
    record s { queue = q },
  )

  abbrev pub input_of : Server S → PrEvent → Bytes → QueueInput
  input_of v e sql = record {
    delivery_id = e.delivery_id;
    pr_number = e.pr_number;
    sql = sql;
    candidate_spec = v.candidate_spec;
  }

  -- process for a statement that was admitted, by AsyncEnqueue.
  unfoldable pub hand_over :
      Server S
      → Disk
      → PrEvent
      → Bytes
      → DeliveryReport
      → State S
      → Option (QueueInput → S → Option Queued × S)
      → Outcome × State S
  unfolding store_report
  hand_over v disk e sql r s (some enqueue) = enqueued r s (enqueue (input_of v e sql) s.queue)
  hand_over v disk e sql r s none = store_report disk (merged r (v.pipeline sql)) s

  -- process for the statements of a diff, by what was refused.
  unfoldable pub process_admitted :
      Server S
      → Disk
      → PrEvent
      → List Bytes
      → List Reason
      → DeliveryReport
      → State S
      → Outcome × State S
  unfolding hand_over store_report
  process_admitted v disk e sqls (x ∷ reasons) r s =
      store_report disk (with_reasons (x ∷ reasons) r) s
  process_admitted v disk e [] [] r s = store_report disk (with_reasons (no_sql ∷ []) r) s
  process_admitted v disk e (sql ∷ []) [] r s = hand_over v disk e sql r s v.enqueue
  process_admitted v disk e (sql ∷ (other ∷ sqls)) [] r s =
      store_report disk (with_reasons (multiple_sql ∷ []) r) s

  unfoldable pub process : Server S → Disk → PrEvent → State S → Outcome × State S
  unfolding extract_added_sql refusals process_admitted
  process v disk e s =
      let sqls = extract_added_sql (codes e.diff) in
      let admissions = map (admit v.unicode v.inspect) sqls in
      process_admitted v disk e sqls (refusals admissions) (fresh_report e admissions) s

  abbrev pub answered : Outcome × State S → (Rejection ⊎ DeliveryReport) × State S
  answered (inl output_exists, s) = (inl delivery_exists, s)
  answered (inl e, s) = (inl delivery_write, s)
  answered (inr r, s) = (inr r, s)

  -- ServeHTTP behind the signature and the semaphore.
  unfoldable pub serve_event :
      Server S → Disk → Option PrEvent → State S → (Rejection ⊎ DeliveryReport) × State S
  unfolding process is_delivery_id
  serve_event v disk none s = (inl invalid_event, s)
  serve_event v disk (some e) s =
      if not (is_delivery_id (codes e.delivery_id)) || ltb_ℤ e.pr_number (pos 1)
      then (inl invalid_delivery, s)
      else answered (process v disk e s)

  unfoldable pub serve_body :
      Server S → Disk → Bytes → Body → State S → (Rejection ⊎ DeliveryReport) × State S
  unfolding serve_event bytes_eq decode_pr_event
  serve_body v disk provided body s =
      if ltb max_body (length body.raw)
      then (inl body_too_large, s)
      else if not (bytes_eq (v.hmac v.secret body.raw) provided)
      then (inl invalid_signature, s)
      else if not (ltb s.in_hand v.max_concurrent)
      then (inl queue_full, s)
      else serve_event v disk (decode_pr_event body.json) s

  -- ServeHTTP by the signature and the body that were read.
  unfoldable pub serve_read :
      Server S
      → Disk
      → Option Bytes
      → Option Body
      → State S
      → (Rejection ⊎ DeliveryReport) × State S
  unfolding serve_body
  serve_read v disk none body s = (inl signature_missing, s)
  serve_read v disk (some provided) none s = (inl invalid_event, s)
  serve_read v disk (some provided) (some body) s = serve_body v disk provided body s

  unfoldable pub serve :
      Server S → Disk → Request → State S → (Rejection ⊎ DeliveryReport) × State S
  unfolding parse_signature serve_read
  serve v disk r s =
      if not r.is_post
      then (inl method_not_allowed, s)
      else serve_read v disk (parse_signature r.signature) r.body s
