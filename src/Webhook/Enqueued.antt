-- ===== src/Webhook/Enqueued.antt =====
-- What reaches the queue from a request to internal/webhook/webhook.go.
use sql_sentinel.Prelude.{
  sym, subst, ltb, if◌then◌else◌, ℕ, ◌≤◌, Bool, true, false, not, ◌||◌, Option, none, some, ◌⊎◌,
  inl, inr, List, [], ◌∷◌, ◌≡◌, refl, arith, length, map,
}
use sql_sentinel.Prelude.Int.{ltb_ℤ, pos}
use sql_sentinel.Prelude.Text.{codes}
use sql_sentinel.Prelude.Bytes.{Bytes, bytes_eq}
use sql_sentinel.SqlAdmit.Decision.{AdmitResult, admit}
use sql_sentinel.Webhook.Added.{extract_added_sql}
use sql_sentinel.Webhook.Request.{
  PrEvent, Request, Body, decode_pr_event, is_delivery_id, parse_signature,
}
use sql_sentinel.Webhook.Serve.{
  queue_full, invalid_signature, serve_read, method_not_allowed, invalid_delivery, body_too_large,
  Server, State, Disk, Queued, QueueInput, DeliveryReport, Rejection, Outcome, Reason, input_of,
  store_report, hand_over, process_admitted, process, refusals, serve_event, serve_body, serve,
  max_body, answered, enqueued,
}

refusals-accepted : (a : AdmitResult) → refusals (a ∷ []) ≡ [] → a.accepted ≡ true
unfolding refusals
refusals-accepted a h = ground (arith, h)

ltb→le : (n m : ℕ) → ltb n m ≡ false → m ≤ n
ltb→le n m h = ground arith

of_not : (a : Bool) → not a ≡ false → a ≡ true
of_not a h = ground arith

left_of : (a b : Bool) → not a || b ≡ false → a ≡ true
left_of a b h = ground arith

right_of : (a b : Bool) → a || b ≡ false → b ≡ false
right_of a b h = ground arith

otherwise : {A B C : Type 0} → (B → C) → A ⊎ B → A ⊎ C
otherwise f (inl a) = inl a
otherwise f (inr b) = inr (f b)

module _ {S : Type 0} where
  -- The queue is as it was, or it is what AsyncEnqueue leaves for the statement of the event.
  pub data Hands (v : Server S) (e : PrEvent) (sql : Bytes) (before after : S) : Type 0 where
    hands :
        (enqueue : QueueInput → S → Option Queued × S)
        → v.enqueue ≡ some enqueue
        → after ≡ (enqueue (input_of v e sql) before).1
        → Hands v e sql before after

  -- The event's diff adds one statement, which is admitted and handed to the queue.
  pub data Processed (v : Server S) (e : PrEvent) (before after : S) : Type 0 where
    processed :
        (sql : Bytes)
        → extract_added_sql (codes e.diff) ≡ sql ∷ []
        → (admit v.unicode v.inspect sql).accepted ≡ true
        → Hands v e sql before after
        → Processed v e before after

  -- The request is signed with the secret, small enough, and spells a valid event.
  pub data Trusted (v : Server S) (r : Request) (before after : S) : Type 0 where
    trusted :
        (body : Body) (mac : Bytes) (e : PrEvent)
        → r.is_post ≡ true
        → r.body ≡ some body
        → length body.raw ≤ max_body
        → parse_signature r.signature ≡ some mac
        → bytes_eq (v.hmac v.secret body.raw) mac ≡ true
        → decode_pr_event body.json ≡ some e
        → is_delivery_id (codes e.delivery_id) ≡ true
        → ltb_ℤ e.pr_number (pos 1) ≡ false
        → Processed v e before after
        → Trusted v r before after

  store_report-queue :
      (d : Disk) (r : DeliveryReport) (s : State S) → (store_report d r s).1.queue ≡ s.queue
  unfolding store_report
  store_report-queue d r s = ground arith

  enqueued-queue :
      (r : DeliveryReport) (s : State S) (x : Option Queued × S) → (enqueued r s x).1.queue ≡ x.1
  enqueued-queue r s (none, q) = refl
  enqueued-queue r s (some x, q) = refl

  hand_over-Hands :
      (v : Server S) (d : Disk) (e : PrEvent) (sql : Bytes) (r : DeliveryReport) (s : State S)
      (x : Option (QueueInput → S → Option Queued × S))
      → v.enqueue ≡ x
      → ((hand_over v d e sql r s x).1.queue ≡ s.queue)
        ⊎ Hands v e sql s.queue (hand_over v d e sql r s x).1.queue
  unfolding hand_over
  hand_over-Hands v d e sql r s none h = inl (store_report-queue d _ s)
  hand_over-Hands v d e sql r s (some enqueue) h =
      inr (hands enqueue h (enqueued-queue r s (enqueue (input_of v e sql) s.queue)))

  process_admitted-Processed :
      (v : Server S) (d : Disk) (e : PrEvent) (sqls : List Bytes) (reasons : List Reason)
      (r : DeliveryReport) (s : State S)
      → extract_added_sql (codes e.diff) ≡ sqls
      → refusals (map (admit v.unicode v.inspect) sqls) ≡ reasons
      → ((process_admitted v d e sqls reasons r s).1.queue ≡ s.queue)
        ⊎ Processed v e s.queue (process_admitted v d e sqls reasons r s).1.queue
  unfolding process_admitted
  process_admitted-Processed v d e sqls (x ∷ reasons) r s h k = inl (store_report-queue d _ s)
  process_admitted-Processed v d e [] [] r s h k = inl (store_report-queue d _ s)
  process_admitted-Processed v d e (sql ∷ []) [] r s h k =
      elim (hand_over-Hands v d e sql r s v.enqueue refl) [
        | inl same ↦ inl same
        | inr handed ↦ inr (processed sql h (refusals-accepted _ k) handed)
      ]
  process_admitted-Processed v d e (sql ∷ (other ∷ sqls)) [] r s h k =
      inl (store_report-queue d _ s)

  answered-state : (x : Outcome × State S) → (answered x).1 ≡ x.1
  answered-state (inl x, s) = ground arith
  answered-state (inr r, s) = refl

  -- A test that refuses leaves the queue as it was.
  behind :
      (P : S → Type 0) (c : Bool) (x : Rejection) (s : State S)
      (y : (Rejection ⊎ DeliveryReport) × State S)
      → (c ≡ false → (y.1.queue ≡ s.queue) ⊎ P y.1.queue)
      → ((if c then (inl x, s) else y).1.queue ≡ s.queue)
        ⊎ P ((if c then (inl x, s) else y).1.queue)
  behind P true x s y f = inl refl
  behind P false x s y f = f refl

  process-Processed :
      (v : Server S) (d : Disk) (e : PrEvent) (s : State S)
      → ((process v d e s).1.queue ≡ s.queue) ⊎ Processed v e s.queue (process v d e s).1.queue
  unfolding process
  process-Processed v d e s =
      let sqls = extract_added_sql (codes e.diff) in
      process_admitted-Processed v d e sqls _ _ s refl refl

  -- What serve_event lets through.
  data Served (v : Server S) (x : Option PrEvent) (before after : S) : Type 0 where
    served :
        (e : PrEvent)
        → x ≡ some e
        → is_delivery_id (codes e.delivery_id) ≡ true
        → ltb_ℤ e.pr_number (pos 1) ≡ false
        → Processed v e before after
        → Served v x before after

  -- What serve_read lets through.
  data Opened (v : Server S) (x : Option Bytes) (b : Option Body) (before after : S) : Type 0 where
    opened :
        (mac : Bytes) (body : Body)
        → x ≡ some mac
        → b ≡ some body
        → length body.raw ≤ max_body
        → bytes_eq (v.hmac v.secret body.raw) mac ≡ true
        → Served v (decode_pr_event body.json) before after
        → Opened v x b before after

  module _ (v : Server S) (d : Disk) where
    serve_event-Served :
        (x : Option PrEvent) (s : State S)
        → ((serve_event v d x s).1.queue ≡ s.queue)
          ⊎ Served v x s.queue (serve_event v d x s).1.queue
    unfolding serve_event
    serve_event-Served none s = inl refl
    serve_event-Served (some e) s =
        let bad_id = not (is_delivery_id (codes e.delivery_id)) in
        let bad_number = ltb_ℤ e.pr_number (pos 1) in
        behind (Served v (some e) s.queue) (bad_id || bad_number) invalid_delivery s
          (answered (process v d e s))
          (λ good.
            subst (λ t. (t.queue ≡ s.queue) ⊎ Served v (some e) s.queue t.queue)
              (sym (answered-state (process v d e s)))
              (otherwise (served e refl (left_of _ _ good) (right_of bad_id bad_number good))
                (process-Processed v d e s)))

    serve_body-Opened :
        (mac : Bytes) (body : Body) (s : State S)
        → ((serve_body v d mac body s).1.queue ≡ s.queue)
          ⊎ Opened v (some mac) (some body) s.queue (serve_body v d mac body s).1.queue
    unfolding serve_body
    serve_body-Opened mac body s =
        let P = Opened v (some mac) (some body) s.queue in
        behind P (ltb max_body (length body.raw)) body_too_large s _ (λ small.
          behind P (not (bytes_eq (v.hmac v.secret body.raw) mac)) invalid_signature s _ (λ signed.
            behind P (not (ltb s.in_hand v.max_concurrent)) queue_full s _ (λ free.
              otherwise (opened mac body refl refl (ltb→le _ _ small) (of_not _ signed))
                (serve_event-Served (decode_pr_event body.json) s))))

    serve_read-Opened :
        (x : Option Bytes) (b : Option Body) (s : State S)
        → ((serve_read v d x b s).1.queue ≡ s.queue)
          ⊎ Opened v x b s.queue (serve_read v d x b s).1.queue
    unfolding serve_read
    serve_read-Opened none b s = inl refl
    serve_read-Opened (some mac) none s = inl refl
    serve_read-Opened (some mac) (some body) s = serve_body-Opened mac body s

    Trusted-Opened :
        (r : Request) (before after : S)
        → r.is_post ≡ true
        → Opened v (parse_signature r.signature) r.body before after
        → Trusted v r before after
    Trusted-Opened r before after post
          (opened mac body h k small signed (served e decoded id number p)) =
        trusted body mac e post k small h signed decoded id number p

    -- After a request the queue is as it was, or the request is a POST whose signature header holds the
    -- HMAC of its body under the secret, whose body has at most 2^20 bytes and spells an event with a
    -- valid delivery identifier and a positive number, the event's diff adds exactly one SQL statement,
    -- which Admit accepts, and the queue is what AsyncEnqueue leaves for that event and statement.
    pub serve-Trusted :
        (r : Request) (s : State S)
        → ((serve v d r s).1.queue ≡ s.queue) ⊎ Trusted v r s.queue (serve v d r s).1.queue
    unfolding serve
    serve-Trusted r s = behind (Trusted v r s.queue) (not r.is_post) method_not_allowed s _ (λ post.
        otherwise (Trusted-Opened r s.queue _ (of_not _ post))
          (serve_read-Opened (parse_signature r.signature) r.body s))
