-- ===== src/Kafka/Memory/Outbox.antt =====
-- The outbox of MemoryStore: which rows PendingOutbox offers, and what MarkPublished makes of a row.
use sql_sentinel.Prelude.{
  ℕ, zero, suc, ◌+◌, ◌-◌, ◌*◌, ◌^◌, ◌≤◌, min, String, Bool, true, false, none, some, List, [], ◌∷◌,
  ◌≡◌, refl, ◌≢◌, arith, ap, ◌∙◌, Bool-cases, inl, inr, take, if◌then◌else◌,
}
use sql_sentinel.Prelude.Int.{pos}
use sql_sentinel.Prelude.Assoc.{lookup, insert, lookup-insert_same, lookup-insert_other}
use sql_sentinel.Kafka.Model.{Time, second, minute, ok}
use sql_sentinel.Kafka.Retry.{retry_delay, retry_delay-eq-min}
use sql_sentinel.Kafka.Memory.{
  OutboxRecord, MemoryStore, is_pending, collect, pending_outbox, marked_record, mark_published,
}

-- The rows that are neither published nor put off.
abbrev pub pending_rows : Time → List OutboxRecord → List OutboxRecord
pending_rows now [] = []
pending_rows now (r ∷ rows) =
    let rest = pending_rows now rows in if is_pending now r then r ∷ rest else rest

collect-eq-take :
    (room : ℕ) (now : Time) (rows : List OutboxRecord)
    → collect room now rows ≡ take room (pending_rows now rows)
unfolding collect
collect-eq-take zero now [] = refl
collect-eq-take (suc room) now [] = refl
collect-eq-take zero now (r ∷ rows) = refl
collect-eq-take (suc room) now (r ∷ rows) = elim (Bool-cases (is_pending now r)) [
  | inl p ↦ rw p (ap (λ l. r ∷ l) (collect-eq-take room now rows))
  | inr p ↦ rw p (collect-eq-take (suc room) now rows)
]

-- Whatever the order in which the map is visited, PendingOutbox with a positive limit returns the
-- first `limit` of the rows that have a payload and whose time has come; it skips none of them.
pub pending_outbox-eq-take :
    (limit : ℕ) (now : Time) (rows : List OutboxRecord)
    → 1 ≤ limit
    → pending_outbox (pos limit) now rows ≡ ok (take limit (pending_rows now rows))
unfolding pending_outbox
pending_outbox-eq-take zero now rows h = absurd (omega arith)
pending_outbox-eq-take (suc n) now rows h = ap ok (collect-eq-take (suc n) now rows)

-- The delay that Go's constants give after so many attempts.
abbrev pub put_off : ℕ → ℕ
put_off attempts = min (60 * 10 ^ 9) (10 ^ 9 * 2 ^ attempts)

delay-eq-put_off : (n : ℕ) → retry_delay second minute (pos (n + 1)) ≡ pos (put_off n)
delay-eq-put_off n =
    let e : n + 1 - 1 ≡ n = omega arith in
    retry_delay-eq-min (10 ^ 9) (60 * 10 ^ 9) (n + 1) (omega arith)
    ∙ ap (λ k. pos (min (60 * 10 ^ 9) (10 ^ 9 * 2 ^ k))) e

-- What MarkPublished makes of a row.
abbrev pub marked : Bool → Time → OutboxRecord → OutboxRecord
marked false now r = record r { payload = none }
marked true now r = record r { attempts = r.attempts + 1; available_at = now + put_off r.attempts }

marked_record-eq-marked :
    (failed : Bool) (now : Time) (r : OutboxRecord)
    → marked_record failed now r ≡ marked failed now r
unfolding marked_record
marked_record-eq-marked false now r = refl
marked_record-eq-marked true now r = rw (delay-eq-put_off r.attempts) refl

pub mark-found :
    (event_id : String) (failed : Bool) (now : Time) (s : MemoryStore) (r : OutboxRecord)
    → lookup event_id s.outbox ≡ some r
    → mark_published event_id failed now s
      ≡ (ok tt, record s { outbox = insert event_id (marked failed now r) s.outbox })
unfolding mark_published
mark-found event_id failed now s r at =
    rw (at, mark_published, marked_record-eq-marked failed now r) refl

-- Marking a row after the publisher failed keeps its payload, counts the attempt and puts the row off
-- by one second doubled with each attempt before, a minute at most; marking it after a success takes
-- the payload. Either way no other row and no job changes.
pub mark_published_lem :
    (event_id : String) (failed : Bool) (now : Time) (s : MemoryStore) (r : OutboxRecord)
    → lookup event_id s.outbox ≡ some r
    → let t = (mark_published event_id failed now s).1 in
      (lookup event_id t.outbox ≡ some (marked failed now r))
      × ((other : String) → event_id ≢ other → lookup other t.outbox ≡ lookup other s.outbox)
      × (t.jobs ≡ s.jobs)
mark_published_lem event_id failed now s r at = rw (mark-found event_id failed now s r at) (
  lookup-insert_same event_id _ s.outbox,
  λ other n. lookup-insert_other event_id other _ s.outbox n,
  refl,
)
