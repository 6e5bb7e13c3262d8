-- ===== src/Kafka/Relay.antt =====
-- Relay.RunOnce of internal/kafka/runtime.go over MemoryStore: the pending rows of the outbox are
-- published one after another, and each is marked after its publication.
pub mod Safety
pub mod Brokered
use sql_sentinel.Prelude.{
  ℕ, ◌+◌, String, Bool, true, false, Option, none, some, List, [], ◌∷◌, ltb, if◌then◌else◌,
}
use sql_sentinel.Prelude.Int.{ℤ, pos, ltb_ℤ}
use sql_sentinel.Prelude.Assoc.{Assoc}
use sql_sentinel.Json.{Stream}
use sql_sentinel.Kafka.Model.{Err, Time, Result, ok, err}
use sql_sentinel.Kafka.Memory.{OutboxRecord, MemoryStore, pending_outbox, mark_published}

pub data RelayErr : Type 0 where
  store_error : Err → RelayErr
  publish_failed : String → RelayErr

-- What RunOnce leaves: the number of rows published, the error, the store and the publisher.
pub record Outcome (P : Type 0) : Type 0 where
  pub count : ℕ
  pub error : Option RelayErr
  pub store : MemoryStore
  pub publisher : P

-- The publisher is a value P that a publication changes; `true` says that it returned an error.
-- `clock n` is the time after n rows.
module _ {P : Type 0} (publish : String → String → Option Stream → P → Bool × P)
    (clock : ℕ → Time) where
  abbrev pub after_mark : Result (Unit {0}) → Bool → Outcome P → Outcome P → Outcome P
  after_mark (err e) failed stop rest = record stop { error = some (store_error e) }
  after_mark (ok _) true stop rest = stop
  after_mark (ok _) false stop rest = rest

  -- The loop over the rows.
  unfoldable pub relay_rows : List OutboxRecord → ℕ → MemoryStore → P → Outcome P
  relay_rows [] count s p = record { count = count; error = none; store = s; publisher = p }
  relay_rows (r ∷ rows) count s p =
      let (failed, p') = publish r.topic r.event_id r.payload p in
      let (marked, s') = mark_published r.event_id failed (clock count) s in
      let rest = relay_rows rows (count + 1) s' p' in
      after_mark marked failed
        (record {
          count = count;
          error = some (publish_failed r.event_id);
          store = s';
          publisher = p';
        })
        rest

-- `visit` lists the rows of the outbox in the order of a `range` over the map.
module _ {P : Type 0} (publish : String → String → Option Stream → P → Bool × P) (clock : ℕ → Time)
    (visit : Assoc OutboxRecord → List OutboxRecord) where
  abbrev pub start : Result (List OutboxRecord) → MemoryStore → P → Outcome P
  start (err e) s p = record { count = 0; error = some (store_error e); store = s; publisher = p }
  start (ok rows) s p = relay_rows publish clock rows 0 s p

  unfoldable pub run_once : ℤ → MemoryStore → P → Outcome P
  unfolding relay_rows
  run_once batch_size s p =
      let size = if ltb_ℤ batch_size (pos 1) then pos 16 else batch_size in
      start (pending_outbox size (clock 0) (visit s.outbox)) s p
