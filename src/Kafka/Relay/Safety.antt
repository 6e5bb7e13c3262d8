-- ===== src/Kafka/Relay/Safety.antt =====
-- The relay loses no event: a row gives up its payload only after the publisher took it.
use sql_sentinel.Prelude.{
  zero, suc, All-take, suc, ℕ, ◌+◌, String, Bool, true, false, Option, none, some, List, [], ◌∷◌,
  ◌≡◌, refl, inl, inr, arith, str_eq, eq_iff, ap, ◌∙◌, sym, subst, Bool-cases, All,
}
use sql_sentinel.Prelude.Assoc.{Assoc, lookup, lookup-insert_same, lookup-insert_other}
use sql_sentinel.Json.{Stream}
use sql_sentinel.Prelude.Int.{ℤ, pos, negsuc}
use sql_sentinel.Kafka.Model.{err, ok, Result, Time}
use sql_sentinel.Kafka.Memory.{
  pending_outbox, is_pending, OutboxRecord, MemoryStore, mark_published,
}
use sql_sentinel.Kafka.Memory.Outbox.{pending_outbox-eq-take, pending_rows, marked, mark-found}
use sql_sentinel.Kafka.Relay.{start, after_mark, run_once, Outcome, relay_rows}

-- A publisher: whether a publication failed, and which messages it has taken so far. It does not
-- forget a message, and it has taken one when it returns no error.
pub record Publisher (P : Type 0) : Type 1 where
  pub publish : String → String → Option Stream → P → Bool × P
  pub Taken : String → String → Option Stream → P → Type 0
  pub keeps :
      (t k t' k' : String) (v v' : Option Stream) (p : P)
      → Taken t k v p
      → Taken t k v (publish t' k' v' p).1
  pub takes :
      (t k : String) (v : Option Stream) (p : P)
      → (publish t k v p).0 ≡ false
      → Taken t k v (publish t k v p).1

module _ {P : Type 0} (pub_ : Publisher P) (clock : ℕ → Time) (before : MemoryStore) where
  open pub_ use {publish, Taken, keeps, takes}

  -- What became of a row of the store as it was before.
  pub data Fate (r : OutboxRecord) (now : OutboxRecord) (p : P) : Type 0 where
    waits : now.payload ≡ r.payload → Fate r now p
    taken : now.payload ≡ none → Taken r.topic r.event_id r.payload p → Fate r now p

  pub record Kept (event_id : String) (r : OutboxRecord) (s : MemoryStore) (p : P) : Type 0 where
    pub row : OutboxRecord
    pub found : lookup event_id s.outbox ≡ some row
    pub fate : Fate r row p

  abbrev AllKept : MemoryStore → P → Type 0
  AllKept s p =
      (event_id : String) (r : OutboxRecord)
      → lookup event_id before.outbox ≡ some r
      → Kept event_id r s p

  -- The rows that are relayed are rows of the store as it was before.
  abbrev pub IsListed : OutboxRecord → Type 0
  IsListed r = lookup r.event_id before.outbox ≡ some r

  Fate-keeps :
      {r row : OutboxRecord} {p : P} (t k : String) (v : Option Stream)
      → Fate r row p
      → Fate r row (publish t k v p).1
  Fate-keeps t k v (waits e) = waits e
  Fate-keeps {r} {p = p} t k v (taken e d) = taken e (keeps r.topic r.event_id t k r.payload v p d)

  Fate-same :
      {r row next : OutboxRecord} {p : P}
      → next.payload ≡ row.payload
      → Fate r row p
      → Fate r next p
  Fate-same e (waits f) = waits (e ∙ f)
  Fate-same e (taken f d) = taken (e ∙ f) d

  -- The row that is published, by the publisher's answer.
  Fate-marked :
      (r row : OutboxRecord) (p : P) (now : Time) (failed : Bool)
      → (publish r.topic r.event_id r.payload p).0 ≡ failed
      → Fate r row p
      → Fate r (marked failed now row) (publish r.topic r.event_id r.payload p).1
  Fate-marked r row p now true e f = Fate-same refl (Fate-keeps r.topic r.event_id r.payload f)
  Fate-marked r row p now false e f = taken refl (takes r.topic r.event_id r.payload p e)

  step-Kept :
      (r : OutboxRecord) (s : MemoryStore) (p : P) (now : Time)
      → IsListed r
      → AllKept s p
      → AllKept
          (mark_published r.event_id (publish r.topic r.event_id r.payload p).0 now s).1
          (publish r.topic r.event_id r.payload p).1
  step-Kept r s p now listed kept event_id q at =
      let failed = (publish r.topic r.event_id r.payload p).0 in
      let mine = kept r.event_id r listed in
      let e = mark-found r.event_id failed now s mine.row mine.found in
      elim (Bool-cases (str_eq r.event_id event_id)) [
        | inl hit ↦
            let same = (eq_iff r.event_id event_id).0 hit in
            let q_is_r : q ≡ r = ground (arith, ap (λ k. lookup k before.outbox) same) in
            subst
              (λ k.
                Kept k q (mark_published r.event_id failed now s).1
                  (publish r.topic r.event_id r.payload p).1)
              same
              (subst
                (λ x.
                  Kept r.event_id x (mark_published r.event_id failed now s).1
                    (publish r.topic r.event_id r.payload p).1)
                (sym q_is_r)
                (record {
                  row = marked failed now mine.row;
                  found = rw e (lookup-insert_same r.event_id _ s.outbox);
                  fate = Fate-marked r mine.row p now failed refl mine.fate;
                }))
        | inr miss ↦
            let old = kept event_id q at in
            record {
              row = old.row;
              found = rw e (
                  lookup-insert_other r.event_id event_id _ s.outbox
                    (ground (arith, eq_iff r.event_id event_id))
                  ∙ old.found);
              fate = Fate-keeps r.topic r.event_id r.payload old.fate;
            }
      ]

  after_mark-Kept :
      (m : Result (Unit {0})) (failed : Bool) (stop rest : Outcome P)
      → AllKept stop.store stop.publisher
      → AllKept rest.store rest.publisher
      → let o = after_mark publish clock m failed stop rest in AllKept o.store o.publisher
  after_mark-Kept (err e) failed stop rest a b = a
  after_mark-Kept (ok u) true stop rest a b = a
  after_mark-Kept (ok u) false stop rest a b = b

  relay_rows-Kept :
      (rows : List OutboxRecord) (count : ℕ) (s : MemoryStore) (p : P)
      → All IsListed rows
      → AllKept s p
      → let o = relay_rows publish clock rows count s p in AllKept o.store o.publisher
  unfolding relay_rows
  relay_rows-Kept [] count s p l k = k
  relay_rows-Kept (r ∷ rows) count s p l k =
      let failed = (publish r.topic r.event_id r.payload p).0 in
      let p' = (publish r.topic r.event_id r.payload p).1 in
      let s' = (mark_published r.event_id failed (clock count) s).1 in
      let kept = step-Kept r s p (clock count) l.0 k in
      after_mark-Kept _ failed _ _ kept (relay_rows-Kept rows (count + 1) s' p' l.1 kept)

  -- The pass before any row: every row waits.
  all_wait : (p : P) → AllKept before p
  all_wait p event_id r at = record { row = r; found = at; fate = waits refl }

module _ {ℓ} (P : OutboxRecord → Type ℓ) where
  All-pending_rows :
      (now : Time) (rows : List OutboxRecord) → All P rows → All P (pending_rows now rows)
  All-pending_rows now [] h = tt
  All-pending_rows now (r ∷ rows) h = elim (Bool-cases (is_pending now r)) [
    | inl p ↦ rw p (h.0, All-pending_rows now rows h.1)
    | inr p ↦ rw p (All-pending_rows now rows h.1)
  ]

module _ {P : Type 0} (publisher : Publisher P) (clock : ℕ → Time) where
  start-Kept :
      (visit : Assoc OutboxRecord → List OutboxRecord) (size : ℤ) (s : MemoryStore) (p : P)
      → All (IsListed publisher clock s) (visit s.outbox)
      → let o =
          start
            (publisher.publish)
            clock
            visit
            (pending_outbox size (clock 0) (visit s.outbox))
            s
            p in
        AllKept publisher clock s o.store o.publisher
  start-Kept visit (pos zero) s p l = unfold pending_outbox in all_wait publisher clock s p
  start-Kept visit (negsuc n) s p l = unfold pending_outbox in all_wait publisher clock s p
  start-Kept visit (pos (suc n)) s p l =
      rw (pending_outbox-eq-take (suc n) (clock 0) (visit s.outbox) (omega arith)) (
        relay_rows-Kept publisher clock s _ 0 s p
          (All-take _ (suc n) _ (All-pending_rows _ (clock 0) _ l)) (all_wait publisher clock s p))

  -- One pass of the relay loses no event, whatever the publisher answers and in whatever order the
  -- outbox is visited: every row of the outbox is still there, and it has its payload as before,
  -- unless the publisher has taken the message with its topic, event and payload. The visit shows
  -- only rows of the outbox, each stored under its own event identifier.
  pub run_once-Kept :
      (visit : Assoc OutboxRecord → List OutboxRecord) (batch_size : ℤ) (s : MemoryStore) (p : P)
      (event_id : String) (r : OutboxRecord)
      → All (IsListed publisher clock s) (visit s.outbox)
      → lookup event_id s.outbox ≡ some r
      → let o = run_once (publisher.publish) clock visit batch_size s p in
        Kept publisher clock s event_id r o.store o.publisher
  unfolding run_once
  run_once-Kept visit batch_size s p event_id r l at = start-Kept visit _ s p l event_id r at
