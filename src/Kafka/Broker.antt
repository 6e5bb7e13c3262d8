-- ===== src/Kafka/Broker.antt =====
-- Message and MemoryBroker of internal/kafka (model.go and runtime.go): messages are delivered in
-- the order of their publication, and one is delivered again until it is committed.
use sql_sentinel.Prelude.{
  ℕ, zero, suc, ◌+◌, ◌<◌, String, Option, some, List, [], ◌∷◌, ◌++◌, ◌≡◌, refl, arith, ltb, length,
  get_elem?, if◌then◌else◌,
}
use sql_sentinel.Json.{Stream}

pub record Message : Type 0 where
  pub topic : String
  pub key : String
  pub value : Option Stream
  pub partition : ℕ
  pub offset : ℕ

pub record MemoryBroker : Type 0 where
  pub messages : List Message
  pub next : ℕ

abbrev pub new_memory_broker : MemoryBroker
new_memory_broker = record { messages = []; next = 0 }

abbrev pub message_of : String → String → Option Stream → Message
message_of topic key value = record {
  topic = topic;
  key = key;
  value = value;
  partition = 0;
  offset = 0;
}

-- The error that Publish returns is always nil.
unfoldable pub publish : String → String → Option Stream → MemoryBroker → MemoryBroker
publish topic key value b = record b { messages = b.messages ++ message_of topic key value ∷ [] }

-- What Receive returns at once; `none` means that it waits for a message or for the context's end.
unfoldable pub receive : MemoryBroker → Option Message
receive b = get_elem? b.messages b.next

unfoldable pub commit : MemoryBroker → MemoryBroker
commit b = if ltb b.next (length b.messages) then record b { next = b.next + 1 } else b

pub get_elem?-append :
    {A : Type 0} (xs ys : List A) (i : ℕ) → i < length xs → get_elem? (xs ++ ys) i ≡ get_elem? xs i
get_elem?-append [] ys i h = elim h [ ]
get_elem?-append (x ∷ xs) ys zero h = refl
get_elem?-append (x ∷ xs) ys (suc i) h = get_elem?-append xs ys i (omega arith)

pub get_elem?-some :
    {A : Type 0} (xs : List A) (i : ℕ) {a : A} → get_elem? xs i ≡ some a → i < length xs
get_elem?-some [] i h = absurd (ground arith)
get_elem?-some (x ∷ xs) zero h = omega arith
get_elem?-some (x ∷ xs) (suc i) h = omega (arith, get_elem?-some xs i h)

-- A message that Receive has returned is returned again whatever is published meanwhile, until it is
-- committed; then the next message in the order of publication is delivered.
pub receive-publish :
    (b : MemoryBroker) (m : Message) (topic key : String) (value : Option Stream)
    → receive b ≡ some m
    → (receive (publish topic key value b) ≡ some m)
      × (receive (commit b) ≡ get_elem? b.messages (b.next + 1))
unfolding receive publish commit
receive-publish b m topic key value h =
    let bound = get_elem?-some b.messages b.next h in
    (
      rw (get_elem?-append b.messages (message_of topic key value ∷ []) b.next bound) h,
      ground arith,
    )
