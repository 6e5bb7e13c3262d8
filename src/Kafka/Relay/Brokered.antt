-- ===== src/Kafka/Relay/Brokered.antt =====
-- MemoryBroker of internal/kafka/runtime.go as the publisher that the relay is given.
use sql_sentinel.Prelude.{
  ℕ, String, false, Option, some, List, [], ◌∷◌, ◌++◌, ◌≡◌, refl, ◌∙◌, length, get_elem?,
}
use sql_sentinel.Json.{Stream}
use sql_sentinel.Kafka.Broker.{MemoryBroker, message_of, publish, get_elem?-append, get_elem?-some}
use sql_sentinel.Kafka.Relay.Safety.{Publisher}

abbrev pub Holds : String → String → Option Stream → MemoryBroker → Type 0
Holds topic key value b = (i : ℕ) × (get_elem? b.messages i ≡ some (message_of topic key value))

get_elem?-length :
    {A : Type 0} (xs : List A) (a : A) → get_elem? (xs ++ a ∷ []) (length xs) ≡ some a
get_elem?-length [] a = refl
get_elem?-length (x ∷ xs) a = get_elem?-length xs a

pub publish-keeps :
    (t k t' k' : String) (v v' : Option Stream) (b : MemoryBroker)
    → Holds t k v b
    → Holds t k v (publish t' k' v' b)
unfolding publish
publish-keeps t k t' k' v v' b (i, at) = (
  i,
  get_elem?-append b.messages (message_of t' k' v' ∷ []) i (get_elem?-some b.messages i at) ∙ at,
)

pub publish-takes :
    (t k : String) (v : Option Stream) (b : MemoryBroker) → Holds t k v (publish t k v b)
unfolding publish
publish-takes t k v b = (length b.messages, get_elem?-length b.messages _)

abbrev pub memory_publisher : Publisher MemoryBroker
memory_publisher = record {
  publish = λ topic key value b. (false, publish topic key value b);
  Taken = Holds;
  keeps = publish-keeps;
  takes = λ t k v b e. publish-takes t k v b;
}
