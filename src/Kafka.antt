-- ===== src/Kafka.antt =====
-- internal/kafka: the durable, at-least-once workflow of jobs. The data model and the configuration
-- (Model), the retry delay (Retry), the event codec (Event), the in-memory store (Memory), the
-- relay of the outbox (Relay), the worker (Worker) and the in-memory broker (Broker).
pub mod Model
pub mod Retry
pub mod Event
pub mod Memory
pub mod Broker
pub mod Relay
pub mod Worker
pub mod Mysql
pub mod Poller
