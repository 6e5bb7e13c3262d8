-- ===== src/Lib.antt =====
-- A model of SQL Sentinel, a service that reviews SQL changes: it stores each delivered request as a
-- job, has workers run it under a lease, and measures whether a candidate index helps before it lets
-- anyone claim so.
--
-- Parts, and the files that model them (paths from the repository's root):
--
--   internal/kafka/model.go: Kafka/Model.antt (JobStatus, Job, JobOptions, ReceiveInput, Config and
--   withDefaults, newID, sameDelivery, safeJob), Kafka/Event.antt (Event, Validate, MarshalSafe,
--   DecodeEvent) and Kafka/Retry.antt (RetryDelay).
--   internal/kafka/memory.go, with Renew of recovery.go: Kafka/Memory.antt. A MemoryStore is a record
--   of its maps and counters, and a method is a function from the store to its answer and the new
--   store (Receive is receive, DeadLetter is bury, and so on); the mutex makes each one atomic.
--   Memory/Steps and Memory/Became read every method as a step of one job; Memory/Life, Memory/Lease and
--   Memory/Delivery follow a job through any sequence of calls, Memory/Invariant and Memory/Preserve
--   hold the invariant of the whole store, and Memory/Outbox is about the outbox.
--   internal/kafka/runtime.go: Kafka/Broker.antt (MemoryBroker), Kafka/Relay.antt (Relay.RunOnce) and
--   Kafka/Worker.antt (Worker.Handle). The relay publishes through an interface, the record Publisher
--   of Relay/Safety, that Relay/Brokered fills with the MemoryBroker. A call of Handle meets the
--   calls of others between its own calls of the store, so that any interleaving is a value.
--
--   internal/kafka/mysql.go and recovery.go: Kafka/Mysql. The tables are a record (Mysql/Rows), and a
--   method is a program of statements that each may fail, with or without its effect (Mysql/Db), in a
--   transaction where the code opens one: Mysql/Receive, Mysql/Lease (Claim, Complete, Reject,
--   DeadLetter, Retry, Renew), Mysql/Recover (RecoverExpired, Quarantine), Mysql/Outbox. Mysql/Atomic
--   is about faults (Atomic/Stored, Recovered and Events describe what a transaction that took place has
--   done), Mysql/Refines compares the store with the MemoryStore.
--   internal/kafka/runtime.go, Worker.Run: Kafka/Worker/Run.antt. poller.go: Kafka/Poller.antt.
--
--   internal/agentgraph/bounded.go: DraftGraph.antt (DraftBounded), a graph of nodes run by steps.
--   internal/evaluation/evaluation.go: Evaluation.antt (evaluateStatic, over the admission of
--   SqlAdmit, and RunSecurityChecks).
--   internal/sqladmit/admit.go: SqlAdmit.antt (scan, one step for each state, on bytes) and
--   SqlAdmit/Decision.antt (Admit). Inspect of ast.go is a parameter.
--   internal/candidate/spec.go: Candidate.antt (Validate, CompileCreateIndex) on bytes.
--   internal/shadowgate/gate.go: ShadowGate.antt (Prepare, which joins sqladmit and candidate,
--   hasBindPlaceholder, ensureCandidateIndex) and ShadowGate/Run.antt (Gate.Run); the databases are
--   records of their operations.
--   internal/plancompare/compare.go: PlanCompare.antt (Diff, uniqueKeys) and PlanCompare/Parse.antt
--   (Parse, walk and the fields that it reads); Parse/Nodes.antt is about the objects of the tree.
--   internal/diagnosis/diagnosis.go: Diagnosis.antt (Analyze, derive), on the report of plancompare;
--   Diagnosis/Rows.antt is about the totals of estimated rows.
--   internal/identity/identity.go, with the revocation of internal/service/extension.go: Identity.antt
--   (Authenticate, Allowed) and Identity/Sessions.antt (Issue, the revocation), over the tables of
--   sessions and of the audit.
--   internal/rewrite/rewrite.go: Rewrite.antt (Is, Decode).
--   internal/pipeline/pipeline.go: Pipeline.antt (Run), which joins the admission of SqlAdmit, the
--   comparison of PlanCompare (with BuildReport) and the diagnosis, and records what it
--   wrote.
--   internal/evidencebind/bind.go: EvidenceBind.antt (Bind), which joins the reports of the diagnosis,
--   the comparison, the measurement and the series.
--   internal/snapshot/digest.go and compare.go: Snapshot.antt (normalize, Hasher, Compute, Compare).
--   internal/service/runner.go and rewrite.go: Service/Shadow.antt (cleanIndexes, and the lock with its
--   deferred clean-up around the work on the shadow databases) and Service/RunRewrite.antt (runRewrite
--   from its connections on), on the statements of Mysql/Db. Service/Answered, Concluded and Equivalent
--   follow an accepted rewrite question by question. Service/RunJob.antt (Run, which joins SqlAdmit,
--   ShadowGate and DraftGraph) ends in the transaction of Service/Persist.antt on the tables of the
--   queue and of the service; Service/Approved, Persisted, Verified and Whole are about it.
--   internal/webhook/webhook.go: Webhook/Added.antt (ExtractAddedSQL), Webhook/Request.antt
--   (decodeEvent, parseSignature) and Webhook/Serve.antt (ServeHTTP down to the queue), which joins
--   the admission of SqlAdmit with the queue of Kafka as a parameter.
--   internal/measure/verdict.go, admission.go and gate.go: Measure.antt (Decide, Admit) and
--   Measure/Gates.antt (RequireSameServerVersion, RequireIdenticalSnapshots, RequireCandidateIndex);
--   stats.go and round.go: Measure/Stats.antt (Median, MAD) and Measure/Round.antt (executeRound).
--   internal/series/admission.go: Series.antt (Evaluate), which reads the reports of measure.
--
-- What is a parameter: SHA-256 as a function on texts, the runner of a job, the publisher of the
-- relay, the databases, the clock, the order in which a map is visited, float64 (a record of its
-- operations), the probes of the gates, the JWT library and HMAC, the pipeline and the queue of the
-- webhook, the analysis of a statement's tree, and the case mapping of texts that are not ASCII.
-- Service asks internal/shadowdata, resultset, benchmark, historicalprior and the pipeline through
-- records of operations, and DecodeStrict of internal/candidate through a function.
-- encoding/json is read as the program uses it (Json.antt), on the values that a stream holds: the
-- bytes themselves, and the replacement of invalid UTF-8 by json.Marshal, are left out. That the
-- division of floating point numbers keeps the sign of its numerator is a hypothesis where it is used.
--
-- Numbers: an int or a time.Duration is an integer, a time is a natural number of nanoseconds since
-- the zero time. time.Time.Add is cut off at the zero time, and Kafka/Retry writes out the wrap-around
-- of the doubling. RetryDelay's loop runs on the attempt number; the only fuel is the twelve steps that
-- DraftBounded gives its graph, which are enough, and the rounds of Snapshot's Compute, of which one more
-- than there are rows is enough.
--
-- Not modelled: StatusHandler (HTTP), the rounding of times in MySQL's columns and its collation (texts
-- are compared with their case), blanks that are not ASCII in strings.TrimSpace and strings.Fields,
-- the transaction, the audit entry and the check of the length around a revocation,
-- the adapters of the Kafka client, Inspect of sqladmit (the tree of a third-party parser),
-- the strict decoders of reports and specifications, renderComment of the webhook, and the packages
-- that only move data or talk to services.
pub mod Prelude
pub mod Json
pub mod Kafka
pub mod Candidate
pub mod Evaluation
pub mod DraftGraph
pub mod SqlAdmit
pub mod ShadowGate
pub mod PlanCompare
pub mod Diagnosis
pub mod Identity
pub mod Rewrite
pub mod EvidenceBind
pub mod Pipeline
pub mod Service
pub mod Snapshot
pub mod Webhook
pub mod Measure
pub mod Series
mod Samples
