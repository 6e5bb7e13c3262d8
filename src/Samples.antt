-- ===== src/Samples.antt =====
-- Runs of the model on concrete data, and each theorem with a hypothesis at an input that meets it.
mod Jobs
mod Workers
mod Claims
mod Statements
mod Shadows
mod Timings
mod Tables
mod Proposals
mod Access
mod Deliveries
mod Pipelines
mod Snapshots
mod Served
mod Locks
mod Rewrites
mod Runs
