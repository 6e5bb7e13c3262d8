-- ===== src/Service.antt =====
-- internal/service: the section of runner.go and rewrite.go that holds the lock of the shadow databases.
pub mod Shadow
pub mod Drops
pub mod Clean
pub mod Entered
pub mod Answered
pub mod Concluded
pub mod RunRewrite
pub mod Persist
pub mod RunJob
pub mod Persisted
pub mod Approved
pub mod Verified
pub mod Whole
pub mod Equivalent
