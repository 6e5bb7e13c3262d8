-- ===== src/Kafka/Mysql.antt =====
-- MySQLStore of internal/kafka/mysql.go and recovery.go. A method is a program of SQL statements on
-- the tables, each of which may fail (Mysql/Db); Mysql/Rows holds the tables and what the statements
-- do to them, Mysql/Receive and Mysql/Lease the methods on jobs, Mysql/Recover the recovery of
-- expired leases, Mysql/Outbox the outbox.
pub mod Db
pub mod Rows
pub mod Receive
pub mod Lease
pub mod Recover
pub mod Outbox
pub mod Atomic
pub mod Refines
