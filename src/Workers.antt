-- ===== src/Workers.antt =====
-- services/workers: durable jobs, external actions, the outbox, capacity and recovery. The parent
-- names the modules; `Tables` holds the rows that they share.
pub mod Tables
pub mod Faults
pub mod Locks
pub mod Jobs
pub mod Actions
pub mod Outbox
pub mod Commands
pub mod Capacity
pub mod Recovery
pub mod Operator
mod Tests
