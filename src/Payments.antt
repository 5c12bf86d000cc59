-- ===== src/Payments.antt =====
-- services/payments/service.py: payment requests, provider links, webhooks and reconciliation.
pub mod Tables
mod Tests
pub mod Texts
pub mod Status
pub mod Collected
pub mod Facts
pub mod Observe
pub mod Capture
pub mod Sources
pub mod Webhooks
pub mod Replay
pub mod Reconcile
pub mod Links
pub mod Dispatch
pub mod Once
pub mod Numbering
pub mod Linked
pub mod Deliveries
pub mod Flat
pub mod Terms
