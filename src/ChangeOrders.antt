-- ===== src/ChangeOrders.antt =====
-- services/change_orders/service.py: the client's access to a change order.
pub mod Tables
pub mod Sessions
pub mod Office
pub mod Proposals
pub mod Payload
pub mod Assembly
pub mod Approvals
pub mod Receipts
pub mod Amendments
pub mod Acceptance
pub mod Sends
pub mod Notices
pub mod Decisions
pub mod Expiry
pub mod Frames
pub mod AcceptanceFrames
pub mod Price
pub mod Lifts
pub mod Requested
pub mod Single
pub mod Priced
pub mod Exact
pub mod Issued
pub mod Accepted
pub mod Again
pub mod Sent
pub mod Lifecycle
pub mod Revoked
mod Samples
mod Tests
mod Scenarios
mod Acceptances
