-- ===== src/ChangeOrders/Lifecycle.antt =====
-- The life of a change order over all operations of services/change_orders/service.py.
pub mod Frames
pub mod Steps
pub mod Loops
pub mod Changes
pub mod Offers
pub mod Ends
pub mod Sweeps
pub mod Run
pub mod Table
