-- ===== src/Domain.antt =====
-- services/domain: rules that the services share.
pub mod Auth
pub mod Decimals
pub mod Rounding
pub mod Money
pub mod Prices
pub mod Calendar
pub mod WorkingDays
mod Tests
