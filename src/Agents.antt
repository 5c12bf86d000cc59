-- ===== src/Agents.antt =====
-- services/agents: the deterministic rules around the analysis by language models.
pub mod Gates
pub mod Routing
pub mod Limits
pub mod Budgets
mod Tests
