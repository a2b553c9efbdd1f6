-- ===== src/Agents.antt =====
-- The council layer (src/kalshi_bot/agents).
pub mod Boundary
pub mod CouncilLifecycle
pub mod Contracts
pub mod Validation
pub mod Policy
pub mod Profiles
pub mod Coordinator
