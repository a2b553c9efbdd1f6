-- ===== src/Risk.antt =====
-- The risk layer (src/kalshi_bot/risk).
pub mod Panel
pub mod DailyLoss
pub mod LossStreak
pub mod Throttle
pub mod Drawdown
pub mod Emergency
pub mod Policy
pub mod Leverage
pub mod Sizing
pub mod Funding
