-- ===== src/Backtest.antt =====
-- Evaluation of strategies on past data (src/kalshi_bot/backtest).
pub mod WalkForward
pub mod PromotionGate
pub mod PerpLedger
