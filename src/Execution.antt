-- ===== src/Execution.antt =====
-- The execution layer (src/kalshi_bot/execution, src/kalshi_bot/risk/exit_triggers.py).
pub mod OrderFile
pub mod Orders
pub mod PerpAdmission
pub mod Bracket
pub mod PaperGuard
pub mod Broker
pub mod BacktestBroker
pub mod PaperBroker
