-- ===== src/Governance.antt =====
-- The two append-only ledgers above every paper domain (src/kalshi_bot/risk/governance.py).
pub mod Halts
pub mod Lifecycle
