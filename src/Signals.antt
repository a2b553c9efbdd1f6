-- ===== src/Signals.antt =====
-- The pricing signals (src/kalshi_bot/signals).
pub mod Fees
