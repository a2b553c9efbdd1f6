-- ===== src/Agents/Coordinator.antt =====
-- `CouncilCoordinator` of src/kalshi_bot/agents/coordinator.py: the budget, the specialists' round, the
-- optional reconsideration and the master's call. The clients, which may fail or time out, and the JSON readers
-- are parameters; hashes, snapshots, checkpoints and latencies are left out.
pub mod Budget
pub mod Calls
pub mod Reading
pub mod Decision
pub mod Rounds
pub mod Run
pub mod Grounded
pub mod Take
pub mod Master
pub mod Sound
mod Tests
