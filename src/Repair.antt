-- ===== src/Repair.antt =====
-- src/trade_alerts/repair_runner.py
pub mod World
pub mod Outcomes
pub mod Writing
pub mod Candidates
pub mod Replays
pub mod Rounds
pub mod Writes
pub mod Handling
pub mod OneWrite
pub mod Overtaken
pub mod LeftOpen
pub mod ReplayWrites
pub mod RoundWrites
pub mod Events
pub mod Counting
pub mod Escalation
mod Examples
