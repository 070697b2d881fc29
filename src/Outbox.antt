-- ===== src/Outbox.antt =====
-- src/trade_alerts/projection_outbox.py
pub mod Cells
pub mod Records
pub mod Queue
pub mod Dispatch
pub mod Log
pub mod Enqueue
pub mod Head
pub mod Attempt
pub mod Streak
pub mod Binding
pub mod Rules
pub mod Parking
pub mod Requeue
pub mod Groups
pub mod Recovery
pub mod ParkEvent
pub mod ParkNotice
pub mod Append
mod Examples
