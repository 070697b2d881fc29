-- ===== src/Replay.antt =====
-- src/trade_alerts/notice_replay.py
pub mod Replaying
pub mod Announced
pub mod Loop
pub mod Once
mod Examples
