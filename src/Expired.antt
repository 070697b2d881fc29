-- ===== src/Expired.antt =====
-- src/trade_alerts/pending_expired_notice.py
pub mod Notice
pub mod Batch
pub mod Once
pub mod BatchOnce
mod Examples
