-- ===== src/SafeHalt.antt =====
-- src/trade_alerts/safe_halt_model.py
pub mod Latch
pub mod Resume
pub mod Token
mod Examples
