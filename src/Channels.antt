-- ===== src/Channels.antt =====
-- src/trade_alerts/channels.py and the retry of src/trade_alerts/core.py
pub mod Text
pub mod Split
pub mod Sending
pub mod Waiting
pub mod Delivery
mod Examples
