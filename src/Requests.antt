-- ===== src/Requests.antt =====
-- src/trade_alerts/error_request_queue.py
pub mod Checks
pub mod Reading
pub mod Queue
pub mod Keys
pub mod Opening
pub mod Opened
pub mod Closing
mod Examples
