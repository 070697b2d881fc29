-- ===== src/Receiver.antt =====
-- src/trade_alerts/google_ledger_client.py and src/trade_alerts/provenance_outbox.py
pub mod Redirect
pub mod Delivery
pub mod Recording
pub mod Hops
pub mod Answers
pub mod Sending
pub mod Callback
mod Examples
