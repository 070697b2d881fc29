-- ===== src/Integrity.antt =====
-- src/trade_alerts/ledger_integrity.py
pub mod Text
pub mod Canonical
pub mod Signing
pub mod Normal
pub mod Verified
pub mod Reissuing
pub mod Rebuilding
mod Examples
