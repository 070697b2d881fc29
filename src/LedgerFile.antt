-- ===== src/LedgerFile.antt =====
-- src/trade_alerts/atomic_ledger_append.py, and `read_ledger` of src/trade_alerts/ledger_reconcile.py
pub mod Texts
pub mod Batch
pub mod Lines
pub mod ReadBack
pub mod Landing
mod Examples
