-- ===== src/Reconciliation.antt =====
-- src/trade_alerts/google_ledger_reconciliation.py with `comparison_for` of src/trade_alerts/ledger_integrity.py
pub mod Classify
pub mod Findings
mod Examples
