-- ===== src/Reconciliation/Examples.antt =====
-- Runs of src/trade_alerts/google_ledger_reconciliation.py on a small inventory.
use trade_alerts.Base.{◌≡◌, ◌↔◌, refl, Bool, true, none, [], ◌∷◌, All, String}
use trade_alerts.Base.Int.{pos}
use trade_alerts.Result.{ok}
use trade_alerts.Json
use trade_alerts.Json.{Json, Fields, end, field, get, find, is_text}
use trade_alerts.Outbox.Records.{Provenance, schema_version_v2}
use trade_alerts.Reconciliation.Classify.{
  matched, Finding, Inventory, classify_proof, classify_proofs, classify_projection_inventory,
  comparison_for, matching_rows, confirmed_digests, is_rejected, row_count, items_by_trade,
  outbox_statuses, sort_items, insert_item, sourceless_finding,
}
use trade_alerts.Reconciliation.Findings.{
  IsProjectedOnce, TellsSource, classify_proof-matched, classify_projection_inventory-TellsSource,
}

abbrev any_text : String → Bool
any_text s = true

abbrev local_proof : Provenance
local_proof = record {
  project_id = "mycrypto";
  trade_id = "T-7";
  event_type = "trade_open";
  ledger_event_digest = "5f1c";
  payload_digest = "9a02";
  request_id = "req-1";
  issued_at = "2026-09-01T00:00:00Z";
  source_id = "host-a";
  schema_version = schema_version_v2;
}

abbrev audited : Fields
audited = field "trade_id" (Json.str "T-7") (
    field "google_row_count" (Json.int (pos 1)) (
      field "audit"
        (Json.arr (
          Json.item
            (Json.obj (
              field "event_type" (Json.str "trade_open") (
                field "status" (Json.str "CONFIRMED")
                  (field "payload_digest" (Json.str "9a02") end))))
            Json.nil))
        end))

abbrev legacy : Fields
legacy = field "trade_id" (Json.str "DRY-1") (field "google_row_count" (Json.int (pos 2)) end)

abbrev inventory : Inventory
inventory = ("T-7", audited) ∷ []

abbrev matched_finding : Finding
matched_finding = record {
  trade_id = "T-7";
  event_type = "trade_open";
  classification = matched;
  outbox_status = none;
}

matches : classify_proof any_text any_text [] inventory local_proof ≡ ok matched_finding
unfolding classify_proof comparison_for matching_rows confirmed_digests is_rejected row_count get
    find is_text
matches = refl

classify_proof-matched_example :
    (matched_finding.classification ≡ matched)
    ↔ IsProjectedOnce any_text any_text inventory local_proof
classify_proof-matched_example =
    classify_proof-matched any_text any_text [] inventory local_proof matches

classifies :
    classify_projection_inventory any_text any_text
      (local_proof ∷ [])
      []
      (Json.obj legacy ∷ Json.obj audited ∷ [])
    ≡ ok (matched_finding ∷ sourceless_finding ("DRY-1", legacy) ∷ [])
unfolding classify_projection_inventory classify_proofs classify_proof comparison_for matching_rows
    confirmed_digests is_rejected row_count items_by_trade outbox_statuses sort_items insert_item
    get find is_text
classifies = refl

classify_projection_inventory-TellsSource_example :
    All
      (TellsSource (local_proof ∷ []))
      (matched_finding ∷ sourceless_finding ("DRY-1", legacy) ∷ [])
classify_projection_inventory-TellsSource_example =
    classify_projection_inventory-TellsSource (local_proof ∷ []) any_text any_text []
      (Json.obj legacy ∷ Json.obj audited ∷ []) classifies
