-- ===== src/EventLog/Examples.antt =====
-- Runs of src/trade_alerts/fleet_event_log.py on small logs.
use trade_alerts.Base.{◌≡◌, ◌≢◌, refl, true, none, some, [], ◌∷◌}
use trade_alerts.Result.{ok}
use trade_alerts.Json
use trade_alerts.Jsonl.{malformed, object, append_record, read_records, read_from}
use trade_alerts.Json.{Json, Fields, get, find, is_text, truthy, is_canonical, has_dot, end, field}
use trade_alerts.EventLog.{
  EventFile, EventArgs, event_record, event_fields, append_fleet_event, append_jsonl,
  read_fleet_events, read_jsonl, is_one_of, require_project, require_bare_code, require_risk_tier,
  require_mapping,
}
use trade_alerts.EventLog.Catalog.{catalog_code, find_entry, catalog_entry, risk_tier_for}
use trade_alerts.EventLog.Appending.{IsEvent, append_fleet_event-IsEvent, append_fleet_event_torn}

abbrev stop_missing : EventArgs
stop_missing = record {
  project = Json.str "seykota";
  code = Json.str "STOP_MISSING";
  summary = Json.str "no stop order";
  risk_tier = Json.str "R3";
  evidence = Json.obj (field "trade_id" (Json.str "T-7") end);
  details = Json.null;
  measurements = Json.null;
  recorded_at = Json.null;
  event_id = Json.null;
}

abbrev stored : Fields
stored =
    event_record "e1" "2026-09-01T00:00:00Z" stop_missing (Json.str "seykota")
      (Json.str "STOP_MISSING") (Json.str "R3") (field "trade_id" (Json.str "T-7") end) end end

abbrev whole : EventFile
whole = record { lines = object stored ∷ []; torn = none }

abbrev cut_off : EventFile
cut_off = record { lines = object stored ∷ []; torn = some malformed }

runs :
    (f : EventFile)
    → append_fleet_event true "e1" "2026-09-01T00:00:00Z" stop_missing f
      ≡ ok (stored, append_record stored f)
unfolding append_fleet_event append_jsonl event_fields require_project require_bare_code
    require_risk_tier require_mapping is_one_of is_text is_canonical truthy has_dot
runs f = refl

reads : read_fleet_events whole ≡ ok (stored ∷ [])
unfolding read_fleet_events read_jsonl read_records read_from is_text get find
reads = refl

append_fleet_event-IsEvent_example :
    IsEvent stored × (append_record stored whole ≡ append_record stored whole)
append_fleet_event-IsEvent_example =
    append_fleet_event-IsEvent true "e1" "2026-09-01T00:00:00Z" stop_missing whole (runs whole)

append_fleet_event_torn_example :
    read_fleet_events (append_record stored cut_off) ≢ ok (stored ∷ stored ∷ [])
append_fleet_event_torn_example =
    append_fleet_event_torn true "e1" "2026-09-01T00:00:00Z" stop_missing cut_off refl refl
      (runs cut_off) (stored ∷ stored ∷ [])

abbrev catalog_v2 : Fields
catalog_v2 =
    field "entries"
      (Json.arr (
        Json.item
          (Json.obj
            (field "code" (Json.str "SEY.STOP_MISSING") (field "risk_tier" (Json.str "R3") end)))
          Json.nil))
      end

tier_found :
    risk_tier_for catalog_v2 (Json.str "seykota") (Json.str "STOP_MISSING") ≡ ok (Json.str "R3")
unfolding risk_tier_for catalog_entry catalog_code find_entry require_bare_code require_risk_tier
    is_one_of is_text has_dot get find
tier_found = refl
