-- ===== src/Replay/Examples.antt =====
-- A replay of src/trade_alerts/notice_replay.py on one open request.
use mathlib.Core.Bool.{Bool}
use trade_alerts.Base.{ℕ, ◌≡◌, refl, none, [], ◌∷◌, String}
use trade_alerts.Result.{ok, fold_results}
use trade_alerts.Jsonl.{object, append_record, read_records, read_from}
use trade_alerts.Json.{
  Json, Fields, get, find, put, is_text, truthy, is_canonical, has_dot, update_fields, end, field,
}
use trade_alerts.EventLog.{
  EventFile, append_fleet_event, append_jsonl, event_fields, read_fleet_events, read_jsonl,
  is_one_of, require_project, require_bare_code, require_risk_tier, require_mapping,
}
use trade_alerts.Requests.Checks.{dict_or_empty}
use trade_alerts.Requests.Reading.{
  outstanding_error_requests, sort_requests, insert_sorted, add_request, add_outcome,
}
use trade_alerts.Requests.Queue.{request_line}
use trade_alerts.Replay.Replaying.{
  ReplayArgs, Replayed, events_for, ids_of, announced_request_ids, is_skipped, announce,
  replay_each, replay_unannounced_requests,
}
use trade_alerts.Replay.Once.{Announced, replay_once}

abbrev printed : Json → String
printed v = "?"

abbrev waiting : Fields
waiting = field "request_id" (Json.str "q1") (
    field "opened_at" (Json.str "2026-09-01T00:00:00Z") (
      field "project" (Json.str "seykota")
        (field "code" (Json.str "UNRECORDED_FILL") (field "summary" (Json.str "a fill") end))))

abbrev queue_file : EventFile
queue_file = record { lines = object (request_line waiting) ∷ []; torn = none }

abbrev empty_log : EventFile
empty_log = record { lines = []; torn = none }

abbrev escalated : ReplayArgs
escalated = record {
  project = "seykota";
  code = "UNRECORDED_FILL";
  risk_tier = "R3";
  notice_text = λ r. Json.str "see the ledger";
  extra_details = end;
}

abbrev first_id : ℕ → String
first_id n = "e1"

abbrev second_id : ℕ → String
second_id n = "e2"

abbrev noon : ℕ → String
noon n = "2026-09-01T12:00:00Z"

abbrev told : Fields
told = field "kind" (Json.str "fleet_event_v1") (
    field "event_id" (Json.str "e1") (
      field "recorded_at" (Json.str "2026-09-01T12:00:00Z") (
        field "project" (Json.str "seykota") (
          field "code" (Json.str "UNRECORDED_FILL") (
            field "summary" (Json.str "a fill") (
              field "risk_tier" (Json.str "R3") (
                field "evidence" (Json.obj end) (
                  field "details"
                    (Json.obj (
                      field "request_id" (Json.str "q1") (
                        field "replayed" (Json.bool Bool.true)
                          (field "notice_text" (Json.str "see the ledger") end))))
                    (field "measurements" (Json.obj end) end)))))))))

abbrev replayed : Replayed
replayed = record {
  log = record { lines = object told ∷ []; torn = none };
  written = told ∷ [];
  stopped = none;
}

replays :
    replay_unannounced_requests printed escalated first_id noon queue_file empty_log ≡ ok replayed
unfolding replay_unannounced_requests replay_each announce is_skipped announced_request_ids ids_of
    events_for read_fleet_events read_jsonl read_records read_from append_fleet_event append_jsonl
    append_record event_fields is_one_of require_project require_bare_code require_risk_tier
    require_mapping dict_or_empty outstanding_error_requests sort_requests insert_sorted add_request
    add_outcome fold_results get find put is_text truthy is_canonical has_dot update_fields
replays = refl

replay_once_example :
    Announced printed escalated queue_file replayed.log
    × (replay_unannounced_requests printed escalated second_id noon queue_file replayed.log
        ≡ ok (record { log = replayed.log; written = []; stopped = none }))
replay_once_example =
    replay_once printed escalated first_id noon second_id noon queue_file empty_log refl replays
      refl
