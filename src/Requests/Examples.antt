-- ===== src/Requests/Examples.antt =====
-- Runs of src/trade_alerts/error_request_queue.py on a small queue.
use trade_alerts.Base.{◌≡◌, ◌⊎◌, refl, false, none, List, [], ◌∷◌, String, any}
use trade_alerts.Result.{ok, raised, fold_results}
use trade_alerts.Jsonl.{object, append_record, read_records, read_from}
use trade_alerts.Json.{Json, Fields, get, find, is_text, truthy, is_canonical, has_dot, end, field}
use trade_alerts.EventLog.{EventFile, append_jsonl, read_jsonl, is_one_of}
use trade_alerts.Requests.Checks.{
  already_closed, request_fingerprint, require_queue_project, require_queue_code,
  require_requestable_tier, queue_mapping, dict_or_empty,
}
use trade_alerts.Requests.Reading.{
  outstanding_error_requests, sort_requests, add_request, add_outcome,
}
use trade_alerts.Requests.Keys.{has_request_id}
use trade_alerts.Requests.Queue.{
  OpenArgs, OutcomeArgs, request_record, request_line, outcome_record, outcome_line, prepare,
  open_error_request, prepare_outcome, record_request_outcome,
}
use trade_alerts.Requests.Opening.{IsNewId, open_again}
use trade_alerts.Requests.Opened.{Returned, Added, open_error_request-cases}
use trade_alerts.Requests.Closing.{closed_once}

abbrev constant : Fields → String
constant core = "0123456789ab"

abbrev printed : Json → String
printed v = "?"

abbrev no_fill : OpenArgs
no_fill = record {
  project = Json.str "seykota";
  code = Json.str "UNRECORDED_FILL";
  risk_tier = Json.str "R3";
  summary = Json.str "a fill that the ledger lacks";
  evidence = Json.obj (field "trade_id" (Json.str "T-7") end);
  details = Json.null;
  measurements = Json.null;
  event_ref = Json.null;
  opened_at = Json.null;
}

abbrev asked : Fields
asked =
    request_record "q1" "2026-09-01T00:00:00Z" no_fill "0123456789ab" (Json.str "seykota")
      (Json.str "UNRECORDED_FILL") (Json.str "R3") (field "trade_id" (Json.str "T-7") end) end end

abbrev asked_later : Fields
asked_later =
    request_record "q2" "2026-09-01T01:00:00Z" no_fill "0123456789ab" (Json.str "seykota")
      (Json.str "UNRECORDED_FILL") (Json.str "R3") (field "trade_id" (Json.str "T-7") end) end end

abbrev empty_queue : EventFile
empty_queue = record { lines = []; torn = none }

abbrev queue_file : EventFile
queue_file = record { lines = object (request_line asked) ∷ []; torn = none }

new_id : IsNewId "q1" empty_queue
unfolding read_jsonl read_records read_from fold_results
new_id = record {
  records = [];
  found = [];
  closed = [];
  read = refl;
  requested = refl;
  ended = refl;
  filled = refl;
  not_requested = refl;
  not_ended = refl;
}

prepares :
    prepare constant printed "q2" "2026-09-01T01:00:00Z" no_fill ≡ ok ("0123456789ab", asked_later)
unfolding prepare request_fingerprint require_queue_project require_queue_code
    require_requestable_tier queue_mapping dict_or_empty is_one_of is_text has_dot truthy
    is_canonical
prepares = refl

opens :
    open_error_request constant printed "q1" "2026-09-01T00:00:00Z" no_fill empty_queue
    ≡ ok (asked, queue_file)
unfolding open_error_request prepare request_fingerprint require_queue_project require_queue_code
    require_requestable_tier queue_mapping dict_or_empty is_one_of is_text has_dot truthy
    is_canonical outstanding_error_requests sort_requests read_jsonl read_records read_from
    fold_results append_jsonl append_record
opens = refl

open_again_example :
    open_error_request constant printed "q2" "2026-09-01T01:00:00Z" no_fill queue_file
    ≡ ok (asked, queue_file)
open_again_example =
    open_again constant printed "q1" "2026-09-01T00:00:00Z" "q2" "2026-09-01T01:00:00Z" no_fill
      no_fill empty_queue new_id refl refl prepares opens

open_error_request-cases_example :
    (queue : List Fields) × (outstanding_error_requests printed empty_queue ≡ ok queue)
    × (Returned constant printed no_fill queue empty_queue asked queue_file
        ⊎ Added constant printed "q1" no_fill queue empty_queue asked queue_file)
open_error_request-cases_example =
    open_error_request-cases constant printed "q1" "2026-09-01T00:00:00Z" no_fill empty_queue opens

abbrev solved : OutcomeArgs
solved = record {
  request_id = Json.str "q1";
  status = Json.str "RESOLVED_HUMAN";
  note = Json.str "booked by hand";
  details = Json.null;
  recorded_at = Json.null;
}

abbrev solved_record : String → Fields
solved_record now = outcome_record now solved end

solvable : (now : String) → prepare_outcome now solved ≡ ok (solved_record now)
unfolding prepare_outcome queue_mapping is_one_of is_text truthy is_canonical
solvable now = refl

closes :
    record_request_outcome "2026-09-02T00:00:00Z" solved queue_file
    ≡ ok (
      solved_record "2026-09-02T00:00:00Z",
      append_record (outcome_line (solved_record "2026-09-02T00:00:00Z")) queue_file,
    )
unfolding record_request_outcome prepare_outcome queue_mapping is_one_of is_text truthy is_canonical
    get find read_jsonl read_records read_from fold_results add_request add_outcome append_jsonl
    append_record
closes = refl

closed_once_example :
    (id : String) × (Json.str "q1" ≡ Json.str id)
    × ((rs : List Fields) × (outstanding_error_requests printed
            (append_record (outcome_line (solved_record "2026-09-02T00:00:00Z")) queue_file)
          ≡ ok rs)
        × (any (has_request_id id) rs ≡ false))
    × (record_request_outcome "2026-09-03T00:00:00Z" solved
          (append_record (outcome_line (solved_record "2026-09-02T00:00:00Z")) queue_file)
        ≡ raised already_closed)
closed_once_example =
    closed_once printed "2026-09-02T00:00:00Z" "2026-09-03T00:00:00Z" solved solved queue_file refl
      refl (solvable "2026-09-03T00:00:00Z") closes
