-- ===== src/Repair/Examples.antt =====
-- Rounds of src/trade_alerts/repair_runner.py on two orphans.
use trade_alerts.Base.{◌≡◌, refl, true, false, none, some, List, [], ◌∷◌, String, nat_eq}
use trade_alerts.Result.{ok, fold_results}
use trade_alerts.Jsonl.{file_of, read_records, read_from, append_record}
use trade_alerts.Json
use trade_alerts.Json.{Json, Fields, end}
use trade_alerts.Channels.Text.{Text}
use trade_alerts.EventLog.{
  is_one_of, append_jsonl, append_fleet_event, event_fields, read_jsonl, read_fleet_events,
  require_bare_code, require_mapping, require_project, require_risk_tier,
}
use trade_alerts.Requests.Checks.{
  request_fingerprint, require_queue_project, require_queue_code, require_requestable_tier,
  dict_or_empty, queue_mapping,
}
use trade_alerts.Requests.Reading.{
  add_outcome, add_request, insert_sorted, outstanding_error_requests, sort_requests,
}
use trade_alerts.Requests.Queue.{open_error_request, prepare}
use trade_alerts.Strings.{append_text, concat, join_lines, text_items}
use trade_alerts.Repair.World.{Identity, World, Clock, append_event, open_request}
use trade_alerts.Repair.Outcomes.{
  fail, first_failures, count_failures, escalate, announce_escalation, notice_text,
}
use trade_alerts.Repair.Writing.{fetched, writable, Adapter, Setting}
use trade_alerts.Repair.Rounds.{Inputs, refresh_ops_export, run_repair_round}
use trade_alerts.Repair.RoundWrites.{
  AtMostOneBatch, replayed_world, run_repair_round-AtMostOneBatch,
}
use trade_alerts.Repair.Escalation.{FailedOnce, fail-FailedOnce}

abbrev clock : Clock
clock = record {
  fresh = λ n. "id";
  now = λ n. "2026-09-01T00:00:00Z";
  digest = λ fs. "fp";
  print = λ v. "1";
}

-- "{}"
abbrev event_line : Text
event_line = 123 ∷ 125 ∷ []

abbrev adapter : Adapter
adapter = record {
  project = "mycrypto";
  fetch_evidence = λ t. fetched end;
  assess = λ evidence ledger. ok (record { verdict = writable; reasons = []; checks = Json.null });
  evidence_path = λ t. "evidence.json";
  persist = λ path evidence. none;
  stage = λ ledger evidence. ok (event_line ∷ [], 1);
  queue_projection = λ t. ok (Json.str "intent");
  close_report = λ evidence. ok (record { details = end; measurements = end });
}

abbrev setting : Setting
setting = record {
  clock = clock;
  adapter = adapter;
  runtime = record {
    is_space = λ c. nat_eq c 32;
    loads = λ t. some (Json.obj end);
    describe = λ e. "differs";
  };
  tiers = record { failed_tier = "R2"; blocked_tier = "R3"; repaired_tier = "R1" };
  escalate_after = 1;
  fleet_events = [];
  others = [];
}

abbrev empty_files : World
empty_files = record { ledger = []; log = file_of []; queue = file_of []; written = 0; notes = [] }

abbrev orphans : List String
orphans = "T-7" ∷ "T-8" ∷ []

abbrev orphan : Identity
orphan = record { incident = none; trade_id = "T-7"; symbol = Json.str "BTC" }

abbrev reasons : List String
reasons = "no fills" ∷ []

empty_log : read_fleet_events (file_of []) ≡ ok []
unfolding read_fleet_events read_jsonl read_records read_from
empty_log = refl

gives_up : (fail clock "mycrypto" "R2" 1 [] orphan reasons end none empty_files).result ≡ ok tt
unfolding fail first_failures count_failures escalate announce_escalation append_text concat
    join_lines notice_text text_items open_request append_event open_error_request prepare
    request_fingerprint require_queue_project require_queue_code require_requestable_tier
    dict_or_empty queue_mapping is_one_of Json.is_text Json.has_dot Json.truthy
    Json.is_canonical_fields Json.find Json.get Json.put Json.update_fields append_fleet_event
    append_jsonl event_fields read_jsonl require_bare_code require_mapping require_project
    require_risk_tier append_record read_from read_records add_outcome add_request insert_sorted
    outstanding_error_requests sort_requests fold_results
gives_up = refl

fail-FailedOnce_example :
    FailedOnce clock "mycrypto" 1 orphan [] empty_files none
      (fail clock "mycrypto" "R2" 1 [] orphan reasons end none empty_files).world
fail-FailedOnce_example =
    fail-FailedOnce clock "mycrypto" "R2" 1 [] orphan reasons end none [] empty_files refl empty_log
      refl gives_up

abbrev inputs : Inputs
inputs = record {
  ledger_status = Json.null;
  detect = λ status ledger. orphans;
  parse_time = λ v. none;
  moment = 0;
  now_text = "2026-09-01T00:00:00Z";
  recurring_tier = "R2";
  expired_tier = none;
}

run_repair_round-AtMostOneBatch_example :
    let e = run_repair_round setting inputs (λ w. some end) none false empty_files in
    AtMostOneBatch setting inputs (replayed_world setting inputs empty_files) e.done.world.ledger
    × ((replayed_world setting inputs empty_files).ledger ≡ [])
    × ((replayed_world setting inputs empty_files).queue ≡ file_of [])
    × ((run_repair_round setting inputs (λ w. some end) none true empty_files).done.world
        ≡ empty_files)
    × ((e.ops_export, e.ops_export_written) ≡ refresh_ops_export setting inputs none (some end))
run_repair_round-AtMostOneBatch_example =
    run_repair_round-AtMostOneBatch setting inputs (λ w. some end) none false empty_files
