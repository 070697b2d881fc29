-- ===== src/Expired/Examples.antt =====
-- One marker announced by src/trade_alerts/pending_expired_notice.py, and one more later.
use trade_alerts.Base.{◌≡◌, refl, true, false, none, some, List, [], ◌∷◌, ◌++◌, any, String, ◌==◌}
use trade_alerts.Base.Int.{pos}
use trade_alerts.Result.{ok, ◌>>=◌}
use trade_alerts.Jsonl.{file_of, append_record, read_records, read_from}
use trade_alerts.Json
use trade_alerts.Json.{Json, Items, Fields, end, field}
use trade_alerts.Strings.{append_text, concat, join_lines, text_items}
use trade_alerts.EventLog.{
  EventFile, is_one_of, append_jsonl, append_fleet_event, event_fields, event_record, read_jsonl,
  read_fleet_events, require_bare_code, require_mapping, require_project, require_risk_tier,
}
use trade_alerts.Expired.Notice.{
  Plan, plan_of, plan_args, expired_markers, distinct_markers, announced_trade_ids, texts_in,
  reason_text, plan_pending_expired_notice, evidence_of,
}
use trade_alerts.Expired.Batch.{
  is_valid_batch_block, batch_episode, batch_args, batch_text, announce_block,
  announce_batch_expired,
}
use trade_alerts.Expired.Once.{plan-once}
use trade_alerts.Expired.BatchOnce.{announce-twice}

abbrev print : Json → String
print v = "1"

abbrev marker : String → Fields
marker t = field "trade_id" (Json.str t) end

abbrev status_of : Items → Json
status_of items = Json.obj (
    field "value" (Json.str "RECONCILED") (
      field "evidence"
        (Json.obj (field "pending_expired" (Json.obj (field "markers" (Json.arr items) end)) end))
        end))

abbrev both : Items
both = Json.item (Json.obj (marker "T-7")) (Json.item (Json.obj (marker "T-8")) Json.nil)

abbrev first_plan : Plan
first_plan = record { summary = "1 marker"; trade_ids = "T-7" ∷ []; details = end }

abbrev second_plan : Plan
second_plan =
    plan_of print
      (field "value" (Json.str "RECONCILED") (
        field "evidence"
          (Json.obj (field "pending_expired" (Json.obj (field "markers" (Json.arr both) end)) end))
          end))
      (marker "T-8" ∷ [])

abbrev event : Fields
event =
    event_record "id" "now" (plan_args "momentum" "R3" "then" first_plan) (Json.str "momentum")
      (Json.str "LEDGER_PENDING_EXPIRED") (Json.str "R3") (evidence_of first_plan) end end

abbrev log : EventFile
log = file_of (event ∷ [])

first_written :
    append_fleet_event true "id" "now" (plan_args "momentum" "R3" "then" first_plan) (file_of [])
    ≡ ok (event, log)
unfolding append_fleet_event event_fields append_jsonl append_record require_project
    require_bare_code require_risk_tier require_mapping is_one_of Json.is_text Json.has_dot
    Json.is_canonical_fields Json.truthy text_items
first_written = refl

log_read : read_fleet_events log ≡ ok ([] ++ event ∷ [])
unfolding read_fleet_events read_jsonl read_records read_from Json.is_text Json.get Json.find
log_read = refl

second_planned :
    (do
      events ← read_fleet_events log
      ok (plan_pending_expired_notice print (status_of both) events "momentum"))
    ≡ ok (some second_plan)
unfolding read_fleet_events read_jsonl read_records read_from Json.is_text Json.get Json.find
    plan_pending_expired_notice expired_markers distinct_markers announced_trade_ids texts_in
    text_items
second_planned = refl

plan-once_example : any (λ s. s == "T-7") second_plan.trade_ids ≡ false
plan-once_example =
    plan-once print true "id" "now" "momentum" "R3" "then" "T-7" first_plan second_plan (file_of [])
      log log event [] [] (status_of both) first_written log_read refl second_planned

abbrev digest : List String → String
digest ids = "0011"

abbrev batch : Fields
batch =
    field "reason" (Json.str "waited_over_limit")
      (field "max_hours" (Json.int (pos 24)) (field "since" (Json.str "2026-09-01") end))

abbrev batch_status : Fields
batch_status =
    field "value" (Json.str "RECONCILED")
      (field "evidence" (Json.obj (field "pending_expired" (Json.obj batch) end)) end)

abbrev batch_event : Fields
batch_event =
    event_record "id" "now"
      (batch_args print digest "2026-09-02" "btc-competition" "R3" "now" batch_status batch)
      (Json.str "btc-competition") (Json.str "LEDGER_PENDING_EXPIRED") (Json.str "R3")
      (field "episode" (Json.str "since:2026-09-01") end)
      (field "pending_expired" (Json.obj batch) (
        field "ledger_value" (Json.str "RECONCILED") (
          field "notice_text" (Json.str (batch_text print digest "2026-09-02" batch_status batch))
            end)))
      end

batch_announced :
    announce_batch_expired print digest "2026-09-02" "id" "now" "btc-competition" "R3"
      (Json.obj batch_status)
      (file_of [])
    ≡ ok (some batch_event, file_of (batch_event ∷ []))
unfolding announce_batch_expired announce_block is_valid_batch_block batch_episode append_text
    concat join_lines reason_text read_fleet_events read_jsonl read_records read_from
    append_fleet_event event_fields append_jsonl append_record require_project require_bare_code
    require_risk_tier require_mapping is_one_of Json.is_text Json.has_dot Json.is_canonical_fields
    Json.truthy Json.get Json.find
batch_announced = refl

announce-twice_example :
    announce_batch_expired print digest "2026-09-02" "id2" "later" "btc-competition" "R3"
      (Json.obj batch_status)
      (file_of (batch_event ∷ []))
    ≡ ok (none, file_of (batch_event ∷ []))
announce-twice_example =
    announce-twice print digest "2026-09-02" "id" "now" "id2" "later" "btc-competition" "R3" "R3"
      (Json.obj batch_status) (file_of []) (file_of (batch_event ∷ [])) batch_event refl
      batch_announced
