-- ===== src/Outbox/ParkEvent.antt =====
-- `record_projection_park_event` and `dispatch_next_projection` of src/trade_alerts/projection_outbox.py.
use trade_alerts.Base.{
  Bool, true, false, ◌&&◌, ◌||◌, not, Option, none, some, String, ◌==◌, if◌then◌else◌,
}
use trade_alerts.Result.{Result, ok, raised, ◌>>=◌}
use trade_alerts.Jsonl.{File}
use trade_alerts.Json.{Json, Fields, end, field}
use trade_alerts.EventLog.{EventFile, EventArgs, append_fleet_event}
use trade_alerts.Outbox.Cells.{Cell, null, int, str, is_str}
use trade_alerts.Outbox.Records.{Provenance, Intent, Dispatch, Record, OutboxError}
use trade_alerts.Outbox.Dispatch.{Payload, RebuildEnd, SubmitEnd, DispatchResult, dispatch_next}

-- a flat value inside a JSON document
unfoldable pub json_of : Cell → Json
json_of null = Json.null
json_of (int n) = Json.int n
json_of (str s) = Json.str s

-- The project, the code and the summary of an event.
pub record Notice : Type 0 where
  pub project : String
  pub code : String
  pub summary : String

unfoldable pub notice_for : String → Intent → Dispatch → Option Notice
notice_for strategy i d =
    if not (is_str "REJECTED" d.status)
    then none
    else if is_str "orphan_close_no_open_row" d.error_code
        || is_str "correction_close_not_confirmed" d.error_code
    then some (record {
      project = "fleet";
      code = "PROJECTION_ORPHAN_CLOSE_PARKED";
      summary = "平倉（或它的帳本更正）送到 Google 表接收端連續被退回，已停放";
    })
    else if is_str "trade_id_conflict_parked" d.error_code
    then some (record {
      project = "fleet";
      code = "PROJECTION_TRADE_ID_CONFLICT_PARKED";
      summary = "開倉列或成交列送到 Google 表接收端連續被回「編號衝突」，已停放";
    })
    else if is_str "correction_base_mismatch" d.error_code
        && is_str "correct_close_v2" i.action
        && strategy == "seykota"
    then some (record {
      project = strategy;
      code = "CORRECTION_BASE_MISMATCH";
      summary = "帳本更正帶的『取代哪一版』摘要與接收端已確認的列不符，被拒收";
    })
    else none

abbrev pub evidence_of : Intent → Fields
evidence_of i =
    field "trade_id" (json_of i.trade_id)
      (field "intent_id" (json_of i.intent_id) (field "action" (json_of i.action) end))

abbrev pub details_of : String → Intent → Dispatch → Fields
details_of strategy i d =
    field "strategy" (Json.str strategy)
      (field "error_code" (json_of d.error_code) (field "event_type" (json_of i.event_type) end))

abbrev pub notice_args : String → Intent → Dispatch → Notice → EventArgs
notice_args strategy i d n = record {
  project = Json.str n.project;
  code = Json.str n.code;
  summary = Json.str n.summary;
  risk_tier = Json.str "R1";
  evidence = Json.obj (evidence_of i);
  details = Json.obj (details_of strategy i d);
  measurements = Json.null;
  recorded_at = Json.null;
  event_id = Json.null;
}

module _ (locked : Bool) (fresh now : String) (strategy : String) where
  -- `except Exception` drops whatever the append raised.
  abbrev pub record_notice : Intent → Dispatch → Option Notice → EventFile → Bool × EventFile
  record_notice i d none f = (false, f)
  record_notice i d (some n) f =
      elim (append_fleet_event locked fresh now (notice_args strategy i d n) f) [
        | ok (_, f') ↦ (true, f')
        | raised _ ↦ (false, f)
      ]

  abbrev pub record_for : Option Intent → Option Dispatch → EventFile → Bool × EventFile
  record_for (some i) (some d) f = record_notice i d (notice_for strategy i d) f
  record_for _ _ f = (false, f)

  unfoldable pub record_projection_park_event : DispatchResult → EventFile → Bool × EventFile
  record_projection_park_event r f = record_for r.intent r.dispatch f

-- With no event log or no strategy there is nothing to record.
abbrev pub park_event_after :
    Bool → String → String → Option EventFile → Option String → DispatchResult → Option EventFile
park_event_after locked fresh now (some f) (some strategy) r =
    some (record_projection_park_event locked fresh now strategy r f).1
park_event_after locked fresh now (some f) none r = some f
park_event_after locked fresh now none strategy r = none

-- The two files after a call that returned.
pub record Files : Type 0 where
  pub outbox : File Record
  pub event_log : Option EventFile

module _ (rebuild : Intent → RebuildEnd) (submit : Payload → Provenance → SubmitEnd) (locked : Bool)
    (fresh now : String) (strategy : Option String) where
  unfoldable pub dispatch_next_projection : Files → Result OutboxError (DispatchResult × Files)
  dispatch_next_projection fs = do
    r ← dispatch_next rebuild submit now fs.outbox
    ok (
      r.0,
      record {
        outbox = r.1;
        event_log = park_event_after locked fresh now fs.event_log strategy r.0;
      },
    )
