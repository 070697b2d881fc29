-- ===== src/Repair/Outcomes.antt =====
-- `_fail`, `_block` and `_close_request` of src/trade_alerts/repair_runner.py, with the texts they
-- write.
use trade_alerts.Base.{
  ℕ, ◌+◌, Bool, true, false, Option, none, some, List, [], ◌∷◌, ◌++◌, map, String, ltb,
  if◌then◌else◌, ◌&&◌,
}
use trade_alerts.Base.Int.{pos}
use trade_alerts.Result.{raised}
use trade_alerts.Json.{Json, Fields, end, field, get, is_text, truthy, update_fields}
use trade_alerts.EventLog.{EventArgs}
use trade_alerts.SafeHalt.Latch.{mapping_or_empty}
use trade_alerts.Requests.Queue.{OpenArgs}
use trade_alerts.Strings.{concat, join_lines, texts}
use trade_alerts.Repair.World.{
  no_reason, Identity, failed_silently, failed, escalated, blocked, closed_request, Step, ◌>>=◌,
  ◌>>◌, return, note, Clock, append_event, open_request, record_outcome,
}

abbrev pub code_auto_repaired : String
code_auto_repaired = "VERIFIED_CLOSE_AUTO_REPAIRED"

abbrev pub code_repair_failed : String
code_repair_failed = "VERIFIED_CLOSE_REPAIR_FAILED"

abbrev pub code_repair_blocked : String
code_repair_blocked = "VERIFIED_CLOSE_REPAIR_BLOCKED"

abbrev pub number : ℕ → Json
number n = Json.int (pos n)

-- `identity` as a dict
abbrev pub with_incident : Option Json → Fields → Fields
with_incident none fs = fs
with_incident (some v) fs = field "incident_id" v fs

abbrev pub identity_fields : Identity → Fields
identity_fields i =
    with_incident i.incident (field "trade_id" (Json.str i.trade_id) (field "symbol" i.symbol end))

abbrev incident_or_null : Option Json → Json
incident_or_null none = Json.null
incident_or_null (some v) = v

-- The two fields that name the trade in a request.
abbrev pub trade_fields : Identity → Fields
trade_fields i = field "trade_id" (Json.str i.trade_id) (field "symbol" i.symbol end)

-- event.get("code") == CODE_REPAIR_FAILED and the event's trade is this one; `evidence or {}` must be
-- a dict
abbrev pub is_failure_of : String → Fields → Bool
is_failure_of trade_id e =
    is_text code_repair_failed (get "code" e)
    && is_text trade_id (get "trade_id" (mapping_or_empty (get "evidence" e)))

abbrev pub is_true : Json → Bool
is_true (Json.bool b) = b
is_true _ = false

abbrev pub is_escalated : Fields → Bool
is_escalated e = is_true (get "escalated" (mapping_or_empty (get "details" e)))

-- The loop, with the count so far.
unfoldable pub count_failures : String → ℕ → List Fields → ℕ
count_failures trade_id n [] = n
count_failures trade_id n (e ∷ es) =
    count_failures trade_id
      (if is_failure_of trade_id e then (if is_escalated e then 0 else n + 1) else n) es

abbrev pub failures_since_last_escalation : List Fields → String → ℕ
failures_since_last_escalation es trade_id = count_failures trade_id 0 es

abbrev pub failure_details : List String → ℕ → ℕ → Bool → Fields
failure_details reasons attempt limit is_last = field "reasons" (texts reasons) (
    field "attempt" (number attempt)
      (field "escalate_after" (number limit) (field "escalated" (Json.bool is_last) end)))

-- The tiers of the runner's codes.
pub record Tiers : Type 0 where
  pub failed_tier : String
  pub blocked_tier : String
  pub repaired_tier : String

module _ (clock : Clock) (project : String) where
  -- str(v)
  abbrev pub text_of : Json → String
  text_of (Json.str s) = s
  text_of v = clock.print v

  unfoldable pub notice_text : Identity → List String → String → String
  notice_text i reasons headline =
      let incident = incident_or_null i.incident in
      join_lines (
        (headline
          ∷ concat ("trade_id: " ∷ i.trade_id ∷ "  symbol: " ∷ text_of i.symbol ∷ [])
          ∷ (if truthy incident then concat ("incident_id: " ∷ text_of incident ∷ []) ∷ [] else []))
        ++ "原因：" ∷ map (λ r. concat ("- " ∷ r ∷ [])) reasons)

  abbrev pub event_args : String → String → String → Fields → Fields → EventArgs
  event_args code tier summary evidence details = record {
    project = Json.str project;
    code = Json.str code;
    summary = Json.str summary;
    risk_tier = Json.str tier;
    evidence = Json.obj evidence;
    details = Json.obj details;
    measurements = Json.null;
    recorded_at = Json.null;
    event_id = Json.null;
  }

  abbrev pub open_args : String → String → String → Fields → Fields → OpenArgs
  open_args code tier summary evidence details = record {
    project = Json.str project;
    code = Json.str code;
    risk_tier = Json.str tier;
    summary = Json.str summary;
    evidence = Json.obj evidence;
    details = Json.obj details;
    measurements = Json.null;
    event_ref = Json.null;
    opened_at = Json.null;
  }

  unfoldable pub close_request : Fields → String → String → Fields → Step (Unit {0})
  close_request request status remark details = do
    outcome ← record_outcome clock (record {
      request_id = get "request_id" request;
      status = Json.str status;
      note = Json.str remark;
      details = Json.obj details;
      recorded_at = Json.null;
    })
    note (
        closed_request (get "request_id" request)
          (get "trade_id" (mapping_or_empty (get "evidence" request))) status)

  abbrev pub first_reason : List String → Step String
  first_reason [] w = record { result = raised no_reason; world = w }
  first_reason (r ∷ _) w = return r w

  abbrev pub failure_summary : String → ℕ → String → String
  failure_summary trade_id attempt reason = concat (
      "verified close for trade_id="
      ∷ trade_id
      ∷ " could not be written (attempt "
      ∷ clock.print (number attempt)
      ∷ "): "
      ∷ reason
      ∷ [])

  -- The attempt that is reported and not escalated.
  unfoldable pub report_failure :
      String → ℕ → Identity → List String → Fields → ℕ → String → Step (Unit {0})
  report_failure tier limit i reasons extra attempt summary = do
    event ← append_event clock (
        event_args code_repair_failed tier summary (identity_fields i)
          (update_fields extra (failure_details reasons attempt limit false)))
    note (failed i reasons attempt)

  -- The details of the event that points to a request.
  abbrev pub escalated_details : ℕ → Identity → List String → Fields → ℕ → Fields → Fields
  escalated_details limit i reasons extra attempt request =
      update_fields (update_fields extra (failure_details reasons attempt limit false)) (
        field "escalated" (Json.bool true) (
          field "request_id" (get "request_id" request) (
            field "notice_text"
              (Json.str (
                notice_text i reasons
                  (concat ("已連續 " ∷ clock.print (number attempt) ∷ " 次自動補寫失敗" ∷ []))))
              end)))

  unfoldable pub announce_escalation :
      String → ℕ → Identity → List String → Fields → ℕ → String → Fields → Step (Unit {0})
  announce_escalation tier limit i reasons extra attempt summary request = do
    event ← append_event clock (
        event_args code_repair_failed tier summary (identity_fields i)
          (escalated_details limit i reasons extra attempt request))
    note (escalated i reasons attempt (get "request_id" request))

  -- The attempt that opens a request.
  unfoldable pub escalate :
      String → ℕ → Identity → List String → Fields → ℕ → String → Step (Unit {0})
  escalate tier limit i reasons extra attempt summary =
      open_request clock (
        open_args code_repair_failed tier summary (trade_fields i)
          (field "reasons" (texts reasons) (field "attempts" (number attempt) end)))
      >>= announce_escalation tier limit i reasons extra attempt summary

  unfoldable pub first_failures :
      String → ℕ → List Fields → Identity → List String → Fields → Step (Unit {0})
  first_failures tier limit fleet_events i reasons extra =
      let attempt = failures_since_last_escalation fleet_events i.trade_id + 1 in
      do
        reason ← first_reason reasons
        (if ltb attempt limit
            then report_failure tier limit i reasons extra attempt
                (failure_summary i.trade_id attempt reason)
            else escalate tier limit i reasons extra attempt
                (failure_summary i.trade_id attempt reason))

  -- _fail
  unfoldable pub fail :
      String → ℕ → List Fields → Identity → List String → Fields → Option Fields → Step (Unit {0})
  fail tier limit fleet_events i reasons extra (some request) =
      note (failed_silently i reasons (get "request_id" request))
  fail tier limit fleet_events i reasons extra none =
      first_failures tier limit fleet_events i reasons extra

  abbrev pub supersede : Fields → Option Fields → Step (Unit {0})
  supersede request none = return tt
  supersede request (some old) =
      close_request old "SUPERSEDED" "the repair stopped; see the R3 request"
        (field "superseded_by" (get "request_id" request) end)

  -- _block, with the reasons that `extra` holds
  unfoldable pub block :
      String → Identity → String → List String → Fields → Option Fields → Step (Unit {0})
  block tier i reason more extra escalated_request = do
    request ← open_request clock (open_args code_repair_blocked tier reason (trade_fields i) extra)
    event ← append_event clock (
        event_args code_repair_blocked tier reason (identity_fields i) (
          update_fields extra (
            field "request_id" (get "request_id" request) (
              field "notice_text" (Json.str (notice_text i (reason ∷ more) "自動補寫已停手，這筆不會再自動重試"))
                end))))
    supersede request escalated_request
    note (blocked i reason (get "request_id" request))
