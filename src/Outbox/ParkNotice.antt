-- ===== src/Outbox/ParkNotice.antt =====
-- Which dispatches of src/trade_alerts/projection_outbox.py leave an event in the fleet's log.
use trade_alerts.Base.{◌+◌, ◌≤◌, ◌≡◌, refl, true, none, some, List, [], ◌∷◌, ◌++◌, String}
use trade_alerts.Result.{Result, ok}
use trade_alerts.Jsonl.{append_record}
use trade_alerts.Json
use trade_alerts.Json.{Json, Fields, get, find, has_dot, is_text, truthy, is_canonical}
use trade_alerts.EventLog.{
  EventFile, append_fleet_event, append_jsonl, event_fields, event_record, require_project,
  require_bare_code, require_risk_tier, require_mapping, is_one_of,
}
use trade_alerts.Outbox.Cells.{Cell, null, int, str, cell_eq}
use trade_alerts.Outbox.Records.{Provenance, Intent, Dispatch, OutboxError}
use trade_alerts.Outbox.Dispatch.{
  Rebuilt, Payload, RebuildEnd, rebuilt, SubmitEnd, answered, validate_rebuilt, DispatchResult,
  dispatch_of, rejected_with,
}
use trade_alerts.Outbox.Log.{Entry, tried, log, pending, IsLog}
use trade_alerts.Outbox.Streak.{answers, trailing_run}
use trade_alerts.Outbox.Rules.{
  Rule, orphan_close, trade_id_conflict, correction_unconfirmed, answer_code, concerns, limit_of,
  parked_code, refused_with,
}
use trade_alerts.Outbox.Parking.{dispatch_next-parked}
use trade_alerts.Outbox.ParkEvent.{
  json_of, Notice, notice_for, notice_args, evidence_of, details_of, record_notice,
  record_projection_park_event, Files, dispatch_next_projection,
}

is_canonical-json_of : (c : Cell) → is_canonical (json_of c) ≡ true
unfolding is_canonical json_of
is_canonical-json_of null = refl
is_canonical-json_of (int n) = refl
is_canonical-json_of (str s) = refl

-- The condition under which a rule's parking is filed.
abbrev pub event_code : Rule → String
event_code orphan_close = "PROJECTION_ORPHAN_CLOSE_PARKED"
event_code trade_id_conflict = "PROJECTION_TRADE_ID_CONFLICT_PARKED"
event_code correction_unconfirmed = "PROJECTION_ORPHAN_CLOSE_PARKED"

abbrev event_of : String → String → String → Intent → Dispatch → Notice → Fields
event_of fresh now strategy i d n =
    event_record fresh now (notice_args strategy i d n) (Json.str n.project) (Json.str n.code)
      (Json.str "R1") (evidence_of i) (details_of strategy i d) Json.end

written :
    (fresh now strategy : String) (i : Intent) (d : Dispatch) (n : Notice) (f : EventFile)
    → (require_project (Json.str n.project) ≡ ok (Json.str n.project))
    → (require_bare_code (Json.str n.code) ≡ ok (Json.str n.code))
    → append_fleet_event true fresh now (notice_args strategy i d n) f
      ≡ ok (event_of fresh now strategy i d n, append_record (event_of fresh now strategy i d n) f)
unfolding append_fleet_event append_jsonl event_fields require_mapping require_risk_tier is_one_of
    is_text is_canonical truthy
written fresh now strategy i d n f p c =
    rw
      (
        p,
        c,
        is_canonical-json_of i.trade_id,
        is_canonical-json_of i.intent_id,
        is_canonical-json_of i.action,
        is_canonical-json_of d.error_code,
        is_canonical-json_of i.event_type,
      )
      refl

abbrev notice_of : Rule → Notice
notice_of orphan_close = record {
  project = "fleet";
  code = "PROJECTION_ORPHAN_CLOSE_PARKED";
  summary = "平倉（或它的帳本更正）送到 Google 表接收端連續被退回，已停放";
}
notice_of trade_id_conflict = record {
  project = "fleet";
  code = "PROJECTION_TRADE_ID_CONFLICT_PARKED";
  summary = "開倉列或成交列送到 Google 表接收端連續被回「編號衝突」，已停放";
}
notice_of correction_unconfirmed = record {
  project = "fleet";
  code = "PROJECTION_ORPHAN_CLOSE_PARKED";
  summary = "平倉（或它的帳本更正）送到 Google 表接收端連續被退回，已停放";
}

noticed :
    (now strategy : String) (i : Intent) (r : Rule)
    → notice_for strategy i (dispatch_of now i (rejected_with (parked_code r))) ≡ some (notice_of r)
unfolding notice_for cell_eq
noticed now strategy i orphan_close = refl
noticed now strategy i trade_id_conflict = refl
noticed now strategy i correction_unconfirmed = refl

project_known :
    (r : Rule)
    → require_project (Json.str (notice_of r).project) ≡ ok (Json.str (notice_of r).project)
unfolding require_project is_one_of is_text
project_known orphan_close = refl
project_known trade_id_conflict = refl
project_known correction_unconfirmed = refl

code_bare :
    (r : Rule) → require_bare_code (Json.str (notice_of r).code) ≡ ok (Json.str (notice_of r).code)
unfolding require_bare_code has_dot
code_bare orphan_close = refl
code_bare trade_id_conflict = refl
code_bare correction_unconfirmed = refl

abbrev pub Shows : Rule → Fields → Type 0
Shows r e =
    (is_text "fleet" (get "project" e) ≡ true)
    × (is_text (event_code r) (get "code" e) ≡ true)
    × (is_text "R1" (get "risk_tier" e) ≡ true)

shown :
    (fresh now strategy : String) (i : Intent) (d : Dispatch) (r : Rule)
    → Shows r (event_of fresh now strategy i d (notice_of r))
unfolding get find is_text
shown fresh now strategy i d orphan_close = (refl, refl, refl)
shown fresh now strategy i d trade_id_conflict = (refl, refl, refl)
shown fresh now strategy i d correction_unconfirmed = (refl, refl, refl)

recorded :
    (fresh now strategy : String) (i : Intent) (r : Rule) (f : EventFile)
    → let d = dispatch_of now i (rejected_with (parked_code r)) in
      record_projection_park_event true fresh now strategy
        (record { intent = some i; dispatch = some d; paused_reason = none })
        f
      ≡ (true, append_record (event_of fresh now strategy i d (notice_of r)) f)
unfolding record_projection_park_event
recorded fresh now strategy i r f =
    rw
      (
        noticed now strategy i r,
        written fresh now strategy i (dispatch_of now i (rejected_with (parked_code r)))
            (notice_of r) f (project_known r) (code_bare r),
        record_notice,
      )
      refl

-- What the attempt leaves that a rule parks: the terminal answer in the outbox, and one event behind
-- what the event log held.
pub record IsFiled (r : Rule) (now : String) (i : Intent) (es : List Entry) (f : EventFile)
    (end : Result OutboxError (DispatchResult × Files)) : Type 0 where
  pub event : Fields
  pub answer : Dispatch
  pub returned :
      end
      ≡ ok (
        record { intent = some i; dispatch = some answer; paused_reason = none },
        record { outbox = log (es ++ tried answer ∷ []); event_log = some (append_record event f) },
      )
  pub rejected : answer ≡ dispatch_of now i (rejected_with (parked_code r))
  pub shows : Shows r event

-- `dispatch_next_projection` with an event log and a strategy, when the log's lock is had: if the head
-- of the queue is rebuilt and valid, the receiver refuses it with the answer of a parking rule, and the
-- run of that answer reaches the rule's limit with this attempt, then REJECTED with the rule's code is
-- appended to the outbox, and to the event log, whatever it holds, the line of one event of tier R1 of
-- the project "fleet", under the event code of the rule.
pub park_event_written :
    (rebuild : Intent → RebuildEnd) (submit : Payload → Provenance → SubmitEnd)
    (fresh now strategy : String) (r : Rule) (i : Intent) (rest : List Intent) {b : Rebuilt}
    (es : List Entry) (f : EventFile)
    → concerns r i.action ≡ true
    → rebuild i ≡ rebuilt b
    → validate_rebuilt i b ≡ ok tt
    → submit b.payload b.provenance ≡ answered (refused_with (answer_code r))
    → IsLog es
    → pending es ≡ i ∷ rest
    → limit_of r ≤ trailing_run (str (answer_code r)) (answers i.intent_id es) + 1
    → IsFiled r now i es f (
        dispatch_next_projection rebuild submit true fresh now
          (some strategy)
          (record { outbox = log es; event_log = some f }))
unfolding dispatch_next_projection
park_event_written rebuild submit fresh now strategy r i rest {b} es f action rebuilds valid refuses
      h front reached =
    let d = dispatch_of now i (rejected_with (parked_code r)) in
    record {
      event = event_of fresh now strategy i d (notice_of r);
      answer = d;
      returned =
          rw
            (
              dispatch_next-parked rebuild submit r i rest action rebuilds valid refuses now es h
                  front reached,
              recorded fresh now strategy i r f,
            )
            refl;
      rejected = refl;
      shows = shown fresh now strategy i d r;
    }
