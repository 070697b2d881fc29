-- ===== src/Outbox/Dispatch.antt =====
-- `record_projection_dispatch`, `_validate_rebuilt`, `_consecutive_answers` and
-- `_dispatch_next_locked` of src/trade_alerts/projection_outbox.py. The callbacks `rebuild` and
-- `submit` are functions from what they are given to how they end.
use trade_alerts.Base.{
  ℕ, ◌+◌, Bool, true, false, ◌&&◌, ◌||◌, not, Option, none, some, List, [], ◌∷◌, String, ◌==◌, leb,
  if◌then◌else◌,
}
use trade_alerts.Base.Int.{int_ltb}
use trade_alerts.Result.{Result, ok, raised, ◌>>=◌, ◌>>◌, raise_if}
use trade_alerts.Jsonl.{File, append_record}
use trade_alerts.Outbox.Cells.{Cell, null, int, str, cell_eq, is_str, Obj, get_or_null, obj_eq}
use trade_alerts.Outbox.Records.{
  OutboxError, status_invalid, receiver_row_invalid, error_code_invalid, schema_mismatch,
  binding_changed, payload_action_mismatch, payload_identity_mismatch, payload_provenance_mismatch,
  Provenance, as_dict, Intent, Dispatch, Record, intent_v1, dispatch_v1, other_kind,
  obj_of_dispatch,
}
use trade_alerts.Outbox.Queue.{read_outbox, outstanding_projection_intents}

-- status in {"CONFIRMED", "REJECTED", "TRANSPORT_FAILED"}
unfoldable pub is_status : Cell → Bool
is_status s = is_str "CONFIRMED" s || is_str "REJECTED" s || is_str "TRANSPORT_FAILED" s

-- None, or an int that is at least 2
unfoldable pub is_receiver_row : Cell → Bool
is_receiver_row null = true
is_receiver_row (int n) = not (int_ltb n 2)
is_receiver_row (str s) = false

-- None, or a text that is not empty
unfoldable pub is_error_code : Cell → Bool
is_error_code null = true
is_error_code (int n) = false
is_error_code (str s) = not (s == "")

-- What a dispatch attempt came to.
pub record Outcome : Type 0 where
  pub status : Cell
  pub receiver_row : Cell
  pub error_code : Cell

abbrev pub dispatch_of : String → Intent → Outcome → Dispatch
dispatch_of now i o = record {
  intent_id = i.intent_id;
  recorded_at = str now;
  status = o.status;
  receiver_row = o.receiver_row;
  error_code = o.error_code;
}

abbrev pub record_of_dispatch : Dispatch → Record
record_of_dispatch d = dispatch_v1 (some (obj_of_dispatch d))

unfoldable pub record_projection_dispatch :
    String → Intent → Outcome → File Record → Result OutboxError (Dispatch × File Record)
record_projection_dispatch now i o f = do
  raise_if (not (is_status o.status)) status_invalid
  raise_if (not (is_receiver_row o.receiver_row)) receiver_row_invalid
  raise_if (not (is_error_code o.error_code)) error_code_invalid
  ok (dispatch_of now i o, append_record (record_of_dispatch (dispatch_of now i o)) f)

-- A signed request: its flat fields, and the object under "provenance".
pub record Payload : Type 0 where
  pub fields : Obj
  pub provenance : Option Obj

-- RebuiltProjection
pub record Rebuilt : Type 0 where
  pub payload : Payload
  pub provenance : Provenance

abbrev pub carries : Option Obj → Provenance → Bool
carries none p = false
carries (some o) p = obj_eq o (as_dict p)

-- The four conditions of _validate_rebuilt, before the one on the payload's provenance.
unfoldable pub binding_differs : Intent → Provenance → Bool
binding_differs i p =
    not (cell_eq (str p.project_id) i.project_id)
    || not (cell_eq (str p.trade_id) i.trade_id)
    || not (cell_eq (str p.event_type) i.event_type)
    || not (cell_eq (str p.source_id) i.source_id)
    || not (cell_eq (str p.ledger_event_digest) i.ledger_event_digest)
    || not (cell_eq (str p.payload_digest) i.payload_digest)

unfoldable pub action_differs : Intent → Obj → Bool
action_differs i o =
    not (cell_eq (get_or_null "action" o) i.action)
    || not (cell_eq (get_or_null "schema_version" o) i.schema_version)

unfoldable pub identity_differs : Intent → Obj → Bool
identity_differs i o =
    not (cell_eq (get_or_null "project_id" o) i.project_id)
    || not (cell_eq (get_or_null "source_id" o) i.source_id)

unfoldable pub validate_rebuilt : Intent → Rebuilt → Result OutboxError (Unit {0})
validate_rebuilt i r = do
  raise_if (not (cell_eq (str r.provenance.schema_version) i.schema_version)) schema_mismatch
  raise_if (binding_differs i r.provenance) binding_changed
  raise_if (action_differs i r.payload.fields) payload_action_mismatch
  raise_if (identity_differs i r.payload.fields) payload_identity_mismatch
  raise_if (not (carries r.payload.provenance r.provenance)) payload_provenance_mismatch

-- How `rebuild(intent)` ends: a LedgerUnreadableError with its text, or any other exception.
pub data RebuildEnd : Type 0 where
  rebuilt : Rebuilt → RebuildEnd
  ledger_unreadable : String → RebuildEnd
  rebuild_failed : RebuildEnd

-- How `submit(payload, provenance)` ends: an object, whose missing attributes read as None, or an
-- exception.
pub data SubmitEnd : Type 0 where
  answered : Outcome → SubmitEnd
  submit_failed : SubmitEnd

-- The count of one dispatch record.
abbrev pub count_answer : Cell → String → Option Obj → ℕ → ℕ
count_answer id code none n = n
count_answer id code (some raw) n =
    if not (cell_eq (get_or_null "intent_id" raw) id)
    then n
    else if cell_eq (get_or_null "error_code" raw) (str code)
    then n + 1
    else 0

unfoldable pub count_answers : Cell → String → ℕ → List Record → ℕ
count_answers id code n [] = n
count_answers id code n (dispatch_v1 raw ∷ rest) =
    count_answers id code (count_answer id code raw n) rest
count_answers id code n (intent_v1 raw ∷ rest) = count_answers id code n rest
count_answers id code n (other_kind ∷ rest) = count_answers id code n rest

unfoldable pub consecutive_answers : File Record → Cell → String → Result OutboxError ℕ
consecutive_answers f id code = do rs ← read_outbox f; ok (count_answers id code 0 rs)

abbrev pub orphan_close_park_after : ℕ
orphan_close_park_after = 12

abbrev pub correction_unconfirmed_park_after : ℕ
correction_unconfirmed_park_after = 12

abbrev pub trade_id_conflict_park_after : ℕ
trade_id_conflict_park_after = 3

unfoldable pub is_close_action : Cell → Bool
is_close_action a = is_str "update_close_v2" a || is_str "correct_close_v2" a

unfoldable pub is_row_write_action : Cell → Bool
is_row_write_action a = is_str "append_open_v2" a || is_str "append_fill_v2" a

abbrev pub rejected_with : String → Outcome
rejected_with code = record { status = str "REJECTED"; receiver_row = null; error_code = str code }

-- One parking rule: `code` answered `limit` times in a row becomes REJECTED with `parked`.
unfoldable pub park_after :
    File Record → Intent → String → ℕ → String → Outcome → Result OutboxError Outcome
park_after f i code limit parked o = do
  n ← consecutive_answers f i.intent_id code
  ok (if leb limit (n + 1) then rejected_with parked else o)

unfoldable pub park : File Record → Intent → Outcome → Result OutboxError Outcome
park f i o =
    if is_str "TRANSPORT_FAILED" o.status
      && is_str "trade_id_not_found" o.error_code
      && is_close_action i.action
    then park_after f i "trade_id_not_found" orphan_close_park_after "orphan_close_no_open_row" o
    else if is_str "TRANSPORT_FAILED" o.status
        && is_str "trade_id_conflict" o.error_code
        && is_row_write_action i.action
    then park_after f i "trade_id_conflict" trade_id_conflict_park_after "trade_id_conflict_parked"
        o
    else if is_str "TRANSPORT_FAILED" o.status
        && is_str "close_not_confirmed" o.error_code
        && is_str "correct_close_v2" i.action
    then park_after f i "close_not_confirmed" correction_unconfirmed_park_after
        "correction_close_not_confirmed" o
    else ok o

-- The second `try` of _dispatch_next_locked.
unfoldable pub outcome_of : SubmitEnd → Outcome
outcome_of (answered o) = if is_status o.status then o else rejected_with "submission_invalid"
outcome_of submit_failed = record {
  status = str "TRANSPORT_FAILED";
  receiver_row = null;
  error_code = str "transport_failed";
}

-- ProjectionDispatchResult
pub record DispatchResult : Type 0 where
  pub intent : Option Intent
  pub dispatch : Option Dispatch
  pub paused_reason : Option String

abbrev pub Dispatched : Type 0
Dispatched = Result OutboxError (DispatchResult × File Record)

abbrev pub report : Intent → Result OutboxError (Dispatch × File Record) → Dispatched
report i recorded = do
  r ← recorded
  ok (record { intent = some i; dispatch = some r.0; paused_reason = none }, r.1)

module _ (rebuild : Intent → RebuildEnd) (submit : Payload → Provenance → SubmitEnd)
    (now : String) where
  unfoldable pub submit_rebuilt : Intent → Rebuilt → File Record → Dispatched
  submit_rebuilt i r f = do
    o ← park f i (outcome_of (submit r.payload r.provenance))
    report i (record_projection_dispatch now i o f)

  unfoldable pub reject_rebuild : Intent → File Record → Dispatched
  reject_rebuild i f =
      report i (record_projection_dispatch now i (rejected_with "rehydration_invalid") f)

  -- The attempt on the head of the queue, by how `rebuild` ended.
  unfoldable pub attempt : Intent → RebuildEnd → File Record → Dispatched
  attempt i (ledger_unreadable why) f = ok (
    record {
      intent = some i;
      dispatch = none;
      paused_reason = some (if why == "" then "ledger unreadable" else why);
    },
    f,
  )
  attempt i rebuild_failed f = reject_rebuild i f
  attempt i (rebuilt r) f = elim (validate_rebuilt i r) [
    | ok _ ↦ submit_rebuilt i r f
    | raised _ ↦ reject_rebuild i f
  ]

  abbrev pub dispatch_head : List Intent → File Record → Dispatched
  dispatch_head [] f = ok (record { intent = none; dispatch = none; paused_reason = none }, f)
  dispatch_head (i ∷ _) f = attempt i (rebuild i) f

  unfoldable pub dispatch_next : File Record → Dispatched
  dispatch_next f = do intents ← outstanding_projection_intents f; dispatch_head intents f
