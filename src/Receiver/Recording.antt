-- ===== src/Receiver/Recording.antt =====
-- `append_outbox_record` of src/trade_alerts/provenance_outbox.py and `submit_projection_v2` of
-- src/trade_alerts/google_ledger_client.py.
use trade_alerts.Base.{
  ℕ, Bool, false, not, Option, none, some, List, [], ◌∷◌, String, ◌==◌, if◌then◌else◌,
}
use trade_alerts.Base.Int.{ℤ, int_ltb}
use trade_alerts.Result.{Result, ok, raised, ◌>>◌, raise_if}
use trade_alerts.Jsonl.{append_record}
use trade_alerts.Json.{Json, Fields, end, field, get}
use trade_alerts.EventLog.{EventFile}
use trade_alerts.Outbox.Cells.{Obj}
use trade_alerts.Outbox.Records.{Provenance, as_dict}
use trade_alerts.Outbox.ParkEvent.{json_of}
use trade_alerts.Receiver.Redirect.{Url}
use trade_alerts.Receiver.Delivery.{
  Network, Submission, submission_actions, is_in, action_of, refused, deliver_projection_v2,
}

pub data RecordError : Type 0 where
  unsupported_status action_required invalid_row invalid_error : RecordError

abbrev pub allowed_status : List String
allowed_status = "PENDING" ∷ "CONFIRMED" ∷ "REJECTED" ∷ "TRANSPORT_FAILED" ∷ []

abbrev pub fields_of : Obj → Fields
fields_of [] = end
fields_of ((k, v) ∷ o) = field k (json_of v) (fields_of o)

abbrev pub bad_row : Option ℤ → Bool
bad_row none = false
bad_row (some n) = int_ltb n 2

abbrev pub bad_error : Option String → Bool
bad_error none = false
bad_error (some s) = s == ""

abbrev row_json : Option ℤ → Json
row_json none = Json.null
row_json (some n) = Json.int n

abbrev error_json : Option String → Json
error_json none = Json.null
error_json (some s) = Json.str s

abbrev pub outbox_record : String → Provenance → String → String → Option ℤ → Option String → Fields
outbox_record now p action status row error = field "recorded_at" (Json.str now) (
    field "status" (Json.str status) (
      field "action" (Json.str action) (
        field "receiver_row" (row_json row) (
          field "error_code" (error_json error)
            (field "provenance" (Json.obj (fields_of (as_dict p))) end)))))

unfoldable pub append_outbox_record :
    String
    → Provenance
    → String
    → String
    → Option ℤ
    → Option String
    → EventFile
    → Result RecordError (Fields × EventFile)
append_outbox_record now p action status row error f = do
  raise_if (not (is_in allowed_status status)) unsupported_status
  raise_if (action == "") action_required
  raise_if (bad_row row) invalid_row
  raise_if (bad_error error) invalid_error
  ok (
    outbox_record now p action status row error,
    append_record (outbox_record now p action status row error) f,
  )

-- What a submit returns, and the outbox that it leaves whether it returns or raises.
pub record Submitted : Type 0 where
  pub result : Result RecordError Submission
  pub outbox : EventFile

abbrev pub recorded : Submission → EventFile → Result RecordError (Fields × EventFile) → Submitted
recorded s f (ok (r, f')) = record { result = ok s; outbox = f' }
recorded s f (raised e) = record { result = raised e; outbox = f }

abbrev pub then_deliver :
    (EventFile → Submitted) → EventFile → Result RecordError (Fields × EventFile) → Submitted
then_deliver next f (ok (r, f')) = next f'
then_deliver next f (raised e) = record { result = raised e; outbox = f }

module _ (parse : String → Option Url) (lower : String → String) (print : Json → String)
    (net : EventFile → Network) (endpoint : Json) (now later : String) where
  -- The network may do what it does by what the outbox holds when the request is made.
  unfoldable pub submit_projection_v2 : Fields → Provenance → ℕ → EventFile → Submitted
  submit_projection_v2 payload p attempts f =
      let action = action_of (get "action" payload) in
      if not (is_in submission_actions action)
      then record { result = ok (refused "REJECTED" "action_not_allowed"); outbox = f }
      else then_deliver
          (λ f'.
            let s =
              (deliver_projection_v2 parse lower print (net f') endpoint payload
                attempts).submission in
            recorded s f'
              (append_outbox_record later p action s.status s.receiver_row s.error_code f'))
          f (append_outbox_record now p action "PENDING" none none f)
