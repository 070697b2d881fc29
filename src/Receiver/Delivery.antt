-- ===== src/Receiver/Delivery.antt =====
-- `deliver_projection_v2` and the two reads of src/trade_alerts/google_ledger_client.py. The network
-- is a parameter: how the post of an attempt ends, and each GET behind it. `print` stands for `str` on
-- a value that is neither a text nor None.
use trade_alerts.Base.{
  ℕ, zero, suc, ◌^◌, Bool, true, false, not, Option, none, some, List, [], ◌∷◌, String, ◌==◌, any,
  ltb, if◌then◌else◌,
}
use trade_alerts.Base.Int.{ℤ, int_ltb}
use trade_alerts.Result.{Result, ok, raised}
use trade_alerts.Json
use trade_alerts.Json.{Json, Items, Fields, get, truthy, is_text}
use trade_alerts.Receiver.Redirect.{
  ClientError, Url, Fetch, Fetched, is_text_https, text_of, post_json,
}

pub record Network : Type 0 where
  pub post : ℕ → Fetch
  pub get : ℕ → ℕ → String → Fetch

abbrev pub submission_actions : List String
submission_actions =
    "append_open_v2" ∷ "append_fill_v2" ∷ "update_close_v2" ∷ "correct_close_v2" ∷ []

abbrev pub terminal_receiver_errors : List String
terminal_receiver_errors =
    "provenance_invalid" ∷ "open_projection_invalid" ∷ "fill_projection_invalid"
    ∷ "close_projection_invalid" ∷ "correction_projection_invalid" ∷ "correction_base_mismatch" ∷ []

-- ProjectionSubmission
pub record Submission : Type 0 where
  pub ok : Bool
  pub status : String
  pub receiver_row : Option ℤ
  pub error_code : Option String

abbrev pub is_in : List String → String → Bool
is_in ss s = any (λ t. t == s) ss

-- action if it is a text, else "unknown"
abbrev pub action_of : Json → String
action_of (Json.str s) = s
action_of _ = "unknown"

abbrev pub refused : String → String → Submission
refused status error = record {
  ok = false;
  status = status;
  receiver_row = none;
  error_code = some error;
}

-- What the row of an accepted answer comes to; `True` is the integer 1.
abbrev pub confirm : Json → Submission
confirm (Json.int n) =
    if int_ltb n 2
    then refused "REJECTED" "receiver_row_invalid"
    else record { ok = true; status = "CONFIRMED"; receiver_row = some n; error_code = none }
confirm _ = refused "REJECTED" "receiver_row_invalid"

-- ProjectionAuditRead and ReconciliationInventoryRead
pub record RowsRead : Type 0 where
  pub ok : Bool
  pub rows : List Fields
  pub error_code : Option String

abbrev pub not_read : String → RowsRead
not_read error = record { ok = false; rows = []; error_code = some error }

-- The rows, if all of them are objects.
unfoldable pub objects : Items → Option (List Fields)
objects Json.nil = some []
objects (Json.item (Json.obj row) rest) =
    let rows = objects rest in elim rows [ none ↦ none | some rs ↦ some (row ∷ rs) ]
objects (Json.item _ rest) = none

abbrev rows_or : String → Option (List Fields) → RowsRead
rows_or invalid none = not_read invalid
rows_or invalid (some rows) = record { ok = true; rows = rows; error_code = none }

abbrev pub read_list : String → Json → RowsRead
read_list invalid (Json.arr rows) = rows_or invalid (objects rows)
read_list invalid _ = not_read invalid

pub record Delivered : Type 0 where
  pub submission : Submission
  pub posts : ℕ
  pub waits : List ℕ

abbrev pub waited : List ℕ → Delivered → Delivered
waited w d = record { submission = d.submission; posts = suc d.posts; waits = w }

abbrev pub answered_with : Submission → Delivered
answered_with s = record { submission = s; posts = 1; waits = [] }

module _ (parse : String → Option Url) (lower : String → String) (print : Json → String) where
  -- str(v)
  abbrev pub py_text : Json → String
  py_text (Json.str s) = s
  py_text Json.null = "None"
  py_text v = print v

  -- The receiver's error of an answer that is not ok.
  abbrev pub receiver_error : Fields → Submission
  receiver_error result =
      let error = py_text (get "error" result) in
      refused (if is_in terminal_receiver_errors error then "REJECTED" else "TRANSPORT_FAILED")
        error

  unfoldable pub interpret : Fields → Submission
  interpret result =
      if truthy (get "ok" result) then confirm (get "row" result) else receiver_error result

  module _ (net : Network) (endpoint : Json) where
    abbrev pub attempt_post : ℕ → Fetched
    attempt_post attempt =
        post_json parse lower (text_of endpoint) (net.post attempt) (net.get attempt)

    -- min(2 ** attempt, 4)
    abbrev pub pause : ℕ → ℕ
    pause attempt = if ltb 4 (2 ^ attempt) then 4 else 2 ^ attempt

    -- One attempt, and what comes after one that raised.
    abbrev pub settle_attempt : Bool → ℕ → Delivered → Result ClientError Fields → Delivered
    settle_attempt last attempt more (ok result) = answered_with (interpret result)
    settle_attempt last attempt more (raised e) =
        waited (if last then more.waits else pause attempt ∷ more.waits) more

    -- The attempts from `attempt` on, of which `left` are left.
    unfoldable pub deliver_from : ℕ → ℕ → Delivered
    deliver_from zero attempt = record {
      submission = refused "TRANSPORT_FAILED" "transport_failed";
      posts = 0;
      waits = [];
    }
    deliver_from (suc left) attempt =
        let more = deliver_from left (suc attempt) in
        settle_attempt (not (ltb 0 left)) attempt more (attempt_post attempt).answer

    abbrev pub at_least_one : ℕ → ℕ
    at_least_one n = if ltb n 1 then 1 else n

    unfoldable pub deliver_projection_v2 : Fields → ℕ → Delivered
    deliver_projection_v2 payload attempts =
        let sent = deliver_from (at_least_one attempts) 0 in
        if not (is_in submission_actions (action_of (get "action" payload)))
        then record { submission = refused "REJECTED" "action_not_allowed"; posts = 0; waits = [] }
        else if not (is_text_https endpoint)
        then record {
          submission = refused "REJECTED" "endpoint_not_configured";
          posts = 0;
          waits = [];
        }
        else sent

    -- str(result.get("error") or "receiver_invalid_response")
    abbrev pub error_or_invalid : Json → String
    error_or_invalid v = if truthy v then py_text v else "receiver_invalid_response"

    abbrev pub read_answer : String → String → Result ClientError Fields → RowsRead
    read_answer key invalid (raised e) = not_read "transport_failed"
    read_answer key invalid (ok result) =
        if truthy (get "ok" result)
        then read_list invalid (get key result)
        else not_read (error_or_invalid (get "error" result))

    -- The body that the two reads have in common.
    abbrev pub read_rows : String → String → String → String → Fields → RowsRead
    read_rows action action_invalid key invalid payload =
        if not (is_text action (get "action" payload))
        then not_read action_invalid
        else if not (is_text_https endpoint)
        then not_read "endpoint_not_configured"
        else read_answer key invalid (attempt_post 0).answer

    unfoldable pub read_projection_audit_v2 : Fields → RowsRead
    read_projection_audit_v2 payload =
        read_rows "read_audit_v2" "audit_action_invalid" "audit" "audit_invalid_response" payload

    unfoldable pub read_reconciliation_inventory_v2 : Fields → RowsRead
    read_reconciliation_inventory_v2 payload =
        read_rows "read_reconciliation_v2" "reconciliation_action_invalid" "items"
          "inventory_invalid_response" payload
