-- ===== src/Receiver/Examples.antt =====
-- Runs of the client of src/trade_alerts/google_ledger_client.py against fixed answers.
use trade_alerts.Base.{
  zero, suc, Bool-cases, inl, inr, ◌≤◌, ◌≡◌, refl, ◌⊎◌, true, false, Option, none, some, List, [],
  ◌∷◌, String, ◌==◌, All, length, if◌then◌else◌,
}
use trade_alerts.Base.Int.{pos}
use trade_alerts.Result.{ok, raised}
use trade_alerts.Jsonl.{file_of}
use trade_alerts.Json
use trade_alerts.Json.{Json, Fields, end, field, truthy}
use trade_alerts.Outbox.Cells
use trade_alerts.Outbox.Cells.{Cell, str, cell_eq, get_or_null, obj_eq}
use trade_alerts.Outbox.Records.{
  Provenance, Intent, schema_version_v2, as_dict, is_allowed_action, error_code_invalid,
}
use trade_alerts.Outbox.Queue.{candidate_of}
use trade_alerts.Outbox.Dispatch.{
  Rebuilt, Payload, RebuildEnd, rebuilt, validate_rebuilt, binding_differs, action_differs,
  identity_differs, dispatch_next,
}
use trade_alerts.Outbox.Log.{Entry, queued, log, pending, IsLog}
use trade_alerts.Outbox.Attempt.{Attempted}
use trade_alerts.Outbox.ParkEvent.{json_of}
use trade_alerts.Receiver.Redirect.{
  Url, Fetch, responded, fetch_failed, post_json, post_receiver_json, is_redirect, follow, settle,
  permitted_redirect, starts_with,
}
use trade_alerts.Receiver.Delivery.{
  Network, submission_actions, is_in, action_of, interpret, deliver_from, deliver_projection_v2,
}
use trade_alerts.Receiver.Recording.{fields_of, bad_error, submit_projection_v2}
use trade_alerts.Receiver.Hops.{IsPermitted, post_json-IsPermitted}
use trade_alerts.Receiver.Answers.{First, Unanswered, deliver_projection-First}
use trade_alerts.Receiver.Sending.{submitted_with, submit_projection-records}
use trade_alerts.Receiver.Callback.{
  delivered, submit_delivering, delivering-Attempted, empty_error-raises,
}

abbrev endpoint : String
endpoint = "https://script.google.com/exec"

abbrev content : String
content = "https://script.googleusercontent.com/echo"

abbrev host_url : String → Url
host_url host = record { scheme = "https"; hostname = host; username = ""; password = "" }

abbrev parse : String → Option Url
parse s =
    if s == endpoint
    then some (host_url "script.google.com")
    else if s == content
    then some (host_url "script.googleusercontent.com")
    else none

abbrev lower : String → String
lower s = s

abbrev print : Json → String
print v = "value"

abbrev moved : Fetch
moved = responded (record { status = 302; location = content; body = none })

abbrev answer : Fields → Fetch
answer fs = responded (record { status = 200; location = ""; body = some (Json.obj fs) })

abbrev accepted : Fields
accepted = field "ok" (Json.bool true) (field "row" (Json.int (pos 7)) end)

abbrev nameless : Fields
nameless = field "ok" (Json.bool false) (field "error" (Json.str "") end)

post_json-IsPermitted_example :
    All
      (IsPermitted parse lower endpoint)
      (post_json parse lower endpoint moved (λ n url. answer accepted)).visited
    × (length (post_json parse lower endpoint moved (λ n url. answer accepted)).visited ≤ 3)
post_json-IsPermitted_example =
    post_json-IsPermitted parse lower endpoint moved (λ n url. answer accepted)

visits_once :
    (post_json parse lower endpoint moved (λ n url. answer accepted)).visited ≡ content ∷ []
unfolding post_json follow is_redirect permitted_redirect settle
visits_once = refl

-- The first attempt fails, the others are answered.
abbrev flaky : Network
flaky = record {
  post = λ n. elim n [ zero ↦ fetch_failed | suc _ ↦ moved ];
  get = λ n k url. answer accepted;
}

abbrev silent : Network
silent = record { post = λ n. moved; get = λ n k url. answer nameless }

abbrev request : Fields
request = field "action" (Json.str "append_open_v2") end

deliver_projection-First_example :
    let d = deliver_projection_v2 parse lower print flaky (Json.str endpoint) request 3 in
    First parse lower print flaky (Json.str endpoint) 0 3 d
    ⊎ Unanswered parse lower print flaky (Json.str endpoint) 0 3 d
unfolding starts_with Json.get
deliver_projection-First_example =
    deliver_projection-First parse lower print flaky (Json.str endpoint) request 3 refl refl

abbrev proof : Provenance
proof = record {
  project_id = "mycrypto";
  trade_id = "T-7";
  event_type = "trade_open";
  ledger_event_digest = "5f1c";
  payload_digest = "9a02";
  request_id = "req-1";
  issued_at = "2026-09-01T00:00:00Z";
  source_id = "host-a";
  schema_version = schema_version_v2;
}

submit_projection-records_example :
    submit_projection_v2 parse lower print
      (λ f. flaky)
      (Json.str endpoint)
      "now"
      "later"
      request
      proof
      3
      (file_of [])
    ≡ submitted_with "now" "later" proof "append_open_v2"
        (deliver_projection_v2 parse lower print flaky (Json.str endpoint) request 3).submission
        (file_of [])
unfolding Json.get
submit_projection-records_example =
    submit_projection-records parse lower print (λ f. flaky) (Json.str endpoint) "now" "later"
      request proof 3 (file_of []) refl

abbrev intent : Intent
intent = candidate_of "a1" "2026-09-01T00:00:00Z" "append_open_v2" proof

abbrev waiting : List Entry
waiting = queued intent ∷ []

waiting-IsLog : IsLog waiting
unfolding is_allowed_action cell_eq
waiting-IsLog = ((refl, refl), refl, tt)

waiting-pending : pending waiting ≡ intent ∷ []
unfolding pending
waiting-pending = refl

abbrev signed : Rebuilt
signed = record {
  payload = record {
    fields =
        ("action", str "append_open_v2")
        ∷ ("schema_version", str schema_version_v2)
        ∷ ("project_id", str "mycrypto")
        ∷ ("source_id", str "host-a")
        ∷ [];
    provenance = some (as_dict proof);
  };
  provenance = proof;
}

abbrev rebuild : Intent → RebuildEnd
rebuild i = rebuilt signed

signed_valid : validate_rebuilt intent signed ≡ ok tt
unfolding validate_rebuilt binding_differs action_differs identity_differs cell_eq get_or_null
    Cells.get obj_eq as_dict
signed_valid = refl

abbrev steady : Network
steady = record { post = λ n. answer accepted; get = λ n k url. answer accepted }

steady_named :
    (p : Payload)
    → bad_error (delivered parse lower print (λ q. steady) (Json.str endpoint) 3 p).error_code
      ≡ false
unfolding deliver_projection_v2 deliver_from interpret Json.get truthy starts_with
    post_receiver_json post_json follow is_redirect settle
steady_named p =
    elim (Bool-cases
      (is_in submission_actions (action_of (Json.get "action" (fields_of p.fields))))) [
        | inl h ↦ rw (h, bad_error) refl
        | inr h ↦ rw (h, bad_error) refl
      ]

delivering-Attempted_example : Attempted waiting intent [] (
    dispatch_next rebuild
      (submit_delivering parse lower print (λ p. steady) (Json.str endpoint) 3)
      "now"
      (log waiting))
delivering-Attempted_example =
    delivering-Attempted parse lower print (λ p. steady) (Json.str endpoint) 3 waiting intent []
      rebuild "now" waiting-IsLog waiting-pending steady_named

empty_error-raises_example :
    dispatch_next rebuild
      (submit_delivering parse lower print (λ p. silent) (Json.str endpoint) 3)
      "now"
      (log waiting)
    ≡ raised error_code_invalid
unfolding Json.get truthy starts_with post_receiver_json post_json follow is_redirect
    permitted_redirect settle json_of
empty_error-raises_example =
    empty_error-raises parse lower print (λ p. silent) (Json.str endpoint) 3 waiting intent []
      rebuild "now" signed nameless waiting-IsLog waiting-pending refl signed_valid refl refl refl
      refl refl
