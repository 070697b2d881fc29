-- ===== src/Requests/Queue.antt =====
-- `open_error_request`, `record_request_outcome` and `find_error_request` of
-- src/trade_alerts/error_request_queue.py. The lock is waited for without a time-out.
use trade_alerts.Base.{
  Bool, true, not, Option, none, some, [], ◌∷◌, String, any, first, if◌then◌else◌,
}
use trade_alerts.Result.{Result, ok, raised, ◌>>=◌, ◌>>◌, raise_if}
use trade_alerts.Json.{
  Json, null, str, obj, Fields, end, field, get, is_text, is_canonical_fields, is_filled_text,
  text_or_empty, or_else,
}
use trade_alerts.EventLog.{EventFile, is_one_of, append_jsonl, read_jsonl}
use trade_alerts.Requests.Checks.{
  QueueError, not_canonical, unknown_status, no_request, already_closed, from_log,
  terminal_statuses, require_queue_project, require_queue_code, require_requestable_tier,
  queue_mapping, request_fingerprint,
}
use trade_alerts.Requests.Reading.{Found, requests, terminated, outstanding_error_requests}

-- The keyword arguments of open_error_request.
pub record OpenArgs : Type 0 where
  pub project : Json
  pub code : Json
  pub risk_tier : Json
  pub summary : Json
  pub evidence : Json
  pub details : Json
  pub measurements : Json
  pub event_ref : Json
  pub opened_at : Json

abbrev filled_or_null : Json → Json
filled_or_null v = if is_filled_text v then v else null

abbrev pub request_record :
    String → String → OpenArgs → String → Json → Json → Json → Fields → Fields → Fields → Fields
request_record fresh now a fingerprint project code tier evidence details measurements =
    field "request_id" (str fresh) (
      field "opened_at" (or_else a.opened_at (str now)) (
        field "project" project (
          field "code" code (
            field "risk_tier" tier (
              field "fingerprint" (str fingerprint) (
                field "summary" (text_or_empty a.summary) (
                  field "evidence" (obj evidence) (
                    field "details" (obj details) (
                      field "measurements" (obj measurements)
                        (field "event_ref" (filled_or_null a.event_ref) end))))))))))

abbrev pub request_line : Fields → Fields
request_line r = field "kind" (str "error_request_v1") (field "request" (obj r) end)

abbrev pub has_fingerprint : String → Fields → Bool
has_fingerprint fp r = is_text fp (get "fingerprint" r)

-- The search under the lock, and the append.
abbrev pub place :
    String → Fields → Option Fields → EventFile → Result QueueError (Fields × EventFile)
place fp request (some existing) f = ok (existing, f)
place fp request none f = do
  f' ← from_log (append_jsonl true (request_line request) f)
  ok (request, f')

module _ (digest : Fields → String) (print : Json → String) (fresh now : String) where
  -- What is done before the lock is taken: the fingerprint and the request.
  unfoldable pub prepare : OpenArgs → Result QueueError (String × Fields)
  prepare a = do
    fp ← request_fingerprint digest a.project a.code a.evidence
    tier ← require_requestable_tier a.risk_tier
    project ← require_queue_project a.project
    code ← require_queue_code a.code
    evidence ← queue_mapping a.evidence
    details ← queue_mapping a.details
    measurements ← queue_mapping a.measurements
    let request = request_record fresh now a fp project code tier evidence details measurements
    raise_if (not (is_canonical_fields request)) not_canonical
    ok (fp, request)

  unfoldable pub open_error_request : OpenArgs → EventFile → Result QueueError (Fields × EventFile)
  open_error_request a f = do
    q ← prepare a
    existing ← outstanding_error_requests print f
    place q.0 q.1 (first (has_fingerprint q.0) existing) f

-- The keyword arguments of record_request_outcome.
pub record OutcomeArgs : Type 0 where
  pub request_id : Json
  pub status : Json
  pub note : Json
  pub details : Json
  pub recorded_at : Json

abbrev pub outcome_record : String → OutcomeArgs → Fields → Fields
outcome_record now a details = field "request_id" a.request_id (
    field "recorded_at" (or_else a.recorded_at (str now)) (
      field "status" a.status
        (field "note" (text_or_empty a.note) (field "details" (obj details) end))))

abbrev pub outcome_line : Fields → Fields
outcome_line o = field "kind" (str "error_request_outcome_v1") (field "outcome" (obj o) end)

module _ (now : String) where
  -- What is done before the lock is taken.
  unfoldable pub prepare_outcome : OutcomeArgs → Result QueueError Fields
  prepare_outcome a = do
    raise_if (not (is_one_of terminal_statuses a.status)) unknown_status
    details ← queue_mapping a.details
    raise_if (not (is_canonical_fields (outcome_record now a details))) not_canonical
    ok (outcome_record now a details)

  unfoldable pub record_request_outcome :
      OutcomeArgs → EventFile → Result QueueError (Fields × EventFile)
  record_request_outcome a f = do
    outcome ← prepare_outcome a
    rs ← from_log (read_jsonl f)
    found ← requests rs
    raise_if (not (any (λ e. is_text e.0 a.request_id) found)) no_request
    closed ← terminated rs
    raise_if (any (λ id. is_text id a.request_id) closed) already_closed
    f' ← from_log (append_jsonl true (outcome_line outcome) f)
    ok (outcome, f')

abbrev first_key : Json → Found → Result QueueError Fields
first_key id [] = raised no_request
first_key id (e ∷ found) = if is_text e.0 id then ok e.1 else first_key id found

unfoldable pub find_error_request : Json → EventFile → Result QueueError Fields
find_error_request id f = do rs ← from_log (read_jsonl f); found ← requests rs; first_key id found
