-- ===== src/Requests/Reading.antt =====
-- `_requests`, `_terminated` and `outstanding_error_requests` of src/trade_alerts/error_request_queue.py.
-- `print` stands for `str` on a value that is not a text.
use trade_alerts.Base.{
  Bool, ◌&&◌, ◌||◌, not, List, [], ◌∷◌, ◌++◌, String, ◌==◌, any, select, map, if◌then◌else◌,
}
use trade_alerts.Result.{Result, ok, raised, ◌>>=◌, ◌>>◌, raise_if, fold_results}
use trade_alerts.Json.{Json, str, obj, Fields, get, is_text, truthy}
use trade_alerts.EventLog.{EventFile, is_one_of, read_jsonl}
use trade_alerts.Requests.Checks.{
  QueueError, request_missing, request_id_missing, duplicate_request_id, outcome_missing, from_log,
  terminal_statuses,
}
use trade_alerts.Strings.{text_lt}

-- A dict of the requests by their ids, in order of insertion.
abbrev pub Found : Type 0
Found = List (String × Fields)

abbrev pub is_key : String → String × Fields → Bool
is_key id e = e.0 == id

abbrev pub has_kind : String → Fields → Bool
has_kind k r = is_text k (get "kind" r)

abbrev pub insert_request : Found → Fields → Json → Result QueueError Found
insert_request found request (str id) = do
  raise_if (id == "") request_id_missing
  raise_if (any (is_key id) found) duplicate_request_id
  ok (found ++ (id, request) ∷ [])
insert_request found request _ = raised request_id_missing

abbrev pub add_body : Found → Json → Result QueueError Found
add_body found (obj request) = insert_request found request (get "request_id" request)
add_body found _ = raised request_missing

unfoldable pub add_request : Found → Fields → Result QueueError Found
add_request found r =
    if has_kind "error_request_v1" r then add_body found (get "request" r) else ok found

-- _requests
abbrev pub requests : List Fields → Result QueueError Found
requests rs = fold_results add_request [] rs

abbrev pub close_id : List String → Json → List String
close_id closed (str id) = if id == "" then closed else id ∷ closed
close_id closed _ = closed

abbrev pub add_end : List String → Json → Result QueueError (List String)
add_end closed (obj outcome) = ok (
    if is_one_of terminal_statuses (get "status" outcome)
    then close_id closed (get "request_id" outcome)
    else closed)
add_end closed _ = raised outcome_missing

unfoldable pub add_outcome : List String → Fields → Result QueueError (List String)
add_outcome closed r =
    if has_kind "error_request_outcome_v1" r then add_end closed (get "outcome" r) else ok closed

-- _terminated
abbrev pub terminated : List Fields → Result QueueError (List String)
terminated rs = fold_results add_outcome [] rs

abbrev pub is_open : List String → String × Fields → Bool
is_open closed e = not (any (λ id. id == e.0) closed)

module _ (print : Json → String) where
  -- str(v or "")
  abbrev pub key_text : Json → String
  key_text (str s) = s
  key_text v = if truthy v then print v else ""

  abbrev pub comes_before : Fields → Fields → Bool
  comes_before a b =
      text_lt (key_text (get "opened_at" a)) (key_text (get "opened_at" b))
      || (key_text (get "opened_at" a) == key_text (get "opened_at" b)
          && text_lt (key_text (get "request_id" a)) (key_text (get "request_id" b)))

  unfoldable pub insert_sorted : Fields → List Fields → List Fields
  insert_sorted r [] = r ∷ []
  insert_sorted r (s ∷ rs) =
      let rest = insert_sorted r rs in if comes_before s r then s ∷ rest else r ∷ s ∷ rs

  -- `sorted` with the key of the code; it is stable
  unfoldable pub sort_requests : List Fields → List Fields
  sort_requests [] = []
  sort_requests (r ∷ rs) = insert_sorted r (sort_requests rs)

  abbrev pub open_requests : Found → List String → List Fields
  open_requests found closed = sort_requests (map (λ e. e.1) (select (is_open closed) found))

  unfoldable pub outstanding_error_requests : EventFile → Result QueueError (List Fields)
  outstanding_error_requests f = do
    rs ← from_log (read_jsonl f)
    found ← requests rs
    closed ← terminated rs
    ok (open_requests found closed)
