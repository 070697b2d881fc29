-- ===== src/Requests/Closing.antt =====
-- Closing a request, in src/trade_alerts/error_request_queue.py.
use mathlib.Core.Path.{subst}
use trade_alerts.Base.{
  ◌≡◌, refl, sym, ap, ◌∙◌, Bool, true, false, not, none, List, [], ◌∷◌, ◌++◌, String, ◌==◌, any,
  arith, eq_refl,
}
use trade_alerts.Result.{
  Result, ok, raised, ◌>>◌, raise_if, bind-eq-ok, ok-injective, fold_results-snoc,
}
use trade_alerts.Jsonl.{append_record}
use trade_alerts.Json.{Json, str, Fields, get, find, is_text, is_canonical, is_canonical_fields}
use trade_alerts.EventLog.{EventFile, append_jsonl, read_jsonl, is_one_of}
use trade_alerts.EventLog.Appending.{read_jsonl-append}
use trade_alerts.Requests.Checks.{
  QueueError, already_closed, unknown_status, terminal_statuses, from_log, queue_mapping,
}
use trade_alerts.Requests.Reading.{
  Found, add_request, add_outcome, requests, terminated, open_requests, outstanding_error_requests,
}
use trade_alerts.Requests.Queue.{
  OutcomeArgs, outcome_line, outcome_record, prepare_outcome, record_request_outcome,
}
use trade_alerts.Requests.Keys.{has_request_id, requests-keyed, none_open, closable}
use trade_alerts.Requests.Opening.{appended, any-sort_requests, last_check}

add_outcome-outcome_line :
    (now : String) (a : OutcomeArgs) (details : Fields) (closed : List String) {id : String}
    → a.request_id ≡ str id
    → (id == "") ≡ false
    → is_one_of terminal_statuses a.status ≡ true
    → add_outcome closed (outcome_line (outcome_record now a details)) ≡ ok (id ∷ closed)
unfolding add_outcome is_text get find
add_outcome-outcome_line now a details closed same filled status = rw (status, same, filled) refl

add_request-outcome_line :
    (o : Fields) (found : Found) → add_request found (outcome_line o) ≡ ok found
unfolding add_request is_text get find
add_request-outcome_line o found = refl

is_canonical-outcome_line :
    (o : Fields) → is_canonical_fields o ≡ true → is_canonical_fields (outcome_line o) ≡ true
unfolding is_canonical
is_canonical-outcome_line o h = rw h refl

prepare_outcome-eq-ok :
    (now : String) (a : OutcomeArgs) {o : Fields}
    → prepare_outcome now a ≡ ok o
    → (details : Fields) × (o ≡ outcome_record now a details)
      × (is_one_of terminal_statuses a.status ≡ true)
      × (is_canonical_fields o ≡ true)
unfolding prepare_outcome
prepare_outcome-eq-ok now a {o} h =
    let (u, status, h1) =
      bind-eq-ok (raise_if (not (is_one_of terminal_statuses a.status)) unknown_status) _ h in
    let (details, d, h2) = bind-eq-ok (queue_mapping a.details) _ h1 in
    let (canonical, same) = last_check _ _ _ h2 in
    (details, sym same, ground arith, subst (λ x. is_canonical_fields x ≡ true) same canonical)

-- What a call found that closed a request.
record IsClosing (now : String) (a : OutcomeArgs) (f : EventFile) (o : Fields) (f' : EventFile)
    : Type 0 where
  records : List Fields
  found : Found
  closed : List String
  id : String
  read : read_jsonl f ≡ ok records
  requested : requests records ≡ ok found
  ended : terminated records ≡ ok closed
  same_id : a.request_id ≡ str id
  filled : (id == "") ≡ false
  there : any (λ e. is_text e.0 a.request_id) found ≡ true
  details : Fields
  outcome : o ≡ outcome_record now a details
  status : is_one_of terminal_statuses a.status ≡ true
  file : f' ≡ append_record (outcome_line o) f

checked :
    {A : Type 0} (b : Bool) (e : QueueError) (r : Result QueueError A) {x : A}
    → (raise_if b e >> r) ≡ ok x
    → (b ≡ false) × (r ≡ ok x)
checked true e r h = cc
checked false e r h = (refl, h)

read-eq-ok :
    (f : EventFile) (rs : List Fields) → from_log (read_jsonl f) ≡ ok rs → read_jsonl f ≡ ok rs
read-eq-ok f rs h = ground arith

closing :
    (now : String) (a : OutcomeArgs) (f : EventFile) {o : Fields} {f' : EventFile}
    → record_request_outcome now a f ≡ ok (o, f')
    → IsClosing now a f o f'
unfolding record_request_outcome
closing now a f {o} {f'} h =
    let (x, prepared, h1) = bind-eq-ok (prepare_outcome now a) _ h in
    let (rs, read, h2) = bind-eq-ok (from_log (read_jsonl f)) _ h1 in
    let (found, requested, h3) = bind-eq-ok (requests rs) _ h2 in
    let (there, h4) = checked _ _ _ h3 in
    let (closed, ended, h5) = bind-eq-ok (terminated rs) _ h4 in
    let (new, h6) = checked _ _ _ h5 in
    let (g, wrote, h7) = bind-eq-ok (from_log (append_jsonl true (outcome_line x) f)) _ h6 in
    let (details, made, status, canonical) = prepare_outcome-eq-ok now a prepared in
    let present : any (λ e. is_text e.0 a.request_id) found ≡ true = ground arith in
    let (id, same_id, filled) = closable a.request_id found (requests-keyed rs requested) present in
    let outcome : x ≡ o = ap (λ p. p.0) (ok-injective h7) in
    let file : g ≡ f' = ap (λ p. p.1) (ok-injective h7) in
    record {
      records = rs;
      found = found;
      closed = closed;
      id = id;
      read = read-eq-ok f rs read;
      requested = requested;
      ended = ended;
      same_id = same_id;
      filled = filled;
      there = present;
      details = details;
      outcome = sym outcome ∙ made;
      status = status;
      file =
          sym file
          ∙ appended (outcome_line x) f g wrote
          ∙ ap (λ y. append_record (outcome_line y) f) outcome;
    }

module _ {now : String} {a : OutcomeArgs} {f : EventFile} {o : Fields} {f' : EventFile}
    (whole : f.torn ≡ none) (c : IsClosing now a f o f') where
  requested_after : requests (c.records ++ outcome_line o ∷ []) ≡ ok c.found
  requested_after =
      rw (fold_results-snoc add_request [] c.records (outcome_line o), c.requested)
        (add_request-outcome_line o c.found)

  ended_after : terminated (c.records ++ outcome_line o ∷ []) ≡ ok (c.id ∷ c.closed)
  ended_after =
      rw (fold_results-snoc add_outcome [] c.records (outcome_line o), c.ended, c.outcome)
        (add_outcome-outcome_line now a c.details c.closed c.same_id c.filled c.status)

  read_after : read_jsonl f' ≡ ok (c.records ++ outcome_line o ∷ [])
  read_after = rw (c.file, read_jsonl-append (outcome_line o) f whole, c.read) refl

  outstanding_after :
      (print : Json → String)
      → outstanding_error_requests print f' ≡ ok (open_requests print c.found (c.id ∷ c.closed))
  unfolding outstanding_error_requests
  outstanding_after print = rw (read_after, requested_after, ended_after) refl

  now_ended : any (λ id. is_text id (str c.id)) (c.id ∷ c.closed) ≡ true
  unfolding is_text
  now_ended = rw (eq_refl c.id) refl

  still_there : any (λ e. is_text e.0 (str c.id)) c.found ≡ true
  still_there = subst (λ v. any (λ e. is_text e.0 v) c.found ≡ true) c.same_id c.there

  refused_after :
      (now' : String) (a' : OutcomeArgs) {o' : Fields}
      → a'.request_id ≡ str c.id
      → prepare_outcome now' a' ≡ ok o'
      → record_request_outcome now' a' f' ≡ raised already_closed
  unfolding record_request_outcome
  refused_after now' a' same again =
      rw (again, read_after, requested_after, same, still_there, ended_after, now_ended) refl

-- A call that closes a request leaves a queue that reads and in which no open request has its id,
-- and closing that id again is refused as already closed, if the queue ended in a whole line and
-- the second call's other arguments pass its checks.
pub closed_once :
    (print : Json → String) (now now' : String) (a a' : OutcomeArgs) (f : EventFile) {o o' : Fields}
    {f' : EventFile}
    → f.torn ≡ none
    → a'.request_id ≡ a.request_id
    → prepare_outcome now' a' ≡ ok o'
    → record_request_outcome now a f ≡ ok (o, f')
    → (id : String) × (a.request_id ≡ str id)
      × ((rs : List Fields) × (outstanding_error_requests print f' ≡ ok rs)
          × (any (has_request_id id) rs ≡ false))
      × (record_request_outcome now' a' f' ≡ raised already_closed)
closed_once print now now' a a' f {o} {o'} {f'} whole same again h =
    let c = closing now a f h in
    (
      c.id,
      c.same_id,
      (
        open_requests print c.found (c.id ∷ c.closed),
        outstanding_after whole c print,
        any-sort_requests print (has_request_id c.id) _
            ∙ none_open c.id c.closed c.found (requests-keyed c.records c.requested),
      ),
      refused_after whole c now' a' (same ∙ c.same_id) again,
    )
