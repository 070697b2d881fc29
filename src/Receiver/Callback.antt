-- ===== src/Receiver/Callback.antt =====
-- `deliver_projection_v2` of src/trade_alerts/google_ledger_client.py as the `submit` of
-- src/trade_alerts/projection_outbox.py.
use trade_alerts.Base.{
  ℕ, ◌≡◌, refl, ap, ◌∙◌, Bool, true, false, ◌&&◌, Option, none, some, List, ◌∷◌, String, arith,
}
use trade_alerts.Base.Int.{ℤ}
use trade_alerts.Result.{ok, raised, ◌>>=◌}
use trade_alerts.Jsonl.{File}
use trade_alerts.Json
use trade_alerts.Json.{Json, Fields, truthy}
use trade_alerts.Outbox.Cells.{Cell, null, int, str, cell_eq}
use trade_alerts.Outbox.Records.{Record, Provenance, Intent, error_code_invalid}
use trade_alerts.Outbox.Dispatch.{
  Rebuilt, Payload, RebuildEnd, rebuilt, SubmitEnd, answered, validate_rebuilt, is_status,
  is_receiver_row, is_error_code, outcome_of, park, record_projection_dispatch, submit_rebuilt,
  report, attempt, dispatch_next,
}
use trade_alerts.Outbox.Log.{Entry, log, pending, IsLog, outstanding-log}
use trade_alerts.Outbox.Attempt.{IsAnswer, Attempted, dispatch_next-Attempted}
use trade_alerts.Outbox.Rules.{refused_with}
use trade_alerts.Receiver.Redirect.{Url, is_text_https}
use trade_alerts.Receiver.Delivery.{
  Network, Submission, refused, submission_actions, is_in, action_of, interpret,
  deliver_projection_v2,
}
use trade_alerts.Receiver.Recording.{fields_of, bad_error}
use trade_alerts.Receiver.Answers.{
  answer_at, deliver-answered, is_row, is_submission, deliver-is_submission,
}

abbrev row_cell : Option ℤ → Cell
row_cell none = null
row_cell (some n) = int n

abbrev error_cell : Option String → Cell
error_cell none = null
error_cell (some s) = str s

-- The attributes that the outbox reads from a submission.
abbrev as_answer : Submission → SubmitEnd
as_answer s = answered (record {
  status = str s.status;
  receiver_row = row_cell s.receiver_row;
  error_code = error_cell s.error_code;
})

row-recordable : (row : Option ℤ) → is_row row ≡ true → is_receiver_row (row_cell row) ≡ true
unfolding is_receiver_row
row-recordable none h = refl
row-recordable (some n) h = h

error-recordable : (e : Option String) → bad_error e ≡ false → is_error_code (error_cell e) ≡ true
unfolding is_error_code
error-recordable none h = refl
error-recordable (some s) h = rw h refl

right_holds : (a b : Bool) → (a && b) ≡ true → b ≡ true
right_holds a b h = ground arith

as_answer-IsAnswer :
    (s : Submission)
    → is_submission s ≡ true
    → bad_error s.error_code ≡ false
    → IsAnswer (as_answer s)
as_answer-IsAnswer s kind h =
    (row-recordable s.receiver_row (right_holds _ _ kind), error-recordable s.error_code h)

unrecorded-raises :
    (es : List Entry) (i : Intent) (now : String)
    → (do
      o ← park (log es) i (outcome_of (answered (refused_with "")))
      report i (record_projection_dispatch now i o (log es)))
      ≡ raised error_code_invalid
unfolding park outcome_of record_projection_dispatch is_status is_receiver_row is_error_code cell_eq
unrecorded-raises es i now = refl

module _ (rebuild : Intent → RebuildEnd) (submit : Payload → Provenance → SubmitEnd) (now : String)
    (i : Intent) (r : Rebuilt) where
  attempt-valid :
      (f : File Record)
      → validate_rebuilt i r ≡ ok tt
      → attempt rebuild submit now i (rebuilt r) f ≡ submit_rebuilt rebuild submit now i r f
  unfolding attempt
  attempt-valid f valid = rw (valid, attempt) refl

  submit-refused :
      (es : List Entry)
      → submit r.payload r.provenance ≡ answered (refused_with "")
      → submit_rebuilt rebuild submit now i r (log es) ≡ raised error_code_invalid
  unfolding submit_rebuilt
  submit-refused es h = rw h (unrecorded-raises es i now)

refused-empty :
    (parse : String → Option Url) (lower : String → String) (print : Json → String)
    (result : Fields)
    → truthy (Json.get "ok" result) ≡ false
    → Json.get "error" result ≡ Json.str ""
    → interpret parse lower print result ≡ refused "TRANSPORT_FAILED" ""
unfolding interpret
refused-empty parse lower print result bad empty = rw (bad, empty) refl

module _ (parse : String → Option Url) (lower : String → String) (print : Json → String)
    (net : Payload → Network) (endpoint : Json) (attempts : ℕ) where
  abbrev pub delivered : Payload → Submission
  delivered p =
      (deliver_projection_v2 parse lower print (net p) endpoint (fields_of p.fields)
        attempts).submission

  abbrev pub submit_delivering : Payload → Provenance → SubmitEnd
  submit_delivering p q = as_answer (delivered p)

  -- A dispatch that delivers through the client, to a receiver that gives no empty error text, does
  -- what an attempt of the outbox does: it pauses or records one answer of the oldest intent.
  pub delivering-Attempted :
      (es : List Entry) (i : Intent) (rest : List Intent) (rebuild : Intent → RebuildEnd)
      (now : String)
      → IsLog es
      → pending es ≡ i ∷ rest
      → ((p : Payload) → bad_error (delivered p).error_code ≡ false)
      → Attempted es i rest (dispatch_next rebuild submit_delivering now (log es))
  delivering-Attempted es i rest rebuild now h front good =
      dispatch_next-Attempted es i rest h front rebuild submit_delivering now (λ p q.
        as_answer-IsAnswer (delivered p)
          (deliver-is_submission parse lower print (net p) endpoint (fields_of p.fields) attempts)
          (good p))

  -- If the receiver answers the first post with an error whose text is empty, the dispatch raises and
  -- gives no new outbox, so the same intent is at the head of the next round.
  pub empty_error-raises :
      (es : List Entry) (i : Intent) (rest : List Intent) (rebuild : Intent → RebuildEnd)
      (now : String) (r : Rebuilt) (result : Fields)
      → IsLog es
      → pending es ≡ i ∷ rest
      → rebuild i ≡ rebuilt r
      → validate_rebuilt i r ≡ ok tt
      → is_in submission_actions (action_of (Json.get "action" (fields_of r.payload.fields))) ≡ true
      → is_text_https endpoint ≡ true
      → answer_at parse lower print (net r.payload) endpoint 0 ≡ ok result
      → truthy (Json.get "ok" result) ≡ false
      → Json.get "error" result ≡ Json.str ""
      → dispatch_next rebuild submit_delivering now (log es) ≡ raised error_code_invalid
  unfolding dispatch_next interpret
  empty_error-raises es i rest rebuild now r result h front built valid allowed secure came bad
        empty =
      let answer =
        deliver-answered parse lower print (net r.payload) endpoint (fields_of r.payload.fields)
          attempts result allowed secure came
        ∙ refused-empty parse lower print result bad empty in
      rw (outstanding-log es h, front, built)
        (attempt-valid rebuild submit_delivering now i r (log es) valid
          ∙ submit-refused rebuild submit_delivering now i r es (ap as_answer answer))
