-- ===== src/Receiver/Sending.antt =====
-- `submit_projection_v2` of src/trade_alerts/google_ledger_client.py, which delivers with its own
-- records, and `deliver_projection_v2` as the callback of the outbox of
-- src/trade_alerts/projection_outbox.py.
use mathlib.Core.Path.{subst}
use trade_alerts.Base.{
  ℕ, ◌≡◌, refl, inl, inr, Bool, true, false, ◌&&◌, ◌||◌, not, Option, none, some, String, ◌==◌,
  if◌then◌else◌, arith, eq_iff, Bool-cases,
}
use trade_alerts.Base.Int.{ℤ}
use trade_alerts.Result.{ok, raised}
use trade_alerts.Jsonl.{append_record}
use trade_alerts.Json
use trade_alerts.Json.{Json, Fields, truthy}
use trade_alerts.EventLog.{EventFile}
use trade_alerts.Outbox.Records.{Provenance}
use trade_alerts.Receiver.Redirect.{Url}
use trade_alerts.Receiver.Delivery.{
  Network, Submission, submission_actions, is_in, action_of, refused, deliver_projection_v2,
}
use trade_alerts.Receiver.Recording.{
  invalid_error, allowed_status, bad_row, bad_error, outbox_record, append_outbox_record, Submitted,
  recorded, then_deliver, submit_projection_v2,
}
use trade_alerts.Receiver.Answers.{is_row, is_submission, deliver-is_submission}

-- Statuses and rows

known_status :
    (a b c d e : Bool)
    → ((a || (b || (c || false))) && e) ≡ true
    → (d || (a || (b || (c || false)))) ≡ true
known_status a b c d e h = ground arith

right_holds : (a b : Bool) → (a && b) ≡ true → b ≡ true
right_holds a b h = ground arith

not_both : (b : Bool) → not b ≡ true → b ≡ false
not_both b h = ground arith

submission-allowed :
    (s : Submission) → is_submission s ≡ true → is_in allowed_status s.status ≡ true
submission-allowed s h =
    known_status ("CONFIRMED" == s.status) ("REJECTED" == s.status) ("TRANSPORT_FAILED" == s.status)
      ("PENDING" == s.status) (is_row s.receiver_row) h

row-good : (row : Option ℤ) → is_row row ≡ true → bad_row row ≡ false
row-good none h = refl
row-good (some n) h = not_both _ h

submission-row : (s : Submission) → is_submission s ≡ true → bad_row s.receiver_row ≡ false
submission-row s h = row-good s.receiver_row (right_holds _ _ h)

action-named : (a : String) → is_in submission_actions a ≡ true → (a == "") ≡ false
action-named a h = elim (Bool-cases (a == "")) [
  | inl e ↦
      let none_allowed : is_in submission_actions "" ≡ true =
        subst (λ x. is_in submission_actions x ≡ true) ((eq_iff a "").0 e) h in
      cc
  | inr e ↦ e
]

append_outbox_record-record :
    (now : String) (p : Provenance) (action status : String) (row : Option ℤ)
    (error : Option String) (f : EventFile)
    → is_in allowed_status status ≡ true
    → (action == "") ≡ false
    → bad_row row ≡ false
    → append_outbox_record now p action status row error f ≡ (
        if bad_error error
        then raised invalid_error
        else ok (
          outbox_record now p action status row error,
          append_record (outbox_record now p action status row error) f,
        ))
unfolding append_outbox_record
append_outbox_record-record now p action status row error f known named good =
    elim (Bool-cases (bad_error error)) [
      | inl h ↦ rw (known, named, good, h) refl
      | inr h ↦ rw (known, named, good, h) refl
    ]

-- What a submit leaves behind, if the receiver's answer came to `s`: the record written before the
-- request, then the one of the answer, unless its error is the empty text.
abbrev pub submitted_with :
    String → String → Provenance → String → Submission → EventFile → Submitted
submitted_with now later p action s f =
    let f1 = append_record (outbox_record now p action "PENDING" none none) f in
    if bad_error s.error_code
    then record { result = raised invalid_error; outbox = f1 }
    else record {
      result = ok s;
      outbox = append_record (outbox_record later p action s.status s.receiver_row s.error_code) f1;
    }

module _ (parse : String → Option Url) (lower : String → String) (print : Json → String)
    (net : EventFile → Network) (endpoint : Json) (now later : String) where
  -- A submit with an allowed action appends PENDING to the outbox and makes its request with the outbox
  -- in that state, on which the receiver and the network may depend. Whatever they do, the outcome that
  -- it returns is appended behind; only an empty error text, which the records refuse, makes it raise,
  -- and PENDING then stays the last record.
  pub submit_projection-records :
      (payload : Fields) (p : Provenance) (attempts : ℕ) (f : EventFile)
      → is_in submission_actions (action_of (Json.get "action" payload)) ≡ true
      → let action = action_of (Json.get "action" payload) in
        let sent = append_record (outbox_record now p action "PENDING" none none) f in
        submit_projection_v2 parse lower print net endpoint now later payload p attempts f
        ≡ submitted_with now later p action
            (deliver_projection_v2 parse lower print
              (net sent)
              endpoint
              payload
              attempts).submission
            f
  unfolding submit_projection_v2
  submit_projection-records payload p attempts f allowed =
      let action = action_of (Json.get "action" payload) in
      let sent = append_record (outbox_record now p action "PENDING" none none) f in
      let kind = deliver-is_submission parse lower print (net sent) endpoint payload attempts in
      records action
        (λ f'.
          (deliver_projection_v2 parse lower print (net f') endpoint payload attempts).submission)
        allowed (action-named action allowed) kind
    where
      records :
          (action : String) (answer : EventFile → Submission)
          → let f1 = append_record (outbox_record now p action "PENDING" none none) f in
            is_in submission_actions action ≡ true
            → (action == "") ≡ false
            → is_submission (answer f1) ≡ true
            → (if not (is_in submission_actions action)
                then record { result = ok (refused "REJECTED" "action_not_allowed"); outbox = f }
                else then_deliver
                    (λ f'. recorded (answer f') f' (
                      append_outbox_record later p action
                        (answer f').status
                        (answer f').receiver_row
                        (answer f').error_code
                        f'))
                    f
                    (append_outbox_record now p action "PENDING" none none f))
              ≡ submitted_with now later p action (answer f1) f
      records action answer allowed named kind =
          let f1 = append_record (outbox_record now p action "PENDING" none none) f in
          let s = answer f1 in
          let first =
            append_outbox_record-record now p action "PENDING" none none f refl named refl in
          let last =
            append_outbox_record-record later p action s.status s.receiver_row s.error_code f1
              (submission-allowed s kind) named (submission-row s kind) in
          elim (Bool-cases (bad_error s.error_code)) [
            | inl h ↦ rw (allowed, first, last, h) refl
            | inr h ↦ rw (allowed, first, last, h) refl
          ]
