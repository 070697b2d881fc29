-- ===== src/Outbox/Parking.antt =====
-- An intent that can never be accepted does not block the queue of
-- src/trade_alerts/projection_outbox.py: after enough equal answers in a row it is parked.
use mathlib.Core.Path.{subst}
use trade_alerts.Base.{
  ℕ, ◌+◌, ◌≤◌, ◌<◌, ◌≡◌, refl, ◌∙◌, true, none, some, List, [], ◌∷◌, ◌++◌, String, if◌then◌else◌,
  arith, length, leb,
}
use trade_alerts.Result.{Result, ok, ◌>>=◌}
use trade_alerts.Jsonl.{File}
use trade_alerts.Outbox.Cells.{str, cell_eq}
use trade_alerts.Outbox.Records.{Provenance, Intent, Record, OutboxError, is_terminal}
use trade_alerts.Outbox.Dispatch.{
  Outcome, Rebuilt, Payload, RebuildEnd, rebuilt, SubmitEnd, answered, is_status, dispatch_of,
  validate_rebuilt, park_after, park, outcome_of, rejected_with, submit_rebuilt, attempt,
  dispatch_next,
}
use trade_alerts.Outbox.Log.{Entry, tried, log, pending, IsLog, outstanding-log, tried-IsLog}
use trade_alerts.Outbox.Head.{pending-tried}
use trade_alerts.Outbox.Attempt.{IsRecordable, IsRecordable-if, record_projection_dispatch-log}
use trade_alerts.Outbox.Streak.{
  answers, trailing_run, consecutive_answers-trailing_run, trailing_run-tried,
}
use trade_alerts.Outbox.Rules.{
  Rule, answer_code, concerns, limit_of, parked_code, refused_with, park-rule,
  refused_with-IsRecordable, parked-IsRecordable,
}

-- One attempt after another, with the times at which they are made.
module _ (rebuild : Intent → RebuildEnd) (submit : Payload → Provenance → SubmitEnd) where
  pub dispatch_rounds : List String → File Record → Result OutboxError (File Record)
  dispatch_rounds [] f = ok f
  dispatch_rounds (now ∷ times) f = do
    r ← dispatch_next rebuild submit now f
    dispatch_rounds times r.1

  module _ (r : Rule) (i : Intent) (rest : List Intent) {b : Rebuilt}
      (action : concerns r i.action ≡ true) (rebuilds : rebuild i ≡ rebuilt b)
      (valid : validate_rebuilt i b ≡ ok tt)
      (refuses : submit b.payload b.provenance ≡ answered (refused_with (answer_code r))) where
    abbrev pub run : List Entry → ℕ
    run es = trailing_run (str (answer_code r)) (answers i.intent_id es)

    outcome_of-refused :
        outcome_of (answered (refused_with (answer_code r))) ≡ refused_with (answer_code r)
    unfolding outcome_of is_status cell_eq
    outcome_of-refused = refl

    outcome : List Entry → Outcome
    outcome es =
        if leb (limit_of r) (run es + 1)
        then rejected_with (parked_code r)
        else refused_with (answer_code r)

    attempt-valid :
        (now : String) (f : File Record)
        → attempt rebuild submit now i (rebuilt b) f ≡ submit_rebuilt rebuild submit now i b f
    unfolding attempt
    attempt-valid now f = rw (valid, attempt) refl

    park-refused :
        (es : List Entry)
        → park (log es) i (outcome_of (submit b.payload b.provenance)) ≡ ok (outcome es)
    unfolding outcome park_after
    park-refused es =
        rw
          (
            refuses,
            outcome_of-refused,
            park-rule r (log es) i action,
            consecutive_answers-trailing_run,
          )
          refl

    outcome-IsRecordable : (es : List Entry) → IsRecordable (outcome es)
    unfolding outcome
    outcome-IsRecordable es =
        IsRecordable-if (leb (limit_of r) (run es + 1)) (rejected_with (parked_code r))
          (refused_with (answer_code r)) (parked-IsRecordable r) (refused_with-IsRecordable r)

    dispatch_next-refused :
        (now : String) (es : List Entry)
        → IsLog es
        → pending es ≡ i ∷ rest
        → dispatch_next rebuild submit now (log es)
          ≡ ok (
            record {
              intent = some i;
              dispatch = some (dispatch_of now i (outcome es));
              paused_reason = none;
            },
            log (es ++ tried (dispatch_of now i (outcome es)) ∷ []),
          )
    unfolding dispatch_next submit_rebuilt
    dispatch_next-refused now es h front =
        rw
          (
            outstanding-log es h,
            front,
            rebuilds,
            attempt-valid,
            park-refused es,
            record_projection_dispatch-log now i (outcome es) es (outcome-IsRecordable es),
          )
          refl

    -- The attempt with which the run of the answer reaches the limit of the rule.
    pub dispatch_next-parked :
        (now : String) (es : List Entry)
        → IsLog es
        → pending es ≡ i ∷ rest
        → limit_of r ≤ run es + 1
        → dispatch_next rebuild submit now (log es)
          ≡ ok (
            record {
              intent = some i;
              dispatch = some (dispatch_of now i (rejected_with (parked_code r)));
              paused_reason = none;
            },
            log (es ++ tried (dispatch_of now i (rejected_with (parked_code r))) ∷ []),
          )
    unfolding outcome
    dispatch_next-parked now es h front reached =
        let last : leb (limit_of r) (run es + 1) ≡ true = ground arith in
        let now_parked : outcome es ≡ rejected_with (parked_code r) = rw last refl in
        subst
          (λ o.
            dispatch_next rebuild submit now (log es)
            ≡ ok (
              record {
                intent = some i;
                dispatch = some (dispatch_of now i o);
                paused_reason = none;
              },
              log (es ++ tried (dispatch_of now i o) ∷ []),
            ))
          now_parked (dispatch_next-refused now es h front)

    pending-parked :
        (now : String) (es : List Entry)
        → IsLog es
        → pending es ≡ i ∷ rest
        → pending (es ++ tried (dispatch_of now i (outcome es)) ∷ [])
          ≡ (if leb (limit_of r) (run es + 1) then rest else i ∷ rest)
    unfolding is_terminal cell_eq outcome
    pending-parked now es h front =
        pending-tried es (dispatch_of now i (outcome es)) h front refl ∙ ground arith

    refused-error_code :
        (es : List Entry) → run es + 1 < limit_of r → (outcome es).error_code ≡ str (answer_code r)
    unfolding outcome
    refused-error_code es low = ground arith

    -- An intent at the head that is rebuilt and valid, and which the receiver keeps refusing with the
    -- answer of a parking rule, is parked when the run of that answer reaches the rule's limit: the
    -- attempts up to then all return, they write a history, and all behind it is still to be sent.
    pub parked_after_limit :
        (times : List String) (es : List Entry)
        → IsLog es
        → pending es ≡ i ∷ rest
        → run es < limit_of r
        → run es + length times ≡ limit_of r
        → (es' : List Entry) × (dispatch_rounds times (log es) ≡ ok (log es'))
          × IsLog es'
          × (pending es' ≡ rest)
    unfolding dispatch_rounds
    parked_after_limit [] es h front low count = absurd (omega arith)
    parked_after_limit (now ∷ []) es h front low count = (
      es ++ tried (dispatch_of now i (outcome es)) ∷ [],
      rw (dispatch_next-refused now es h front) refl,
      tried-IsLog es (dispatch_of now i (outcome es)) h,
      pending-parked now es h front ∙ ground arith,
    )
    parked_after_limit (now ∷ t ∷ ts) es h front low count =
        let d = dispatch_of now i (outcome es) in
        let more : run (es ++ tried d ∷ []) ≡ run es + 1 =
          trailing_run-tried es i.intent_id (str (answer_code r)) d refl
            (refused-error_code es (omega arith)) in
        let (es', ran, kept, done) =
          parked_after_limit (t ∷ ts) (es ++ tried d ∷ []) (tried-IsLog es d h)
            (pending-parked now es h front ∙ ground arith) (omega arith) (omega arith) in
        (es', rw (dispatch_next-refused now es h front) ran, kept, done)
