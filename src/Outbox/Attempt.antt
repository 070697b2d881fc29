-- ===== src/Outbox/Attempt.antt =====
-- What `_dispatch_next_locked` of src/trade_alerts/projection_outbox.py does to a history.
use trade_alerts.Base.{
  ℕ, ◌+◌, ◌≡◌, refl, ap, ◌∙◌, Bool, true, false, none, some, List, [], ◌∷◌, ◌++◌, map, String,
  if◌then◌else◌, arith, leb, inl, inr, ◌⊎◌,
}
use trade_alerts.Result.{Result, ok, raised, ◌>>=◌}
use trade_alerts.Jsonl.{File}
use trade_alerts.Outbox.Cells.{Cell, str, cell_eq}
use trade_alerts.Outbox.Records.{Provenance, Intent, Dispatch, Record, OutboxError, is_terminal}
use trade_alerts.Outbox.Queue.{outstanding_projection_intents}
use trade_alerts.Outbox.Dispatch.{
  Outcome, Rebuilt, Payload, RebuildEnd, rebuilt, ledger_unreadable, rebuild_failed, SubmitEnd,
  answered, submit_failed, DispatchResult, Dispatched, is_status, is_receiver_row, is_error_code,
  dispatch_of, record_projection_dispatch, validate_rebuilt, count_answers, consecutive_answers,
  park_after, park, outcome_of, rejected_with, report, submit_rebuilt, reject_rebuild, attempt,
  dispatch_next,
}
use trade_alerts.Outbox.Log.{
  Entry, tried, record_of, log, pending, IsLog, outstanding-log, read_outbox-log, tried-IsLog,
}
use trade_alerts.Outbox.Enqueue.{append-log}
use trade_alerts.Outbox.Head.{pending-tried}

-- `record_projection_dispatch` takes it.
pub record IsRecordable (o : Outcome) : Type 0 where
  pub status : is_status o.status ≡ true
  pub receiver_row : is_receiver_row o.receiver_row ≡ true
  pub error_code : is_error_code o.error_code ≡ true

pub record_projection_dispatch-log :
    (now : String) (i : Intent) (o : Outcome) (es : List Entry)
    → IsRecordable o
    → record_projection_dispatch now i o (log es)
      ≡ ok (dispatch_of now i o, log (es ++ tried (dispatch_of now i o) ∷ []))
unfolding record_projection_dispatch record_of
record_projection_dispatch-log now i o es h =
    rw (h.status, h.receiver_row, h.error_code)
      (ap (λ f. ok (dispatch_of now i o, f)) (append-log (tried (dispatch_of now i o)) es))

-- An answer that the callback may give: its row and its code can be recorded.
abbrev pub IsAnswer : SubmitEnd → Type 0
IsAnswer (answered o) =
    (is_receiver_row o.receiver_row ≡ true) × (is_error_code o.error_code ≡ true)
IsAnswer submit_failed = Unit

outcome_of-IsRecordable : (s : SubmitEnd) → IsAnswer s → IsRecordable (outcome_of s)
unfolding outcome_of is_status is_receiver_row is_error_code cell_eq
outcome_of-IsRecordable (answered o) h = ground arith
outcome_of-IsRecordable submit_failed h = record {
  status = refl;
  receiver_row = refl;
  error_code = refl;
}

pub rejected_with-IsRecordable :
    (code : String) → is_error_code (str code) ≡ true → IsRecordable (rejected_with code)
unfolding is_status is_receiver_row cell_eq
rejected_with-IsRecordable code h = record { status = refl; receiver_row = refl; error_code = h }

pub consecutive_answers-log :
    (es : List Entry) (id : Cell) (code : String)
    → consecutive_answers (log es) id code ≡ ok (count_answers id code 0 (map record_of es))
unfolding consecutive_answers
consecutive_answers-log es id code = rw read_outbox-log

-- An outcome comes back, and it can be recorded.
data Parks : Result OutboxError Outcome → Type 0 where
  parks : {o : Outcome} → IsRecordable o → Parks (ok o)

Parks-if :
    (b : Bool) {m n : Result OutboxError Outcome} → Parks m → Parks n → Parks (if b then m else n)
Parks-if true hm hn = hm
Parks-if false hm hn = hn

pub IsRecordable-if :
    (b : Bool) (o p : Outcome) → IsRecordable o → IsRecordable p → IsRecordable (if b then o else p)
IsRecordable-if true o p ho hp = ho
IsRecordable-if false o p ho hp = hp

module _ (es : List Entry) (i : Intent) (o : Outcome) (h : IsRecordable o) where
  park_after-Parks :
      (code : String) (limit : ℕ) (parked : String)
      → is_error_code (str parked) ≡ true
      → Parks (park_after (log es) i code limit parked o)
  unfolding park_after
  park_after-Parks code limit parked c = rw consecutive_answers-log (
      parks (
        IsRecordable-if (leb limit (count_answers i.intent_id code 0 (map record_of es) + 1))
          (rejected_with parked) o (rejected_with-IsRecordable parked c) h))

  park-Parks : Parks (park (log es) i o)
  unfolding park is_error_code
  park-Parks =
      Parks-if _ (park_after-Parks "trade_id_not_found" 12 "orphan_close_no_open_row" refl) (
        Parks-if _ (park_after-Parks "trade_id_conflict" 3 "trade_id_conflict_parked" refl) (
          Parks-if _
            (park_after-Parks "close_not_confirmed" 12 "correction_close_not_confirmed" refl)
            (parks h)))

module _ (es : List Entry) (i : Intent) (rest : List Intent) where
  -- The ledger could not be read: nothing is written.
  abbrev pub Paused : DispatchResult × File Record → Type 0
  Paused (r, f) = (r.dispatch ≡ none) × (f ≡ log es)

  -- One answer of this intent is written, and the intent stays in front unless it is terminal.
  abbrev pub Recorded : DispatchResult × File Record → Type 0
  Recorded (r, f) =
      (d : Dispatch) × (r.dispatch ≡ some d)
      × (d.intent_id ≡ i.intent_id)
      × (f ≡ log (es ++ tried d ∷ []))
      × IsLog (es ++ tried d ∷ [])
      × (outstanding_projection_intents f ≡ ok (if is_terminal d.status then rest else i ∷ rest))

  abbrev pub Attempted : Dispatched → Type 0
  Attempted (raised e) = ⊥
  Attempted (ok (r, f)) = (r.intent ≡ some i) × (Paused (r, f) ⊎ Recorded (r, f))

  module _ (h : IsLog es) (front : pending es ≡ i ∷ rest) where
    report-Attempted :
        (now : String) (o : Outcome)
        → IsRecordable o
        → Attempted (report i (record_projection_dispatch now i o (log es)))
    report-Attempted now o k =
        let d = dispatch_of now i o in
        let kept : IsLog (es ++ tried d ∷ []) = tried-IsLog es d h in
        rw (record_projection_dispatch-log now i o es k) (
          refl,
          inr (
            d,
            refl,
            refl,
            refl,
            kept,
            outstanding-log (es ++ tried d ∷ []) kept ∙ ap ok (pending-tried es d h front refl),
          ),
        )

    module _ (rebuild : Intent → RebuildEnd) (submit : Payload → Provenance → SubmitEnd)
        (now : String) (answers : (p : Payload) (q : Provenance) → IsAnswer (submit p q)) where
      parked-Attempted :
          {r : Result OutboxError Outcome}
          → Parks r
          → Attempted (do o ← r; report i (record_projection_dispatch now i o (log es)))
      parked-Attempted (parks {o} k) = report-Attempted now o k

      submit_rebuilt-Attempted :
          (r : Rebuilt) → Attempted (submit_rebuilt rebuild submit now i r (log es))
      unfolding submit_rebuilt
      submit_rebuilt-Attempted r = parked-Attempted (
          park-Parks es i (outcome_of (submit r.payload r.provenance)) (
            outcome_of-IsRecordable (submit r.payload r.provenance)
              (answers r.payload r.provenance)))

      reject_rebuild-Attempted : Attempted (reject_rebuild rebuild submit now i (log es))
      unfolding reject_rebuild is_error_code
      reject_rebuild-Attempted =
          report-Attempted now (rejected_with "rehydration_invalid")
            (rejected_with-IsRecordable "rehydration_invalid" refl)

      attempt-Attempted : (end : RebuildEnd) → Attempted (attempt rebuild submit now i end (log es))
      unfolding attempt
      attempt-Attempted (ledger_unreadable why) = (refl, inl (refl, refl))
      attempt-Attempted rebuild_failed = reject_rebuild-Attempted
      attempt-Attempted (rebuilt r) = validated (validate_rebuilt i r)
        where
          validated :
              (v : Result OutboxError (Unit {0}))
              → Attempted (elim v [
                | ok _ ↦ submit_rebuilt rebuild submit now i r (log es)
                | raised _ ↦ reject_rebuild rebuild submit now i (log es)
              ])
          validated (ok _) = submit_rebuilt-Attempted r
          validated (raised _) = reject_rebuild-Attempted

      -- With work in the queue an attempt pauses and writes nothing, or writes one answer of the
      -- oldest outstanding intent, which leaves the queue exactly if the answer is terminal; no other
      -- intent is touched, and the call does not raise, if the callback's answers can be recorded.
      pub dispatch_next-Attempted : Attempted (dispatch_next rebuild submit now (log es))
      unfolding dispatch_next
      dispatch_next-Attempted = rw (outstanding-log es h, front) (attempt-Attempted (rebuild i))
