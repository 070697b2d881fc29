-- ===== src/Repair/Escalation.antt =====
-- What a failed attempt of src/trade_alerts/repair_runner.py leaves in the event log and in the queue.
use mathlib.Core.Path.{subst}
use trade_alerts.Base.{
  ℕ, ◌+◌, ◌≤◌, ◌<◌, ◌≡◌, refl, sym, ap, ◌∙◌, Bool, true, false, Option, some, none, List, [], ◌∷◌,
  ◌++◌, String, ltb, if◌then◌else◌, arith,
}
use trade_alerts.Result.{ok}
use trade_alerts.Json.{Json, Fields, end, field, get}
use trade_alerts.SafeHalt.Latch.{mapping_or_empty}
use trade_alerts.EventLog.{append_fleet_event, read_fleet_events}
use trade_alerts.EventLog.Appending.{read_fleet_events-append}
use trade_alerts.Requests.Queue.{OpenArgs, open_error_request}
use trade_alerts.Strings.{texts}
use trade_alerts.Repair.World.{
  Identity, World, Done, note, escalated, logged, queued, Clock, append_event, open_request,
}
use trade_alerts.Repair.Outcomes.{
  code_repair_failed, number, identity_fields, trade_fields, is_escalated,
  failures_since_last_escalation, event_args, open_args, failure_summary, report_failure,
  announce_escalation, escalated_details, is_true, escalate, first_failures, fail,
}
use trade_alerts.Repair.Events.{
  append_fleet_event-Carries, settled-eq-ok, logged-eq-ok, queued-eq-ok,
}
use trade_alerts.Repair.Counting.{
  escalated-details, request-details, counted_in, counted_in-snoc, Counted, report_failure-Counted,
}

module _ (clock : Clock) (project : String) where
  -- What the attempt that gives up leaves.
  pub record GaveUp (i : Identity) (events : List Fields) (w w' : World) : Type 0 where
    pub event : Fields
    pub request : Fields
    pub opening : OpenArgs
    pub logged_last : read_fleet_events w'.log ≡ ok (events ++ event ∷ [])
    pub flagged : is_escalated event ≡ true
    pub restarted : counted_in clock project i.trade_id (events ++ event ∷ []) ≡ 0
    pub about : opening.evidence ≡ Json.obj (trade_fields i)
    pub with_code : opening.code ≡ Json.str code_repair_failed
    pub opened :
        open_error_request clock.digest clock.print
          (clock.fresh w.written)
          (clock.now w.written)
          opening
          w.queue
        ≡ ok (request, w'.queue)
    pub points :
        get "request_id" (mapping_or_empty (get "details" event)) ≡ get "request_id" request

  announced-GaveUp :
      (tier : String) (limit : ℕ) (i : Identity) (reasons : List String) (extra : Fields)
      (attempt : ℕ) (summary : String) (events : List Fields) (w v : World) (request : Fields)
      (opening : OpenArgs)
      → v.log.torn ≡ none
      → read_fleet_events v.log ≡ ok events
      → opening.evidence ≡ Json.obj (trade_fields i)
      → opening.code ≡ Json.str code_repair_failed
      → open_error_request clock.digest clock.print
          (clock.fresh w.written)
          (clock.now w.written)
          opening
          w.queue
        ≡ ok (request, v.queue)
      → (announce_escalation clock project tier limit i reasons extra attempt summary request
          v).result
        ≡ ok tt
      → GaveUp i events w
          (announce_escalation clock project tier limit i reasons extra attempt summary request
            v).world
  unfolding announce_escalation append_event
  announced-GaveUp tier limit i reasons extra attempt summary events w v request opening whole read
        about code opened h =
      let details = escalated_details clock project limit i reasons extra attempt request in
      let args =
        event_args clock project code_repair_failed tier summary (identity_fields i) details in
      let d =
        logged v
          (append_fleet_event true (clock.fresh v.written) (clock.now v.written) args v.log) in
      let (e, came, after) =
        settled-eq-ok (λ e. note (escalated i reasons attempt (get "request_id" request))) d.world
          d.result h in
      let (log, wrote, same_log, same_queue) = logged-eq-ok v _ came in
      let carried =
        append_fleet_event-Carries clock project code_repair_failed tier summary (identity_fields i)
          details (clock.fresh v.written) (clock.now v.written) v.log log e wrote in
      let flag = escalated-details _ (get "request_id" request) _ in
      subst (λ x. GaveUp i events w x.world) (sym after)
        (record {
          event = e;
          request = request;
          opening = opening;
          logged_last =
              ap read_fleet_events same_log
              ∙ read_fleet_events-append true (clock.fresh v.written) (clock.now v.written) args
                  v.log whole read wrote;
          flagged =
              ap (λ x. is_true (get "escalated" (mapping_or_empty x))) carried.with_details
              ∙ ap is_true flag;
          restarted = counted_in-snoc clock project i events details e true carried flag;
          about = about;
          with_code = code;
          opened = opened ∙ ap (λ f. ok (request, f)) (sym same_queue);
          points =
              ap (λ x. get "request_id" (mapping_or_empty x)) carried.with_details
              ∙ request-details _ (get "request_id" request) _;
        })

  escalate-GaveUp :
      (tier : String) (limit : ℕ) (i : Identity) (reasons : List String) (extra : Fields)
      (attempt : ℕ) (summary : String) (events : List Fields) (w : World)
      → w.log.torn ≡ none
      → read_fleet_events w.log ≡ ok events
      → (escalate clock project tier limit i reasons extra attempt summary w).result ≡ ok tt
      → GaveUp i events w
          (escalate clock project tier limit i reasons extra attempt summary w).world
  unfolding escalate append_event open_request
  escalate-GaveUp tier limit i reasons extra attempt summary events w whole read h =
      let opening =
        open_args clock project code_repair_failed tier summary (trade_fields i)
          (field "reasons" (texts reasons) (field "attempts" (number attempt) end)) in
      let q = queued w (
        open_error_request clock.digest clock.print (clock.fresh w.written) (clock.now w.written)
          opening w.queue) in
      let next = announce_escalation clock project tier limit i reasons extra attempt summary in
      let (r, came, after) = settled-eq-ok next q.world q.result h in
      let (queue, opened, same_queue, same_log) = queued-eq-ok w _ came in
      subst (λ x. GaveUp i events w x.world) (sym after)
        (announced-GaveUp tier limit i reasons extra attempt summary events w q.world r opening
          (ap (λ f. f.torn) same_log ∙ whole) (ap read_fleet_events same_log ∙ read) refl refl
          (opened ∙ ap (λ f. ok (r, f)) (sym same_queue)) (sym (ap (λ x. x.result) after) ∙ h))

  -- What a failed attempt leaves, by whether a request is open and how many attempts failed before.
  pub data FailedOnce (limit : ℕ) (i : Identity) (events : List Fields) (w : World)
      : Option Fields → World → Type 0 where
    silent :
        {request : Fields} {w' : World}
        → w'.log ≡ w.log
        → w'.queue ≡ w.queue
        → FailedOnce limit i events w (some request) w'
    reported :
        {w' : World}
        → counted_in clock project i.trade_id events + 1 < limit
        → Counted clock project i events w w'
        → FailedOnce limit i events w none w'
    gave_up :
        {w' : World}
        → limit ≤ counted_in clock project i.trade_id events + 1
        → GaveUp i events w w'
        → FailedOnce limit i events w none w'

  below : (m n : ℕ) → ltb m n ≡ true → m < n
  below m n h = ground arith

  reached : (m n : ℕ) → ltb m n ≡ false → n ≤ m
  reached m n h = ground arith

  first_failures-FailedOnce :
      (tier : String) (limit : ℕ) (fleet_events : List Fields) (i : Identity)
      (reasons : List String) (extra : Fields) (events : List Fields) (w : World)
      → w.log.torn ≡ none
      → read_fleet_events w.log ≡ ok events
      → failures_since_last_escalation fleet_events i.trade_id
        ≡ counted_in clock project i.trade_id events
      → (first_failures clock project tier limit fleet_events i reasons extra w).result ≡ ok tt
      → FailedOnce limit i events w none
          (first_failures clock project tier limit fleet_events i reasons extra w).world
  unfolding first_failures
  first_failures-FailedOnce tier limit fleet_events i [] extra events w whole read count h = cc
  first_failures-FailedOnce tier limit fleet_events i (r ∷ rs) extra events w whole read count h =
      decide (ltb attempt limit) refl h
    where
      attempt : ℕ
      attempt = failures_since_last_escalation fleet_events i.trade_id + 1

      summary : String
      summary = failure_summary clock project i.trade_id attempt r

      low : counted_in clock project i.trade_id events + 1 ≡ attempt
      low = ap (λ n. n + 1) (sym count)

      taken : Bool → Done (Unit {0})
      taken b =
          (if b
              then report_failure clock project tier limit i (r ∷ rs) extra attempt summary
              else escalate clock project tier limit i (r ∷ rs) extra attempt summary)
            w

      decide :
          (b : Bool)
          → ltb attempt limit ≡ b
          → (taken b).result ≡ ok tt
          → FailedOnce limit i events w none (taken b).world
      decide true e k = reported (subst (λ n. n < limit) (sym low) (below attempt limit e)) (
          report_failure-Counted clock project tier limit i (r ∷ rs) extra attempt summary events w
            whole read k)
      decide false e k =
          gave_up (subst (λ n. limit ≤ n) (sym low) (reached attempt limit e))
            (escalate-GaveUp tier limit i (r ∷ rs) extra attempt summary events w whole read k)

  -- A failed attempt that returns, on an event log that can be read and ends in a whole line, with the
  -- failures counted as the log has them. While a request is open for the trade it writes nothing.
  -- Otherwise, below the limit, it adds one event, with which the log counts one failure more, and leaves
  -- the queue alone; at the limit it calls the queue for a request about the trade and adds one event that
  -- is marked as escalated and points to it, with which the log counts no failure.
  pub fail-FailedOnce :
      (tier : String) (limit : ℕ) (fleet_events : List Fields) (i : Identity)
      (reasons : List String) (extra : Fields) (request : Option Fields) (events : List Fields)
      (w : World)
      → w.log.torn ≡ none
      → read_fleet_events w.log ≡ ok events
      → failures_since_last_escalation fleet_events i.trade_id
        ≡ counted_in clock project i.trade_id events
      → (fail clock project tier limit fleet_events i reasons extra request w).result ≡ ok tt
      → FailedOnce limit i events w request
          (fail clock project tier limit fleet_events i reasons extra request w).world
  unfolding fail
  fail-FailedOnce tier limit fleet_events i reasons extra (some request) events w whole read count
        h =
      silent refl refl
  fail-FailedOnce tier limit fleet_events i reasons extra none events w whole read count h =
      first_failures-FailedOnce tier limit fleet_events i reasons extra events w whole read count h
