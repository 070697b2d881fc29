-- ===== src/Repair/Counting.antt =====
-- What a failed attempt of src/trade_alerts/repair_runner.py adds to the count of the failures.
use mathlib.Core.Path.{subst}
use trade_alerts.Base.{
  ℕ, ◌+◌, ◌≡◌, refl, sym, ap, ◌∙◌, Bool, true, false, none, List, [], ◌∷◌, ◌++◌, String, eq_refl,
  select, select-append, if◌then◌else◌,
}
use trade_alerts.Result.{ok}
use trade_alerts.Json.{Json, Fields, end, field, get, is_text, update_fields}
use trade_alerts.Json.Puts.{get-put, get-put-other}
use trade_alerts.EventLog.{append_fleet_event, read_fleet_events}
use trade_alerts.EventLog.Appending.{read_fleet_events-append}
use trade_alerts.Repair.World.{Identity, World, note, failed, logged, Clock, append_event}
use trade_alerts.Repair.Outcomes.{
  code_repair_failed, identity_fields, count_failures, failures_since_last_escalation, event_args,
  failure_details, report_failure,
}
use trade_alerts.Repair.Events.{
  Carries, append_fleet_event-Carries, settled-eq-ok, logged-eq-ok, is_ours, count_failures-snoc,
  failure-Carries,
}

-- The flag in the details of an event.
plain-details :
    (reasons : List String) (attempt limit : ℕ) (extra : Fields)
    → get "escalated" (update_fields extra (failure_details reasons attempt limit false))
      ≡ Json.bool false
unfolding update_fields
plain-details reasons attempt limit extra = get-put "escalated" (Json.bool false) _

pub escalated-details :
    (details : Fields) (request_id text : Json)
    → get "escalated" (
        update_fields details (
          field "escalated"
            (Json.bool true)
            (field "request_id" request_id (field "notice_text" text end))))
      ≡ Json.bool true
unfolding update_fields
escalated-details details request_id text =
    get-put-other "escalated" "notice_text" text _ refl
    ∙ get-put-other "escalated" "request_id" request_id _ refl
    ∙ get-put "escalated" (Json.bool true) details

pub request-details :
    (details : Fields) (request_id text : Json)
    → get "request_id" (
        update_fields details (
          field "escalated"
            (Json.bool true)
            (field "request_id" request_id (field "notice_text" text end))))
      ≡ request_id
unfolding update_fields
request-details details request_id text =
    get-put-other "request_id" "notice_text" text _ refl ∙ get-put "request_id" request_id _

module _ (clock : Clock) (project : String) where
  -- The failures of a trade in a log, as the next round will count them.
  abbrev pub counted_in : String → List Fields → ℕ
  counted_in t events = failures_since_last_escalation (select (is_ours project) events) t

  pub counted_in-snoc :
      (i : Identity) (events : List Fields) (details e : Fields) (b : Bool)
      → Carries project code_repair_failed (identity_fields i) details e
      → get "escalated" details ≡ Json.bool b
      → counted_in i.trade_id (events ++ e ∷ [])
        ≡ (if b then 0 else counted_in i.trade_id events + 1)
  unfolding is_text
  counted_in-snoc i events details e b c flag =
      ap (count_failures i.trade_id 0) (
        select-append (is_ours project) events (e ∷ [])
        ∙ ap (λ x. select (is_ours project) events ++ x) (rw (c.in_project, eq_refl project) refl))
      ∙ count_failures-snoc i.trade_id 0 (select (is_ours project) events) e
          (failure-Carries project i details e c)
      ∙ rw (c.with_details, flag) refl

  -- What an attempt that is not the last one leaves.
  pub record Counted (i : Identity) (events : List Fields) (w w' : World) : Type 0 where
    pub event : Fields
    pub logged_last : read_fleet_events w'.log ≡ ok (events ++ event ∷ [])
    pub one_more : counted_in i.trade_id (events ++ event ∷ []) ≡ counted_in i.trade_id events + 1
    pub queue_same : w'.queue ≡ w.queue

  pub report_failure-Counted :
      (tier : String) (limit : ℕ) (i : Identity) (reasons : List String) (extra : Fields)
      (attempt : ℕ) (summary : String) (events : List Fields) (w : World)
      → w.log.torn ≡ none
      → read_fleet_events w.log ≡ ok events
      → (report_failure clock project tier limit i reasons extra attempt summary w).result ≡ ok tt
      → Counted i events w
          (report_failure clock project tier limit i reasons extra attempt summary w).world
  unfolding report_failure append_event
  report_failure-Counted tier limit i reasons extra attempt summary events w whole read h =
      let args =
        event_args clock project code_repair_failed tier summary (identity_fields i)
          (update_fields extra (failure_details reasons attempt limit false)) in
      let d =
        logged w
          (append_fleet_event true (clock.fresh w.written) (clock.now w.written) args w.log) in
      let (e, came, after) =
        settled-eq-ok (λ e. note (failed i reasons attempt)) d.world d.result h in
      let (log, wrote, same_log, same_queue) = logged-eq-ok w _ came in
      let carried =
        append_fleet_event-Carries clock project code_repair_failed tier summary (identity_fields i)
          (update_fields extra (failure_details reasons attempt limit false))
          (clock.fresh w.written) (clock.now w.written) w.log log e wrote in
      subst (λ x. Counted i events w x.world) (sym after)
        (record {
          event = e;
          logged_last =
              ap read_fleet_events same_log
              ∙ read_fleet_events-append true (clock.fresh w.written) (clock.now w.written) args
                  w.log whole read wrote;
          one_more =
              counted_in-snoc i events _ e false carried
                (plain-details reasons attempt limit extra);
          queue_same = same_queue;
        })
