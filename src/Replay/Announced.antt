-- ===== src/Replay/Announced.antt =====
-- The event that a replay of src/trade_alerts/notice_replay.py writes for a request.
use trade_alerts.Base.{
  ◌≡◌, refl, sym, ap, ◌∙◌, true, false, none, List, [], ◌∷◌, ◌++◌, String, ◌==◌, select-append,
  append_assoc, eq_refl,
}
use trade_alerts.Result.{Result, ok, raised, bind-eq-ok, ok-injective}
use trade_alerts.Jsonl.{append_record}
use trade_alerts.Json.{Json, Fields, get, is_text, truthy, update_fields}
use trade_alerts.Json.Puts.{get-put, get-put-other}
use trade_alerts.EventLog.{LogError, EventFile, is_one_of, append_fleet_event, read_fleet_events}
use trade_alerts.EventLog.Appending.{append_fleet_event-IsEvent, read_fleet_events-append}
use trade_alerts.EventLog.Kept.{IsKept, append_fleet_event-IsKept, taken}
use trade_alerts.Requests.Checks.{dict_or_empty}
use trade_alerts.Replay.Replaying.{
  ReplayArgs, from_log, from_queue, events_for, announced_id, ids_of, announced_request_ids, id_of,
  marks, event_args, announce,
}

pub from_log-eq-ok : {A : Type 0} (m : Result LogError A) {x : A} → from_log m ≡ ok x → m ≡ ok x
from_log-eq-ok (ok y) h = ap ok (ok-injective h)
from_log-eq-ok (raised e) h = cc

module _ (print : Json → String) where
  ids_of-append :
      (es fs : List Fields) → ids_of print (es ++ fs) ≡ ids_of print es ++ ids_of print fs
  unfolding ids_of
  ids_of-append [] fs = refl
  ids_of-append (e ∷ es) fs =
      ap (λ ss. announced_id print e ++ ss) (ids_of-append es fs)
      ∙ sym (append_assoc (announced_id print e) (ids_of print es) (ids_of print fs))

  module _ (a : ReplayArgs) where
    unfoldable pub ids : List Fields → List String
    ids es = announced_request_ids print a.project (a.code ∷ []) es

    pub ids-append : (es fs : List Fields) → ids (es ++ fs) ≡ ids es ++ ids fs
    unfolding ids announced_request_ids events_for
    ids-append es fs = rw select-append (ids_of-append _ _)

    request_id-marks :
        (r ds : Fields)
        → get "request_id" (update_fields ds (marks print a r)) ≡ Json.str (id_of print a r)
    unfolding update_fields
    request_id-marks r ds =
        get-put-other "request_id" "notice_text" (a.notice_text r) _ refl
        ∙ get-put-other "request_id" "replayed" (Json.bool true) _ refl
        ∙ get-put "request_id" (Json.str (id_of print a r)) ds

    ids-told :
        (r evidence details e : Fields)
        → (id_of print a r == "") ≡ false
        → IsKept (event_args print a r evidence details) e
        → ids (e ∷ []) ≡ id_of print a r ∷ []
    unfolding ids announced_request_ids events_for ids_of is_text is_one_of truthy
    ids-told r evidence details e filled k =
        let kept = taken _ k.details k.taken_details in
        rw
          (
            k.same_project,
            eq_refl a.project,
            k.same_code,
            eq_refl a.code,
            k.same_details,
            sym kept,
            request_id-marks r (update_fields details a.extra_details),
            filled,
          )
          refl

    -- What one announcement does to the log.
    pub record IsAnnounced (r : Fields) (es : List Fields) (e : Fields) (f' : EventFile)
        : Type 0 where
      pub read : read_fleet_events f' ≡ ok (es ++ e ∷ [])
      pub whole : f'.torn ≡ none
      pub told : ids (e ∷ []) ≡ id_of print a r ∷ []

    pub announced :
        (fresh now : String) (r : Fields) (f : EventFile) {es : List Fields} {e : Fields}
        {f' : EventFile}
        → (id_of print a r == "") ≡ false
        → f.torn ≡ none
        → read_fleet_events f ≡ ok es
        → announce print a fresh now r f ≡ ok (e, f')
        → IsAnnounced r es e f'
    unfolding announce append_record
    announced fresh now r f {es} {e} {f'} filled whole read h =
        let (details, d, h1) = bind-eq-ok (from_queue (dict_or_empty (get "details" r))) _ h in
        let (evidence, ev, h2) = bind-eq-ok (from_queue (dict_or_empty (get "evidence" r))) _ h1 in
        let wrote =
          from_log-eq-ok
            (append_fleet_event true fresh now (event_args print a r evidence details) f) h2 in
        let (event, file) =
          append_fleet_event-IsEvent true fresh now (event_args print a r evidence details) f
            wrote in
        let k =
          append_fleet_event-IsKept true fresh now (event_args print a r evidence details) f f' e
            wrote in
        record {
          read =
              read_fleet_events-append true fresh now (event_args print a r evidence details) f
                whole read wrote;
          whole = rw file refl;
          told = ids-told r evidence details e filled k;
        }
