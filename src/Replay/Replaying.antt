-- ===== src/Replay/Replaying.antt =====
-- `events_for`, `announced_request_ids` and `replay_unannounced_requests` of
-- src/trade_alerts/notice_replay.py. `print` stands for `str` on a value that is not a text, and the
-- ids and times of the new events are functions of their number.
use trade_alerts.Base.{
  ℕ, suc, Bool, true, ◌&&◌, ◌||◌, not, Option, none, some, List, [], ◌∷◌, ◌++◌, String, ◌==◌, any,
  select, if◌then◌else◌,
}
use trade_alerts.Result.{Result, ok, raised, ◌>>=◌}
use trade_alerts.Json.{Json, Fields, end, field, get, is_text, truthy, update_fields}
use trade_alerts.EventLog.{
  LogError, EventFile, EventArgs, is_one_of, append_fleet_event, read_fleet_events,
}
use trade_alerts.SafeHalt.Latch.{mapping_or_empty}
use trade_alerts.Requests.Checks.{QueueError, dict_or_empty}
use trade_alerts.Requests.Reading.{key_text, outstanding_error_requests}

pub data ReplayError : Type 0 where
  in_log : LogError → ReplayError
  in_queue : QueueError → ReplayError

unfoldable pub events_for : String → List String → List Fields → List Fields
events_for project codes es =
    select (λ e. is_text project (get "project" e) && is_one_of codes (get "code" e)) es

module _ (print : Json → String) where
  -- str(v)
  abbrev pub text_of : Json → String
  text_of (Json.str s) = s
  text_of v = print v

  -- The id that an event announces, if there is one.
  abbrev pub announced_id : Fields → List String
  announced_id e =
      let v = get "request_id" (mapping_or_empty (get "details" e)) in
      if truthy v then text_of v ∷ [] else []

  unfoldable pub ids_of : List Fields → List String
  ids_of [] = []
  ids_of (e ∷ es) = announced_id e ++ ids_of es

  unfoldable pub announced_request_ids : String → List String → List Fields → List String
  announced_request_ids project codes es = ids_of (events_for project codes es)

-- What a replay leaves: the log, the events that were written, and the exception that ended it.
pub record Replayed : Type 0 where
  pub log : EventFile
  pub written : List Fields
  pub stopped : Option ReplayError

-- The arguments of replay_unannounced_requests; no extra details are an empty dict.
pub record ReplayArgs : Type 0 where
  pub project : String
  pub code : String
  pub risk_tier : String
  pub notice_text : Fields → Json
  pub extra_details : Fields

abbrev pub from_queue {ℓ} : {A : Type ℓ} → Result QueueError A → Result ReplayError A
from_queue (ok a) = ok a
from_queue (raised e) = raised (in_queue e)

abbrev pub from_log {ℓ} : {A : Type ℓ} → Result LogError A → Result ReplayError A
from_log (ok a) = ok a
from_log (raised e) = raised (in_log e)

module _ (print : Json → String) (a : ReplayArgs) where
  -- str(request.get("request_id") or "")
  abbrev pub id_of : Fields → String
  id_of r = key_text print (get "request_id" r)

  -- The two `continue` statements.
  unfoldable pub is_skipped : List String → Fields → Bool
  is_skipped announced r =
      not (is_text a.project (get "project" r))
      || not (is_text a.code (get "code" r))
      || id_of r == ""
      || any (λ s. s == id_of r) announced

  abbrev pub marks : Fields → Fields
  marks r =
      field "request_id" (Json.str (id_of r))
        (field "replayed" (Json.bool true) (field "notice_text" (a.notice_text r) end))

  abbrev pub event_args : Fields → Fields → Fields → EventArgs
  event_args r evidence details = record {
    project = Json.str a.project;
    code = Json.str a.code;
    summary = Json.str (key_text print (get "summary" r));
    risk_tier = Json.str a.risk_tier;
    evidence = Json.obj evidence;
    details = Json.obj (update_fields (update_fields details a.extra_details) (marks r));
    measurements = Json.null;
    recorded_at = Json.null;
    event_id = Json.null;
  }

  unfoldable pub announce :
      String → String → Fields → EventFile → Result ReplayError (Fields × EventFile)
  announce fresh now r f = do
    details ← from_queue (dict_or_empty (get "details" r))
    evidence ← from_queue (dict_or_empty (get "evidence" r))
    from_log (append_fleet_event true fresh now (event_args r evidence details) f)

  abbrev pub continue_with : Fields → Replayed → Replayed
  continue_with e more = record {
    log = more.log;
    written = e ∷ more.written;
    stopped = more.stopped;
  }

  -- an exception ends the loop; what was written before it stays
  abbrev pub go_on :
      EventFile
      → (Fields × EventFile → Replayed)
      → Result ReplayError (Fields × EventFile)
      → Replayed
  go_on f next (ok w) = next w
  go_on f next (raised e) = record { log = f; written = []; stopped = some e }

  -- The loop, from the event with number n.
  unfoldable pub replay_each :
      (ℕ → String) → (ℕ → String) → ℕ → List String → List Fields → EventFile → Replayed
  replay_each fresh now n announced [] f = record { log = f; written = []; stopped = none }
  replay_each fresh now n announced (r ∷ rs) f =
      let skipped = replay_each fresh now n announced rs f in
      let next : Fields × EventFile → Replayed =
        λ w. continue_with w.0 (replay_each fresh now (suc n) (id_of r ∷ announced) rs w.1) in
      if is_skipped announced r then skipped else go_on f next (announce (fresh n) (now n) r f)

  unfoldable pub replay_unannounced_requests :
      (ℕ → String) → (ℕ → String) → EventFile → EventFile → Result ReplayError Replayed
  replay_unannounced_requests fresh now queue f = do
    events ← from_log (read_fleet_events f)
    requests ← from_queue (outstanding_error_requests print queue)
    ok (
        replay_each fresh now 0 (announced_request_ids print a.project (a.code ∷ []) events)
          requests f)
