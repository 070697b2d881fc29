-- ===== src/Replay/Once.antt =====
-- A replay of src/trade_alerts/notice_replay.py announces each request once.
use mathlib.Core.Path.{subst}
use trade_alerts.Base.{
  ℕ, ◌≡◌, refl, ap, ◌∙◌, Bool, true, ◌&&◌, not, select, none, List, [], ◌∷◌, String, ◌==◌, any, all,
  arith,
}
use trade_alerts.Result.{Result, ok, raised, bind-eq-ok, ok-injective}
use trade_alerts.Json.{Json, Fields, get, is_text}
use trade_alerts.EventLog.{EventFile, read_fleet_events}
use trade_alerts.Requests.Checks.{QueueError}
use trade_alerts.Requests.Reading.{outstanding_error_requests}
use trade_alerts.Replay.Replaying.{
  Replayed, ReplayArgs, from_log, from_queue, announced_request_ids, id_of, is_skipped,
  replay_unannounced_requests,
}
use trade_alerts.Replay.Announced.{from_log-eq-ok, ids}
use trade_alerts.Replay.Loop.{SameIds, replay_each-IsReplayed, replay_each-skipped}

from_queue-eq-ok : {A : Type 0} (m : Result QueueError A) {x : A} → from_queue m ≡ ok x → m ≡ ok x
from_queue-eq-ok (ok y) h = ap ok (ok-injective h)
from_queue-eq-ok (raised e) h = cc

module _ (print : Json → String) where
  module _ (a : ReplayArgs) where
    nothing_left :
        (fresh now : ℕ → String) (queue g : EventFile) {rs events : List Fields}
        → read_fleet_events g ≡ ok events
        → from_queue (outstanding_error_requests print queue) ≡ ok rs
        → all (is_skipped print a (ids print a events)) rs ≡ true
        → replay_unannounced_requests print a fresh now queue g
          ≡ ok (record { log = g; written = []; stopped = none })
    unfolding replay_unannounced_requests ids
    nothing_left fresh now queue g {rs} {events} read requests told =
        rw (read, requests)
          (ap ok (replay_each-skipped print a fresh now 0 (ids print a events) rs g told))

    -- The requests of the project and the code that have an id.
    abbrev pub concerns : Fields → Bool
    concerns r =
        is_text a.project (get "project" r)
        && is_text a.code (get "code" r)
        && not (id_of print a r == "")

    told-announced :
        (A : List String) (rs : List Fields)
        → all (is_skipped print a A) rs ≡ true
        → all (λ r. any (λ s. s == id_of print a r) A) (select concerns rs) ≡ true
    unfolding is_skipped
    told-announced A [] h = refl
    told-announced A (r ∷ rs) h = ground (arith, told-announced A rs (ground arith))

    -- What a replay leaves in the log for the requests of a queue.
    pub record Announced (queue log : EventFile) : Type 0 where
      pub requests : List Fields
      pub events : List Fields
      pub listed : outstanding_error_requests print queue ≡ ok requests
      pub read : read_fleet_events log ≡ ok events
      pub announced :
          all
            (λ r.
              any
                (λ s. s == id_of print a r)
                (announced_request_ids print a.project (a.code ∷ []) events))
            (select concerns requests)
          ≡ true

    -- After a replay that no exception ended, on a log that ended in a whole line, each open request of
    -- the project and the code that has an id is announced: some event of the log for this project and
    -- this code carries its id. A replay of the same open requests, with whatever new ids and times,
    -- then writes nothing.
    pub replay_once :
        (fresh now fresh' now' : ℕ → String) (queue f : EventFile) {st : Replayed}
        → f.torn ≡ none
        → replay_unannounced_requests print a fresh now queue f ≡ ok st
        → st.stopped ≡ none
        → Announced queue st.log
          × (replay_unannounced_requests print a fresh' now' queue st.log
              ≡ ok (record { log = st.log; written = []; stopped = none }))
    unfolding replay_unannounced_requests SameIds ids
    replay_once fresh now fresh' now' queue f {st} whole h done =
        let (es, read, h1) = bind-eq-ok (from_log (read_fleet_events f)) _ h in
        let (rs, requests, h2) =
          bind-eq-ok (from_queue (outstanding_error_requests print queue)) _ h1 in
        let same = ok-injective h2 in
        let k =
          replay_each-IsReplayed print a fresh now 0 (ids print a es) rs f es whole
            (from_log-eq-ok (read_fleet_events f) read) (λ i. refl)
            (ap (λ x. x.stopped) same ∙ done) in
        subst
          (λ x.
            Announced queue x.log
            × (replay_unannounced_requests print a fresh' now' queue x.log
                ≡ ok (record { log = x.log; written = []; stopped = none })))
          same
          (
            record {
              requests = rs;
              events = k.events;
              listed = from_queue-eq-ok (outstanding_error_requests print queue) requests;
              read = k.read;
              announced = told-announced (ids print a k.events) rs k.told;
            },
            nothing_left fresh' now' queue _ k.read requests k.told,
          )
