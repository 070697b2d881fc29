-- ===== src/EventLog/Kept.antt =====
-- The arguments of `append_fleet_event` of src/trade_alerts/fleet_event_log.py in the event it writes.
use mathlib.Core.Path.{subst}
use trade_alerts.Base.{◌≡◌, sym, ap, ◌∙◌, Bool, not, String, arith}
use trade_alerts.Result.{ok, raise_if-eq-ok, bind-eq-ok, ok-injective}
use trade_alerts.Json.{Json, Fields, get, find, obj}
use trade_alerts.EventLog.{
  unknown_project, EventFile, EventArgs, projects, is_one_of, require_project, require_bare_code,
  require_risk_tier, require_mapping, append_jsonl, event_fields, append_fleet_event,
}

require_project-same : (v p : Json) → require_project v ≡ ok p → v ≡ p
unfolding require_project
require_project-same v p h =
    ok-injective ((raise_if-eq-ok (not (is_one_of projects v)) unknown_project (ok v) h).1)

require_bare_code-same : (v c : Json) → require_bare_code v ≡ ok c → v ≡ c
unfolding require_bare_code
require_bare_code-same v c h = ground arith

-- The event has the project, the code, the evidence and the details of the call.
pub record IsKept (a : EventArgs) (e : Fields) : Type 0 where
  pub evidence : Fields
  pub details : Fields
  pub same_project : get "project" e ≡ a.project
  pub same_code : get "code" e ≡ a.code
  pub taken_evidence : require_mapping a.evidence ≡ ok evidence
  pub same_evidence : get "evidence" e ≡ obj evidence
  pub taken_details : require_mapping a.details ≡ ok details
  pub same_details : get "details" e ≡ obj details

event_fields-IsKept :
    (fresh now : String) (a : EventArgs) (e : Fields) → event_fields fresh now a ≡ ok e → IsKept a e
unfolding event_fields get find
event_fields-IsKept fresh now a e h =
    let (p, came, h1) = bind-eq-ok (require_project a.project) _ h in
    let (c, came1, h2) = bind-eq-ok (require_bare_code a.code) _ h1 in
    let (t, came2, h3) = bind-eq-ok (require_risk_tier a.risk_tier) _ h2 in
    let (evidence, came3, h4) = bind-eq-ok (require_mapping a.evidence) _ h3 in
    let (details, came4, h5) = bind-eq-ok (require_mapping a.details) _ h4 in
    let (measurements, came5, h6) = bind-eq-ok (require_mapping a.measurements) _ h5 in
    let same = sym (ok-injective h6) in
    record {
      evidence = evidence;
      details = details;
      same_project = ap (get "project") same ∙ sym (require_project-same a.project p came);
      same_code = ap (get "code") same ∙ sym (require_bare_code-same a.code c came1);
      taken_evidence = came3;
      same_evidence = ap (get "evidence") same;
      taken_details = came4;
      same_details = ap (get "details") same;
    }

pub append_fleet_event-IsKept :
    (locked : Bool) (fresh now : String) (a : EventArgs) (f f' : EventFile) (e : Fields)
    → append_fleet_event locked fresh now a f ≡ ok (e, f')
    → IsKept a e
unfolding append_fleet_event
append_fleet_event-IsKept locked fresh now a f f' e h =
    let (x, made, h1) = bind-eq-ok (event_fields fresh now a) _ h in
    let (g, wrote, last) = bind-eq-ok (append_jsonl locked x f) _ h1 in
    subst (IsKept a) (ap (λ w. w.0) (ok-injective last)) (event_fields-IsKept fresh now a x made)

pub taken : (fs gs : Fields) → require_mapping (obj fs) ≡ ok gs → fs ≡ gs
unfolding require_mapping
taken fs gs h = ok-injective h
